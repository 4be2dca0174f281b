-- ===== src/Rtmp/RoundTrip.antt =====
-- From rtmp_chunker through the connection to rtmp_dechunker_receive.
use re.Platform.{Platform}
use re.Mbuf.{Mbuf}
use re.Rtmp.Dechunker.{Dechunker, Message}
