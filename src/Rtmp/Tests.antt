-- ===== src/Rtmp/Tests.antt =====
-- A message of five bytes in chunks of two, and the theorems applied to it.
use re.Base.{◌≡◌, refl, arith, true, false, some, none, [], ◌∷◌, ◌++◌, replicate, Bytes}
use re.Machine.{machine}
use re.Mbuf.{Mbuf, set_pos}
use re.Mbuf.Valid.{IsValid}
use re.Mbuf.Outcome.{Wrote-fits}
use re.Mbuf.Tests.{blank, blank_zero, eighty_bytes}
use re.Mbuf.Read.{Holds}
use re.Rtmp.Header.{RtmpHeader, header_encode, header_decode}
use re.Rtmp.Header.Wire.{IsRtmpHeader, header_wire, header_encode_lem}
use re.Rtmp.Header.RoundTrip.{header_decode-header_encode}
use re.Rtmp.Chunker.{message_header}
use re.Rtmp.Dechunker.{Dechunker, dechunker_receive}
use re.Rtmp.Dechunker.Streams.{CanOpen, CanOpen-nil}
use re.Rtmp.Dechunker.Empty.{empty_message_lost}

abbrev room : Mbuf
room = record { buf = some (replicate 32 0); size = 32; pos = 0; end = 0 }

room-IsValid : IsValid room
room-IsValid = record {
  block_length = refl;
  pos_le = omega arith;
  end_le = omega arith;
  small = omega arith;
}

-- A header of format 1 with an extended timestamp.
abbrev late : RtmpHeader
late = record {
  format = 1;
  chunk_id = 400;
  timestamp = 0;
  timestamp_delta = 20000000;
  timestamp_ext = 0;
  length = 77;
  type_id = 9;
  stream_id = 0;
  ext_ts = false;
}

late-IsRtmpHeader : IsRtmpHeader late
late-IsRtmpHeader = record {
  format_lt = omega arith;
  id_ge = omega arith;
  id_lt = omega arith;
  timestamp_lt = omega arith;
  delta_lt = omega arith;
  ext_lt = omega arith;
  length_lt = omega arith;
  type_lt = omega arith;
  stream_lt = omega arith;
}

late_written : (header_encode machine room late).0 ≡ 0
late_written =
    Wrote-fits room _ _ (header_encode_lem machine late room room-IsValid late-IsRtmpHeader).0
      (omega arith)

header_decode-header_encode_example :
    let back = set_pos (header_encode machine room late).2 0 in
    ((header_decode machine back).0 ≡ 0)
    × ((header_decode machine back).1 ≡ record late { ext_ts = true })
    × Holds (header_decode machine back).2 []
header_decode-header_encode_example =
    header_decode-header_encode machine room late room-IsValid late-IsRtmpHeader late_written

abbrev five : Bytes
five = 1 ∷ 2 ∷ 3 ∷ 4 ∷ 5 ∷ []

abbrev audio : RtmpHeader
audio = message_header machine 0 3 40 0 8 1 five

abbrev new_dechunker : Dechunker
new_dechunker = record { chunkl = []; chunk_sz = 2 }

can_open : CanOpen machine [] 3
can_open = CanOpen-nil machine 3 (replicate 80 0) eighty_bytes

abbrev no_bytes : RtmpHeader
no_bytes = message_header machine 0 3 40 0 8 1 []

no_bytes-IsRtmpHeader : IsRtmpHeader no_bytes
no_bytes-IsRtmpHeader = record {
  format_lt = omega arith;
  id_ge = omega arith;
  id_lt = omega arith;
  timestamp_lt = omega arith;
  delta_lt = omega arith;
  ext_lt = omega arith;
  length_lt = omega arith;
  type_lt = omega arith;
  stream_lt = omega arith;
}

abbrev no_bytes_arrived : Mbuf
no_bytes_arrived = record {
  buf = some (header_wire machine no_bytes);
  size = 12;
  pos = 0;
  end = 12;
}

no_bytes_arrived-Holds : Holds no_bytes_arrived (header_wire machine no_bytes ++ [])
no_bytes_arrived-Holds = record {
  valid = record {
    block_length = refl;
    pos_le = omega arith;
    end_le = omega arith;
    small = omega arith;
  };
  left = refl;
}

empty_message_lost_example :
    let r = dechunker_receive machine (λ x. 0) new_dechunker no_bytes_arrived in
    (r.0 ≡ 0) × (r.1 ≡ none) × Holds r.3 []
empty_message_lost_example =
    empty_message_lost machine (λ x. 0) no_bytes new_dechunker no_bytes_arrived (blank 512) []
      no_bytes-IsRtmpHeader can_open blank_zero no_bytes_arrived-Holds
