-- ===== src/Rtmp/Dechunker/Receive.antt =====
-- One call of rtmp_dechunker_receive on the first chunk of a message of format 0, and on a later one.
use re.Base.{ℕ, ◌-◌, ◌<◌, ◌≡◌, ◌≢◌, refl, ap, ◌∙◌, min, none, some, List, ◌++◌, length, Bytes}
use re.Platform.{Platform}
use re.Mbuf.{Mbuf, alloc}
use re.Mbuf.Read.{Holds}
use re.Rtmp.Header.{RtmpHeader, header_decode}
use re.Rtmp.Header.Wire.{IsRtmpHeader, header_wire, extended}
use re.Rtmp.Header.RoundTrip.{decoded, header_decode_lem}
use re.Rtmp.Chunker.Wire.{IsRtmpHeader-continued}
use re.Rtmp.Dechunker.{
  Chunk, Dechunker, Message, find_chunk, put_back, open_chunk, receive_chunk, finish_chunk,
  hand_over, receive_found, receive_header, dechunker_receive,
}
use re.Rtmp.Dechunker.Step.{
  Partial, Whole, Filled, complete-part, complete-Whole, begin_message_lem, continue_message_lem,
}
use re.Rtmp.Dechunker.Streams.{find_chunk-put_back, CanOpen, open_chunk_lem}

module _ (p : Platform) where
  -- Part of a message waits in its stream.
  pub record Waiting (rd : Dechunker) (hdr : RtmpHeader) (total : ℕ) (sofar : Bytes) : Type 0 where
    pub buf : Mbuf
    pub found : find_chunk rd.chunkl hdr.chunk_id ≡ some (record { hdr = hdr; mb = some buf })
    pub partial : Partial buf total sofar

  pub finish_part :
      (chunkh : Message → ℕ) (rd : Dechunker) (l : List Chunk) (c : Chunk) (hdr : RtmpHeader)
      (total : ℕ) (sofar rest : Bytes) (r : ℕ × Chunk × Mbuf)
      → find_chunk l hdr.chunk_id ≡ some c
      → length sofar < total
      → Filled hdr total sofar rest r
      → let s = finish_chunk chunkh rd l hdr.chunk_id r in
        (s.0 ≡ 0)
        × (s.1 ≡ none)
        × Waiting s.2 hdr total sofar
        × (s.2.chunk_sz ≡ rd.chunk_sz)
        × Holds s.3 rest
  unfolding finish_chunk hand_over
  finish_part chunkh rd l c hdr total sofar rest r found lt (ok, (b, same, part), left) =
      let waiting : Chunk = record { hdr = hdr; mb = some b } in
      let e : finish_chunk chunkh rd l hdr.chunk_id r
          ≡ (0, none, record rd { chunkl = put_back l hdr.chunk_id waiting }, r.2) =
        ap (finish_chunk chunkh rd l hdr.chunk_id) (λ i. (ok i, same i, r.2))
        ∙ ap (hand_over chunkh rd l hdr.chunk_id r.2) (complete-part hdr b total sofar part lt) in
      rw e (
        refl,
        refl,
        record {
          buf = b;
          found = find_chunk-put_back l hdr.chunk_id c _ found refl;
          partial = part;
        },
        refl,
        left,
      )

  pub finish-Whole :
      (chunkh : Message → ℕ) (rd : Dechunker) (l : List Chunk) (hdr : RtmpHeader)
      (payload rest : Bytes) (r : ℕ × Chunk × Mbuf)
      → ((x : Message) → chunkh x ≡ 0)
      → Filled hdr (length payload) payload rest r
      → let s = finish_chunk chunkh rd l hdr.chunk_id r in
        (s.0 ≡ 0) × ((b : Mbuf) × (s.1 ≡ some (hdr, b)) × Whole b payload) × Holds s.3 rest
  unfolding finish_chunk hand_over
  finish-Whole chunkh rd l hdr payload rest r fine (ok, (b, same, part), left) =
      let (done, whole) = complete-Whole hdr b payload part in
      let message : Message = (hdr, record b { pos = 0 }) in
      let e : finish_chunk chunkh rd l hdr.chunk_id r ≡ (
        chunkh message,
        some message,
        record rd { chunkl = put_back l hdr.chunk_id (record { hdr = hdr; mb = none }) },
        r.2,
      ) =
        ap (finish_chunk chunkh rd l hdr.chunk_id) (λ i. (ok i, same i, r.2))
        ∙ ap (hand_over chunkh rd l hdr.chunk_id r.2) done in
      rw e (fine message, (record b { pos = 0 }, refl, whole), left)

  module _ (chunkh : Message → ℕ) (h : RtmpHeader) where
    -- A message of format 0, and the headers of its chunks as they are sent and received.
    abbrev first : RtmpHeader
    first = record h { format = 0 }

    abbrev more : RtmpHeader
    more = record (extended p first) { format = 3 }

    pub receive_first :
        (rd : Dechunker) (m buf : Mbuf) (part rest : Bytes)
        → IsRtmpHeader first
        → CanOpen p rd.chunkl h.chunk_id
        → h.length ≢ 0
        → length part ≡ min h.length rd.chunk_sz
        → alloc p h.length ≡ some buf
        → Holds m (header_wire p first ++ (part ++ rest))
        → (l : List Chunk) × (c : Chunk) × (r : ℕ × Chunk × Mbuf) × (find_chunk l h.chunk_id
            ≡ some c)
          × Filled (decoded first) h.length part rest r
          × (dechunker_receive p chunkh rd m ≡ finish_chunk chunkh rd l h.chunk_id r)
    unfolding dechunker_receive receive_header receive_found receive_chunk
    receive_first rd m buf part rest v can ne hp ha held =
        let (e, d, h1) = header_decode_lem p first (part ++ rest) m v held in
        let (c, l, opened, found) = open_chunk_lem p rd.chunkl (decoded first) refl can in
        let m1 = (header_decode p m).2 in
        let filled =
          begin_message_lem p rd.chunk_sz (decoded first) c part rest buf m1 refl ne hp ha h1 in
        (
          l,
          c,
          receive_chunk p rd.chunk_sz (decoded first) c m1,
          found,
          filled,
          ap (receive_header p chunkh rd) (λ i. (e i, d i, m1))
              ∙ ap (receive_found p chunkh rd (decoded first) m1) opened,
        )

    pub receive_more :
        (rd : Dechunker) (m : Mbuf) (sofar part rest : Bytes)
        → IsRtmpHeader first
        → (w : Waiting rd (decoded first) h.length sofar)
        → length part ≡ min (h.length - length sofar) rd.chunk_sz
        → Holds m (header_wire p more ++ (part ++ rest))
        → (r : ℕ × Chunk × Mbuf) × Filled (decoded first) h.length (sofar ++ part) rest r
          × (dechunker_receive p chunkh rd m ≡ finish_chunk chunkh rd rd.chunkl h.chunk_id r)
    unfolding dechunker_receive receive_header receive_found receive_chunk
    receive_more rd m sofar part rest v w hp held =
        let (e, d, h1) =
          header_decode_lem p more (part ++ rest) m (IsRtmpHeader-continued p first v) held in
        let m1 = (header_decode p m).2 in
        let c : Chunk = record { hdr = decoded first; mb = some w.buf } in
        let there : open_chunk p rd.chunkl (decoded more) ≡ (0, some c, rd.chunkl) =
          rw (open_chunk, w.found) refl in
        let filled =
          continue_message_lem p rd.chunk_sz h.length (decoded first) w.buf m1 sofar part rest refl
            v.timestamp_lt w.partial hp h1 in
        (
          receive_chunk p rd.chunk_sz (decoded more) c m1,
          filled,
          ap (receive_header p chunkh rd) (λ i. (e i, d i, m1))
              ∙ ap (receive_found p chunkh rd (decoded more) m1) there,
        )
