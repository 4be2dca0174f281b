-- ===== src/Rtmp/Dechunker/Empty.antt =====
-- A message of no bytes, which mbuf_alloc gives a buffer of its default size.
use re.Base.{ℕ, ◌≡◌, refl, ap, ◌∙◌, arith, ltb, min, false, none, some, [], ◌++◌, Bytes}
use re.Platform.{Platform}
use re.Mbuf.{Mbuf, alloc}
use re.Mbuf.Read.{Holds}
use re.Rtmp.Header.{RtmpHeader, header_decode}
use re.Rtmp.Header.Wire.{IsRtmpHeader, header_wire}
use re.Rtmp.Header.RoundTrip.{decoded, header_decode_lem}
use re.Rtmp.Dechunker.{
  Chunk, Dechunker, Message, begin_message, receive_chunk, finish_chunk, receive_found,
  receive_header, dechunker_receive,
}
use re.Rtmp.Dechunker.Step.{Partial, Filled, filled-Partial}
use re.Rtmp.Dechunker.Streams.{CanOpen, open_chunk_lem}
use re.Mbuf.Alloc.{alloc-zero}
use re.Mbuf.{get_left}
use re.Mbuf.Read.{read_mem-append, ahead-Holds}
use re.Rtmp.Dechunker.{update_header}
use re.Rtmp.Dechunker.Receive.{finish_part}

module _ (p : Platform) (chunkh : Message → ℕ) (h : RtmpHeader) where
  abbrev empty : RtmpHeader
  empty = record h { format = 0; length = 0 }

  begin_empty :
      (max_sz : ℕ) (chunk : Chunk) (rest : Bytes) (buf m : Mbuf)
      → alloc p 0 ≡ some buf
      → Holds m rest
      → Filled (decoded empty) 512 [] rest (begin_message p max_sz (decoded empty) chunk m)
  unfolding begin_message update_header
  begin_empty max_sz chunk rest buf m ha held =
      let a = alloc-zero p buf ha in
      let none_asked : min 0 max_sz ≡ 0 = omega arith in
      let room : ltb (get_left m) 0 ≡ false = ground arith in
      let fresh : Partial buf 512 [] = record {
        size_eq = a.size_eq;
        block_length = a.length_eq;
        pos_eq = a.pos_eq;
        end_eq = a.end_eq;
        le = omega arith;
        taken = refl;
        small = omega arith;
      } in
      rw (none_asked, room, ha, none_asked, read_mem-append [] rest held)
        (
          refl,
          (_, refl, filled-Partial buf 512 0 0 [] [] fresh refl refl (omega arith)),
          ahead-Holds [] rest held,
        )

  -- For the header of a message of format 0 and of no bytes, which the dechunker gets a buffer
  -- for, rtmp_dechunker_receive succeeds and calls no handler: the message is lost.
  pub empty_message_lost :
      (rd : Dechunker) (m buf : Mbuf) (rest : Bytes)
      → IsRtmpHeader empty
      → CanOpen p rd.chunkl h.chunk_id
      → alloc p 0 ≡ some buf
      → Holds m (header_wire p empty ++ rest)
      → let r = dechunker_receive p chunkh rd m in (r.0 ≡ 0) × (r.1 ≡ none) × Holds r.3 rest
  unfolding dechunker_receive receive_header receive_found receive_chunk
  empty_message_lost rd m buf rest v can ha held =
      let (e, d, h1) = header_decode_lem p empty rest m v held in
      let (c, l, opened, found) = open_chunk_lem p rd.chunkl (decoded empty) refl can in
      let m1 = (header_decode p m).2 in
      let filled = begin_empty rd.chunk_sz c rest buf m1 ha h1 in
      let r = begin_message p rd.chunk_sz (decoded empty) c m1 in
      let (ok, quiet, w, same, after) =
        finish_part p chunkh rd l c (decoded empty) 512 [] rest r found (omega arith) filled in
      let whole : dechunker_receive p chunkh rd m ≡ finish_chunk chunkh rd l h.chunk_id r =
        ap (receive_header p chunkh rd) (λ i. (e i, d i, m1))
        ∙ ap (receive_found p chunkh rd (decoded empty) m1) opened in
      rw whole (ok, quiet, after)
