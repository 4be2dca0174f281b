-- ===== src/Rtmp/Header/RoundTrip.antt =====
-- rtmp_header_decode on the bytes of a header.
use re.Base.{
  ◌+◌, ◌≡◌, refl, ap, ◌∙◌, inl, inr, arith, true, false, if◌then◌else◌, ◌==◌, leb, ltb, le→ltb,
  Bool-cases, [], ◌∷◌, ◌++◌, drop, length, length-append, Bytes, be_bytes, append_assoc,
}
use re.Platform.{Platform}
use re.Sys.{sys_htoll}
use re.Mbuf.{Mbuf, get_left, set_pos}
use re.Mbuf.Valid.{IsValid, contents}
use re.Mbuf.Read.{Holds, get_left_lem}
use re.Mbuf.RoundTrip.{set_pos-Holds, Wrote-done}
use re.Mbuf.Words.{read_u8-Holds}
use re.Rtmp.Header.{
  RtmpHeader, cleared, ts_24, ts_ext, decode_fields, decode_ext, header_encode, header_decode,
}
use re.Rtmp.Header.Wire.{
  IsRtmpHeader, basic, extension, fields, ext_of, header_wire, header_encode_lem,
}
use re.Rtmp.Header.Decode.{
  read_u24-Holds, decode_basic_lem, decode_timestamp, decode_delta, stream_read,
}

-- What the receiver learns from a header: the fields of its format.
abbrev pub decoded : RtmpHeader → RtmpHeader
decoded hdr =
    if hdr.format == 0
    then record hdr { timestamp_delta = 0; timestamp_ext = 0; ext_ts = leb 0xffffff hdr.timestamp }
    else if hdr.format == 1
    then record hdr {
      timestamp = 0;
      timestamp_ext = 0;
      stream_id = 0;
      ext_ts = leb 0xffffff hdr.timestamp_delta;
    }
    else if hdr.format == 2
    then record cleared {
      format = hdr.format;
      chunk_id = hdr.chunk_id;
      timestamp_delta = hdr.timestamp_delta;
      ext_ts = leb 0xffffff hdr.timestamp_delta;
    }
    else record cleared { format = hdr.format; chunk_id = hdr.chunk_id }

-- An extended timestamp behind a header of format 3 is left to the dechunker.
abbrev pub left_over : RtmpHeader → Bytes
left_over hdr = if ltb hdr.format 3 then [] else extension hdr.timestamp_ext

module _ (p : Platform) where
  -- The fields of each format, the timestamp of 24 bits among them.
  abbrev plain : RtmpHeader → RtmpHeader
  plain hdr =
      let begun = record cleared { format = hdr.format; chunk_id = hdr.chunk_id } in
      if hdr.format == 0
      then record begun {
        timestamp = ts_24 hdr.timestamp;
        length = hdr.length;
        type_id = hdr.type_id;
        stream_id = hdr.stream_id;
      }
      else if hdr.format == 1
      then record begun {
        timestamp_delta = ts_24 hdr.timestamp_delta;
        length = hdr.length;
        type_id = hdr.type_id;
      }
      else if hdr.format == 2
      then record begun { timestamp_delta = ts_24 hdr.timestamp_delta }
      else begun

  decode_fields_lem :
      (hdr : RtmpHeader) (ys : Bytes) (m : Mbuf)
      → IsRtmpHeader hdr
      → Holds m (fields p hdr ++ ys)
      → let r =
          decode_fields p (record cleared { format = hdr.format; chunk_id = hdr.chunk_id }) m in
        (r.0 ≡ 0) × (r.1 ≡ plain hdr) × Holds r.2 ys
  unfolding decode_fields
  decode_fields_lem hdr ys m h held = elim (Bool-cases (hdr.format == 0)) [
    | inl zero ↦
        let h0 : Holds m (
            be_bytes 3 (ts_24 hdr.timestamp)
            ++ (be_bytes 3 hdr.length
                ++ (hdr.type_id ∷ (p.bytes_of 4 (sys_htoll p hdr.stream_id) ++ ys)))) =
          rw zero at held in
        let (e1, h1) = read_u24-Holds (ts_24 hdr.timestamp) _ h0 (ground arith) in
        let (e2, h2) = read_u24-Holds hdr.length _ h1 h.length_lt in
        let (e3, h3) = read_u8-Holds _ _ h2 in
        let (e4, h4) = stream_read p hdr.stream_id ys _ h.stream_lt h3 in
        let room : ltb (get_left m) 11 ≡ false = le→ltb _ _ (
          omega (
            arith,
            get_left_lem h0,
            length-append (p.bytes_of 4 (sys_htoll p hdr.stream_id)) ys,
            p.length-bytes_of 4 (sys_htoll p hdr.stream_id),
          )) in
        rw (zero, room, e1, e2, e3, e4) (refl, refl, h4)
    | inr more ↦ elim (Bool-cases (hdr.format == 1)) [
      | inl one ↦
          let h0 : Holds m (
              be_bytes 3 (ts_24 hdr.timestamp_delta)
              ++ (be_bytes 3 hdr.length ++ (hdr.type_id ∷ ys))) =
            rw (more, one) at held in
          let (e1, h1) = read_u24-Holds (ts_24 hdr.timestamp_delta) _ h0 (ground arith) in
          let (e2, h2) = read_u24-Holds hdr.length _ h1 h.length_lt in
          let (e3, h3) = read_u8-Holds _ _ h2 in
          let room : ltb (get_left m) 7 ≡ false = le→ltb _ _ (omega (arith, get_left_lem h0)) in
          rw (more, one, room, e1, e2, e3) (refl, refl, h3)
      | inr rest ↦ elim (Bool-cases (hdr.format == 2)) [
        | inl two ↦
            let h0 : Holds m (be_bytes 3 (ts_24 hdr.timestamp_delta) ++ ys) =
              rw (more, rest, two) at held in
            let (e1, h1) = read_u24-Holds (ts_24 hdr.timestamp_delta) _ h0 (ground arith) in
            let room : ltb (get_left m) 3 ≡ false = le→ltb _ _ (omega (arith, get_left_lem h0)) in
            rw (more, rest, two, room, e1) (refl, refl, h1)
        | inr three ↦
            let h0 : Holds m ys = rw (more, rest, three) at held in
            rw (more, rest, three) (refl, refl, h0)
      ]
    ]
  ]

  decode_ext_lem :
      (hdr : RtmpHeader) (rest : Bytes) (m : Mbuf)
      → IsRtmpHeader hdr
      → Holds m (extension (ext_of p hdr) ++ rest)
      → let r = decode_ext p (plain hdr) m in
        (r.0 ≡ 0) × (r.1 ≡ decoded hdr) × Holds r.2 (left_over hdr ++ rest)
  unfolding decode_ext
  decode_ext_lem hdr rest m h held = elim (Bool-cases (hdr.format == 0)) [
    | inl zero ↦
        let low : ltb hdr.format 3 ≡ true = ground arith in
        let h0 : Holds m (extension (ts_ext hdr.timestamp) ++ rest) = rw zero at held in
        rw (zero, low)
          (decode_timestamp p (record hdr { timestamp_ext = 0 }) hdr.timestamp rest m h.timestamp_lt
            h0)
    | inr more ↦ elim (Bool-cases (hdr.format == 1)) [
      | inl one ↦
          let low : ltb hdr.format 3 ≡ true = ground arith in
          let h0 : Holds m (extension (ts_ext hdr.timestamp_delta) ++ rest) =
            rw (more, one) at held in
          rw (more, one, low)
            (decode_delta p (record hdr { timestamp_ext = 0; stream_id = 0 }) hdr.timestamp_delta
              rest m h.delta_lt h0)
      | inr other ↦ elim (Bool-cases (hdr.format == 2)) [
        | inl two ↦
            let low : ltb hdr.format 3 ≡ true = ground arith in
            let h0 : Holds m (extension (ts_ext hdr.timestamp_delta) ++ rest) =
              rw (more, other, two) at held in
            rw (more, other, two, low)
              (decode_delta p (record cleared { format = hdr.format; chunk_id = hdr.chunk_id })
                hdr.timestamp_delta rest m h.delta_lt h0)
        | inr three ↦
            let high : ltb hdr.format 3 ≡ false = ground arith in
            let h0 : Holds m (extension hdr.timestamp_ext ++ rest) =
              rw (more, other, three) at held in
            rw (more, other, three, high) (refl, refl, h0)
      ]
    ]
  ]

  reassoc : (a b c d : Bytes) → (a ++ (b ++ c)) ++ d ≡ a ++ (b ++ (c ++ d))
  reassoc a b c d = append_assoc a (b ++ c) d ∙ ap (λ t. a ++ t) (append_assoc b c d)

  pub header_decode_lem :
      (hdr : RtmpHeader) (rest : Bytes) (m : Mbuf)
      → IsRtmpHeader hdr
      → Holds m (header_wire p hdr ++ rest)
      → let r = header_decode p m in
        (r.0 ≡ 0) × (r.1 ≡ decoded hdr) × Holds r.2 (left_over hdr ++ rest)
  unfolding header_decode
  header_decode_lem hdr rest m h held =
      let h0 =
        rw (reassoc (basic hdr.format hdr.chunk_id) (fields p hdr) (extension (ext_of p hdr)) rest)
          at held in
      let (e1, r1, h1) =
        decode_basic_lem p hdr.format hdr.chunk_id _ m h.format_lt h.id_ge h.id_lt h0 in
      let (e2, r2, h2) = decode_fields_lem hdr _ _ h h1 in
      let last = decode_ext_lem hdr rest _ h h2 in rw (e1, r1, e2, r2) last

  -- For a well-formed buffer and a chunk header whose fields fit their widths, of any of the four
  -- formats: where rtmp_header_encode succeeds and the position is set back, rtmp_header_decode
  -- succeeds and gives the fields that the format carries, with the extended timestamp in its
  -- place; what stood behind the header is left to read, after the extended timestamp where the
  -- format is 3.
  pub header_decode-header_encode :
      (mb : Mbuf) (hdr : RtmpHeader)
      → IsValid mb
      → IsRtmpHeader hdr
      → (header_encode p mb hdr).0 ≡ 0
      → let back = set_pos (header_encode p mb hdr).2 mb.pos in
        let rest = drop (mb.pos + length (header_wire p hdr)) (contents mb) in
        ((header_decode p back).0 ≡ 0)
        × ((header_decode p back).1 ≡ decoded hdr)
        × Holds (header_decode p back).2 (left_over hdr ++ rest)
  header_decode-header_encode mb hdr v h e =
      let (w, ext) = header_encode_lem p hdr mb v h in
      header_decode_lem hdr _ _ h
        (set_pos-Holds mb _ (header_wire p hdr) v w.0 (Wrote-done mb (header_wire p hdr) _ w e))
