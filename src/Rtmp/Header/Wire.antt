-- ===== src/Rtmp/Header/Wire.antt =====
-- The bytes of a chunk header, and what rtmp_header_encode writes.
use re.Base.{
  ℕ, ◌+◌, ◌-◌, ◌*◌, ◌%◌, ◌^◌, ◌<◌, ◌≤◌, ◌≡◌, refl, inl, inr, arith, if◌then◌else◌, ◌==◌, leb,
  bit_or, bit_or_shifted, Bool-cases, [], ◌∷◌, ◌++◌, Bytes, be_bytes, append-nil,
}
use re.Platform.{Platform}
use re.Sys.{sys_htoll}
use re.Mbuf.{Mbuf, ◌|=◌}
use re.Mbuf.Valid.{IsValid}
use re.Mbuf.Write.{Wrote, Wrote-|=, Wrote-then}
use re.Mbuf.Outcome.{Wrote-nil}
use re.Mbuf.Words.{write_u8, write_u8_lem, then_u16, then_u32, write_u32, write_u32_host_lem}
use re.Rtmp.Header.{
  RtmpHeader, ts_24, ts_ext, write_u24_hton, encode_basic_hdr, encode_fields, header_encode,
}

-- The fields have the values that their types and the protocol allow.
pub record IsRtmpHeader (hdr : RtmpHeader) : Type 0 where
  pub format_lt : hdr.format < 4
  pub id_ge : 2 ≤ hdr.chunk_id
  pub id_lt : hdr.chunk_id < 65600
  pub timestamp_lt : hdr.timestamp < 2 ^ 32
  pub delta_lt : hdr.timestamp_delta < 2 ^ 32
  pub ext_lt : hdr.timestamp_ext < 2 ^ 32
  pub length_lt : hdr.length < 2 ^ 24
  pub type_lt : hdr.type_id < 2 ^ 8
  pub stream_lt : hdr.stream_id < 2 ^ 32

abbrev pub basic : ℕ → ℕ → Bytes
basic fmt id =
    if leb 320 id
    then (fmt * 64 + 1) ∷ be_bytes 2 (id - 64)
    else if leb 64 id
    then (fmt * 64) ∷ (id - 64) ∷ []
    else (fmt * 64 + id) ∷ []

-- The extended timestamp, which is there where it is not 0.
abbrev pub extension : ℕ → Bytes
extension ts = if ts == 0 then [] else be_bytes 4 ts

module _ (p : Platform) where
  abbrev pub fields : RtmpHeader → Bytes
  fields hdr =
      if hdr.format == 0
      then be_bytes 3 (ts_24 hdr.timestamp)
        ++ (be_bytes 3 hdr.length ++ (hdr.type_id ∷ p.bytes_of 4 (sys_htoll p hdr.stream_id)))
      else if hdr.format == 1
      then be_bytes 3 (ts_24 hdr.timestamp_delta) ++ (be_bytes 3 hdr.length ++ (hdr.type_id ∷ []))
      else if hdr.format == 2
      then be_bytes 3 (ts_24 hdr.timestamp_delta)
      else []

  abbrev pub ext_of : RtmpHeader → ℕ
  ext_of hdr =
      if hdr.format == 0
      then ts_ext hdr.timestamp
      else if hdr.format == 1
      then ts_ext hdr.timestamp_delta
      else if hdr.format == 2
      then ts_ext hdr.timestamp_delta
      else hdr.timestamp_ext

  -- The header as rtmp_header_encode leaves it.
  abbrev pub extended : RtmpHeader → RtmpHeader
  extended hdr = record hdr { timestamp_ext = ext_of hdr }

  abbrev pub header_wire : RtmpHeader → Bytes
  header_wire hdr = basic hdr.format hdr.chunk_id ++ (fields hdr ++ extension (ext_of hdr))

  then_u8 :
      (b : ℕ) (mb : Mbuf) (a : Bytes) (r : ℕ × Mbuf)
      → IsValid mb
      → Wrote mb a r
      → Wrote mb (a ++ b ∷ []) (r |= λ m. write_u8 p m b)
  then_u8 b mb a r v w = Wrote-|= mb a (b ∷ []) r _ v w (λ m vm. write_u8_lem p b m vm)

  write_u24_lem :
      (n : ℕ) (mb : Mbuf)
      → IsValid mb
      → n < 2 ^ 24
      → Wrote mb (be_bytes 3 n) (write_u24_hton p mb n)
  unfolding write_u24_hton
  write_u24_lem n mb v h =
      then_u8 _ mb _ _ v (then_u8 _ mb _ _ v (then_u8 _ mb _ _ v (Wrote-nil mb v)))

  basic_lem :
      (fmt id : ℕ) (mb : Mbuf)
      → IsValid mb
      → fmt < 4
      → id < 65600
      → Wrote mb (basic fmt id) (encode_basic_hdr p mb fmt id)
  unfolding encode_basic_hdr
  basic_lem fmt id mb v hf hi = elim (Bool-cases (leb 320 id)) [
    | inl big ↦
        let b : bit_or (fmt * 2 ^ 6) 1 % 2 ^ 8 ≡ fmt * 64 + 1 =
          omega (arith, bit_or_shifted 6 fmt 1 (omega arith)) in
        let w : (id - 64) % 2 ^ 16 ≡ id - 64 = omega arith in
        rw (big, b, w)
          (then_u16 p (id - 64) mb _ _ v (then_u8 _ mb _ _ v (Wrote-nil mb v)) (omega arith))
    | inr less ↦ elim (Bool-cases (leb 64 id)) [
      | inl middle ↦
          let b : bit_or (fmt * 2 ^ 6) 0 % 2 ^ 8 ≡ fmt * 64 =
            omega (arith, bit_or_shifted 6 fmt 0 (omega arith)) in
          let w : (id - 64) % 2 ^ 8 ≡ id - 64 = ground arith in
          rw (less, middle, b, w) (then_u8 _ mb _ _ v (then_u8 _ mb _ _ v (Wrote-nil mb v)))
      | inr small ↦
          let lt : id < 64 = ground arith in
          let b : bit_or (fmt * 2 ^ 6) id % 2 ^ 8 ≡ fmt * 64 + id =
            omega (arith, bit_or_shifted 6 fmt id lt) in
          rw (less, small, b) (then_u8 _ mb _ _ v (Wrote-nil mb v))
    ]
  ]

  ts_24-lt : (ts : ℕ) → ts_24 ts < 2 ^ 24
  ts_24-lt ts = ground arith

  then_u24 :
      (n : ℕ) (mb : Mbuf) (a : Bytes) (r : ℕ × Mbuf)
      → IsValid mb
      → Wrote mb a r
      → n < 2 ^ 24
      → Wrote mb (a ++ be_bytes 3 n) (r |= λ m. write_u24_hton p m n)
  then_u24 n mb a r v w h = Wrote-|= mb a (be_bytes 3 n) r _ v w (λ m vm. write_u24_lem n m vm h)

  then_stream :
      (id : ℕ) (mb : Mbuf) (a : Bytes) (r : ℕ × Mbuf)
      → IsValid mb
      → Wrote mb a r
      → Wrote mb (a ++ p.bytes_of 4 (sys_htoll p id)) (r |= λ m. write_u32 p m (sys_htoll p id))
  then_stream id mb a r v w =
      Wrote-|= mb a _ r _ v w (λ m vm. write_u32_host_lem p (sys_htoll p id) m vm)

  fields_lem :
      (hdr : RtmpHeader) (mb : Mbuf)
      → IsValid mb
      → IsRtmpHeader hdr
      → let r = encode_fields p mb hdr in Wrote mb (fields hdr) (r.0, r.2) × (r.1 ≡ extended hdr)
  unfolding encode_fields
  fields_lem hdr mb v h = elim (Bool-cases (hdr.format == 0)) [
    | inl zero ↦
        let w =
          then_u24 hdr.length mb _ _ v
            (then_u24 (ts_24 hdr.timestamp) mb _ _ v (Wrote-nil mb v) (ts_24-lt hdr.timestamp))
            h.length_lt in
        rw zero (then_stream hdr.stream_id mb _ _ v (then_u8 hdr.type_id mb _ _ v w), refl)
    | inr more ↦ elim (Bool-cases (hdr.format == 1)) [
      | inl one ↦
          let w =
            then_u24 hdr.length mb _ _ v
              (then_u24 (ts_24 hdr.timestamp_delta) mb _ _ v (Wrote-nil mb v)
                (ts_24-lt hdr.timestamp_delta))
              h.length_lt in
          rw (more, one) (then_u8 hdr.type_id mb _ _ v w, refl)
      | inr rest ↦ elim (Bool-cases (hdr.format == 2)) [
        | inl two ↦
            rw (more, rest, two)
              (
                then_u24 (ts_24 hdr.timestamp_delta) mb _ _ v (Wrote-nil mb v)
                    (ts_24-lt hdr.timestamp_delta),
                refl,
              )
        | inr three ↦ rw (more, rest, three) (Wrote-nil mb v, refl)
      ]
    ]
  ]

  extension_lem :
      (ts : ℕ) (mb : Mbuf) (a : Bytes) (r : ℕ × Mbuf)
      → IsValid mb
      → Wrote mb a r
      → ts < 2 ^ 32
      → Wrote mb
          (a ++ extension ts)
          (if ts == 0 then r else (r |= λ m. write_u32 p m (p.hton 4 ts)))
  extension_lem ts mb a r v w h = elim (Bool-cases (ts == 0)) [
    | inl zero ↦ rw (zero, append-nil a) w
    | inr more ↦ rw more (then_u32 p ts mb a r v w h)
  ]

  pub ext_of-lt : (hdr : RtmpHeader) → IsRtmpHeader hdr → ext_of hdr < 2 ^ 32
  ext_of-lt hdr h = ground (arith, h.timestamp_lt, h.delta_lt, h.ext_lt)

  -- What follows the basic header.
  abbrev behind : RtmpHeader → Mbuf → ℕ × RtmpHeader × Mbuf
  behind hdr m =
      let r = encode_fields p m hdr in
      if r.1.timestamp_ext == 0
      then r
      else (let s = (r.0, r.2) |= (λ m. write_u32 p m (p.hton 4 r.1.timestamp_ext)) in
          (s.0, r.1, s.1))

  behind_lem :
      (hdr : RtmpHeader) (m : Mbuf)
      → IsValid m
      → IsRtmpHeader hdr
      → Wrote m (fields hdr ++ extension (ext_of hdr)) ((behind hdr m).0, (behind hdr m).2)
        × ((behind hdr m).1 ≡ extended hdr)
  behind_lem hdr m v h =
      let (w, e) = fields_lem hdr m v h in
      let done = extension_lem (ext_of hdr) m _ _ v w (ext_of-lt hdr h) in
      elim (Bool-cases (ext_of hdr == 0)) [
        | inl zero ↦ rw (e, zero) (rw zero at done, refl)
        | inr more ↦ rw (e, more) (rw more at done, refl)
      ]

  -- The header is written, and its extended timestamp is set.
  pub header_encode_lem :
      (hdr : RtmpHeader) (mb : Mbuf)
      → IsValid mb
      → IsRtmpHeader hdr
      → let r = header_encode p mb hdr in
        Wrote mb (header_wire hdr) (r.0, r.2) × ((r.0 ≡ 0) → r.1 ≡ extended hdr)
  unfolding header_encode
  header_encode_lem hdr mb v h =
      let first = encode_basic_hdr p mb hdr.format hdr.chunk_id in
      let w = basic_lem hdr.format hdr.chunk_id mb v h.format_lt h.id_lt in
      let both =
        Wrote-then mb _ _ first (λ m. ((behind hdr m).0, (behind hdr m).2)) v w
          (λ m vm. (behind_lem hdr m vm h).0) in
      elim (Bool-cases (first.0 == 0)) [
        | inl ok ↦ rw ok (rw ok at both, λ e. (behind_lem hdr first.1 w.0 h).1)
        | inr failed ↦ rw failed (rw failed at both, λ e. absurd (ground arith))
      ]
