-- ===== src/Rtmp/Header/Decode.antt =====
-- The parts of rtmp_header_decode on the bytes of a header.
use re.Base.{
  ℕ, ◌+◌, ◌-◌, ◌*◌, ◌/◌, ◌%◌, ◌^◌, ◌<◌, ◌≤◌, ◌≡◌, refl, ap, ◌∙◌, inl, inr, arith, false, ◌==◌, leb,
  ltb, le→ltb, bit_or, bit_and, bit_and_low, bit_or_shifted, Bool-cases, ◌∷◌, ◌++◌, Bytes, be_bytes,
}
use re.Platform.{Platform}
use re.Sys.{sys_htoll, sys_ltohl, sys_htoll-lt, sys_ltohl-sys_htoll}
use re.Mbuf.{Mbuf, get_left}
use re.Mbuf.Read.{Holds, get_left_lem}
use re.Mbuf.Words.{
  read_u8, read_u32, read_u8-Holds, read_u16-Holds, read_u32-Holds, read_u32_host-Holds,
}
use re.Rtmp.Header.{RtmpHeader, cleared, ts_24, ts_ext, read_u24_ntoh, decode_basic_hdr, decode_ext}
use re.Rtmp.Header.Wire.{basic, extension}

pub read_u24-Holds :
    {m : Mbuf} (n : ℕ) (ys : Bytes)
    → Holds m (be_bytes 3 n ++ ys)
    → n < 2 ^ 24
    → ((read_u24_ntoh m).0 ≡ n) × Holds (read_u24_ntoh m).1 ys
unfolding read_u24_ntoh
read_u24-Holds n ys h lt =
    let (e0, h0) = read_u8-Holds _ _ h in
    let (e1, h1) = read_u8-Holds _ _ h0 in
    let (e2, h2) = read_u8-Holds _ _ h1 in
    let b0 = n / 2 ^ 16 % 256 in
    let b1 = n / 2 ^ 8 % 256 in
    let b2 = n / 2 ^ 0 % 256 in
    let f0 = bit_or_shifted 16 b0 (b1 * 2 ^ 8) (omega arith) in
    let f1 = bit_or_shifted 8 (b0 * 2 ^ 8 + b1) b2 (omega arith) in
    let f2 : b0 * 2 ^ 16 + b1 * 2 ^ 8 ≡ (b0 * 2 ^ 8 + b1) * 2 ^ 8 = omega arith in
    (rw (e0, e1, e2) (ap (λ x. bit_or x b2) (f0 ∙ f2) ∙ f1 ∙ omega arith), h2)

module _ (p : Platform) where
  pub decode_basic_lem :
      (fmt id : ℕ) (ys : Bytes) (m : Mbuf)
      → fmt < 4
      → 2 ≤ id
      → id < 65600
      → Holds m (basic fmt id ++ ys)
      → let r = decode_basic_hdr p cleared m in
        (r.0 ≡ 0) × (r.1 ≡ record cleared { format = fmt; chunk_id = id }) × Holds r.2 ys
  unfolding decode_basic_hdr
  decode_basic_lem fmt id ys m hf ge lt h = elim (Bool-cases (leb 320 id)) [
    | inl big ↦
        let held : Holds m ((fmt * 64 + 1) ∷ (be_bytes 2 (id - 64) ++ ys)) = rw big at h in
        let (e0, h0) = read_u8-Holds _ _ held in
        let (e1, h1) = read_u16-Holds p (id - 64) ys h0 (omega arith) in
        let room : ltb (get_left m) 1 ≡ false = le→ltb _ _ (omega (arith, get_left_lem held)) in
        let room2 : ltb (get_left (read_u8 m).1) 2 ≡ false =
          le→ltb _ _ (omega (arith, get_left_lem h0)) in
        let f : (fmt * 64 + 1) / 2 ^ 6 ≡ fmt = omega arith in
        let c : bit_and (fmt * 64 + 1) 0x3f ≡ 1 = omega (arith, bit_and_low 6 (fmt * 64 + 1)) in
        let back : id - 64 + 64 ≡ id = ground arith in
        rw (room, e0, f, c, room2, e1, back) (refl, refl, h1)
    | inr less ↦ elim (Bool-cases (leb 64 id)) [
      | inl middle ↦
          let held : Holds m ((fmt * 64) ∷ (id - 64) ∷ ys) = rw (less, middle) at h in
          let (e0, h0) = read_u8-Holds _ _ held in
          let (e1, h1) = read_u8-Holds _ _ h0 in
          let room : ltb (get_left m) 1 ≡ false = le→ltb _ _ (omega (arith, get_left_lem held)) in
          let room2 : ltb (get_left (read_u8 m).1) 1 ≡ false =
            le→ltb _ _ (omega (arith, get_left_lem h0)) in
          let f : fmt * 64 / 2 ^ 6 ≡ fmt = omega arith in
          let c : bit_and (fmt * 64) 0x3f ≡ 0 = omega (arith, bit_and_low 6 (fmt * 64)) in
          let back : id - 64 + 64 ≡ id = ground arith in
          rw (room, e0, f, c, room2, e1, back) (refl, refl, h1)
      | inr small ↦
          let held : Holds m ((fmt * 64 + id) ∷ ys) = rw (less, small) at h in
          let (e0, h0) = read_u8-Holds _ _ held in
          let room : ltb (get_left m) 1 ≡ false = le→ltb _ _ (omega (arith, get_left_lem held)) in
          let f : (fmt * 64 + id) / 2 ^ 6 ≡ fmt = ground arith in
          let c : bit_and (fmt * 64 + id) 0x3f ≡ id =
            ground (arith, bit_and_low 6 (fmt * 64 + id)) in
          let n0 : (id == 0) ≡ false = ground arith in
          let n1 : (id == 1) ≡ false = ground arith in rw (room, e0, f, c, n0, n1) (refl, refl, h0)
    ]
  ]

  pub decode_timestamp :
      (hdr : RtmpHeader) (ts : ℕ) (rest : Bytes) (m : Mbuf)
      → ts < 2 ^ 32
      → Holds m (extension (ts_ext ts) ++ rest)
      → let r =
          decode_ext p
            (record hdr { timestamp = ts_24 ts; timestamp_delta = 0; ext_ts = false })
            m in
        (r.0 ≡ 0)
        × (r.1 ≡ record hdr { timestamp = ts; timestamp_delta = 0; ext_ts = leb 0xffffff ts })
        × Holds r.2 rest
  unfolding decode_ext
  decode_timestamp hdr ts rest m lt h = elim (Bool-cases (leb 0xffffff ts)) [
    | inl big ↦
        let nz : (ts == 0) ≡ false = ground arith in
        let held : Holds m (be_bytes 4 ts ++ rest) = rw (big, nz) at h in
        let (e, after) = read_u32-Holds p ts rest held lt in
        let room : ltb (get_left m) 4 ≡ false = le→ltb _ _ (omega (arith, get_left_lem held)) in
        rw (big, room, e) (refl, refl, after)
    | inr low ↦
        let ne : (ts == 0xffffff) ≡ false = ground arith in
        let held : Holds m rest = rw low at h in rw (low, ne) (refl, refl, held)
  ]

  pub decode_delta :
      (hdr : RtmpHeader) (ts : ℕ) (rest : Bytes) (m : Mbuf)
      → ts < 2 ^ 32
      → Holds m (extension (ts_ext ts) ++ rest)
      → let r =
          decode_ext p
            (record hdr { timestamp = 0; timestamp_delta = ts_24 ts; ext_ts = false })
            m in
        (r.0 ≡ 0)
        × (r.1 ≡ record hdr { timestamp = 0; timestamp_delta = ts; ext_ts = leb 0xffffff ts })
        × Holds r.2 rest
  unfolding decode_ext
  decode_delta hdr ts rest m lt h = elim (Bool-cases (leb 0xffffff ts)) [
    | inl big ↦
        let nz : (ts == 0) ≡ false = ground arith in
        let held : Holds m (be_bytes 4 ts ++ rest) = rw (big, nz) at h in
        let (e, after) = read_u32-Holds p ts rest held lt in
        let room : ltb (get_left m) 4 ≡ false = le→ltb _ _ (omega (arith, get_left_lem held)) in
        rw (big, room, e) (refl, refl, after)
    | inr low ↦
        let ne : (ts == 0xffffff) ≡ false = ground arith in
        let held : Holds m rest = rw low at h in rw (low, ne) (refl, refl, held)
  ]

  pub stream_read :
      (id : ℕ) (rest : Bytes) (m : Mbuf)
      → id < 2 ^ 32
      → Holds m (p.bytes_of 4 (sys_htoll p id) ++ rest)
      → (sys_ltohl p (read_u32 p m).0 ≡ id) × Holds (read_u32 p m).1 rest
  stream_read id rest m lt h =
      let (e, after) = read_u32_host-Holds p (sys_htoll p id) rest h (sys_htoll-lt p id) in
      (ap (sys_ltohl p) e ∙ sys_ltohl-sys_htoll p id lt, after)
