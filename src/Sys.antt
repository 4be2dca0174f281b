-- ===== src/Sys.antt =====
-- sys_htoll and sys_ltohl of src/sys/endian.c: words in little-endian order.
use re.Base.{
  ℕ, ◌+◌, ◌*◌, ◌/◌, ◌%◌, ◌^◌, ◌<◌, ◌≡◌, refl, arith, bit_or, bit_or_under, bit_or-zero_left, get_or,
  [], ◌∷◌, length, Bytes,
}
use re.Platform.{Platform}

module _ (p : Platform) where
  pub sys_htoll : ℕ → ℕ
  sys_htoll v =
      let b = p.bytes_of 4 v in
      bit_or
        (bit_or (bit_or (bit_or 0 (get_or b 0 0)) (get_or b 1 0 * 2 ^ 8)) (get_or b 2 0 * 2 ^ 16))
        (get_or b 3 0 * 2 ^ 24)

  pub sys_ltohl : ℕ → ℕ
  sys_ltohl v =
      p.value_of (v % 256 ∷ (v / 2 ^ 8 % 256) ∷ (v / 2 ^ 16 % 256) ∷ (v / 2 ^ 24 % 256) ∷ [])

  -- The value whose bytes, the lowest first, are those of `v` in memory.
  sys_htoll_sum :
      (v : ℕ)
      → let b = p.bytes_of 4 v in
        sys_htoll v
        ≡ get_or b 0 0 + get_or b 1 0 * 2 ^ 8 + get_or b 2 0 * 2 ^ 16 + get_or b 3 0 * 2 ^ 24
  unfolding sys_htoll
  sys_htoll_sum v =
      let b = p.bytes_of 4 v in
      let h0 = p.bytes_of-byte 4 v 0 in
      let h1 = p.bytes_of-byte 4 v 1 in
      let h2 = p.bytes_of-byte 4 v 2 in
      let e1 = bit_or_under 8 (get_or b 1 0) (get_or b 0 0) h0 in
      let e2 =
        bit_or_under 16 (get_or b 2 0) (get_or b 0 0 + get_or b 1 0 * 2 ^ 8)
          (omega (arith, h0, h1)) in
      let e3 =
        bit_or_under 24 (get_or b 3 0) (get_or b 0 0 + get_or b 1 0 * 2 ^ 8 + get_or b 2 0 * 2 ^ 16)
          (omega (arith, h0, h1, h2)) in
      rw (bit_or-zero_left (get_or b 0 0), e1, e2, e3) refl

  pub sys_htoll-lt : (v : ℕ) → sys_htoll v < 2 ^ 32
  sys_htoll-lt v = omega (
    arith,
    sys_htoll_sum v,
    p.bytes_of-byte 4 v 0,
    p.bytes_of-byte 4 v 1,
    p.bytes_of-byte 4 v 2,
    p.bytes_of-byte 4 v 3,
  )

  four_bytes :
      (b : Bytes)
      → length b ≡ 4
      → get_or b 0 0 ∷ get_or b 1 0 ∷ get_or b 2 0 ∷ get_or b 3 0 ∷ [] ≡ b
  four_bytes (x ∷ y ∷ z ∷ t ∷ []) h = refl
  four_bytes [] h = absurd (omega arith)
  four_bytes (x ∷ []) h = absurd (omega arith)
  four_bytes (x ∷ y ∷ []) h = absurd (omega arith)
  four_bytes (x ∷ y ∷ z ∷ []) h = absurd (omega arith)
  four_bytes (x ∷ y ∷ z ∷ t ∷ u ∷ b) h = absurd (omega arith)

  pub sys_ltohl-sys_htoll : (v : ℕ) → v < 2 ^ 32 → sys_ltohl (sys_htoll v) ≡ v
  unfolding sys_ltohl
  sys_ltohl-sys_htoll v h =
      let s = sys_htoll_sum v in
      let h0 = p.bytes_of-byte 4 v 0 in
      let h1 = p.bytes_of-byte 4 v 1 in
      let h2 = p.bytes_of-byte 4 v 2 in
      let h3 = p.bytes_of-byte 4 v 3 in
      let b = p.bytes_of 4 v in
      let d0 : sys_htoll v % 256 ≡ get_or b 0 0 = omega (arith, s, h0, h1, h2, h3) in
      let d1 : sys_htoll v / 2 ^ 8 % 256 ≡ get_or b 1 0 = omega (arith, s, h0, h1, h2, h3) in
      let d2 : sys_htoll v / 2 ^ 16 % 256 ≡ get_or b 2 0 = omega (arith, s, h0, h1, h2, h3) in
      let d3 : sys_htoll v / 2 ^ 24 % 256 ≡ get_or b 3 0 = omega (arith, s, h0, h1, h2, h3) in
      rw (sys_ltohl, d0, d1, d2, d3, four_bytes b (p.length-bytes_of 4 v))
        (p.value_of-bytes_of 4 v h)
