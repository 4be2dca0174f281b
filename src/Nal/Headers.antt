-- ===== src/Nal/Headers.antt =====
-- The headers of NAL units and of fragments, written and read back.
use re.Base.{
  ℕ, ◌+◌, ◌*◌, ◌/◌, ◌%◌, ◌^◌, ◌<◌, ◌≤◌, ◌≡◌, refl, arith, false, ltb, le→ltb, bit_and, bit_and_low,
  bit_or, bit_or_shifted, [], ◌∷◌, drop,
}
use re.Platform.{Platform}
use re.Mbuf.{Mbuf, set_pos, get_left}
use re.Mbuf.Valid.{IsValid, contents}
use re.Mbuf.Read.{Holds, get_left_lem}
use re.Mbuf.RoundTrip.{set_pos-Holds, Wrote-done}
use re.Mbuf.Outcome.{Wrote-fits}
use re.Mbuf.Words.{write_u8, write_u8_lem, read_u8, read_u8-Holds}
use re.Nal.{FuHeader, fu_hdr_encode, fu_hdr_decode}

fu_byte :
    (fu : FuHeader)
    → fu.s < 2
    → fu.r < 2
    → fu.type < 32
    → bit_or (bit_or (bit_or (fu.s * 2 ^ 7) (fu.s * 2 ^ 6)) (fu.r * 2 ^ 5)) fu.type % 2 ^ 8
      ≡ fu.s * 2 ^ 7 + fu.s * 2 ^ 6 + fu.r * 2 ^ 5 + fu.type
fu_byte fu hs hr ht =
    let a = bit_or_shifted 7 fu.s (fu.s * 2 ^ 6) (omega arith) in
    let j : fu.s * 2 ^ 7 + fu.s * 2 ^ 6 ≡ (fu.s * 3) * 2 ^ 6 = omega arith in
    let b = bit_or_shifted 6 (fu.s * 3) (fu.r * 2 ^ 5) (omega arith) in
    let k : fu.s * 3 * 2 ^ 6 + fu.r * 2 ^ 5 ≡ (fu.s * 6 + fu.r) * 2 ^ 5 = omega arith in
    let c = bit_or_shifted 5 (fu.s * 6 + fu.r) fu.type ht in rw (a, j, b, k, c) (omega arith)

module _ (p : Platform) where
  -- A byte that was written, with the position set back.
  byte_back :
      (mb : Mbuf) (b : ℕ)
      → IsValid mb
      → (write_u8 p mb b).0 ≡ 0
      → let back = set_pos (write_u8 p mb b).1 mb.pos in
        (ltb (get_left back) 1 ≡ false)
        × ((read_u8 back).0 ≡ b)
        × Holds (read_u8 back).1 (drop (mb.pos + 1) (contents mb))
  byte_back mb b v ok =
      let w = write_u8_lem p b mb v in
      let held = set_pos-Holds mb _ (b ∷ []) v w.0 (Wrote-done mb (b ∷ []) _ w ok) in
      let (got, after) = read_u8-Holds b _ held in
      (le→ltb _ _ (omega (arith, get_left_lem held)), got, after)

  -- For a well-formed buffer and a fragment header whose fields fit their widths: where
  -- h264_fu_hdr_encode succeeds and the position is set back, h264_fu_hdr_decode gives the header
  -- with the start bit in place of the end bit, and leaves what stood behind.
  pub fu_hdr_decode-fu_hdr_encode :
      (mb : Mbuf) (old fu : FuHeader)
      → IsValid mb
      → fu.s < 2
      → fu.e < 2
      → fu.r < 2
      → fu.type < 32
      → (fu_hdr_encode p fu mb).0 ≡ 0
      → let r = fu_hdr_decode old (set_pos (fu_hdr_encode p fu mb).1 mb.pos) in
        (r.0 ≡ 0) × (r.1 ≡ record fu { e = fu.s }) × Holds r.2 (drop (mb.pos + 1) (contents mb))
  unfolding fu_hdr_encode fu_hdr_decode
  fu_hdr_decode-fu_hdr_encode mb old fu v hs he hr ht ok =
      let x =
        bit_or (bit_or (bit_or (fu.s * 2 ^ 7) (fu.s * 2 ^ 6)) (fu.r * 2 ^ 5)) fu.type % 2 ^ 8 in
      let byte : x ≡ fu.s * 2 ^ 7 + fu.s * 2 ^ 6 + fu.r * 2 ^ 5 + fu.type = fu_byte fu hs hr ht in
      let (room, got, after) = byte_back mb x v ok in
      let s : bit_and (x / 2 ^ 7) 1 ≡ fu.s = omega (arith, bit_and_low 1 (x / 2 ^ 7), byte) in
      let e : bit_and (x / 2 ^ 6) 1 ≡ fu.s = omega (arith, bit_and_low 1 (x / 2 ^ 6), byte) in
      let r : bit_and (x / 2 ^ 5) 1 ≡ fu.r = omega (arith, bit_and_low 1 (x / 2 ^ 5), byte) in
      let t : bit_and (x / 2 ^ 0) 0x1f ≡ fu.type = omega (arith, bit_and_low 5 (x / 2 ^ 0), byte) in
      rw (room, got, s, e, r, t) (refl, refl, after)

  pub fu_hdr_encode_fits :
      (mb : Mbuf) (fu : FuHeader)
      → IsValid mb
      → mb.pos + 1 ≤ mb.size
      → (fu_hdr_encode p fu mb).0 ≡ 0
  unfolding fu_hdr_encode
  fu_hdr_encode_fits mb fu v fits = Wrote-fits mb (_ ∷ []) _ (write_u8_lem p _ mb v) fits
