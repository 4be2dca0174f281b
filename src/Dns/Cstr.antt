-- ===== src/Dns/Cstr.antt =====
-- src/dns/cstr.c: character strings behind their length. A C string is the list of its bytes without
-- the NUL; the string decoded is `none` where `*str` is left as it was.
use re.Base.{
  ℕ, ◌+◌, ◌%◌, ◌<◌, ◌^◌, ◌≡◌, refl, ap, arith, length-append, false, if◌then◌else◌, ltb, le→ltb,
  Option, none, some, [], ◌∷◌, ◌++◌, take, drop, length, Bytes, einval, ebadmsg,
}
use re.Platform.{Platform}
use re.Mbuf.{Mbuf, ◌|=◌, get_left, set_pos, write_mem, mem_alloc}
use re.Mbuf.Valid.{IsValid, contents}
use re.Mbuf.Write.{Wrote, write_mem_lem, Wrote-|=}
use re.Mbuf.Read.{ahead, ahead-Holds, get_left_lem}
use re.Mbuf.RoundTrip.{set_pos-Holds, Wrote-done}
use re.Mbuf.Words.{write_u8, write_u8_lem, read_u8, read_u8-cons}
use re.Mbuf.Text.{strdup}
use re.Mbuf.Text.RoundTrip.{strdup-append}

module _ (p : Platform) where
  -- `len` is a `uint8_t`.
  pub cstr_encode : Mbuf → Bytes → ℕ × Mbuf
  cstr_encode mb str =
      let len = length str % 2 ^ 8 in write_u8 p mb len |= (λ m. write_mem p m (take len str))

  pub cstr_decode : Mbuf → ℕ × Option Bytes × Mbuf
  cstr_decode mb =
      if ltb (get_left mb) 1
      then (einval, none, mb)
      else (let (len, m) = read_u8 mb in
          if ltb (get_left m) len then (ebadmsg, none, m) else strdup p m len)

  take_whole : (s : Bytes) → take (length s) s ≡ s
  take_whole [] = refl
  take_whole (c ∷ s) = ap (◌∷◌ c) (take_whole s)

  cstr_encode_lem :
      (mb : Mbuf) (str : Bytes)
      → IsValid mb
      → length str < 256
      → Wrote mb (length str ∷ str) (cstr_encode mb str)
  unfolding cstr_encode
  cstr_encode_lem mb str v h =
      let len : length str % 2 ^ 8 ≡ length str = omega arith in
      rw (len, take_whole str)
        (Wrote-|= mb (length str ∷ []) str _ _ v (write_u8_lem p (length str) mb v)
          (λ m vm. write_mem_lem p m str vm (omega arith)))

  -- For a well-formed buffer and a string below 256 bytes, where the memory for the string is given:
  -- where dns_cstr_encode succeeds and the position is set back, dns_cstr_decode gives the string
  -- with its NUL.
  pub cstr_decode-cstr_encode :
      (mb : Mbuf) (str block : Bytes)
      → IsValid mb
      → length str < 256
      → mem_alloc p (length str + 1) ≡ some block
      → (cstr_encode mb str).0 ≡ 0
      → let r = cstr_decode (set_pos (cstr_encode mb str).1 mb.pos) in
        (r.0 ≡ 0) × (r.1 ≡ some (str ++ (0 ∷ [])))
  unfolding cstr_decode
  cstr_decode-cstr_encode mb str block v h a e =
      let w = cstr_encode_lem mb str v h in
      let held =
        set_pos-Holds mb _ (length str ∷ str) v w.0 (Wrote-done mb (length str ∷ str) _ w e) in
      let back = set_pos (cstr_encode mb str).1 mb.pos in
      let room : ltb (get_left back) 1 ≡ false = le→ltb _ _ (omega (arith, get_left_lem held)) in
      let rest = drop (mb.pos + length (length str ∷ str)) (contents mb) in
      let h1 = ahead-Holds (length str ∷ []) (str ++ rest) held in
      let fits : ltb (get_left (ahead back 1)) (length str) ≡ false =
        le→ltb _ _ (omega (arith, get_left_lem h1, length-append str rest)) in
      rw
        (
          room,
          read_u8-cons (length str) (str ++ rest) held,
          fits,
          strdup-append p str rest block h1 a,
        )
        (refl, refl)
