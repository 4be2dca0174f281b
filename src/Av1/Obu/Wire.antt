-- ===== src/Av1/Obu/Wire.antt =====
-- The bytes of a unit with a size field, what av1_obu_encode writes, and what av1_obu_decode makes
-- of them.
use re.Base.{
  ℕ, ◌+◌, ◌*◌, ◌/◌, ◌%◌, ◌^◌, ◌≤◌, ◌<◌, ◌≡◌, refl, sym, subst, arith, true, false, ltb, ◌==◌,
  bit_and, some, [], ◌∷◌, ◌++◌, append_assoc, append-nil, length, Bytes, length-append, bit_and_low,
  bit_or_shifted, le→ltb,
}
use re.Platform.{Platform}
use re.Mbuf.{Mbuf, get_left}
use re.Mbuf.Valid.{IsValid}
use re.Mbuf.Write.{Wrote, Wrote-|=, write_mem_lem}
use re.Mbuf.Words.{write_u8_lem, read_u8-cons}
use re.Mbuf.Read.{Holds, ahead, ahead-Holds, get_left_lem}
use re.Av1.Leb128.{leb128_encode, leb128_decode}
use re.Av1.Leb128.RoundTrip.{leb_bytes, leb128_encode_lem, leb128_decode_lem}
use re.Av1.Obu.{
  ObuHdr, flag_at, obu_byte, write_payload, obu_encode, check_size, obu_fields, obu_decode,
}

-- Header byte, size and payload.
abbrev pub obu_bytes : ℕ → Bytes → Bytes
obu_bytes type payload = (type * 8 + 2) ∷ (leb_bytes 9 (length payload) ++ payload)

obu_byte_lem : (type : ℕ) → type < 16 → obu_byte type true ≡ type * 8 + 2
unfolding obu_byte
obu_byte_lem type h =
    let low : bit_and type 0xf ≡ type = omega (arith, bit_and_low 4 type) in
    rw low (bit_or_shifted 3 type 2 (omega arith))

module _ (p : Platform) (mb : Mbuf) (v : IsValid mb) where
  write_payload_lem :
      (a payload : Bytes) (r : ℕ × Mbuf)
      → length payload < 2 ^ 63
      → Wrote mb a r
      → Wrote mb (a ++ payload) (write_payload p (some payload) r)
  unfolding write_payload
  write_payload_lem a [] r h w = subst (λ t. Wrote mb t r) (sym (append-nil a)) w
  write_payload_lem a (x ∷ payload) r h w =
      let some_bytes : (length (x ∷ payload) == 0) ≡ false = ground arith in
      rw some_bytes
        (Wrote-|= mb a (x ∷ payload) r _ v w (λ m vm. write_mem_lem p m (x ∷ payload) vm h))

  -- On a well-formed buffer, for a type below 16 and a payload of fewer than 2^63 bytes,
  -- av1_obu_encode with a size field writes, as one write would, the header byte, the size in
  -- groups of seven bits and the payload.
  pub obu_encode_lem :
      (type : ℕ) (payload : Bytes)
      → type < 16
      → length payload < 2 ^ 63
      → Wrote mb
          (obu_bytes type payload)
          (obu_encode p mb type true (length payload) (some payload))
  unfolding obu_encode
  obu_encode_lem type payload h hp =
      let b = type * 8 + 2 in
      let n = length payload in
      let w1 = write_u8_lem p b mb v in
      let w2 =
        Wrote-|= mb (b ∷ []) (leb_bytes 9 n) _ (λ m. leb128_encode p m n) v w1
          (λ m vm. leb128_encode_lem p m n vm (omega arith)) in
      rw (obu_byte_lem type h) (write_payload_lem (b ∷ leb_bytes 9 n) payload _ hp w2)

-- A header with this size.
abbrev pub sized : ℕ → ℕ → ObuHdr
sized type size = record { obu_type = type; x = false; s = true; size = size }

flag_at_lem : (val k : ℕ) (q : ℕ) → val / 2 ^ k % 2 ≡ q → flag_at val k ≡ (q == 1)
flag_at_lem val k q e = rw (bit_and_low 1 (val / 2 ^ k), e)

check_size_lem :
    (hdr : ObuHdr) (r : ℕ × ℕ × Mbuf) (size : ℕ)
    → r.0 ≡ 0
    → r.1 ≡ size
    → size ≤ get_left r.2
    → check_size hdr r ≡ (0, record hdr { size = size }, r.2)
unfolding check_size
check_size_lem hdr (err, s, mb) size e0 e1 h = rw (e0, e1, le→ltb _ _ h)

-- Where the bytes left to read start with a unit with a size field, of a type below 16 and with a
-- payload of fewer than 2^56 bytes, av1_obu_decode succeeds with its type and size and no
-- extension, and leaves the payload and what follows it to read.
pub obu_decode_lem :
    (hdr : ObuHdr) (type : ℕ) (payload rest : Bytes) (m : Mbuf)
    → type < 16
    → length payload < 2 ^ 56
    → Holds m (obu_bytes type payload ++ rest)
    → ((obu_decode hdr m).0 ≡ 0)
      × ((obu_decode hdr m).1 ≡ sized type (length payload))
      × Holds (obu_decode hdr m).2 (payload ++ rest)
unfolding obu_decode obu_fields
obu_decode_lem hdr type payload rest m h hp holds =
    let b = type * 8 + 2 in
    let n = length payload in
    let tail = leb_bytes 9 n ++ (payload ++ rest) in
    let here : Holds m (b ∷ tail) =
      subst (λ t. Holds m (b ∷ t)) (append_assoc (leb_bytes 9 n) payload rest) holds in
    let room : ltb (get_left m) 1 ≡ false = le→ltb _ _ (omega (arith, get_left_lem here)) in
    let f7 : flag_at b 7 ≡ false = flag_at_lem b 7 0 (omega arith) in
    let f2 : flag_at b 2 ≡ false = flag_at_lem b 2 0 (omega arith) in
    let f1 : flag_at b 1 ≡ true = flag_at_lem b 1 1 (omega arith) in
    let kind : bit_and (b / 2 ^ 3) 0xf ≡ type = omega (arith, bit_and_low 4 (b / 2 ^ 3)) in
    let (e, found, left) =
      leb128_decode_lem n (payload ++ rest) (ahead m 1) hp (ahead-Holds (b ∷ []) tail here) in
    let fits : n ≤ get_left (leb128_decode (ahead m 1)).2 =
      omega (arith, get_left_lem left, length-append payload rest) in
    let checked = check_size_lem (sized type 0) (leb128_decode (ahead m 1)) n e found fits in
    rw (room, read_u8-cons b tail here, f7, f2, f1, kind, checked) (refl, refl, left)
