-- ===== src/Base64/RoundTrip.antt =====
-- base64_decode on what base64_encode and base64url_encode write.
use re.Base.{
  ℕ, ◌+◌, ◌*◌, ◌/◌, ◌%◌, ◌^◌, ◌≤◌, ◌<◌, ◌≡◌, refl, ◌∙◌, arith, bit_or, [], ◌∷◌, length, get_or,
  Bytes, bit_or_shifted, bit_and_low, false, ltb, le→ltb,
}
use re.Base64.{
  b64_table, b64url_table, sextet, b64val, pack, unpack, encode_loop, url_loop, decode_loop, encode,
  url_encode, decode,
}
use re.Base64.Values.{
  b64val-b64_table, b64val-b64url_table, pack_full, pack_two, pack_one, unpack_three, unpack_two,
  unpack_one,
}

-- Every element is a byte.
abbrev pub AllBytes : Bytes → Type 0
AllBytes [] = Unit
AllBytes (x ∷ xs) = (x < 256) × AllBytes xs

joined_two : (a b : ℕ) → b < 256 → bit_or (a * 2 ^ 16) (b * 2 ^ 8) ≡ a * 2 ^ 16 + b * 2 ^ 8
joined_two a b hb = bit_or_shifted 16 a (b * 2 ^ 8) (omega arith)

joined :
    (a b c : ℕ)
    → b < 256
    → c < 256
    → bit_or (bit_or (a * 2 ^ 16) (b * 2 ^ 8)) c ≡ a * 2 ^ 16 + b * 2 ^ 8 + c
joined a b c hb hc =
    let e : a * 2 ^ 16 + b * 2 ^ 8 ≡ (a * 2 ^ 8 + b) * 2 ^ 8 = omega arith in
    rw (joined_two a b hb, e) (bit_or_shifted 8 (a * 2 ^ 8 + b) c hc ∙ omega arith)

-- The tables hold the values of their characters.
module _ (table : Bytes) (values : (k : ℕ) → k < 64 → b64val (get_or table k 0) ≡ k) where
  sextet_lem : (v k : ℕ) → b64val (sextet table v k) ≡ v / 2 ^ k % 64
  unfolding sextet
  sextet_lem v k = rw (bit_and_low 6 (v / 2 ^ k)) (values (v / 2 ^ k % 64) (omega arith))

  round_three :
      (a b c : ℕ)
      → a < 256
      → b < 256
      → c < 256
      → let v = bit_or (bit_or (a * 2 ^ 16) (b * 2 ^ 8)) c in
        unpack (
          pack
            (b64val (sextet table v 18))
            (b64val (sextet table v 12))
            (b64val (sextet table v 6))
            (b64val (sextet table v 0)))
        ≡ a ∷ b ∷ c ∷ []
  round_three a b c ha hb hc =
      let v = a * 2 ^ 16 + b * 2 ^ 8 + c in
      rw (joined a b c hb hc, sextet_lem v 18, sextet_lem v 12, sextet_lem v 6, sextet_lem v 0)
        (unpack_three _ a b c ha hb hc (
          pack_full (v / 2 ^ 18 % 64) (v / 2 ^ 12 % 64) (v / 2 ^ 6 % 64) (v / 2 ^ 0 % 64)
            (omega arith) (omega arith) (omega arith) (omega arith)
          ∙ omega arith))

  round_two :
      (a b : ℕ)
      → a < 256
      → b < 256
      → let v = bit_or (a * 2 ^ 16) (b * 2 ^ 8) in
        unpack (
          pack
            (b64val (sextet table v 18))
            (b64val (sextet table v 12))
            (b64val (sextet table v 6))
            (2 ^ 24))
        ≡ a ∷ b ∷ []
  round_two a b ha hb =
      let v = a * 2 ^ 16 + b * 2 ^ 8 in
      rw (joined_two a b hb, sextet_lem v 18, sextet_lem v 12, sextet_lem v 6)
        (unpack_two _ a b ha hb (
          pack_two (v / 2 ^ 18 % 64) (v / 2 ^ 12 % 64) (v / 2 ^ 6 % 64) (omega arith) (omega arith)
            (omega arith)
          ∙ omega arith))

  round_one :
      (a : ℕ)
      → a < 256
      → let v = a * 2 ^ 16 in
        unpack (pack (b64val (sextet table v 18)) (b64val (sextet table v 12)) (2 ^ 24) (2 ^ 24))
        ≡ a ∷ []
  round_one a ha =
      let v = a * 2 ^ 16 in
      rw (sextet_lem v 18, sextet_lem v 12)
        (unpack_one _ a ha
          (pack_one (v / 2 ^ 18 % 64) (v / 2 ^ 12 % 64) (omega arith) (omega arith) ∙ omega arith))

pad_value : b64val b'=' ≡ 2 ^ 24
unfolding b64val
pad_value = refl

decode_loop-encode_loop : (s : Bytes) → AllBytes s → decode_loop (encode_loop s) ≡ s
unfolding decode_loop encode_loop
decode_loop-encode_loop [] h = refl
decode_loop-encode_loop (a ∷ []) (ha, _) = rw (pad_value, round_one b64_table b64val-b64_table a ha)
decode_loop-encode_loop (a ∷ b ∷ []) (ha, (hb, _)) =
    rw (pad_value, round_two b64_table b64val-b64_table a b ha hb)
decode_loop-encode_loop (a ∷ b ∷ c ∷ s) (ha, (hb, (hc, h))) =
    rw (round_three b64_table b64val-b64_table a b c ha hb hc, decode_loop-encode_loop s h)

pub decode_loop-url_loop : (s : Bytes) → AllBytes s → decode_loop (url_loop s) ≡ s
unfolding decode_loop url_loop
decode_loop-url_loop [] h = refl
decode_loop-url_loop (a ∷ []) (ha, _) = round_one b64url_table b64val-b64url_table a ha
decode_loop-url_loop (a ∷ b ∷ []) (ha, (hb, _)) =
    round_two b64url_table b64val-b64url_table a b ha hb
decode_loop-url_loop (a ∷ b ∷ c ∷ s) (ha, (hb, (hc, h))) =
    rw (round_three b64url_table b64val-b64url_table a b c ha hb hc, decode_loop-url_loop s h)

length-encode_loop : (s : Bytes) → length (encode_loop s) ≡ 4 * ((length s + 2) / 3)
unfolding encode_loop
length-encode_loop [] = refl
length-encode_loop (a ∷ []) = refl
length-encode_loop (a ∷ b ∷ []) = refl
length-encode_loop (a ∷ b ∷ c ∷ s) = omega (arith, length-encode_loop s)

pub length-url_loop : (s : Bytes) → length (url_loop s) ≡ length s + (length s + 2) / 3
unfolding url_loop
length-url_loop [] = refl
length-url_loop (a ∷ []) = refl
length-url_loop (a ∷ b ∷ []) = refl
length-url_loop (a ∷ b ∷ c ∷ s) = omega (arith, length-url_loop s)

-- For input bytes below 256 and destinations of 4*ceil(n/3) characters and 3*ceil(n/3) bytes at
-- least: base64_encode succeeds and writes exactly 4*ceil(n/3) characters, and base64_decode of
-- them succeeds and gives the input back.
pub decode-encode :
    (s : Bytes) (olen dlen : ℕ)
    → AllBytes s
    → 4 * ((length s + 2) / 3) ≤ olen
    → 3 * ((length s + 2) / 3) ≤ dlen
    → ((encode s olen).0 ≡ 0)
      × (length (encode s olen).1 ≡ 4 * ((length s + 2) / 3))
      × (decode (encode s olen).1 dlen ≡ (0, s, length s))
unfolding encode decode
decode-encode s olen dlen h room room' =
    let fits = le→ltb _ _ room in
    let fits' : ltb dlen (3 * (length (encode_loop s) / 4)) ≡ false =
      le→ltb _ _ (omega (arith, length-encode_loop s)) in
    rw (fits, fits', decode_loop-encode_loop s h) (refl, length-encode_loop s, refl)

-- For input bytes below 256 and destinations of 4*ceil(n/3) characters and 3*ceil(n/3) bytes at
-- least: base64url_encode succeeds and writes exactly n + ceil(n/3) characters, and base64_decode
-- of them succeeds and gives the input back.
pub decode-url_encode :
    (s : Bytes) (olen dlen : ℕ)
    → AllBytes s
    → 4 * ((length s + 2) / 3) ≤ olen
    → 3 * ((length s + 2) / 3) ≤ dlen
    → ((url_encode s olen).0 ≡ 0)
      × (length (url_encode s olen).1 ≡ length s + (length s + 2) / 3)
      × (decode (url_encode s olen).1 dlen ≡ (0, s, length s))
unfolding url_encode decode
decode-url_encode s olen dlen h room room' =
    let fits = le→ltb _ _ room in
    let fits' : ltb dlen (3 * (length (url_loop s) / 4)) ≡ false =
      le→ltb _ _ (omega (arith, length-url_loop s)) in
    rw (fits, fits', decode_loop-url_loop s h) (refl, length-url_loop s, refl)
