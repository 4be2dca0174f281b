-- ===== src/Av1/Leb128/RoundTrip.antt =====
-- The bytes of a number, what the encoder writes, and what the decoder makes of them.
use re.Base.{
  ℕ, zero, suc, ◌+◌, ◌*◌, ◌/◌, ◌%◌, ◌^◌, ◌≤◌, ◌<◌, ◌≡◌, refl, ap, ◌∙◌, subst, inl, inr, arith,
  Bool-cases, true, false, ltb, ◌==◌, if◌then◌else◌, bit_and, bit_or, [], ◌∷◌, ◌++◌, append_assoc,
  length, Bytes, bit_and_low, bit_and_single, test_bit-div, bit_or_under, bit_or_shifted, lt→ltb,
  le→ltb, ltb→lt, drop,
}
use native.Mathlib.Nat.{pow-suc}
use re.Platform.{Platform}
use re.Mbuf.{Mbuf, ◌|=◌, get_left, set_pos}
use re.Mbuf.Valid.{IsValid, contents}
use re.Mbuf.Write.{Wrote, Wrote-|=}
use re.Mbuf.Words.{write_u8, write_u8_lem, read_u8-cons}
use re.Mbuf.Read.{Holds, ahead, ahead-Holds, get_left_lem}
use re.Mbuf.Outcome.{Wrote-nil}
use re.Mbuf.RoundTrip.{set_pos-Holds, Wrote-done}
use re.Av1.Leb128.{leb128_rounds, leb128_encode, leb128_read, leb128_decode}

-- Groups of seven bits, the lowest first; all but the last have the high bit set.
abbrev pub leb_bytes : ℕ → ℕ → Bytes
leb_bytes zero value = value ∷ []
leb_bytes (suc n) value =
    if ltb value 128 then value ∷ [] else ((128 + value % 128) ∷ leb_bytes n (value / 128))

more_byte : (value : ℕ) → bit_or 0x80 (bit_and value 0x7f) ≡ 128 + value % 128
more_byte value =
    omega
      (arith, ap (bit_or 128) (bit_and_low 7 value), bit_or_shifted 7 1 (value % 128) (omega arith))

module _ (p : Platform) (mb : Mbuf) (v : IsValid mb) where
  add_byte :
      (a : Bytes) (b : ℕ) (r : ℕ × Mbuf)
      → Wrote mb a r
      → Wrote mb (a ++ (b ∷ [])) (r |= λ m. write_u8 p m b)
  add_byte a b r w = Wrote-|= mb a (b ∷ []) r _ v w (λ m vm. write_u8_lem p b m vm)

  last_byte :
      (a : Bytes) (value : ℕ) (r : ℕ × Mbuf)
      → value < 128
      → Wrote mb a r
      → Wrote mb (a ++ (value ∷ [])) (r |= λ m. write_u8 p m (value % 256))
  last_byte a value r h w = let e : value % 256 ≡ value = omega arith in rw e (add_byte a value r w)

  leb128_rounds_lem :
      (n value : ℕ) (a : Bytes) (r : ℕ × Mbuf)
      → value < 128 ^ suc n
      → Wrote mb a r
      → Wrote mb (a ++ leb_bytes n value) (leb128_rounds p n value r)
  unfolding leb128_rounds
  leb128_rounds_lem zero value a r h w = last_byte a value r (omega arith) w
  leb128_rounds_lem (suc n) value a r h w =
      let b = 128 + value % 128 in
      let next = r |= λ m. write_u8 p m b in
      elim (Bool-cases (ltb value 128)) [
        | inl lt ↦ rw lt (last_byte a value r (ltb→lt _ _ lt) w)
        | inr ge ↦
            let less : value / 128 < 128 ^ suc n = omega (arith, pow-suc 128 (suc n)) in
            rw (ge, more_byte value)
              (subst (λ t. Wrote mb t (leb128_rounds p n (value / 2 ^ 7) next))
                (append_assoc a (b ∷ []) (leb_bytes n (value / 128)))
                (leb128_rounds_lem n (value / 128) (a ++ (b ∷ [])) next less (add_byte a b r w)))
      ]

bit_seven : (b : ℕ) → (bit_and b 0x80 == 0) ≡ ltb (b / 128 % 2) 1
bit_seven b = rw (bit_and_single 7 b, test_bit-div 7 b) (ground arith)

-- One round, on the byte `b`.
leb128_read-cons :
    (n i ret b : ℕ) (ys : Bytes) {m : Mbuf}
    → Holds m (b ∷ ys)
    → let ret' = bit_or ret (b % 128 * 2 ^ (i * 7)) in
      leb128_read (suc n) i ret m ≡ (
        if ltb (b / 128 % 2) 1
        then (0, ret', ahead m 1)
        else leb128_read n (i + 1) ret' (ahead m 1))
unfolding leb128_read
leb128_read-cons n i ret b ys {m} h =
    let room : ltb (get_left m) 1 ≡ false = le→ltb _ _ (omega (arith, get_left_lem h)) in
    let low : bit_and b 0x7f ≡ b % 128 = bit_and_low 7 b in
    rw (room, read_u8-cons b ys h, bit_seven b, low)

-- The outcome of the rounds: the number `v`, with `rest` left to read.
abbrev pub Decoded : ℕ × ℕ × Mbuf → ℕ → Bytes → Type 0
Decoded r v rest = (r.0 ≡ 0) × (r.1 ≡ v) × Holds r.2 rest

leb128_read_last :
    (n i ret value : ℕ) (rest : Bytes) {m : Mbuf}
    → ret < 2 ^ (i * 7)
    → value < 128
    → Holds m (value ∷ rest)
    → Decoded (leb128_read (suc n) i ret m) (ret + value * 2 ^ (i * 7)) rest
leb128_read_last n i ret value rest {m} h lt holds =
    let small : ltb (value / 128 % 2) 1 ≡ true = lt→ltb _ _ (omega arith) in
    let same : value % 128 ≡ value = omega arith in
    rw (leb128_read-cons n i ret value rest holds, small, same)
      (refl, bit_or_under (i * 7) value ret h, ahead-Holds (value ∷ []) rest holds)

next_power : (i : ℕ) → 2 ^ ((i + 1) * 7) ≡ 128 * 2 ^ (i * 7)
next_power i =
    let k = i * 7 in
    let e : (i + 1) * 7 ≡ suc (suc (suc (suc (suc (suc (suc k)))))) = omega arith in
    omega (
      arith,
      ap (λ (t : ℕ). 2 ^ t) e,
      pow-suc 2 k,
      pow-suc 2 (suc k),
      pow-suc 2 (suc (suc k)),
      pow-suc 2 (suc (suc (suc k))),
      pow-suc 2 (suc (suc (suc (suc k)))),
      pow-suc 2 (suc (suc (suc (suc (suc k))))),
      pow-suc 2 (suc (suc (suc (suc (suc (suc k)))))),
    )

next_found : (value ret w : ℕ) → ret + value % 128 * w + value / 128 * (128 * w) ≡ ret + value * w
next_found value ret w =
    let split : value ≡ value / 128 * 128 + value % 128 = omega arith in
    omega (arith, ap (λ (t : ℕ). t * w) split)

next_small : (r ret w : ℕ) → ret < w → r < 128 → ret + r * w < 128 * w
next_small r ret w h lt = grind arith

-- The number that the rounds from `i` on find, with what is still to come.
leb128_read-leb_bytes :
    (n k i ret value : ℕ) (rest : Bytes) {m : Mbuf}
    → n ≤ k
    → ret < 2 ^ (i * 7)
    → value < 128 ^ suc n
    → Holds m (leb_bytes k value ++ rest)
    → Decoded (leb128_read (suc n) i ret m) (ret + value * 2 ^ (i * 7)) rest
leb128_read-leb_bytes zero zero i ret value rest le h hv holds =
    leb128_read_last 0 i ret value rest h (omega arith) holds
leb128_read-leb_bytes zero (suc k) i ret value rest {m} le h hv holds =
    let lt : ltb value 128 ≡ true = lt→ltb _ _ (omega arith) in
    leb128_read_last 0 i ret value rest h (omega arith) (rw lt at holds)
leb128_read-leb_bytes (suc n) zero i ret value rest le h hv holds = absurd (omega arith)
leb128_read-leb_bytes (suc n) (suc k) i ret value rest {m} le h hv holds =
    elim (Bool-cases (ltb value 128)) [
      | inl lt ↦ leb128_read_last (suc n) i ret value rest h (ltb→lt _ _ lt) (rw lt at holds)
      | inr ge ↦
          let b = 128 + value % 128 in
          let ys = leb_bytes k (value / 128) ++ rest in
          let here : Holds m (b ∷ ys) = rw ge at holds in
          let high : ltb (b / 128 % 2) 1 ≡ false = le→ltb _ _ (omega arith) in
          let low : b % 128 ≡ value % 128 = omega arith in
          let ret' = ret + value % 128 * 2 ^ (i * 7) in
          let shift_pow : 2 ^ ((i + 1) * 7) ≡ 128 * 2 ^ (i * 7) = next_power i in
          let less : value / 128 < 128 ^ suc n = omega (arith, pow-suc 128 (suc n)) in
          let found : ret' + value / 128 * 2 ^ ((i + 1) * 7) ≡ ret + value * 2 ^ (i * 7) =
            ap (λ (t : ℕ). ret' + value / 128 * t) shift_pow ∙ next_found value ret (2 ^ (i * 7)) in
          let next : Holds (ahead m 1) ys = ahead-Holds (b ∷ []) ys here in
          let d =
            leb128_read-leb_bytes n k (i + 1) ret' (value / 128) rest {m = ahead m 1} (omega arith)
              (omega (arith, shift_pow, next_small (value % 128) ret (2 ^ (i * 7)) h (omega arith)))
              less next in
          rw
            (
              leb128_read-cons (suc n) i ret b ys here,
              high,
              low,
              bit_or_under (i * 7) (value % 128) ret h,
            )
            (subst (λ t. Decoded (leb128_read (suc n) (i + 1) ret' (ahead m 1)) t rest) found d)
    ]

module _ (p : Platform) where
  -- On a well-formed buffer and for any number of 64 bits, the nine rounds that the loop of
  -- av1_leb128_encode is given are enough: it writes, as one write would, the groups of seven bits
  -- of the number, the lowest first.
  pub leb128_encode_lem :
      (mb : Mbuf) (value : ℕ)
      → IsValid mb
      → value < 2 ^ 64
      → Wrote mb (leb_bytes 9 value) (leb128_encode p mb value)
  unfolding leb128_encode
  leb128_encode_lem mb value v h =
      leb128_rounds_lem p mb v 9 value [] (0, mb) (omega arith) (Wrote-nil mb v)

pub leb128_decode_lem :
    (value : ℕ) (rest : Bytes) (m : Mbuf)
    → value < 2 ^ 56
    → Holds m (leb_bytes 9 value ++ rest)
    → Decoded (leb128_decode m) value rest
unfolding leb128_decode
leb128_decode_lem value rest m h holds =
    let e : 0 + value * 2 ^ (0 * 7) ≡ value = omega arith in
    subst (λ t. Decoded (leb128_decode m) t rest) e
      (leb128_read-leb_bytes 7 9 0 0 value rest (omega arith) (omega arith) (omega arith) holds)

module _ (p : Platform) where
  -- For a well-formed buffer and a number below 2^56: where av1_leb128_encode succeeds and the
  -- position is set back, av1_leb128_decode succeeds with that number and leaves what stood behind
  -- it to read.
  pub leb128_decode-leb128_encode :
      (mb : Mbuf) (value : ℕ)
      → IsValid mb
      → value < 2 ^ 56
      → (leb128_encode p mb value).0 ≡ 0
      → Decoded
          (leb128_decode (set_pos (leb128_encode p mb value).1 mb.pos))
          value
          (drop (mb.pos + length (leb_bytes 9 value)) (contents mb))
  leb128_decode-leb128_encode mb value v h e =
      let w = leb128_encode_lem p mb value v (omega arith) in
      leb128_decode_lem value _ _ h
        (set_pos-Holds mb _ (leb_bytes 9 value) v w.0 (Wrote-done mb (leb_bytes 9 value) _ w e))
