-- ===== src/Fmt/Number/Unsigned.antt =====
-- pl_u32, pl_x32, pl_u64 and pl_x64 against the value of the numeral.
use re.Base.{
  ℕ, ◌+◌, ◌*◌, ◌%◌, ◌^◌, ◌<◌, ◌≡◌, refl, sym, ap, ◌∙◌, inl, inr, arith, Option-cases, Option, none,
  some, List, [], ◌∷◌, Bytes,
}
use mathlib.Core.List.{reverse}
use native.Mathlib.Nat.{mod-add-mod, mod-lt, mod-eq_of_lt, mul_assoc, mul-add}
use re.Fmt.Number.{dec_digit, hex_digit, number_loop, unsigned, pl_u32, pl_x32, pl_u64, pl_x64}
use re.Fmt.Number.Horner.{
  from_last, numeral, numeral-from_last, mod_times, meaning, decimals, hexadecimals, AllBytes,
  numeral-same,
}

module _ (digit : ℕ → Option ℕ) (base w : ℕ) where
  -- What the unsigned functions promise: the number reduced to `w` bits, 0 where it is none.
  abbrev pub reduced : Option Bytes → ℕ
  reduced none = 0
  reduced (some s) = elim (numeral digit base s) [ none ↦ 0 | some n ↦ n % 2 ^ w ]

module _ (digit : ℕ → Option ℕ) (base w : ℕ) (pos : 0 < 2 ^ w) where
  abbrev next : Bytes → ℕ → ℕ → Option ℕ → ℕ
  next cs v mul d = elim d [
    | none ↦ 0
    | some c ↦ number_loop digit base w cs ((v + mul * c) % 2 ^ w) (mul * base % 2 ^ w)
  ]

  number_loop_lem :
      (cs : Bytes) (v mul : ℕ)
      → v < 2 ^ w
      → number_loop digit base w cs v mul
        ≡ elim (from_last digit base cs) [ none ↦ 0 | some n ↦ (v + mul * n) % 2 ^ w ]
  unfolding number_loop
  number_loop_lem [] v mul h = sym (ap (λ t. t % 2 ^ w) (omega arith) ∙ mod-eq_of_lt h)
  number_loop_lem (ch ∷ cs) v mul h = elim (Option-cases (digit ch)) [
    | inl e ↦ ap (next cs v mul) e ∙ rw e refl
    | inr (c, e) ↦
        let v' = (v + mul * c) % 2 ^ w in
        let mul' = mul * base % 2 ^ w in
        let ih = number_loop_lem cs v' mul' (mod-lt (v + mul * c) pos) in
        ap (next cs v mul) e ∙ elim (Option-cases (from_last digit base cs)) [
          | inl none_left ↦ rw (e, none_left) (rw none_left at ih)
          | inr (n, got) ↦
              let total : v + mul * c + mul * base * n ≡ v + mul * (c + base * n) =
                omega (arith, mul_assoc mul base n, mul-add mul c (base * n)) in
              let steps =
                mod-add-mod (v + mul * c) (2 ^ w) (mul' * n)
                ∙ mod_times (v + mul * c) (mul * base) n (2 ^ w)
                ∙ ap (λ t. t % 2 ^ w) total in
              rw (e, got) (rw got at ih ∙ steps)
        ]
  ]

  abbrev started : Option ℕ → ℕ
  started o = elim o [ none ↦ 0 | some n ↦ (0 + 1 * n) % 2 ^ w ]

  started_lem : (o : Option ℕ) → started o ≡ elim o [ none ↦ 0 | some n ↦ n % 2 ^ w ]
  started_lem none = refl
  started_lem (some n) = ap (λ t. t % 2 ^ w) (omega arith)

  unsigned_lem : (pl : Option Bytes) → unsigned digit base w pl ≡ reduced digit base w pl
  unfolding unsigned
  unsigned_lem none = refl
  unsigned_lem (some s) =
      number_loop_lem (reverse s) 0 1 pos
      ∙ ap started (numeral-from_last digit base s)
      ∙ started_lem (numeral digit base s)

dec_digit_lem : (ch : ℕ) → ch < 256 → dec_digit ch ≡ meaning decimals ch
dec_digit_lem ch h = ground arith

hex_digit_lem : (ch : ℕ) → ch < 256 → hex_digit ch ≡ meaning hexadecimals ch
hex_digit_lem ch h = ground arith

abbrev pub AllText : Option Bytes → Type 0
AllText none = Unit
AllText (some s) = AllBytes s

same_reduced :
    (digit : ℕ → Option ℕ) (table : List (ℕ × ℕ)) (base w : ℕ)
    → ((ch : ℕ) → ch < 256 → digit ch ≡ meaning table ch)
    → (pl : Option Bytes) → AllText pl
    → reduced digit base w pl ≡ reduced (meaning table) base w pl
same_reduced digit table base w h none a = refl
same_reduced digit table base w h (some s) a =
    ap (λ o. elim o [ none ↦ 0 | some n ↦ n % 2 ^ w ])
      (numeral-same base digit (meaning table) h s 0 a)

-- For any text of bytes, pl_u32 and pl_u64 give the number that its decimal digits mean, by a
-- table of the ten characters and read from the front, modulo 2^32 and 2^64, and pl_x32 and pl_x64
-- the number that its hexadecimal digits of either case mean; each gives 0 where the text is NULL
-- or has a character that is no digit.
pub unsigned_numbers :
    (pl : Option Bytes)
    → AllText pl
    → (pl_u32 pl ≡ reduced (meaning decimals) 10 32 pl)
      × (pl_x32 pl ≡ reduced (meaning hexadecimals) 16 32 pl)
      × (pl_u64 pl ≡ reduced (meaning decimals) 10 64 pl)
      × (pl_x64 pl ≡ reduced (meaning hexadecimals) 16 64 pl)
unfolding pl_u32 pl_x32 pl_u64 pl_x64
unsigned_numbers pl a = (
  unsigned_lem dec_digit 10 32 (omega arith) pl
      ∙ same_reduced dec_digit decimals 10 32 dec_digit_lem pl a,
  unsigned_lem hex_digit 16 32 (omega arith) pl
      ∙ same_reduced hex_digit hexadecimals 16 32 hex_digit_lem pl a,
  unsigned_lem dec_digit 10 64 (omega arith) pl
      ∙ same_reduced dec_digit decimals 10 64 dec_digit_lem pl a,
  unsigned_lem hex_digit 16 64 (omega arith) pl
      ∙ same_reduced hex_digit hexadecimals 16 64 hex_digit_lem pl a,
)
