-- ===== src/Fmt/Number/Horner.antt =====
-- The value of a numeral, read from the front, and what the loop from the back makes of it.
use re.Base.{
  ℕ, ◌+◌, ◌*◌, ◌/◌, ◌%◌, ◌≡◌, refl, sym, ap, ◌∙◌, ◌==◌, if◌then◌else◌, ◌<◌, inl, inr, arith, List,
  Option-cases, Option, none, some, [], ◌∷◌, ◌++◌, Bytes,
}
use mathlib.Core.List.{reverse, reverse-cons, reverse-reverse}
use native.Mathlib.Nat.{add-mul-mod_self_left, mod-add-div', mul_comm, mul_right_comm, add-mul}

module _ (digit : ℕ → Option ℕ) (base : ℕ) where
  -- The number that the digits of a text mean, `none` where a character is no digit.
  abbrev pub numeral_from : ℕ → Bytes → Option ℕ
  numeral_from acc [] = some acc
  numeral_from acc (ch ∷ s) = elim (digit ch) [
    | none ↦ none
    | some c ↦ numeral_from (acc * base + c) s
  ]

  abbrev pub numeral : Bytes → Option ℕ
  numeral = numeral_from 0

  -- The same from the last digit on.
  abbrev pub from_last : Bytes → Option ℕ
  from_last [] = some 0
  from_last (ch ∷ cs) = elim (digit ch) [
    | none ↦ none
    | some c ↦ elim (from_last cs) [ none ↦ none | some n ↦ some (c + base * n) ]
  ]

  swapped :
      (d r : Option ℕ)
      → elim r [ none ↦ none | some n ↦ elim d [ none ↦ none | some c ↦ some (n * base + c) ] ]
        ≡ elim d [ none ↦ none | some c ↦ elim r [ none ↦ none | some n ↦ some (c + base * n) ] ]
  swapped none none = refl
  swapped none (some n) = refl
  swapped (some c) none = refl
  swapped (some c) (some n) = ap some (omega (arith, mul_comm n base))

  numeral_from-snoc :
      (s : Bytes) (acc ch : ℕ)
      → numeral_from acc (s ++ (ch ∷ [])) ≡ elim (numeral_from acc s) [
        | none ↦ none
        | some n ↦ elim (digit ch) [ none ↦ none | some c ↦ some (n * base + c) ]
      ]
  numeral_from-snoc [] acc ch = refl
  numeral_from-snoc (x ∷ s) acc ch = elim (Option-cases (digit x)) [
    | inl e ↦ rw e refl
    | inr (c, e) ↦ rw e (numeral_from-snoc s (acc * base + c) ch)
  ]

  numeral-reverse : (cs : Bytes) → numeral (reverse cs) ≡ from_last cs
  numeral-reverse [] = refl
  numeral-reverse (ch ∷ cs) =
      ap numeral (reverse-cons ch cs)
      ∙ numeral_from-snoc (reverse cs) 0 ch
      ∙ rw (numeral-reverse cs) (swapped (digit ch) (from_last cs))

  pub numeral-from_last : (s : Bytes) → from_last (reverse s) ≡ numeral s
  numeral-from_last s = sym (numeral-reverse (reverse s)) ∙ ap numeral (reverse-reverse s)

-- What the characters of a table mean.
abbrev pub meaning : List (ℕ × ℕ) → ℕ → Option ℕ
meaning [] ch = none
meaning ((x, value) ∷ table) ch = if ch == x then some value else meaning table ch

abbrev pub decimals : List (ℕ × ℕ)
decimals =
    (b'0', 0)
    ∷ (b'1', 1)
    ∷ (b'2', 2)
    ∷ (b'3', 3)
    ∷ (b'4', 4)
    ∷ (b'5', 5)
    ∷ (b'6', 6)
    ∷ (b'7', 7)
    ∷ (b'8', 8)
    ∷ (b'9', 9)
    ∷ []

abbrev pub hexadecimals : List (ℕ × ℕ)
hexadecimals =
    decimals
    ++ (b'a', 10)
      ∷ (b'b', 11)
      ∷ (b'c', 12)
      ∷ (b'd', 13)
      ∷ (b'e', 14)
      ∷ (b'f', 15)
      ∷ (b'A', 10)
      ∷ (b'B', 11)
      ∷ (b'C', 12)
      ∷ (b'D', 13)
      ∷ (b'E', 14)
      ∷ (b'F', 15)
      ∷ []

abbrev pub AllBytes : Bytes → Type 0
AllBytes [] = Unit
AllBytes (b ∷ bs) = (b < 256) × AllBytes bs

-- Two readings that agree on bytes read the same numbers.
pub numeral-same :
    (base : ℕ) (digit digit' : ℕ → Option ℕ)
    → ((ch : ℕ) → ch < 256 → digit ch ≡ digit' ch)
    → (s : Bytes) (acc : ℕ) → AllBytes s
    → numeral_from digit base acc s ≡ numeral_from digit' base acc s
numeral-same base digit digit' h [] acc a = refl
numeral-same base digit digit' h (ch ∷ s) acc (lt, a) =
    ap (read digit) (h ch lt) ∙ elim (digit' ch) as (λ d. read digit d ≡ read digit' d) [
      | none ↦ refl
      | some c ↦ numeral-same base digit digit' h s (acc * base + c) a
    ]
  where
    read : (ℕ → Option ℕ) → Option ℕ → Option ℕ
    read f d = elim d [ none ↦ none | some c ↦ numeral_from f base (acc * base + c) s ]

-- A factor may be reduced first.
pub mod_times : (a k r m : ℕ) → (a + k % m * r) % m ≡ (a + k * r) % m
mod_times a k r m =
    let split : a + k * r ≡ a + k % m * r + m * (k / m * r) =
      ap (λ t. a + t * r) (sym (mod-add-div' k m))
      ∙ omega (
        arith,
        add-mul (k % m) (k / m * m) r,
        mul_right_comm (k / m) m r,
        mul_comm (k / m * r) m,
      ) in
    sym (ap (λ t. t % m) split ∙ add-mul-mod_self_left (a + k % m * r) m (k / m * r))
