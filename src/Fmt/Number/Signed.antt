-- ===== src/Fmt/Number/Signed.antt =====
-- pl_i32 and pl_i64 against the value of a numeral with a sign.
use re.Base.{
  ℕ, ◌+◌, ◌-◌, ◌*◌, ◌%◌, ◌^◌, ◌<◌, ◌≡◌, refl, sym, ap, subst, ◌∙◌, inl, inr, arith, Bool, true,
  false, ◌&&◌, ◌||◌, if◌then◌else◌, ◌==◌, Bool-cases, Option-cases, Option, none, some, [], ◌∷◌,
  ◌++◌, append-nil, Bytes,
}
use mathlib.Core.Path.{fun_ext}
use mathlib.Core.List.{reverse, reverse-cons}
use native.Mathlib.Nat.{mul_assoc, mul-add}
use re.Fmt.Number.{decimal, is_first, minus, with_sign, signed_loop, signed_number, pl_i32, pl_i64}
use re.Fmt.Number.Horner.{from_last, numeral, numeral-from_last, mod_times, meaning, decimals}

module _ (w : ℕ) where
  -- The value and the negated value on `w` bits, 0 where there is none.
  abbrev pub positive : Option ℕ → ℕ
  positive none = 0
  positive (some n) = n % 2 ^ w

  abbrev pub negative : Option ℕ → ℕ
  negative none = 0
  negative (some n) = (2 ^ w - n % 2 ^ w) % 2 ^ w

  -- The value of a text with an optional sign, read by `digit`.
  abbrev pub valued : (ℕ → Option ℕ) → Option Bytes → ℕ
  valued digit none = 0
  valued digit (some []) = 0
  valued digit (some (ch ∷ s)) =
      if ch == b'-'
      then negative (numeral digit 10 s)
      else if ch == b'+'
      then positive (numeral digit 10 s)
      else positive (numeral digit 10 (ch ∷ s))

  abbrev pub signed_value : Option Bytes → ℕ
  signed_value = valued (meaning decimals)

decimal_lem : (ch : ℕ) → decimal ch ≡ meaning decimals ch
decimal_lem ch = ground arith

-- Arithmetic on the words of `w` bits.
record Word (w : ℕ) : Type 0 where
  minus-minus : (v x y : ℕ) → minus w (minus w v x) y ≡ minus w v (x + y)
  minus-mod : (v x : ℕ) → minus w v (x % 2 ^ w) ≡ minus w v x
  with_sign_minus : (x : ℕ) → with_sign w false (minus w 0 x) ≡ x % 2 ^ w
  with_sign_zero : with_sign w false 0 ≡ 0
  below : 0 < 2 ^ w
  minus_zero : (v : ℕ) → v < 2 ^ w → minus w v 0 ≡ v
  minus-lt : (v x : ℕ) → minus w v x < 2 ^ w

word32 : Word 32
unfolding with_sign
word32 = record {
  minus-minus = λ v x y. omega arith;
  minus-mod = λ v x. omega arith;
  with_sign_minus = λ x. ground arith;
  with_sign_zero = refl;
  below = omega arith;
  minus_zero = λ v h. omega arith;
  minus-lt = λ v x. omega arith;
}

word64 : Word 64
unfolding with_sign
word64 = record {
  minus-minus = λ v x y. omega arith;
  minus-mod = λ v x. omega arith;
  with_sign_minus = λ x. ground arith;
  with_sign_zero = refl;
  below = omega arith;
  minus_zero = λ v h. omega arith;
  minus-lt = λ v x. omega arith;
}

abbrev is_sign : ℕ → Bool
is_sign ch = ch == b'-' || ch == b'+'

-- No character of `cs`, with `e` before it in the text, is taken for a sign.
abbrev Quiet : Bytes → Bytes → Type 0
Quiet e [] = Unit
Quiet e (x ∷ cs) = ((is_sign x && is_first (cs ++ e)) ≡ false) × Quiet e cs

first_of_snoc : (cs : Bytes) (ch : ℕ) → is_first (cs ++ (ch ∷ [])) ≡ false
first_of_snoc [] ch = refl
first_of_snoc (x ∷ cs) ch = refl

and_false : (b : Bool) → (b && false) ≡ false
and_false true = refl
and_false false = refl

Quiet-behind : (cs : Bytes) (ch : ℕ) → Quiet (ch ∷ []) cs
Quiet-behind [] ch = tt
Quiet-behind (x ∷ cs) ch = (rw (first_of_snoc cs ch) (and_false (is_sign x)), Quiet-behind cs ch)

Quiet-snoc : (cs : Bytes) (ch : ℕ) → is_sign ch ≡ false → Quiet [] (cs ++ (ch ∷ []))
Quiet-snoc [] ch h = (rw h refl, tt)
Quiet-snoc (x ∷ cs) ch h = (
  rw (append-nil (cs ++ (ch ∷ [])), first_of_snoc cs ch) (and_false (is_sign x)),
  Quiet-snoc cs ch h,
)

module _ (w : ℕ) (law : Word w) where
  abbrev next : Bytes → ℕ → ℕ → ℕ → Option ℕ → ℕ
  next cs ch v mul d = elim d [
    | some c ↦ signed_loop w cs (minus w v (mul * c)) (mul * 10 % 2 ^ w)
    | none ↦
        if ch == b'-' && is_first cs
        then with_sign w true v
        else if ch == b'+' && is_first cs
        then with_sign w false v
        else 0
  ]

  no_sign :
      (ch : ℕ) (first : Bool) (a b : ℕ)
      → (is_sign ch && first) ≡ false
      → (if ch == b'-' && first then a else if ch == b'+' && first then b else 0) ≡ 0
  no_sign ch true a b h = ground arith
  no_sign ch false a b h = ground arith

  -- One digit and the digits before it.
  steps :
      (v mul c n : ℕ)
      → minus w (minus w v (mul * c)) (mul * 10 % 2 ^ w * n) ≡ minus w v (mul * (c + 10 * n))
  steps v mul c n =
      let v' = minus w v (mul * c) in
      let zero_left = λ (t : ℕ). let e : t ≡ 0 + t = omega arith in ap (λ u. u % 2 ^ w) e in
      let same : mul * 10 % 2 ^ w * n % 2 ^ w ≡ mul * 10 * n % 2 ^ w =
        zero_left (mul * 10 % 2 ^ w * n)
        ∙ mod_times 0 (mul * 10) n (2 ^ w)
        ∙ sym (zero_left (mul * 10 * n)) in
      let total : mul * c + mul * 10 * n ≡ mul * (c + 10 * n) =
        omega (arith, mul_assoc mul 10 n, mul-add mul c (10 * n)) in
      sym (law.minus-mod v' (mul * 10 % 2 ^ w * n))
      ∙ ap (minus w v') same
      ∙ law.minus-mod v' (mul * 10 * n)
      ∙ law.minus-minus v (mul * c) (mul * 10 * n)
      ∙ ap (minus w v) total

  signed_loop_lem :
      (e : Bytes) (neg : Bool)
      → ((v mul : ℕ) → v < 2 ^ w → signed_loop w e v mul ≡ with_sign w neg v)
      → (cs : Bytes) (v mul : ℕ) → Quiet e cs
      → v < 2 ^ w
      → signed_loop w (cs ++ e) v mul ≡ elim (from_last decimal 10 cs) [
        | none ↦ 0
        | some n ↦ with_sign w neg (minus w v (mul * n))
      ]
  unfolding signed_loop
  signed_loop_lem e neg f [] v mul q h =
      f v mul h ∙ ap (with_sign w neg) (sym (ap (minus w v) (omega arith) ∙ law.minus_zero v h))
  signed_loop_lem e neg f (ch ∷ cs) v mul (quiet, q) h = elim (Option-cases (decimal ch)) [
    | inl is ↦
        ap (next (cs ++ e) ch v mul) is ∙ no_sign ch (is_first (cs ++ e)) _ _ quiet ∙ rw is refl
    | inr (c, is) ↦
        let v' = minus w v (mul * c) in
        let mul' = mul * 10 % 2 ^ w in
        let ih = signed_loop_lem e neg f cs v' mul' q (law.minus-lt v (mul * c)) in
        ap (next (cs ++ e) ch v mul) is ∙ elim (Option-cases (from_last decimal 10 cs)) [
          | inl none_left ↦ rw (is, none_left) (rw none_left at ih)
          | inr (n, got) ↦ rw (is, got) (rw got at ih ∙ ap (with_sign w neg) (steps v mul c n))
        ]
  ]

  value_lem :
      (o : Option ℕ) (neg : Bool)
      → elim o [ none ↦ 0 | some n ↦ with_sign w neg (minus w 0 (1 * n)) ]
        ≡ (if neg then negative w o else positive w o)
  unfolding with_sign
  value_lem none true = refl
  value_lem none false = refl
  value_lem (some n) true =
      let plain : 0 + 2 ^ w ≡ 2 ^ w = omega arith in
      ap (minus w 0) (omega arith) ∙ ap (λ t. (t - n % 2 ^ w) % 2 ^ w) plain
  value_lem (some n) false =
      ap (λ t. with_sign w false (minus w 0 t)) (omega arith) ∙ law.with_sign_minus n

  -- The loop over a text that is cut in two at its end for a sign.
  loop_value :
      (e : Bytes) (neg : Bool)
      → ((v mul : ℕ) → v < 2 ^ w → signed_loop w e v mul ≡ with_sign w neg v)
      → (s : Bytes) → Quiet e (reverse s)
      → signed_loop w (reverse s ++ e) 0 1
        ≡ (if neg then negative w (numeral decimal 10 s) else positive w (numeral decimal 10 s))
  loop_value e neg f s q =
      signed_loop_lem e neg f (reverse s) 0 1 q law.below
      ∙ value_lem (from_last decimal 10 (reverse s)) neg
      ∙ ap (λ o. if neg then negative w o else positive w o) (numeral-from_last decimal 10 s)

  minus_end : (v mul : ℕ) → v < 2 ^ w → signed_loop w (b'-' ∷ []) v mul ≡ with_sign w true v
  unfolding signed_loop
  minus_end v mul h = refl

  plus_end : (v mul : ℕ) → v < 2 ^ w → signed_loop w (b'+' ∷ []) v mul ≡ with_sign w false v
  unfolding signed_loop
  plus_end v mul h = refl

  no_end : (v mul : ℕ) → v < 2 ^ w → signed_loop w [] v mul ≡ with_sign w false v
  unfolding signed_loop
  no_end v mul h = refl

  signed_lem : (pl : Option Bytes) → signed_number w pl ≡ valued w decimal pl
  unfolding signed_number
  signed_lem none = refl
  signed_lem (some []) = no_end 0 1 law.below ∙ law.with_sign_zero
  signed_lem (some (ch ∷ s)) =
      let turned = ap (λ t. signed_loop w t 0 1) (reverse-cons ch s) in
      elim (Bool-cases (ch == b'-')) [
        | inl is ↦
            let here : ch ≡ b'-' = ground (arith, is) in
            let front = ap (λ (c : ℕ). signed_loop w (reverse s ++ (c ∷ [])) 0 1) here in
            rw is (
              turned
              ∙ front
              ∙ loop_value (b'-' ∷ []) true minus_end s (Quiet-behind (reverse s) b'-'))
        | inr off ↦ elim (Bool-cases (ch == b'+')) [
          | inl is ↦
              let here : ch ≡ b'+' = ground (arith, is) in
              let front = ap (λ (c : ℕ). signed_loop w (reverse s ++ (c ∷ [])) 0 1) here in
              rw (off, is)
                (turned
                  ∙ front
                  ∙ loop_value (b'+' ∷ []) false plus_end s (Quiet-behind (reverse s) b'+'))
          | inr off' ↦
              let quiet : Quiet [] (reverse (ch ∷ s)) =
                subst (Quiet []) (sym (reverse-cons ch s))
                  (Quiet-snoc (reverse s) ch (rw (off, off') refl)) in
              let nil = ap (λ t. signed_loop w t 0 1) (sym (append-nil (reverse (ch ∷ s)))) in
              rw (off, off') (nil ∙ loop_value [] false no_end (ch ∷ s) quiet)
        ]
      ]

-- For any text, pl_i32 and pl_i64 give, as words of 32 and 64 bits, the number that the decimal
-- digits behind an optional sign mean by the table of the ten characters, negated where the sign
-- is a minus; 0 where the text is NULL or has another character.
pub signed_numbers :
    (pl : Option Bytes) → (pl_i32 pl ≡ signed_value 32 pl) × (pl_i64 pl ≡ signed_value 64 pl)
unfolding pl_i32 pl_i64
signed_numbers pl = (
  signed_lem 32 word32 pl ∙ ap (λ d. valued 32 d pl) (fun_ext decimal_lem),
  signed_lem 64 word64 pl ∙ ap (λ d. valued 64 d pl) (fun_ext decimal_lem),
)
