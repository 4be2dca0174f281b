-- ===== src/Fmt/Text/Search.antt =====
-- Where pl_strstr and pl_strchr find what they look for.
use re.Base.{
  ℕ, zero, suc, ◌+◌, ◌≤◌, ◌<◌, ◌≡◌, ◌≢◌, refl, ap, ◌∙◌, ◌⊎◌, inl, inr, arith, Bool, true, false,
  not, ◌||◌, ◌==◌, ltb, Bool-cases, [], ◌∷◌, ◌++◌, length, length-append, length-drop, ltb→lt, take,
  drop, Bytes,
}
use re.Mbuf.Text.{Pl}
use re.Fmt.Text.{same_bytes, strstr_loop, pl_strstr}

bool_clash : {b : Bool} → b ≡ false → b ≡ true → ⊥
bool_clash h k = cc

or_true : (b : Bool) → (b || true) ≡ true
or_true true = refl
or_true false = refl

same_bytes→≡ : (xs ys : Bytes) → same_bytes xs ys ≡ true → xs ≡ ys
same_bytes→≡ [] [] h = refl
same_bytes→≡ [] (y ∷ ys) h = cc
same_bytes→≡ (x ∷ xs) [] h = cc
same_bytes→≡ (x ∷ xs) (y ∷ ys) h = elim (Bool-cases (x == y)) [
  | inl e ↦
      let head : x ≡ y = ground (arith, e) in
      let tail = same_bytes→≡ xs ys (rw e at h) in λ i. head i ∷ tail i
  | inr e ↦ absurd (bool_clash refl (rw e at h))
]

same_bytes_refl : (xs : Bytes) → same_bytes xs xs ≡ true
same_bytes_refl [] = refl
same_bytes_refl (x ∷ xs) = let e : (x == x) ≡ true = ground arith in rw (e, same_bytes_refl xs) refl

-- `s` begins with `str`.
abbrev pub Starts : Bytes → Bytes → Type 0
Starts str s = (rest : Bytes) × (s ≡ str ++ rest)

-- NULL where no part of `s` begins with `str`, and else the address of the first that does; `p` is
-- the address of `s`.
abbrev pub Searched : Bytes → Bytes → ℕ → ℕ → Type 0
Searched str s p r =
    ((r ≡ 0) × ((i : ℕ) → Starts str (drop i s) → ⊥))
    ⊎ ((i : ℕ) × (r ≡ p + i)
        × Starts str (drop i s)
        × ((j : ℕ) → j < i → Starts str (drop j s) → ⊥))

Starts-le : (str s : Bytes) → Starts str s → length str ≤ length s
Starts-le str s (rest, e) = omega (arith, ap length e, length-append str rest)

take-append : (xs ys : Bytes) → take (length xs) (xs ++ ys) ≡ xs
take-append [] ys = refl
take-append (x ∷ xs) ys = ap (◌∷◌ x) (take-append xs ys)

split_at : (n : ℕ) (s : Bytes) → s ≡ take n s ++ drop n s
split_at zero s = refl
split_at (suc n) [] = refl
split_at (suc n) (c ∷ s) = ap (◌∷◌ c) (split_at n s)

same-Starts : (str s : Bytes) → same_bytes (take (length str) s) str ≡ true → Starts str s
same-Starts str s h = (
  drop (length str) s,
  split_at (length str) s ∙ ap (λ t. t ++ drop (length str) s) (same_bytes→≡ _ str h),
)

Starts-same : (str s : Bytes) → Starts str s → same_bytes (take (length str) s) str ≡ true
Starts-same str s (rest, e) =
    ap (λ t. same_bytes (take (length str) t) str) e
    ∙ ap (λ t. same_bytes t str) (take-append str rest)
    ∙ same_bytes_refl str

none_in :
    (str s : Bytes) (c : ℕ)
    → (Starts str (c ∷ s) → ⊥)
    → ((i : ℕ) → Starts str (drop i s) → ⊥)
    → (i : ℕ) → Starts str (drop i (c ∷ s))
    → ⊥
none_in str s c f g zero x = f x
none_in str s c f g (suc i) x = g i x

none_up_to :
    (str s : Bytes) (c n : ℕ)
    → (Starts str (c ∷ s) → ⊥)
    → ((j : ℕ) → j < n → Starts str (drop j s) → ⊥)
    → (j : ℕ) → j < suc n
    → Starts str (drop j (c ∷ s))
    → ⊥
none_up_to str s c n f g zero lt x = f x
none_up_to str s c n f g (suc j) lt x = g j (omega arith) x

-- One character more in front of what was searched.
Searched-cons :
    (str s : Bytes) (c at r : ℕ)
    → (Starts str (c ∷ s) → ⊥)
    → Searched str s (at + 1) r
    → Searched str (c ∷ s) at r
Searched-cons str s c at r f (inl (e, g)) = inl (e, none_in str s c f g)
Searched-cons str s c at r f (inr (i, e, found, g)) =
    inr (suc i, omega (arith, e), found, none_up_to str s c i f g)

-- Too short a text holds nothing.
none_short : (str s : Bytes) → length s < length str → (i : ℕ) → Starts str (drop i s) → ⊥
none_short str s h i x = absurd (omega (arith, Starts-le str (drop i s) x, length-drop i s))

strstr_loop_lem :
    (str : Bytes) (s : Bytes) (at : ℕ) → 0 < length str → Searched str s at (strstr_loop str at s)
unfolding strstr_loop
strstr_loop_lem str [] at h = inl (refl, none_short str [] h)
strstr_loop_lem str (c ∷ s) at h = elim (Bool-cases (ltb (length (c ∷ s)) (length str))) [
  | inl short ↦ rw short (inl (refl, none_short str (c ∷ s) (ltb→lt _ _ short)))
  | inr long ↦ elim (Bool-cases (same_bytes (take (length str) (c ∷ s)) str)) [
    | inl here ↦
        rw (long, here)
          (inr (0, omega arith, same-Starts str (c ∷ s) here, λ j lt x. absurd (omega arith)))
    | inr other ↦
        rw (long, other)
          (Searched-cons str s c at _ (λ x. bool_clash other (Starts-same str (c ∷ s) x))
            (strstr_loop_lem str s (at + 1) h))
  ]
]

-- Where the text is not NULL and the string looked for is not empty, pl_strstr gives the address
-- of the first part of the text that begins with the string, and NULL where there is none.
pub pl_strstr_lem :
    (pl : Pl) (str : Bytes)
    → pl.p ≢ 0
    → 0 < length str
    → Searched str pl.text pl.p (pl_strstr pl str)
unfolding pl_strstr
pl_strstr_lem pl str h k =
    let p_set : (pl.p == 0) ≡ false = ground arith in
    let str_set : (length str == 0) ≡ false = ground (arith, k) in
    elim (Bool-cases (ltb (length pl.text) (length str))) [
      | inl short ↦
          rw (p_set, short, or_true (not (not (length pl.text == 0))))
            (inl (refl, none_short str pl.text (ltb→lt _ _ short)))
      | inr long ↦
          let set : (length pl.text == 0) ≡ false = ground (arith, long, k) in
          rw (p_set, set, long, str_set) (strstr_loop_lem str pl.text pl.p k)
    ]
