-- ===== src/Base/Lists.antt =====
-- Byte blocks as lists with native indices.
use Prim.Native.Nat.{ℕ, zero, suc, ◌+◌, ◌-◌, ◌≤◌, min}
use mathlib.Core.Path.{◌≡◌, refl, sym, ap, ◌∙◌}
use mathlib.Core.List.{List, [], ◌∷◌, ◌++◌}
use mathlib.Core.Option.{Option, none, some}
use native.Mathlib.Omega.{arith}

module _ {ℓ} {A : Type ℓ} where
  abbrev pub length : List A → ℕ
  length [] = 0
  length (x ∷ xs) = suc (length xs)

  abbrev pub get_elem? : List A → ℕ → Option A
  get_elem? [] i = none
  get_elem? (x ∷ xs) zero = some x
  get_elem? (x ∷ xs) (suc i) = get_elem? xs i

  abbrev pub get_or : List A → ℕ → A → A
  get_or [] i d = d
  get_or (x ∷ xs) zero d = x
  get_or (x ∷ xs) (suc i) d = get_or xs i d

  abbrev pub take : ℕ → List A → List A
  take zero xs = []
  take (suc n) [] = []
  take (suc n) (x ∷ xs) = x ∷ take n xs

  abbrev pub drop : ℕ → List A → List A
  drop zero xs = xs
  drop (suc n) [] = []
  drop (suc n) (x ∷ xs) = drop n xs

  abbrev pub replicate : ℕ → A → List A
  replicate zero a = []
  replicate (suc n) a = a ∷ replicate n a

  -- `memcpy` to the front of a block; what does not fit is not written.
  abbrev pub overlay : List A → List A → List A
  overlay [] src = []
  overlay (x ∷ b) [] = x ∷ b
  overlay (x ∷ b) (y ∷ src) = y ∷ overlay b src

  -- `memcpy(b + i, src, n)` for a `src` of `n` bytes.
  abbrev pub blit : List A → ℕ → List A → List A
  blit [] i src = []
  blit (x ∷ b) zero src = overlay (x ∷ b) src
  blit (x ∷ b) (suc i) src = x ∷ blit b i src

module _ {ℓ} {A : Type ℓ} where
  pub length-append : (xs ys : List A) → length (xs ++ ys) ≡ length xs + length ys
  length-append [] ys = omega arith
  length-append (x ∷ xs) ys = omega (arith, length-append xs ys)

  pub length-take : (n : ℕ) (xs : List A) → length (take n xs) ≡ min n (length xs)
  length-take zero xs = omega arith
  length-take (suc n) [] = omega arith
  length-take (suc n) (x ∷ xs) = omega (arith, length-take n xs)

  pub length-drop : (n : ℕ) (xs : List A) → length (drop n xs) ≡ length xs - n
  length-drop zero xs = omega arith
  length-drop (suc n) [] = omega arith
  length-drop (suc n) (x ∷ xs) = omega (arith, length-drop n xs)

  pub length-replicate : (n : ℕ) (a : A) → length (replicate n a) ≡ n
  length-replicate zero a = refl
  length-replicate (suc n) a = ap suc (length-replicate n a)

  length-overlay : (b src : List A) → length (overlay b src) ≡ length b
  length-overlay [] src = refl
  length-overlay (x ∷ b) [] = refl
  length-overlay (x ∷ b) (y ∷ src) = ap suc (length-overlay b src)

  pub length-blit : (b : List A) (i : ℕ) (src : List A) → length (blit b i src) ≡ length b
  length-blit [] i src = refl
  length-blit (x ∷ b) zero src = length-overlay (x ∷ b) src
  length-blit (x ∷ b) (suc i) src = ap suc (length-blit b i src)

  -- The part of a block that a read of `n` bytes at `i` gives.
  abbrev pub slice : ℕ → ℕ → List A → List A
  slice i n b = take n (drop i b)

  pub take_append : (xs ys : List A) → take (length xs) (xs ++ ys) ≡ xs
  take_append [] ys = refl
  take_append (x ∷ xs) ys = ap (◌∷◌ x) (take_append xs ys)

  pub drop_append : (xs ys : List A) → drop (length xs) (xs ++ ys) ≡ ys
  drop_append [] ys = refl
  drop_append (x ∷ xs) ys = drop_append xs ys

  pub take_all : (n : ℕ) (xs : List A) → length xs ≤ n → take n xs ≡ xs
  take_all zero [] h = refl
  take_all zero (x ∷ xs) h = absurd (omega arith)
  take_all (suc n) [] h = refl
  take_all (suc n) (x ∷ xs) h = ap (◌∷◌ x) (take_all n xs (omega arith))

  pub take-take : (n m : ℕ) (xs : List A) → n ≤ m → take n (take m xs) ≡ take n xs
  take-take zero m xs h = refl
  take-take (suc n) zero xs h = absurd (omega arith)
  take-take (suc n) (suc m) [] h = refl
  take-take (suc n) (suc m) (x ∷ xs) h = ap (◌∷◌ x) (take-take n m xs (omega arith))

  cons-injective : {x y : A} {xs ys : List A} → x ∷ xs ≡ y ∷ ys → xs ≡ ys
  cons-injective h = cc

  -- A slice that begins with `xs`, cut there.
  pub take_prefix : (n : ℕ) (b xs ys : List A) → take n b ≡ xs ++ ys → take (length xs) b ≡ xs
  take_prefix n b [] ys h = refl
  take_prefix zero b (x ∷ xs) ys h = absurd (omega (arith, ap length h))
  take_prefix (suc n) [] (x ∷ xs) ys h = absurd (omega (arith, ap length h))
  take_prefix (suc n) (y ∷ b) (x ∷ xs) ys h = ground (arith, take_prefix n b xs ys)

  pub drop_append_le :
      (n : ℕ) (xs ys : List A) → n ≤ length xs → drop n (xs ++ ys) ≡ drop n xs ++ ys
  drop_append_le zero xs ys h = refl
  drop_append_le (suc n) [] ys h = absurd (omega arith)
  drop_append_le (suc n) (x ∷ xs) ys h = drop_append_le n xs ys (omega arith)

  pub take-drop : (n : ℕ) (xs : List A) → take n xs ++ drop n xs ≡ xs
  take-drop zero xs = refl
  take-drop (suc n) [] = refl
  take-drop (suc n) (x ∷ xs) = ap (◌∷◌ x) (take-drop n xs)

  pub drop_all : (n : ℕ) (xs : List A) → length xs ≤ n → drop n xs ≡ []
  drop_all zero [] h = refl
  drop_all zero (x ∷ xs) h = absurd (omega arith)
  drop_all (suc n) [] h = refl
  drop_all (suc n) (x ∷ xs) h = drop_all n xs (omega arith)

  pub drop-nil : (n : ℕ) → drop {A = A} n [] ≡ []
  drop-nil zero = refl
  drop-nil (suc n) = refl

  pub take-nil : (n : ℕ) → take {A = A} n [] ≡ []
  take-nil zero = refl
  take-nil (suc n) = refl

  pub drop-take : (i n : ℕ) (b : List A) → drop i (take n b) ≡ take (n - i) (drop i b)
  drop-take zero n b = ap (λ k. take k b) (omega arith)
  drop-take (suc i) zero b =
      let e : 0 ≡ 0 - suc i = omega arith in ap (λ k. take k (drop (suc i) b)) e
  drop-take (suc i) (suc n) [] = sym (take-nil (suc n - suc i))
  drop-take (suc i) (suc n) (x ∷ b) =
      drop-take i n b
      ∙ (let e : n - i ≡ suc n - suc i = omega arith in ap (λ k. take k (drop i b)) e)

  pub drop-drop : (i j : ℕ) (b : List A) → drop (i + j) b ≡ drop j (drop i b)
  drop-drop zero j b = ap (λ k. drop k b) (omega arith)
  drop-drop (suc i) j [] = drop-nil (suc i + j) ∙ sym (drop-nil j)
  drop-drop (suc i) j (x ∷ b) =
      ap (λ k. drop k (x ∷ b)) (let e : suc i + j ≡ suc (i + j) = omega arith in e)
      ∙ drop-drop i j b

  -- What follows `xs` in a block cut at `n`.
  pub take_suffix :
      (n : ℕ) (b xs ys : List A)
      → take n b ≡ xs ++ ys
      → take (n - length xs) (drop (length xs) b) ≡ ys
  take_suffix n b [] ys h = ap (λ k. take k b) (omega arith) ∙ h
  take_suffix zero b (x ∷ xs) ys h = absurd (omega (arith, ap length h))
  take_suffix (suc n) [] (x ∷ xs) ys h = absurd (omega (arith, ap length h))
  take_suffix (suc n) (y ∷ b) (x ∷ xs) ys h =
      ap (λ k. take k (drop (length xs) b)) (omega arith) ∙ take_suffix n b xs ys (cons-injective h)
