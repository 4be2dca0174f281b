-- ===== src/Base/Splice.antt =====
-- Writes inside a list: how a copy into a block looks from outside.
use Prim.Native.Nat.{ℕ, zero, suc, ◌+◌, ◌≤◌, max}
use mathlib.Core.Path.{◌≡◌, refl, sym, ap, ◌∙◌}
use mathlib.Core.List.{List, [], ◌∷◌, ◌++◌, append-nil}
use native.Mathlib.Omega.{arith}
use re.Base.Lists.{
  length, take, drop, slice, overlay, blit, length-append, length-drop, drop-nil, take-nil,
}

module _ {ℓ} {A : Type ℓ} where
  -- The list `c` with `src` written over it from index `p` on, extended where `src` goes past the
  -- end.
  abbrev pub splice : List A → ℕ → List A → List A
  splice c zero src = src ++ drop (length src) c
  splice [] (suc p) src = src
  splice (x ∷ c) (suc p) src = x ∷ splice c p src

  pub splice-nil : (c : List A) (p : ℕ) → p ≤ length c → splice c p [] ≡ c
  splice-nil c zero h = refl
  splice-nil [] (suc p) h = absurd (omega arith)
  splice-nil (x ∷ c) (suc p) h = ap (◌∷◌ x) (splice-nil c p (omega arith))

  pub drop-splice :
      (c : List A) (p : ℕ) (src : List A)
      → p ≤ length c
      → drop p (splice c p src) ≡ src ++ drop (p + length src) c
  drop-splice c zero src h = ap (λ k. src ++ drop k c) (omega arith)
  drop-splice [] (suc p) src h = absurd (omega arith)
  drop-splice (x ∷ c) (suc p) src h =
      drop-splice c p src (omega arith)
      ∙ ap (λ k. src ++ drop k (x ∷ c))
          (let e : suc (p + length src) ≡ suc p + length src = omega arith in e)

  pub take-splice :
      (c : List A) (p : ℕ) (src : List A) → p ≤ length c → take p (splice c p src) ≡ take p c
  take-splice c zero src h = refl
  take-splice [] (suc p) src h = absurd (omega arith)
  take-splice (x ∷ c) (suc p) src h = ap (◌∷◌ x) (take-splice c p src (omega arith))

  pub length-splice :
      (c : List A) (p : ℕ) (src : List A)
      → p ≤ length c
      → length (splice c p src) ≡ max (length c) (p + length src)
  length-splice c zero src h =
      omega (arith, length-append src (drop (length src) c), length-drop (length src) c)
  length-splice [] (suc p) src h = absurd (omega arith)
  length-splice (x ∷ c) (suc p) src h = omega (arith, length-splice c p src (omega arith))

  pub splice_end : (c src : List A) → splice c (length c) src ≡ c ++ src
  splice_end [] src = ap (λ t. src ++ t) (drop-nil (length src)) ∙ append-nil src
  splice_end (x ∷ c) src = ap (◌∷◌ x) (splice_end c src)

  splice-splice_front :
      (c a b : List A)
      → splice (a ++ drop (length a) c) (length a) b ≡ (a ++ b) ++ drop (length (a ++ b)) c
  splice-splice_front c [] b = refl
  splice-splice_front [] (x ∷ a) b = ap (◌∷◌ x) (
      ap (λ t. splice (a ++ t) (length a) b) (sym (drop-nil (length a)))
      ∙ splice-splice_front [] a b
      ∙ ap (λ t. (a ++ b) ++ t) (drop-nil (length (a ++ b))))
  splice-splice_front (z ∷ c) (x ∷ a) b = ap (◌∷◌ x) (splice-splice_front c a b)

  -- Two writes one behind the other are one write.
  pub splice-splice :
      (c : List A) (p : ℕ) (a b : List A)
      → p ≤ length c
      → splice (splice c p a) (p + length a) b ≡ splice c p (a ++ b)
  splice-splice c zero a b h =
      ap (λ k. splice (splice c 0 a) k b) (omega arith) ∙ splice-splice_front c a b
  splice-splice [] (suc p) a b h = absurd (omega arith)
  splice-splice (x ∷ c) (suc p) a b h =
      ap (λ k. splice (x ∷ splice c p a) k b)
        (let e : suc p + length a ≡ suc (p + length a) = omega arith in e)
      ∙ ap (◌∷◌ x) (splice-splice c p a b (omega arith))

  take-overlay :
      (b src : List A) (e m : ℕ)
      → length src ≤ length b
      → m ≡ max e (length src)
      → take m (overlay b src) ≡ src ++ drop (length src) (take e b)
  take-overlay [] [] e m h k = take-nil m ∙ sym (take-nil e)
  take-overlay [] (y ∷ src) e m h k = absurd (omega arith)
  take-overlay (x ∷ b) [] e m h k = ap (λ j. take j (x ∷ b)) (omega arith)
  take-overlay (x ∷ b) (y ∷ src) e zero h k = absurd (omega arith)
  take-overlay (x ∷ b) (y ∷ src) zero (suc m) h k = ap (◌∷◌ y) (
      take-overlay b src 0 m (omega arith) (omega arith)
      ∙ ap (λ t. src ++ t) (drop-nil (length src)))
  take-overlay (x ∷ b) (y ∷ src) (suc e) (suc m) h k =
      ap (◌∷◌ y) (take-overlay b src e m (omega arith) (omega arith))

  -- A copy inside the block is a write to the part of it that is in use.
  pub take-blit :
      (b src : List A) (p e m : ℕ)
      → p + length src ≤ length b
      → p ≤ e
      → m ≡ max e (p + length src)
      → take m (blit b p src) ≡ splice (take e b) p src
  take-blit [] [] zero e m h k j = take-nil m ∙ sym (take-nil e)
  take-blit [] (y ∷ src) zero e m h k j = absurd (omega arith)
  take-blit [] src (suc p) e m h k j = absurd (omega arith)
  take-blit (x ∷ b) src zero e m h k j = take-overlay (x ∷ b) src e m (omega arith) (omega arith)
  take-blit (x ∷ b) src (suc p) zero m h k j = absurd (omega arith)
  take-blit (x ∷ b) src (suc p) (suc e) zero h k j = absurd (omega arith)
  take-blit (x ∷ b) src (suc p) (suc e) (suc m) h k j =
      ap (◌∷◌ x) (take-blit b src p e m (omega arith) (omega arith) (omega arith))

  take-overlay_self :
      (b src : List A) → length src ≤ length b → take (length src) (overlay b src) ≡ src
  take-overlay_self b [] h = refl
  take-overlay_self [] (y ∷ src) h = absurd (omega arith)
  take-overlay_self (x ∷ b) (y ∷ src) h = ap (◌∷◌ y) (take-overlay_self b src (omega arith))

  -- Reading back what was copied in.
  pub slice-blit :
      (b : List A) (i : ℕ) (src : List A)
      → i + length src ≤ length b
      → slice i (length src) (blit b i src) ≡ src
  slice-blit [] zero [] h = refl
  slice-blit [] zero (y ∷ src) h = absurd (omega arith)
  slice-blit [] (suc i) src h = absurd (omega arith)
  slice-blit (x ∷ b) zero src h = take-overlay_self (x ∷ b) src (omega arith)
  slice-blit (x ∷ b) (suc i) src h = slice-blit b i src (omega arith)
