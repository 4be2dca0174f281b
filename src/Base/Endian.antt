-- ===== src/Base/Endian.antt =====
-- Numbers in network byte order: the most significant byte first.
use Prim.Native.Nat.{ℕ, zero, suc, ◌+◌, ◌*◌, ◌/◌, ◌%◌, ◌^◌, ◌<◌}
use mathlib.Core.Path.{◌≡◌, refl, ap}
use mathlib.Core.List.{List, [], ◌∷◌}
use native.Mathlib.Nat.{
  pow-suc, mod-eq-sub-div-mul, div-div-eq-div-mul, div-mul-le_self, mod-eq_of_lt,
}
use native.Mathlib.Omega.{arith}
use re.Base.Lists.{length}

abbrev pub Bytes : Type 0
Bytes = List ℕ

-- The `w` bytes of a number of `8 * w` bits.
abbrev pub be_bytes : ℕ → ℕ → Bytes
be_bytes zero v = []
be_bytes (suc w) v = (v / 256 ^ w % 256) ∷ be_bytes w v

abbrev pub be_value_from : ℕ → Bytes → ℕ
be_value_from acc [] = acc
be_value_from acc (b ∷ bs) = be_value_from (acc * 256 + b) bs

abbrev pub be_value : Bytes → ℕ
be_value = be_value_from 0

pub length-be_bytes : (w v : ℕ) → length (be_bytes w v) ≡ w
length-be_bytes zero v = refl
length-be_bytes (suc w) v = ap suc (length-be_bytes w v)

-- Taking one more digit of base 256 into the remainder.
mod_digit : (v p : ℕ) → v % (p * 256) ≡ v / p % 256 * p + v % p
mod_digit v p =
    let split : v / p ≡ v / p / 256 * 256 + v / p % 256 = omega arith in
    omega (
      arith,
      mod-eq-sub-div-mul v (p * 256),
      mod-eq-sub-div-mul v p,
      div-mul-le_self v p,
      ap (λ (t : ℕ). t * p) split,
      ap (λ (t : ℕ). t * p) (div-div-eq-div-mul v p 256),
    )

be_value_from-be_bytes :
    (w acc v : ℕ) → be_value_from acc (be_bytes w v) ≡ acc * 256 ^ w + v % 256 ^ w
be_value_from-be_bytes zero acc v = omega arith
be_value_from-be_bytes (suc w) acc v = omega (
  arith,
  be_value_from-be_bytes w (acc * 256 + v / 256 ^ w % 256) v,
  mod_digit v (256 ^ w),
  ap (λ (t : ℕ). acc * t) (pow-suc 256 w),
  ap (λ (t : ℕ). v % t) (pow-suc 256 w),
)

pub be_value-be_bytes : (w v : ℕ) → v < 256 ^ w → be_value (be_bytes w v) ≡ v
be_value-be_bytes w v h = omega (arith, be_value_from-be_bytes w 0 v, mod-eq_of_lt h)
