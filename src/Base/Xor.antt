-- ===== src/Base/Xor.antt =====
-- C exclusive or: from its lowest digit, that it undoes itself and fits the width of its arguments.
use Prim.Native.Nat.{
  ℕ, zero, suc, ◌+◌, ◌-◌, ◌*◌, ◌/◌, ◌%◌, ◌^◌, ◌≤◌, ◌<◌, bit_xor, bit_xor-bitwise, differ,
}
use mathlib.Core.Path.{◌≡◌, ap, ◌∙◌}
use native.Mathlib.Nat.{pow-suc}
use native.Mathlib.Omega.{arith}
use re.Base.Bits.{same_digits}

differ_value : (x y : ℕ) → differ x y ≡ (x - y) + (y - x)
differ_value zero y = omega arith
differ_value (suc x) zero = omega arith
differ_value (suc x) (suc y) = omega (arith, differ_value x y)

bit_xor_digit :
    (a b : ℕ) → bit_xor a b ≡ bit_xor (a / 2) (b / 2) * 2 + ((a % 2 - b % 2) + (b % 2 - a % 2))
bit_xor_digit zero b = omega (arith, bit_xor-bitwise 0 b, bit_xor-bitwise 0 (b / 2))
bit_xor_digit (suc a) b = omega (
  arith,
  bit_xor-bitwise (suc a) b,
  bit_xor-bitwise (suc a / 2) (b / 2),
  same_digits (λ y. y) differ (suc a / 2) (b / 2) a (suc a / 2) (omega arith) (omega arith),
  differ_value (suc a % 2) (b % 2),
)

twice_below : (n a k : ℕ) → a + k ≤ n → bit_xor (bit_xor a k) k ≡ a
twice_below zero a k h =
    let a0 : a ≡ 0 = omega arith in
    let k0 : k ≡ 0 = omega arith in
    ap (λ t. bit_xor (bit_xor t k) k) a0 ∙ ap (λ t. bit_xor (bit_xor 0 t) t) k0 ∙ omega arith
twice_below (suc n) a k h =
    let x = bit_xor a k in
    let d = bit_xor_digit a k in
    let half : x / 2 ≡ bit_xor (a / 2) (k / 2) = omega (arith, d) in
    let ih = twice_below n (a / 2) (k / 2) (omega arith) in
    omega (arith, d, bit_xor_digit x k, ap (λ t. bit_xor t (k / 2)) half, ih)

pub bit_xor_twice : (a k : ℕ) → bit_xor (bit_xor a k) k ≡ a
bit_xor_twice a k = twice_below (a + k) a k (omega arith)

pub bit_xor-lt : (w a b : ℕ) → a < 2 ^ w → b < 2 ^ w → bit_xor a b < 2 ^ w
bit_xor-lt zero a b h k =
    let a0 : a ≡ 0 = omega arith in
    let b0 : b ≡ 0 = omega arith in
    omega (arith, ap (λ t. bit_xor t b) a0, ap (λ t. bit_xor 0 t) b0)
bit_xor-lt (suc w) a b h k = omega (
  arith,
  pow-suc 2 w,
  bit_xor_digit a b,
  bit_xor-lt w (a / 2) (b / 2) (omega (arith, pow-suc 2 w)) (omega (arith, pow-suc 2 w)),
)
