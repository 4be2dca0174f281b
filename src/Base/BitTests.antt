-- ===== src/Base/BitTests.antt =====
-- Single bits of shifted and truncated numbers.
use Prim.Native.Nat.{ℕ, zero, suc, ◌+◌, ◌-◌, ◌*◌, ◌/◌, ◌%◌, ◌^◌, ◌≤◌, ◌<◌, bit_and, bit_or}
use mathlib.Core.Path.{◌≡◌, refl, ap, ◌∙◌}
use mathlib.Core.Logic.{◌≢◌}
use native.Mathlib.Nat.{pow-suc, one-le-pow, div-div-eq-div-mul}
use native.Mathlib.Omega.{arith}
use re.Base.Bits.{
  test_bit, bit_and_digit, twice_shifted, mod_twice, bit_and_low, bit_or_digit, bit_or-zero,
  bit_or-zero_left,
}

half_shifted : (b k : ℕ) → b * 2 ^ suc k / 2 ≡ b * 2 ^ k
half_shifted b k = omega (arith, twice_shifted b k)

pub test_bit-shifted_low : (d k b : ℕ) → d < k → test_bit (b * 2 ^ k) d ≡ 0
test_bit-shifted_low d zero b h = absurd (omega arith)
test_bit-shifted_low zero (suc k) b h = omega (arith, twice_shifted b k)
test_bit-shifted_low (suc d) (suc k) b h =
    ap (λ t. test_bit t d) (half_shifted b k) ∙ test_bit-shifted_low d k b (omega arith)

pub test_bit-shifted : (k d b : ℕ) → k ≤ d → test_bit (b * 2 ^ k) d ≡ test_bit b (d - k)
test_bit-shifted zero d b h =
    let e : b * 2 ^ 0 ≡ b = omega arith in
    let k : d ≡ d - 0 = omega arith in ap (λ t. test_bit t d) e ∙ ap (test_bit b) k
test_bit-shifted (suc k) zero b h = absurd (omega arith)
test_bit-shifted (suc k) (suc d) b h =
    let e : d - k ≡ suc d - suc k = omega arith in
    ap (λ t. test_bit t d) (half_shifted b k)
    ∙ test_bit-shifted k d b (omega arith)
    ∙ ap (test_bit b) e

pub test_bit-zero : (d : ℕ) → test_bit 0 d ≡ 0
test_bit-zero zero = refl
test_bit-zero (suc d) = test_bit-zero d

mod_two_pow_suc : (w a : ℕ) → a % 2 ^ suc w ≡ a / 2 % 2 ^ w * 2 + a % 2
mod_two_pow_suc w a =
    ap (λ t. a % t) (pow-suc 2 w) ∙ mod_twice a (2 ^ w) (one-le-pow w 2 (omega arith))

pub test_bit-mod : (w d a : ℕ) → d < w → test_bit (a % 2 ^ w) d ≡ test_bit a d
test_bit-mod zero d a h = absurd (omega arith)
test_bit-mod (suc w) zero a h = omega (arith, mod_two_pow_suc w a)
test_bit-mod (suc w) (suc d) a h =
    let e : a % 2 ^ suc w / 2 ≡ a / 2 % 2 ^ w = omega (arith, mod_two_pow_suc w a) in
    ap (λ t. test_bit t d) e ∙ test_bit-mod w d (a / 2) (omega arith)

-- `a & (1 << k)` is not 0 exactly when bit `k` of `a` is set.
pub bit_and_single : (k a : ℕ) → bit_and a (2 ^ k) ≡ test_bit a k * 2 ^ k
bit_and_single zero a = omega (arith, bit_and_low 1 a)
bit_and_single (suc k) a =
    let half : 2 ^ suc k / 2 ≡ 2 ^ k = omega (arith, pow-suc 2 k) in
    omega (
      arith,
      bit_and_digit a (2 ^ suc k),
      ap (λ t. bit_and (a / 2) t) half,
      bit_and_single k (a / 2),
      pow-suc 2 k,
      ap (λ (t : ℕ). test_bit (a / 2) k * t) (pow-suc 2 k),
    )

pub test_bit-single_self : (k : ℕ) → test_bit (2 ^ k) k ≡ 1
test_bit-single_self zero = refl
test_bit-single_self (suc k) =
    let half : 2 ^ suc k / 2 ≡ 2 ^ k = omega (arith, pow-suc 2 k) in
    ap (λ t. test_bit t k) half ∙ test_bit-single_self k

pub test_bit-single_ne : (k d : ℕ) → d ≢ k → test_bit (2 ^ k) d ≡ 0
test_bit-single_ne zero zero h = absurd (h refl)
test_bit-single_ne zero (suc d) h = test_bit-zero d
test_bit-single_ne (suc k) zero h = omega (arith, pow-suc 2 k)
test_bit-single_ne (suc k) (suc d) h =
    let half : 2 ^ suc k / 2 ≡ 2 ^ k = omega (arith, pow-suc 2 k) in
    ap (λ t. test_bit t d) half ∙ test_bit-single_ne k d (λ e. h (ap suc e))

pub test_bit-div : (k a : ℕ) → test_bit a k ≡ a / 2 ^ k % 2
test_bit-div zero a = let e : a ≡ a / 2 ^ 0 = omega arith in ap (λ t. t % 2) e
test_bit-div (suc k) a =
    let e : a / 2 / 2 ^ k ≡ a / 2 ^ suc k =
      div-div-eq-div-mul a 2 (2 ^ k)
      ∙ ap (λ t. a / t) (let m : 2 * 2 ^ k ≡ 2 ^ suc k = omega (arith, pow-suc 2 k) in m) in
    test_bit-div k (a / 2) ∙ ap (λ t. t % 2) e

-- `r | q << k` where `r` fits the `k` bits that the shift clears.
pub bit_or_under : (k q r : ℕ) → r < 2 ^ k → bit_or r (q * 2 ^ k) ≡ r + q * 2 ^ k
bit_or_under zero zero r h = omega (arith, bit_or-zero r)
bit_or_under zero (suc q) r h =
    let e : r ≡ 0 = omega arith in
    omega (arith, ap (λ t. bit_or t (suc q * 2 ^ 0)) e, bit_or-zero_left (suc q * 2 ^ 0))
bit_or_under (suc k) q r h = ground (
  arith,
  bit_or_digit r (q * 2 ^ suc k),
  twice_shifted q k,
  pow-suc 2 k,
  bit_or_under k q (r / 2),
)
