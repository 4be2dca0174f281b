-- ===== src/Base/Bits.antt =====
-- C bit operations at variables: the lowest digit of `|` and `&`, and from it fields, masks and
-- single bits.
use Prim.Native.Nat.{
  ℕ, zero, suc, ◌+◌, ◌-◌, ◌*◌, ◌/◌, ◌%◌, ◌^◌, ◌≤◌, ◌<◌, max, min, digits, bit_and, bit_or,
  bit_and-bitwise, bit_or-bitwise,
}
use mathlib.Core.Path.{◌≡◌, refl, sym, ap, ◌∙◌}
use native.Mathlib.Nat.{
  pow-suc, one-le-pow, mod-eq-sub-div-mul, div-div-eq-div-mul, div-mul-le_self,
}
use native.Mathlib.Omega.{arith}

module _ (z : ℕ → ℕ) (f : ℕ → ℕ → ℕ) where
  -- Fuel of at least the first number changes nothing.
  pub same_digits : (a b n m : ℕ) → a ≤ n → a ≤ m → digits z f n a b ≡ digits z f m a b
  same_digits zero b zero zero p q = refl
  same_digits zero b zero (suc m) p q = refl
  same_digits zero b (suc n) zero p q = refl
  same_digits zero b (suc n) (suc m) p q = refl
  same_digits (suc a) b zero m p q = absurd (omega arith)
  same_digits (suc a) b (suc n) zero p q = absurd (omega arith)
  same_digits (suc a) b (suc n) (suc m) p q =
      ap (λ t. t * 2 + f (suc a % 2) (b % 2))
        (same_digits (suc a / 2) (b / 2) n m (omega arith) (omega arith))

pub bit_or_digit : (a b : ℕ) → bit_or a b ≡ bit_or (a / 2) (b / 2) * 2 + max (a % 2) (b % 2)
bit_or_digit zero b = omega (arith, bit_or-bitwise 0 b, bit_or-bitwise 0 (b / 2))
bit_or_digit (suc a) b = omega (
  arith,
  bit_or-bitwise (suc a) b,
  bit_or-bitwise (suc a / 2) (b / 2),
  same_digits (λ y. y) max (suc a / 2) (b / 2) a (suc a / 2) (omega arith) (omega arith),
)

pub bit_and_digit : (a b : ℕ) → bit_and a b ≡ bit_and (a / 2) (b / 2) * 2 + min (a % 2) (b % 2)
bit_and_digit zero b = omega (arith, bit_and-bitwise 0 b, bit_and-bitwise 0 (b / 2))
bit_and_digit (suc a) b = omega (
  arith,
  bit_and-bitwise (suc a) b,
  bit_and-bitwise (suc a / 2) (b / 2),
  same_digits (λ y. 0) min (suc a / 2) (b / 2) a (suc a / 2) (omega arith) (omega arith),
)

-- Bit `i` of a number.
abbrev pub test_bit : ℕ → ℕ → ℕ
test_bit a zero = a % 2
test_bit a (suc i) = test_bit (a / 2) i

pub test_bit-le-one : (i a : ℕ) → test_bit a i ≤ 1
test_bit-le-one zero a = omega arith
test_bit-le-one (suc i) a = test_bit-le-one i (a / 2)

pub test_bit-bit_or : (i a b : ℕ) → test_bit (bit_or a b) i ≡ max (test_bit a i) (test_bit b i)
test_bit-bit_or zero a b = omega (arith, bit_or_digit a b)
test_bit-bit_or (suc i) a b =
    let half : bit_or a b / 2 ≡ bit_or (a / 2) (b / 2) = omega (arith, bit_or_digit a b) in
    ap (λ t. test_bit t i) half ∙ test_bit-bit_or i (a / 2) (b / 2)

pub test_bit-bit_and : (i a b : ℕ) → test_bit (bit_and a b) i ≡ min (test_bit a i) (test_bit b i)
test_bit-bit_and zero a b = omega (arith, bit_and_digit a b)
test_bit-bit_and (suc i) a b =
    let half : bit_and a b / 2 ≡ bit_and (a / 2) (b / 2) = omega (arith, bit_and_digit a b) in
    ap (λ t. test_bit t i) half ∙ test_bit-bit_and i (a / 2) (b / 2)

bit_or-zero_below : (n a : ℕ) → a ≤ n → bit_or a 0 ≡ a
bit_or-zero_below zero a h =
    omega (arith, bit_or-bitwise 0 0, ap (λ t. bit_or t 0) (let e : a ≡ 0 = omega arith in e))
bit_or-zero_below (suc n) zero h = refl
bit_or-zero_below (suc n) (suc a) h =
    omega (arith, bit_or_digit (suc a) 0, bit_or-zero_below n (suc a / 2) (omega arith))

bit_and-zero_below : (n a : ℕ) → a ≤ n → bit_and a 0 ≡ 0
bit_and-zero_below zero a h =
    omega (arith, ap (λ t. bit_and t 0) (let e : a ≡ 0 = omega arith in e))
bit_and-zero_below (suc n) zero h = refl
bit_and-zero_below (suc n) (suc a) h =
    omega (arith, bit_and_digit (suc a) 0, bit_and-zero_below n (suc a / 2) (omega arith))

pub bit_or-zero : (a : ℕ) → bit_or a 0 ≡ a
bit_or-zero a = bit_or-zero_below a a (omega arith)

pub bit_and-zero : (a : ℕ) → bit_and a 0 ≡ 0
bit_and-zero a = bit_and-zero_below a a (omega arith)

pub bit_or-zero_left : (b : ℕ) → bit_or 0 b ≡ b
bit_or-zero_left b = bit_or-bitwise 0 b

bit_or_eq_zero_below : (n a b : ℕ) → a ≤ n → bit_or a b ≡ 0 → (a ≡ 0) × (b ≡ 0)
bit_or_eq_zero_below n zero b h e = omega (arith, bit_or-bitwise 0 b)
bit_or_eq_zero_below zero (suc a) b h e = absurd (omega arith)
bit_or_eq_zero_below (suc n) (suc a) b h e = omega (
  arith,
  bit_or_digit (suc a) b,
  bit_or_eq_zero_below n (suc a / 2) (b / 2) (omega arith) (omega (arith, bit_or_digit (suc a) b)),
)

pub bit_or_eq_zero : (a b : ℕ) → bit_or a b ≡ 0 → (a ≡ 0) × (b ≡ 0)
bit_or_eq_zero a b h = bit_or_eq_zero_below a a b (omega arith) h

pub twice_shifted : (q k : ℕ) → q * 2 ^ suc k ≡ q * 2 ^ k * 2
twice_shifted q k = omega (arith, ap (λ (t : ℕ). q * t) (pow-suc 2 k))

-- `q << k | r` where `r` fits the `k` bits that the shift clears.
pub bit_or_shifted : (k q r : ℕ) → r < 2 ^ k → bit_or (q * 2 ^ k) r ≡ q * 2 ^ k + r
bit_or_shifted zero q r h = ground (arith, bit_or-zero (q * 1))
bit_or_shifted (suc k) q r h = ground (
  arith,
  bit_or_digit (q * 2 ^ suc k) r,
  twice_shifted q k,
  pow-suc 2 k,
  bit_or_shifted k q (r / 2),
)

pub mod_twice : (a p : ℕ) → 0 < p → a % (p * 2) ≡ a / 2 % p * 2 + a % 2
mod_twice a p h =
    let q : a / (p * 2) ≡ a / 2 / p =
      ap (λ t. a / t) (let e : p * 2 ≡ 2 * p = omega arith in e) ∙ sym (div-div-eq-div-mul a 2 p) in
    omega (
      arith,
      mod-eq-sub-div-mul a (p * 2),
      mod-eq-sub-div-mul (a / 2) p,
      div-mul-le_self (a / 2) p,
      ap (λ t. t * (p * 2)) q,
    )

-- `a & (2 ^ k - 1)`.
pub bit_and_low : (k a : ℕ) → bit_and a (2 ^ k - 1) ≡ a % 2 ^ k
bit_and_low zero a = omega (arith, bit_and-zero a)
bit_and_low (suc k) a = ground (
  arith,
  bit_and_digit a (2 ^ suc k - 1),
  pow-suc 2 k,
  one-le-pow k 2,
  bit_and_low k (a / 2),
  mod_twice a (2 ^ k),
)

bit_and_comm_below : (n a b : ℕ) → a ≤ n → bit_and a b ≡ bit_and b a
bit_and_comm_below n zero b h = omega (arith, bit_and-bitwise 0 b, bit_and-zero b)
bit_and_comm_below zero (suc a) b h = absurd (omega arith)
bit_and_comm_below (suc n) (suc a) b h = omega (
  arith,
  bit_and_digit (suc a) b,
  bit_and_digit b (suc a),
  bit_and_comm_below n (suc a / 2) (b / 2) (omega arith),
)

pub bit_and_comm : (a b : ℕ) → bit_and a b ≡ bit_and b a
bit_and_comm a b = bit_and_comm_below a a b (omega arith)

-- `(2 ^ k - 1) & a`.
pub bit_and_low_left : (k a : ℕ) → bit_and (2 ^ k - 1) a ≡ a % 2 ^ k
bit_and_low_left k a = bit_and_comm (2 ^ k - 1) a ∙ bit_and_low k a

-- `a & (m << k)`.
pub bit_and_shifted : (k a m : ℕ) → bit_and a (m * 2 ^ k) ≡ bit_and (a / 2 ^ k) m * 2 ^ k
bit_and_shifted zero a m =
    let e1 : m * 1 ≡ m = omega arith in
    let e2 : a / 1 ≡ a = omega arith in rw (e1, e2) (omega arith)
bit_and_shifted (suc k) a m =
    let half : m * 2 ^ suc k / 2 ≡ m * 2 ^ k = omega (arith, twice_shifted m k) in
    let d = bit_and_digit a (m * 2 ^ suc k) in
    let ih = bit_and_shifted k (a / 2) m in
    let deep : a / 2 / 2 ^ k ≡ a / 2 ^ suc k =
      div-div-eq-div-mul a 2 (2 ^ k) ∙ ap (λ t. a / t) (omega (arith, pow-suc 2 k)) in
    let d' = rw (half, ih, deep) at d in
    omega (arith, d', twice_shifted m k, twice_shifted (bit_and (a / 2 ^ suc k) m) k)

-- A field of `w` bits from bit `k` on, in its place.
pub bit_and_field : (w k a : ℕ) → bit_and a ((2 ^ w - 1) * 2 ^ k) ≡ a / 2 ^ k % 2 ^ w * 2 ^ k
bit_and_field w k a =
    bit_and_shifted k a (2 ^ w - 1) ∙ ap (λ t. t * 2 ^ k) (bit_and_low w (a / 2 ^ k))

-- `(q << k | r) | (x << k)` where `r` has `k` bits.
pub bit_or_above :
    (k q r x : ℕ) → r < 2 ^ k → bit_or (q * 2 ^ k + r) (x * 2 ^ k) ≡ bit_or q x * 2 ^ k + r
bit_or_above zero q r x h =
    let e1 : q * 1 + r ≡ q = omega arith in
    let e2 : x * 1 ≡ x = omega arith in rw (e1, e2) (omega arith)
bit_or_above (suc k) q r x h =
    let half : (q * 2 ^ suc k + r) / 2 ≡ q * 2 ^ k + r / 2 = omega (arith, twice_shifted q k) in
    let half' : x * 2 ^ suc k / 2 ≡ x * 2 ^ k = omega (arith, twice_shifted x k) in
    let ih = bit_or_above k q (r / 2) x (omega (arith, pow-suc 2 k)) in
    let d = bit_or_digit (q * 2 ^ suc k + r) (x * 2 ^ suc k) in
    let d' = rw (half, half', ih) at d in
    omega (arith, d', twice_shifted q k, twice_shifted x k, twice_shifted (bit_or q x) k)
