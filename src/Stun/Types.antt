-- ===== src/Stun/Types.antt =====
-- The macros of src/stun/stun.h that put a method and a class into a message type.
use re.Base.{
  ℕ, ◌+◌, ◌*◌, ◌/◌, ◌%◌, ◌^◌, ◌<◌, ◌≡◌, max, arith, bit_and, bit_or, bit_and_low, bit_and_field,
  bit_or_shifted, bit_or_above, bit_or_digit,
}

-- STUN_TYPE
pub stun_type : ℕ → ℕ → ℕ
stun_type method class =
    bit_or
      (bit_or
        (bit_or (bit_or (bit_and method 0x0f80 * 2 ^ 2) (bit_and method 0x0070 * 2 ^ 1))
          (bit_and method 0x000f * 2 ^ 0))
        (bit_and class 0x2 * 2 ^ 7))
      (bit_and class 0x1 * 2 ^ 4)

-- STUN_CLASS
pub stun_class : ℕ → ℕ
stun_class type = bit_and (bit_or (type / 2 ^ 7) (type / 2 ^ 4)) 0x3

-- STUN_METHOD
pub stun_method : ℕ → ℕ
stun_method type =
    bit_or (bit_or (bit_and type 0x3e00 / 2 ^ 2) (bit_and type 0x00e0 / 2 ^ 1))
      (bit_and type 0x000f)

-- The bits of method and class in their places, RFC 5389 section 6.
abbrev pub type_value : ℕ → ℕ → ℕ
type_value method class =
    method / 2 ^ 7 * 2 ^ 9
    + class / 2 * 2 ^ 8
    + method / 2 ^ 4 % 2 ^ 3 * 2 ^ 5
    + class % 2 * 2 ^ 4
    + method % 2 ^ 4

stun_type_lem :
    (method class : ℕ)
    → method < 2 ^ 12
    → class < 4
    → stun_type method class ≡ type_value method class
unfolding stun_type
stun_type_lem method class hm hc =
    let a = method / 2 ^ 7 in
    let b = method / 2 ^ 4 % 2 ^ 3 in
    let c = method % 2 ^ 4 in
    let x = class / 2 in
    let y = class % 2 in
    let ea : bit_and method 0x0f80 * 2 ^ 2 ≡ a * 2 ^ 9 = omega (arith, bit_and_field 5 7 method) in
    let eb : bit_and method 0x0070 * 2 ^ 1 ≡ b * 2 ^ 5 = omega (arith, bit_and_field 3 4 method) in
    let ec : bit_and method 0x000f * 2 ^ 0 ≡ c = omega (arith, bit_and_low 4 method) in
    let ex : bit_and class 0x2 * 2 ^ 7 ≡ x * 2 ^ 8 = omega (arith, bit_and_field 1 1 class) in
    let ey : bit_and class 0x1 * 2 ^ 4 ≡ y * 2 ^ 4 = omega (arith, bit_and_low 1 class) in
    let s1 : bit_or (a * 2 ^ 9) (b * 2 ^ 5) ≡ (a * 16 + b) * 2 ^ 5 =
      omega (arith, bit_or_shifted 9 a (b * 2 ^ 5)) in
    let s2 : bit_or ((a * 16 + b) * 2 ^ 5) c ≡ a * 2 * 2 ^ 8 + (b * 2 ^ 5 + c) =
      omega (arith, bit_or_shifted 5 (a * 16 + b) c) in
    let s3 : bit_or (a * 2 * 2 ^ 8 + (b * 2 ^ 5 + c)) (x * 2 ^ 8)
        ≡ ((a * 16 + x * 8 + b) * 2) * 2 ^ 4 + c =
      omega (arith, bit_or_above 8 (a * 2) (b * 2 ^ 5 + c) x, bit_or_shifted 1 a x) in
    let s4 : bit_or (((a * 16 + x * 8 + b) * 2) * 2 ^ 4 + c) (y * 2 ^ 4) ≡ type_value method class =
      omega (
        arith,
        bit_or_above 4 ((a * 16 + x * 8 + b) * 2) c y,
        bit_or_shifted 1 (a * 16 + x * 8 + b) y,
      ) in
    rw (ea, eb, ec, ex, ey, s1, s2, s3) s4

stun_method-stun_type :
    (method class : ℕ) → method < 2 ^ 12 → class < 4 → stun_method (stun_type method class) ≡ method
unfolding stun_method
stun_method-stun_type method class hm hc =
    let t = type_value method class in
    let a = method / 2 ^ 7 in
    let b = method / 2 ^ 4 % 2 ^ 3 in
    let c = method % 2 ^ 4 in
    let e = stun_type_lem method class hm hc in
    let ea : bit_and t 0x3e00 / 2 ^ 2 ≡ a * 2 ^ 7 = omega (arith, bit_and_field 5 9 t) in
    let eb : bit_and t 0x00e0 / 2 ^ 1 ≡ b * 2 ^ 4 = omega (arith, bit_and_field 3 5 t) in
    let ec : bit_and t 0x000f ≡ c = omega (arith, bit_and_low 4 t) in
    let s1 : bit_or (a * 2 ^ 7) (b * 2 ^ 4) ≡ (a * 8 + b) * 2 ^ 4 =
      omega (arith, bit_or_shifted 7 a (b * 2 ^ 4)) in
    rw (e, ea, eb, ec, s1) (omega (arith, bit_or_shifted 4 (a * 8 + b) c))

stun_class-stun_type :
    (method class : ℕ)
    → method < 2 ^ 12
    → class < 4
    → stun_class (stun_type method class)
      ≡ max (class / 2) (method / 2 ^ 4 % 2) * 2 + max (class % 2) (method / 2 ^ 6 % 2)
unfolding stun_class
stun_class-stun_type method class hm hc =
    let t = type_value method class in
    let e = stun_type_lem method class hm hc in
    let d = bit_or_digit (t / 2 ^ 7) (t / 2 ^ 4) in
    let d2 = bit_or_digit (t / 2 ^ 7 / 2) (t / 2 ^ 4 / 2) in
    rw e (omega (arith, bit_and_low 2 (bit_or (t / 2 ^ 7) (t / 2 ^ 4)), d, d2))

-- For a method below 2^12 and a class below 4, STUN_METHOD of STUN_TYPE is the method, and
-- STUN_CLASS of it is the class with bit 4 of the method set in its upper bit and bit 6 of the
-- method in its lower bit: it is the class for methods without these two bits, such as all methods
-- below 16.
pub stun_type_parts :
    (method class : ℕ)
    → method < 2 ^ 12
    → class < 4
    → (stun_method (stun_type method class) ≡ method)
      × (stun_class (stun_type method class)
          ≡ max (class / 2) (method / 2 ^ 4 % 2) * 2 + max (class % 2) (method / 2 ^ 6 % 2))
stun_type_parts method class hm hc =
    (stun_method-stun_type method class hm hc, stun_class-stun_type method class hm hc)
