-- ===== src/Base64/Values.antt =====
-- One round of base64_decode: the values of the characters, packing and unpacking.
use re.Base.{
  ◌∙◌, ℕ, zero, suc, ◌+◌, ◌*◌, ◌/◌, ◌%◌, ◌^◌, ◌≤◌, ◌<◌, ◌≡◌, refl, arith, Bool, true, false, ◌&&◌,
  ◌==◌, ==_iff, bit_and, bit_or, [], ◌∷◌, get_or, bit_or_digit, twice_shifted, bit_or_shifted,
  bit_or_under, bit_and_low, bit_and_single, test_bit-div,
}
use native.Mathlib.Nat.{pow-suc, one-le-pow}
use re.Base64.{b64_table, b64url_table, b64val, pack, unpack}

all_below : ℕ → (ℕ → Bool) → Bool
all_below zero q = true
all_below (suc n) q = q n && all_below n q

all_below_sound : (n : ℕ) (q : ℕ → Bool) (x : ℕ) → all_below n q ≡ true → x < n → q x ≡ true
unfolding all_below
all_below_sound zero q x h lt = absurd (omega arith)
all_below_sound (suc n) q x h lt = ground (arith, all_below_sound n q x)

table_values : all_below 64 (λ k. b64val (get_or b64_table k 0) == k) ≡ true
unfolding all_below b64val
table_values = refl

url_values : all_below 64 (λ k. b64val (get_or b64url_table k 0) == k) ≡ true
unfolding all_below b64val
url_values = refl

pub b64val-b64_table : (k : ℕ) → k < 64 → b64val (get_or b64_table k 0) ≡ k
b64val-b64_table k h = (==_iff _ k).0 (all_below_sound 64 _ k table_values h)

pub b64val-b64url_table : (k : ℕ) → k < 64 → b64val (get_or b64url_table k 0) ≡ k
b64val-b64url_table k h = (==_iff _ k).0 (all_below_sound 64 _ k url_values h)

pub pack_full :
    (a b c d : ℕ)
    → a < 64
    → b < 64
    → c < 64
    → d < 64
    → pack a b c d ≡ a * 2 ^ 18 + b * 2 ^ 12 + c * 2 ^ 6 + d
unfolding pack
pack_full a b c d ha hb hc hd =
    let e1 : a * 2 ^ 18 % 2 ^ 32 ≡ a * 2 ^ 18 = omega arith in
    let e2 : b * 2 ^ 12 % 2 ^ 32 ≡ b * 2 ^ 12 = omega arith in
    let e3 : c * 2 ^ 6 % 2 ^ 32 ≡ c * 2 ^ 6 = omega arith in
    let s1 : bit_or (a * 2 ^ 18) (b * 2 ^ 12) ≡ (a * 2 ^ 6 + b) * 2 ^ 12 =
      omega (arith, bit_or_shifted 18 a (b * 2 ^ 12) (omega arith)) in
    let s2 : bit_or ((a * 2 ^ 6 + b) * 2 ^ 12) (c * 2 ^ 6) ≡ (a * 2 ^ 12 + b * 2 ^ 6 + c) * 2 ^ 6 =
      omega (arith, bit_or_shifted 12 (a * 2 ^ 6 + b) (c * 2 ^ 6) (omega arith)) in
    let s3 : bit_or ((a * 2 ^ 12 + b * 2 ^ 6 + c) * 2 ^ 6) d
        ≡ a * 2 ^ 18 + b * 2 ^ 12 + c * 2 ^ 6 + d =
      omega (arith, bit_or_shifted 6 (a * 2 ^ 12 + b * 2 ^ 6 + c) d hd) in
    rw (e1, e2, e3, s1, s2, s3)

pub bit_or_blocks :
    (k a l b : ℕ) → l < 2 ^ k → bit_or (a * 2 ^ k + l) (b * 2 ^ k) ≡ bit_or a b * 2 ^ k + l
bit_or_blocks zero a l b h =
    let e1 : a * 2 ^ 0 + l ≡ a = omega arith in
    let e2 : b * 2 ^ 0 ≡ b = omega arith in
    let e3 : bit_or a b * 2 ^ 0 + l ≡ bit_or a b = omega arith in rw (e1, e2, e3)
bit_or_blocks (suc k) a l b h = ground (
  arith,
  bit_or_digit (a * 2 ^ suc k + l) (b * 2 ^ suc k),
  twice_shifted a k,
  twice_shifted b k,
  twice_shifted (bit_or a b) k,
  pow-suc 2 k,
  bit_or_blocks k a (l / 2) b,
)

-- `bit_and` with a bit that is not set, or is.
pub flag_low : (v k : ℕ) → v / 2 ^ k % 2 ≡ 0 → (bit_and v (2 ^ k) == 0) ≡ true
flag_low v k h =
    let z : 0 * 2 ^ k ≡ 0 = omega arith in rw (bit_and_single k v, test_bit-div k v, h, z)

pub unpack_three :
    (v a b c : ℕ)
    → a < 256
    → b < 256
    → c < 256
    → v ≡ a * 2 ^ 16 + b * 2 ^ 8 + c
    → unpack v ≡ a ∷ b ∷ c ∷ []
unfolding unpack
unpack_three v a b c ha hb hc e =
    let f1 = flag_low v 30 (omega arith) in
    let f2 = flag_low v 24 (omega arith) in
    let e1 : v / 2 ^ 16 % 256 ≡ a = omega arith in
    let e2 : bit_and (v / 2 ^ 8) 0xff ≡ b = omega (arith, bit_and_low 8 (v / 2 ^ 8)) in
    let e3 : bit_and (v / 2 ^ 0) 0xff ≡ c = omega (arith, bit_and_low 8 (v / 2 ^ 0)) in
    rw (f1, f2, e1, e2, e3)

flag_high : (v k : ℕ) → v / 2 ^ k % 2 ≡ 1 → (bit_and v (2 ^ k) == 0) ≡ false
flag_high v k h =
    let z : 1 * 2 ^ k ≡ 2 ^ k = omega arith in
    let one : 1 ≤ 2 ^ k = one-le-pow k 2 (omega arith) in
    rw (bit_and_single k v, test_bit-div k v, h, z) (ground (arith, one))

-- A round with one `=` and a round with two.
pub unpack_two :
    (v a b : ℕ) → a < 256 → b < 256 → v ≡ 2 ^ 24 + a * 2 ^ 16 + b * 2 ^ 8 → unpack v ≡ a ∷ b ∷ []
unfolding unpack
unpack_two v a b ha hb e =
    let f1 = flag_low v 30 (omega arith) in
    let f2 = flag_high v 24 (omega arith) in
    let e1 : v / 2 ^ 16 % 256 ≡ a = omega arith in
    let e2 : bit_and (v / 2 ^ 8) 0xff ≡ b = omega (arith, bit_and_low 8 (v / 2 ^ 8)) in
    rw (f1, f2, e1, e2)

pub unpack_one : (v a : ℕ) → a < 256 → v ≡ 2 ^ 30 + 2 ^ 24 + a * 2 ^ 16 → unpack v ≡ a ∷ []
unfolding unpack
unpack_one v a ha e =
    let f1 = flag_high v 30 (omega arith) in
    let f2 = flag_high v 24 (omega arith) in
    let e1 : v / 2 ^ 16 % 256 ≡ a = omega arith in rw (f1, f2, e1)

pub pack_two :
    (a b c : ℕ)
    → a < 64
    → b < 64
    → c < 64
    → pack a b c (2 ^ 24) ≡ 2 ^ 24 + (a * 2 ^ 18 + b * 2 ^ 12 + c * 2 ^ 6)
unfolding pack
pack_two a b c ha hb hc =
    let e1 : a * 2 ^ 18 % 2 ^ 32 ≡ a * 2 ^ 18 = omega arith in
    let e2 : b * 2 ^ 12 % 2 ^ 32 ≡ b * 2 ^ 12 = omega arith in
    let e3 : c * 2 ^ 6 % 2 ^ 32 ≡ c * 2 ^ 6 = omega arith in
    let s1 : bit_or (a * 2 ^ 18) (b * 2 ^ 12) ≡ (a * 2 ^ 6 + b) * 2 ^ 12 =
      omega (arith, bit_or_shifted 18 a (b * 2 ^ 12) (omega arith)) in
    let s2 : bit_or ((a * 2 ^ 6 + b) * 2 ^ 12) (c * 2 ^ 6) ≡ a * 2 ^ 18 + b * 2 ^ 12 + c * 2 ^ 6 =
      omega (arith, bit_or_shifted 12 (a * 2 ^ 6 + b) (c * 2 ^ 6) (omega arith)) in
    rw (e1, e2, e3, s1, s2)
      (omega (arith, bit_or_under 24 1 (a * 2 ^ 18 + b * 2 ^ 12 + c * 2 ^ 6) (omega arith)))

pub pack_one :
    (a b : ℕ)
    → a < 64
    → b < 64
    → pack a b (2 ^ 24) (2 ^ 24) ≡ 2 ^ 30 + 2 ^ 24 + (a * 2 ^ 18 + b * 2 ^ 12)
unfolding pack
pack_one a b ha hb =
    let x = a * 2 ^ 18 + b * 2 ^ 12 in
    let e1 : a * 2 ^ 18 % 2 ^ 32 ≡ a * 2 ^ 18 = omega arith in
    let e2 : b * 2 ^ 12 % 2 ^ 32 ≡ b * 2 ^ 12 = omega arith in
    let s1 : bit_or (a * 2 ^ 18) (b * 2 ^ 12) ≡ x =
      bit_or_shifted 18 a (b * 2 ^ 12) (omega arith) in
    let s2 : bit_or x (2 ^ 30) ≡ 64 * 2 ^ 24 + x =
      omega (arith, bit_or_under 30 1 x (omega arith)) in
    let s3 : bit_or (64 * 2 ^ 24 + x) (1 * 2 ^ 24) ≡ bit_or 64 1 * 2 ^ 24 + x =
      bit_or_blocks 24 64 x 1 (omega arith) in
    rw (e1, e2, s1, s2) (s3 ∙ omega arith)
