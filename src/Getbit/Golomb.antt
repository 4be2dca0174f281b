-- ===== src/Getbit/Golomb.antt =====
-- Exponential Golomb codes.
use re.Base.{
  ℕ, zero, suc, ◌+◌, ◌-◌, ◌*◌, ◌/◌, ◌%◌, ◌^◌, ◌<◌, ◌≤◌, ◌≡◌, refl, ap, ◌∙◌, arith, false, ltb,
  bit_or_shifted, twice_shifted, some, List, ◌∷◌, ◌++◌, length-append, append_assoc, replicate,
  length-replicate,
}
use native.Mathlib.Nat.{
  pow-suc, mod-eq-sub-div-mul, div-div-eq-div-mul, div-mul-le_self, one-le-pow, pow-le-pow_right,
  mod-eq_of_lt,
}
use re.Getbit.{Getbit, getbit_get_left, count_zeros, read_info, get_ue_golomb}
use re.Getbit.Left.{HasLeft, getbit_get_left_lem, get_bit_lem, code_bits}

-- `z` zeros, a one, and the low `z` bits of the number.
abbrev pub ue_golomb : ℕ → ℕ → List ℕ
ue_golomb z info = replicate z 0 ++ 1 ∷ code_bits z info

count_zeros_lem :
    (z : ℕ) {gb : Getbit} (n k : ℕ) (rest : List ℕ)
    → z < n
    → HasLeft gb (replicate z 0 ++ 1 ∷ rest)
    → let r = count_zeros n k gb in (r.0 ≡ 0) × (r.1 ≡ k + z) × HasLeft r.2 rest
unfolding count_zeros
count_zeros_lem z zero k rest lt h = absurd (omega arith)
count_zeros_lem zero {gb} (suc n) k rest lt h =
    let (got, after) = get_bit_lem 1 rest h in
    let more : ltb (getbit_get_left gb) 1 ≡ false = ground (arith, getbit_get_left_lem h) in
    let k0 : k ≡ k + 0 = omega arith in rw (more, got) (refl, k0, after)
count_zeros_lem (suc z) {gb} (suc n) k rest lt h =
    let (got, after) = get_bit_lem 0 (replicate z 0 ++ 1 ∷ rest) h in
    let more : ltb (getbit_get_left gb) 1 ≡ false = ground (arith, getbit_get_left_lem h) in
    let (e0, e1, e2) = count_zeros_lem z n (k + 1) rest (omega arith) after in
    let same : k + 1 + z ≡ k + suc z = omega arith in rw (more, got) (e0, e1 ∙ same, e2)

pub code_digit : (i v : ℕ) → v % 2 ^ suc i ≡ v / 2 ^ i % 2 * 2 ^ i + v % 2 ^ i
code_digit i v =
    let split : v / 2 ^ i ≡ v / 2 ^ i / 2 * 2 + v / 2 ^ i % 2 = omega arith in
    omega (
      arith,
      ap (λ (t : ℕ). v % t) (pow-suc 2 i),
      mod-eq-sub-div-mul v (2 ^ i * 2),
      mod-eq-sub-div-mul v (2 ^ i),
      div-mul-le_self v (2 ^ i),
      ap (λ (t : ℕ). t * 2 ^ i) split,
      ap (λ (t : ℕ). t * 2 ^ i) (div-div-eq-div-mul v (2 ^ i) 2),
    )

bit_below : (i b : ℕ) → b < 2 → b * 2 ^ i < 2 ^ suc i
bit_below i zero h = omega (arith, pow-suc 2 i, one-le-pow i 2 (omega arith))
bit_below i (suc zero) h = omega (arith, pow-suc 2 i, one-le-pow i 2 (omega arith))
bit_below i (suc (suc b)) h = absurd (omega arith)

-- `q` is what has been read, the leading one included.
read_info_lem :
    (i : ℕ) {gb : Getbit} (q v : ℕ) (rest : List ℕ)
    → q * 2 ^ i + v % 2 ^ i < 2 ^ 32
    → HasLeft gb (code_bits i v ++ rest)
    → let r = read_info i (q * 2 ^ i) gb in
      (r.0 ≡ 0) × (r.1 ≡ q * 2 ^ i + v % 2 ^ i) × HasLeft r.2 rest
unfolding read_info
read_info_lem zero q v rest lt h = (refl, omega arith, h)
read_info_lem (suc i) {gb} q v rest lt h =
    let b = v / 2 ^ i % 2 in
    let (got, after) = get_bit_lem b (code_bits i v ++ rest) h in
    let more : ltb (getbit_get_left gb) 1 ≡ false = ground (arith, getbit_get_left_lem h) in
    let d = code_digit i v in
    let bit_lt : b * 2 ^ i < 2 ^ suc i = bit_below i b (omega arith) in
    let grown = bit_or_shifted (suc i) q (b * 2 ^ i) bit_lt in
    let joined : q * 2 ^ suc i + b * 2 ^ i ≡ (2 * q + b) * 2 ^ i =
      omega (arith, twice_shifted q i) in
    let small : b * 2 ^ i % 2 ^ 32 ≡ b * 2 ^ i = omega (arith, d) in
    let (e0, e1, e2) = read_info_lem i (2 * q + b) v rest (omega (arith, d, joined)) after in
    let value : (2 * q + b) * 2 ^ i + v % 2 ^ i ≡ q * 2 ^ suc i + v % 2 ^ suc i =
      omega (arith, d, joined) in
    rw (more, got, small, grown, joined) (e0, e1 ∙ value, e2)

-- Where the bits that are left begin with z zeros, a one and the z bits of a number below 2^z,
-- with z below 31, get_ue_golomb succeeds with 2^z and that number, less one, and leaves the bits
-- behind the code.
pub get_ue_golomb_lem :
    {gb : Getbit} (z info : ℕ) (rest : List ℕ)
    → z < 31
    → info < 2 ^ z
    → HasLeft gb (ue_golomb z info ++ rest)
    → let r = get_ue_golomb gb in (r.0 ≡ 0) × (r.1 ≡ some (2 ^ z + info - 1)) × HasLeft r.2 rest
unfolding get_ue_golomb
get_ue_golomb_lem {gb} z info rest hz hi h =
    let held : HasLeft gb (replicate z 0 ++ 1 ∷ (code_bits z info ++ rest)) =
      rw (append_assoc (replicate z 0) (1 ∷ code_bits z info) rest) at h in
    let room : z < suc (getbit_get_left gb) = omega (
      arith,
      getbit_get_left_lem held,
      length-append (replicate z 0) (1 ∷ (code_bits z info ++ rest)),
      length-replicate {A = ℕ} z 0,
    ) in
    let (c0, c1, c2) = count_zeros_lem z (suc (getbit_get_left gb)) 0 _ room held in
    let zeros : (count_zeros (suc (getbit_get_left gb)) 0 gb).1 ≡ z = omega (arith, c1) in
    let top : 2 ^ z ≤ 2 ^ 30 =
      pow-le-pow_right {n = 2} (omega arith) {i = z} {j = 30} (omega arith) in
    let leading : 2 ^ z % 2 ^ 32 ≡ 1 * 2 ^ z = omega (arith, top) in
    let low : info % 2 ^ z ≡ info = mod-eq_of_lt hi in
    let (r0, r1, r2) = read_info_lem z 1 info rest (omega (arith, top, low)) c2 in
    let value : (1 * 2 ^ z + info % 2 ^ z + 2 ^ 32 - 1) % 2 ^ 32 ≡ 2 ^ z + info - 1 =
      omega (arith, top, low, one-le-pow z 2 (omega arith)) in
    rw (c0, zeros, leading, r0, r1, value) (refl, refl, r2)
