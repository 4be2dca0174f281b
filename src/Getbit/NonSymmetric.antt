-- ===== src/Getbit/NonSymmetric.antt =====
-- The non-symmetric codes of numbers below `n`.
use re.Base.{
  ℕ, zero, suc, ◌+◌, ◌-◌, ◌*◌, ◌/◌, ◌%◌, ◌^◌, ◌<◌, ◌≤◌, ◌≡◌, ◌≢◌, refl, ap, sym, subst, ◌∙◌, inl,
  inr, arith, false, if◌then◌else◌, ◌==◌, leb, ltb, ltb→lt, ltb→le, le→ltb, twice_shifted,
  Bool-cases, List, [], ◌∷◌, ◌++◌, length, append_assoc,
}
use native.Mathlib.Nat.{pow-suc, one-le-pow, pow-le-pow_right, mod-eq_of_lt, div-div-eq-div-mul}
use re.Getbit.{Getbit, bit_width, get_bits, getbit_read_ns}
use re.Getbit.Left.{HasLeft, get_bits_lem, bits_value, code_bits}
use re.Getbit.Golomb.{code_digit}

-- A number below `m` has a code of `w` bits, another one a code of `w + 1` bits; of these there are
-- 2 ^ (w + 1), where the number `n` has as many bits.
abbrev pub ns_code : ℕ → ℕ → ℕ → List ℕ
ns_code w n v =
    let m = 2 ^ suc w - n in if ltb v m then code_bits w v else code_bits (suc w) (v + m)

length-code_bits : (n v : ℕ) → length (code_bits n v) ≡ n
length-code_bits zero v = refl
length-code_bits (suc n) v = ap suc (length-code_bits n v)

bits_value-code_bits : (n x v : ℕ) → bits_value x (code_bits n v) ≡ x * 2 ^ n + v % 2 ^ n
bits_value-code_bits zero x v = omega arith
bits_value-code_bits (suc n) x v =
    let b = v / 2 ^ n % 2 in
    let joined : (2 * x + b) * 2 ^ n ≡ x * 2 ^ suc n + b * 2 ^ n =
      omega (arith, twice_shifted x n) in
    omega (arith, bits_value-code_bits n (2 * x + b) v, code_digit n v, joined)

bit_width-zero : (k w : ℕ) → bit_width k 0 w ≡ w
unfolding bit_width
bit_width-zero zero w = refl
bit_width-zero (suc k) w = refl

-- The loop counts the bits of `n`.
bit_width_lem :
    (k n w : ℕ)
    → n < 2 ^ k
    → n ≢ 0
    → (j : ℕ) × (bit_width k n w ≡ w + suc j) × (2 ^ j ≤ n) × (n < 2 ^ suc j)
unfolding bit_width
bit_width_lem zero n w lt ne = absurd (omega arith)
bit_width_lem (suc k) n w lt ne = elim (Bool-cases (leb n 1)) [
  | inl one ↦
      let e : n ≡ 1 = ground arith in
      let nz : (n == 0) ≡ false = ground arith in
      let half : n / 2 ≡ 0 = omega arith in
      (0, rw (nz, half) (bit_width-zero k (w + 1)), omega arith, omega arith)
  | inr more ↦
      let nz : (n == 0) ≡ false = ground arith in
      let (j, e, lo, hi) =
        bit_width_lem k (n / 2) (w + 1) (omega (arith, pow-suc 2 k)) (ground arith) in
      let up : w + 1 + suc j ≡ w + suc (suc j) = omega arith in
      (suc j, rw nz (e ∙ up), omega (arith, pow-suc 2 j), omega (arith, pow-suc 2 (suc j)))
]

read_code :
    {gb : Getbit} (k v : ℕ) (rest : List ℕ)
    → k < 33
    → v < 2 ^ k
    → HasLeft gb (code_bits k v ++ rest)
    → ((get_bits gb k).0 ≡ v) × HasLeft (get_bits gb k).1 rest
read_code {gb} k v rest hk hv h =
    let (got, after) = get_bits_lem (code_bits k v) rest h in
    let n = length-code_bits k v in
    let top : 2 ^ k ≤ 2 ^ 32 =
      pow-le-pow_right {n = 2} (omega arith) {i = k} {j = 32} (omega arith) in
    let value : bits_value 0 (code_bits k v) % 2 ^ 32 ≡ v =
      omega (arith, bits_value-code_bits k 0 v, mod-eq_of_lt hv, top) in
    (
      subst (λ l. (get_bits gb l).0 ≡ v) n (got ∙ value),
      subst (λ l. HasLeft (get_bits gb l).1 rest) n after,
    )

-- The last bit of a code, apart from the rest.
code_split : (k v : ℕ) → code_bits (suc k) v ≡ code_bits k (v / 2) ++ (v % 2) ∷ []
code_split zero v = ap (λ x. x % 2 ∷ []) (let e : v / 2 ^ 0 ≡ v = omega arith in e)
code_split (suc k) v =
    let deep : v / 2 ^ suc k ≡ v / 2 / 2 ^ k =
      ap (λ t. v / t) (pow-suc 2 k ∙ (let e : 2 ^ k * 2 ≡ 2 * 2 ^ k = omega arith in e))
      ∙ sym (div-div-eq-div-mul v 2 (2 ^ k)) in
    λ i. (deep i % 2) ∷ code_split k v i

width_eq : (n w j : ℕ) → 2 ^ w ≤ n → n < 2 ^ suc w → 2 ^ j ≤ n → n < 2 ^ suc j → w ≡ j
width_eq n w j lo hi lo' hi' = elim (Bool-cases (ltb w j)) [
  | inl below ↦
      let up : 2 ^ suc w ≤ 2 ^ j =
        pow-le-pow_right {n = 2} (omega arith) {i = suc w} {j = j} (ground arith) in
      absurd (omega arith)
  | inr above ↦ elim (Bool-cases (ltb j w)) [
    | inl below ↦
        let up : 2 ^ suc j ≤ 2 ^ w =
          pow-le-pow_right {n = 2} (omega arith) {i = suc j} {j = w} (ground arith) in
        absurd (omega arith)
    | inr same ↦ ground arith
  ]
]

bit_width_eq : (n w : ℕ) → n < 2 ^ 31 → 2 ^ w ≤ n → n < 2 ^ suc w → bit_width 32 n 0 ≡ suc w
bit_width_eq n w hn lo hi =
    let ne : n ≢ 0 = omega (arith, one-le-pow w 2 (omega arith)) in
    let (j, e, lo', hi') = bit_width_lem 32 n 0 (omega arith) (λ z. ne z) in
    let same = width_eq n w j lo hi lo' hi' in omega (arith, e, same)

width_small : (n w : ℕ) → n < 2 ^ 31 → 2 ^ w ≤ n → w < 31
width_small n w hn lo = elim (Bool-cases (ltb w 31)) [
  | inl below ↦ ground arith
  | inr above ↦
      let up : 2 ^ 31 ≤ 2 ^ w =
        pow-le-pow_right {n = 2} (omega arith) {i = 31} {j = w} (ground arith) in
      absurd (omega arith)
]

read_bit :
    {gb : Getbit} (b : ℕ) (rest : List ℕ)
    → b < 2
    → HasLeft gb (b ∷ rest)
    → ((get_bits gb 1).0 ≡ b) × HasLeft (get_bits gb 1).1 rest
read_bit b rest lt h =
    let (got, after) = get_bits_lem (b ∷ []) rest h in (got ∙ omega (arith, lt), after)

-- For n below 2^31 with 2^w <= n < 2^(w+1), where the bits that are left begin with the non-
-- symmetric code of a number below n, of w bits for the numbers below 2^(w+1) - n and of w + 1
-- bits for the others, getbit_read_ns gives the number and leaves the bits behind the code.
pub getbit_read_ns_lem :
    {gb : Getbit} (n w v : ℕ) (rest : List ℕ)
    → n < 2 ^ 31
    → v < n
    → 2 ^ w ≤ n
    → n < 2 ^ suc w
    → HasLeft gb (ns_code w n v ++ rest)
    → ((getbit_read_ns gb n).0 ≡ v) × HasLeft (getbit_read_ns gb n).1 rest
unfolding getbit_read_ns
getbit_read_ns_lem {gb} n w v rest hn hv lo hi h =
    let width = bit_width_eq n w hn lo hi in
    let twice = pow-suc 2 w in
    let m = 2 ^ suc w - n in
    let small_w : w < 31 = width_small n w hn lo in
    let m_eq : (2 ^ suc w + 2 ^ 32 - n) % 2 ^ 32 ≡ m = omega (arith, twice) in
    let w_eq : (suc w + 2 ^ 32 - 1) % 2 ^ 32 ≡ w = omega arith in
    elim (Bool-cases (ltb v m)) [
      | inl short ↦
          let held : HasLeft gb (code_bits w v ++ rest) = rw short at h in
          let (got, after) =
            read_code w v rest (omega arith) (omega (arith, twice, ltb→lt v m short)) held in
          rw (width, m_eq, w_eq, got, short) (refl, after)
      | inr long ↦
          let long_code : HasLeft gb (code_bits (suc w) (v + m) ++ rest) = rw long at h in
          let held : HasLeft gb (code_bits w ((v + m) / 2) ++ ((v + m) % 2 ∷ rest)) =
            subst (HasLeft gb)
              (ap (λ t. t ++ rest) (code_split w (v + m))
                ∙ append_assoc (code_bits w ((v + m) / 2)) ((v + m) % 2 ∷ []) rest)
              long_code in
          let (got, after) =
            read_code w ((v + m) / 2) _ (omega arith) (omega (arith, twice)) held in
          let (got', after') = read_bit ((v + m) % 2) rest (omega arith) after in
          let more : ltb ((v + m) / 2) m ≡ false = le→ltb _ _ (omega (arith, ltb→le v m long)) in
          let value : ((v + m) / 2 * 2 + 2 ^ 32 - m + (v + m) % 2) % 2 ^ 32 ≡ v =
            omega (arith, twice) in
          rw (width, m_eq, w_eq, got, more, got', value) (refl, after')
    ]
