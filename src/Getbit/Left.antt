-- ===== src/Getbit/Left.antt =====
-- The bits that are left, as a list, and reading them.
use re.Base.{
  ℕ, zero, suc, ◌+◌, ◌-◌, ◌*◌, ◌/◌, ◌%◌, ◌^◌, ◌≤◌, ◌≡◌, refl, ◌∙◌, arith, false, leb, ltb, bit_and,
  bit_and_low, get_or, List, [], ◌∷◌, ◌++◌, length, length-append, Bytes,
}
use re.Getbit.{Getbit, getbit_get_left, get_bit, bits_loop, get_bits}

-- The bit number `i` of a byte string, the highest bit of the first byte being number 0.
abbrev pub bit_at : Bytes → ℕ → ℕ
bit_at buf i = get_or buf (i / 8) 0 / 2 ^ (7 - i % 8) % 2

abbrev pub bits_from : Bytes → ℕ → ℕ → List ℕ
bits_from buf i zero = []
bits_from buf i (suc n) = bit_at buf i ∷ bits_from buf (i + 1) n

-- `bs` are the bits that are left, all of them in the buffer.
pub record HasLeft (gb : Getbit) (bs : List ℕ) : Type 0 where
  pub inside : gb.pos + length bs ≡ gb.end
  pub in_buffer : gb.end ≤ 8 * length gb.buf
  pub bits : bits_from gb.buf gb.pos (length bs) ≡ bs

head_eq : {x y : ℕ} {xs ys : List ℕ} → x ∷ xs ≡ y ∷ ys → x ≡ y
head_eq h = cc

tail_eq : {x y : ℕ} {xs ys : List ℕ} → x ∷ xs ≡ y ∷ ys → xs ≡ ys
tail_eq h = cc

pub getbit_get_left_lem :
    {gb : Getbit} {bs : List ℕ} → HasLeft gb bs → getbit_get_left gb ≡ length bs
unfolding getbit_get_left
getbit_get_left_lem h = ground (arith, h.inside)

pub get_bit_lem :
    {gb : Getbit} (b : ℕ) (bs : List ℕ)
    → HasLeft gb (b ∷ bs)
    → ((get_bit gb).0 ≡ b) × HasLeft (get_bit gb).1 bs
unfolding get_bit
get_bit_lem {gb} b bs h =
    let more : leb gb.end gb.pos ≡ false = ground (arith, h.inside) in
    let low : bit_and gb.pos 7 ≡ gb.pos % 8 = bit_and_low 3 gb.pos in
    let last = bit_and_low 1 (get_or gb.buf (gb.pos / 8) 0 / 2 ^ (7 - gb.pos % 8)) in
    rw (more, low)
      (
        last ∙ head_eq h.bits,
        record { inside = omega (arith, h.inside); in_buffer = h.in_buffer; bits = tail_eq h.bits },
      )

-- The number that the bits mean, behind `x`.
abbrev pub bits_value : ℕ → List ℕ → ℕ
bits_value x [] = x
bits_value x (b ∷ bs) = bits_value (2 * x + b) bs

bits_loop_lem :
    (bs : List ℕ) {gb : Getbit} (x y : ℕ) (rest : List ℕ)
    → x ≡ y % 2 ^ 32
    → HasLeft gb (bs ++ rest)
    → ((bits_loop (length bs) x gb).0 ≡ bits_value y bs % 2 ^ 32)
      × HasLeft (bits_loop (length bs) x gb).1 rest
unfolding bits_loop
bits_loop_lem [] x y rest e h = (e, h)
bits_loop_lem (b ∷ bs) {gb} x y rest e h =
    let (got, after) = get_bit_lem b (bs ++ rest) h in
    let same : (2 * x + (get_bit gb).0) % 2 ^ 32 ≡ (2 * y + b) % 2 ^ 32 = omega (arith, e, got) in
    bits_loop_lem bs _ (2 * y + b) rest same after

pub get_bits_lem :
    {gb : Getbit} (bs rest : List ℕ)
    → HasLeft gb (bs ++ rest)
    → ((get_bits gb (length bs)).0 ≡ bits_value 0 bs % 2 ^ 32)
      × HasLeft (get_bits gb (length bs)).1 rest
unfolding get_bits
get_bits_lem {gb} bs rest h =
    let room : ltb (getbit_get_left gb) (length bs) ≡ false =
      ground (arith, getbit_get_left_lem h, length-append bs rest) in
    rw room (bits_loop_lem bs 0 0 rest refl h)

-- The `n` bits of `v`, the highest first.
abbrev pub code_bits : ℕ → ℕ → List ℕ
code_bits zero v = []
code_bits (suc n) v = (v / 2 ^ n % 2) ∷ code_bits n v
