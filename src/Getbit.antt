-- ===== src/Getbit.antt =====
-- src/h264/getbit.c: a reader of single bits, the highest of each byte first, with the exponential
-- Golomb codes of H.264 and the non-symmetric codes of the dependency descriptor. A `struct getbit`
-- is returned behind the result of each function. `unsigned` has 32 bits. The warnings about reads
-- past the end are not modelled. Where the C code shifts by 31 or more, which is undefined, a shift
-- here wraps.
pub mod Left
pub mod Golomb
pub mod NonSymmetric
pub mod Tests
use re.Base.{
  ℕ, zero, suc, ◌+◌, ◌-◌, ◌*◌, ◌/◌, ◌%◌, ◌^◌, if◌then◌else◌, not, ◌==◌, leb, ltb, bit_and, bit_or,
  get_or, Option, none, some, Bytes, ebadmsg,
}

pub record Getbit : Type 0 where
  pub buf : Bytes
  pub pos : ℕ
  pub end : ℕ

pub getbit_init : Bytes → ℕ → Getbit
getbit_init buf size = record { buf = buf; pos = 0; end = size }

pub getbit_get_left : Getbit → ℕ
getbit_get_left gb = if ltb gb.pos gb.end then gb.end - gb.pos else 0

pub get_bit : Getbit → ℕ × Getbit
get_bit gb = if leb gb.end gb.pos then (0, gb) else (
  bit_and (get_or gb.buf (gb.pos / 2 ^ 3) 0 / 2 ^ (7 - bit_and gb.pos 7)) 1,
  record gb { pos = gb.pos + 1 },
)

-- The loop that counts zeros, with a round for each bit that is left: the error, the count, and the
-- reader behind the first bit that is set.
pub count_zeros : ℕ → ℕ → Getbit → ℕ × ℕ × Getbit
unfolding getbit_get_left get_bit
count_zeros zero zeros gb = (ebadmsg, zeros, gb)
count_zeros (suc n) zeros gb =
    let (bit, gb') = get_bit gb in
    let rest = count_zeros n (zeros + 1) gb' in
    if ltb (getbit_get_left gb) 1
    then (ebadmsg, zeros, gb)
    else if bit == 0
    then rest
    else (0, zeros, gb')

-- The loop over the `i` bits that follow.
pub read_info : ℕ → ℕ → Getbit → ℕ × ℕ × Getbit
unfolding getbit_get_left get_bit
read_info zero info gb = (0, info, gb)
read_info (suc i) info gb =
    let (bit, gb') = get_bit gb in
    let rest = read_info i (bit_or info (bit * 2 ^ i % 2 ^ 32)) gb' in
    if ltb (getbit_get_left gb) 1 then (ebadmsg, info, gb) else rest

-- The value is `none` where it is not set.
pub get_ue_golomb : Getbit → ℕ × Option ℕ × Getbit
unfolding count_zeros read_info getbit_get_left
get_ue_golomb gb =
    let (err, zeros, gb1) = count_zeros (suc (getbit_get_left gb)) 0 gb in
    if not (err == 0)
    then (err, none, gb1)
    else (let (err', info, gb2) = read_info zeros (2 ^ zeros % 2 ^ 32) gb1 in
        if not (err' == 0)
        then (err', none, gb2)
        else (0, some ((info + 2 ^ 32 - 1) % 2 ^ 32), gb2))

pub bits_loop : ℕ → ℕ → Getbit → ℕ × Getbit
unfolding get_bit
bits_loop zero x gb = (x, gb)
bits_loop (suc n) x gb = let (bit, gb') = get_bit gb in bits_loop n ((2 * x + bit) % 2 ^ 32) gb'

pub get_bits : Getbit → ℕ → ℕ × Getbit
unfolding bits_loop getbit_get_left
get_bits gb n = if ltb (getbit_get_left gb) n then (0, gb) else bits_loop n 0 gb

-- The loop that counts the bits of `x`, which `n` rounds with x < 2^n end.
pub bit_width : ℕ → ℕ → ℕ → ℕ
bit_width zero x w = w
bit_width (suc n) x w = let rest = bit_width n (x / 2) (w + 1) in if x == 0 then w else rest

pub getbit_read_ns : Getbit → ℕ → ℕ × Getbit
unfolding bit_width get_bits
getbit_read_ns gb n =
    let w = bit_width 32 n 0 in
    let m = (2 ^ w + 2 ^ 32 - n) % 2 ^ 32 in
    let (v, gb1) = get_bits gb ((w + 2 ^ 32 - 1) % 2 ^ 32) in
    if ltb v m
    then (v, gb1)
    else (let (extra_bit, gb2) = get_bits gb1 1 in ((v * 2 + 2 ^ 32 - m + extra_bit) % 2 ^ 32, gb2))
