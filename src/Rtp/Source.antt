-- ===== src/Rtp/Source.antt =====
-- src/rtp/source.c: the sequence numbers of a source, and what is reported as lost (RFC 3550,
-- appendix A). `int` values are 32 bits; sums with an unsigned operand wrap.
pub mod Lost
pub mod Resync
pub mod Jitter
pub mod Tests
use re.Base.{
  Bool, ℕ, ◌+◌, ◌-◌, ◌*◌, ◌/◌, ◌%◌, ◌^◌, ◌||◌, ltb, leb, ◌==◌, if◌then◌else◌, ℤ, zero, suc, List,
  [], ◌∷◌,
}

-- The fields of `struct rtp_source` that source.c uses, but for those of the jitter.
pub record Source : Type 0 where
  pub max_seq : ℕ
  pub cycles : ℕ
  pub base_seq : ℕ
  pub bad_seq : ℕ
  pub probation : ℕ
  pub received : ℕ
  pub expected_prior : ℕ
  pub received_prior : ℕ

abbrev pub seq_mod : ℕ
seq_mod = 65536

abbrev max_dropout : ℕ
max_dropout = 3000

abbrev max_misorder : ℕ
max_misorder = 100

abbrev min_sequential : ℕ
min_sequential = 2

pub init_seq : Source → ℕ → Source
init_seq s seq = record s {
  base_seq = seq;
  max_seq = seq;
  bad_seq = seq_mod + 1;
  cycles = 0;
  received = 0;
  received_prior = 0;
  expected_prior = 0;
}

abbrev count_received : Source → Source
count_received s = record s { received = (s.received + 1) % 2 ^ 32 }

-- The result is 1 for a packet that counts. `seq == s->max_seq + 1` is an `int` sum, which does not
-- wrap at 65536.
on_probation : Source → ℕ → ℕ × Source
on_probation s seq =
    if seq == s.max_seq + 1
    then (let s' = record s { probation = s.probation - 1; max_seq = seq } in
        if s'.probation == 0 then (1, count_received (init_seq s' seq)) else (0, s'))
    else (0, record s { probation = min_sequential - 1; max_seq = seq })

pub update_seq : Source → ℕ → ℕ × Source
unfolding init_seq on_probation
update_seq s seq =
    let udelta = (seq + seq_mod - s.max_seq) % seq_mod in
    if ltb 0 s.probation
    then on_probation s seq
    else if ltb udelta max_dropout
    then (
      1,
      count_received (record s {
        cycles = if ltb seq s.max_seq then (s.cycles + seq_mod) % 2 ^ 32 else s.cycles;
        max_seq = seq;
      }),
    )
    else if leb udelta (seq_mod - max_misorder)
    then (if seq == s.bad_seq
        then (1, count_received (init_seq s seq))
        else (0, record s { bad_seq = (seq + 1) % seq_mod }))
    else (1, count_received s)

-- `expected`, as the 32 bits of an `int`.
abbrev expected : Source → ℕ
expected s = (s.cycles + s.max_seq + 2 ^ 32 - s.base_seq + 1) % 2 ^ 32

-- The number that 32 bits stand for as an `int`.
abbrev signed : ℕ → ℤ
signed w = if ltb w (2 ^ 31) then ℤ.pos w else ℤ.negsuc (2 ^ 32 - w - 1)

clamp : ℤ → ℤ
clamp (ℤ.pos n) = if ltb 0x7fffff n then ℤ.pos 0x7fffff else ℤ.pos n
clamp (ℤ.negsuc n) = if ltb 0x7fffff (n + 1) then ℤ.negsuc (0x7fffff - 1) else ℤ.negsuc n

pub calc_lost : Source → ℤ
unfolding clamp
calc_lost s = clamp (signed ((expected s + 2 ^ 32 - s.received) % 2 ^ 32))

negated : ℕ → ℤ
negated zero = ℤ.pos 0
negated (suc n) = ℤ.negsuc n

-- `a / b` on `int` rounds towards 0.
div_int : ℤ → ℤ → ℤ
div_int (ℤ.pos a) (ℤ.pos b) = ℤ.pos (a / b)
div_int (ℤ.pos a) (ℤ.negsuc b) = negated (a / suc b)
div_int (ℤ.negsuc a) (ℤ.pos b) = negated (suc a / b)
div_int (ℤ.negsuc a) (ℤ.negsuc b) = ℤ.pos (suc a / suc b)

to_u8 : ℤ → ℕ
to_u8 (ℤ.pos n) = n % 256
to_u8 (ℤ.negsuc n) = 255 - n % 256

-- `lost_interval <= 0`
not_positive : ℕ → Bool
not_positive w = w == 0 || leb (2 ^ 31) w

fraction : ℕ → ℕ → ℕ
unfolding div_int to_u8 not_positive negated
fraction expected_interval lost_interval =
    if expected_interval == 0 || not_positive lost_interval
    then 0
    else to_u8 (div_int (signed (lost_interval * 256 % 2 ^ 32)) (signed expected_interval))

-- The fraction, and the source with the interval closed. The intervals are the bits of an `int`.
pub calc_fraction_lost : Source → ℕ × Source
calc_fraction_lost s =
    let e = expected s in
    let expected_interval = (e + 2 ^ 32 - s.expected_prior) % 2 ^ 32 in
    let received_interval = (s.received + 2 ^ 32 - s.received_prior) % 2 ^ 32 in
    let lost_interval = (expected_interval + 2 ^ 32 - received_interval) % 2 ^ 32 in
    (
      fraction expected_interval lost_interval,
      record s { expected_prior = e; received_prior = s.received },
    )
