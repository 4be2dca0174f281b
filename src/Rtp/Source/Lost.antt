-- ===== src/Rtp/Source/Lost.antt =====
-- What a stream of packets in order makes of the counters, and what is reported as lost.
use re.Base.{ℕ, ◌+◌, ◌-◌, ◌*◌, ◌/◌, ◌%◌, ◌^◌, ◌≤◌, ◌<◌, ◌≡◌, subst, arith, List, [], ◌∷◌, ℤ}
use native.Mathlib.Nat.{div-lt_iff_lt-mul, div-eq_of_lt-le}
use re.Rtp.Source.{Source, update_seq, expected, calc_lost, calc_fraction_lost, fraction}

-- A valid source that has counted `lost` packets as missing so far.
pub record InStep (s : Source) (lost : ℕ) : Type 0 where
  pub validated : s.probation ≡ 0
  pub max_lt : s.max_seq < 65536
  pub base_le : s.base_seq ≤ s.cycles + s.max_seq
  pub balance : s.cycles + s.max_seq + 1 ≡ s.base_seq + s.received + lost

-- Packets in order, each with its distance from the one before.
abbrev pub InOrder : List ℕ → Type 0
InOrder [] = Unit
InOrder (d ∷ ds) = (1 ≤ d) × (d < 3000) × InOrder ds

abbrev pub total : List ℕ → ℕ
total [] = 0
total (d ∷ ds) = d + total ds

abbrev pub gaps : List ℕ → ℕ
gaps [] = 0
gaps (d ∷ ds) = (d - 1) + gaps ds

pub feed : Source → List ℕ → Source
feed s [] = s
feed s (d ∷ ds) = feed (update_seq s ((s.max_seq + d) % 65536)).1 ds

step_InStep :
    (s : Source) (d lost : ℕ)
    → InStep s lost
    → 1 ≤ d
    → d < 3000
    → s.cycles + s.max_seq + d + 65536 < 2 ^ 31
    → let s' = (update_seq s ((s.max_seq + d) % 65536)).1 in
      InStep s' (lost + (d - 1)) × (s'.cycles + s'.max_seq ≡ s.cycles + s.max_seq + d)
unfolding update_seq
step_InStep s d lost v h1 h2 h3 = ground (arith, v)

feed-InStep :
    (ds : List ℕ) (s : Source) (lost : ℕ)
    → InStep s lost
    → InOrder ds
    → s.cycles + s.max_seq + total ds + 65536 < 2 ^ 31
    → InStep (feed s ds) (lost + gaps ds)
      × ((feed s ds).cycles + (feed s ds).max_seq ≡ s.cycles + s.max_seq + total ds)
unfolding feed
feed-InStep [] s lost v o h =
    let e : lost ≡ lost + 0 = omega arith in (subst (InStep s) e v, omega arith)
feed-InStep (d ∷ ds) s lost v o h =
    let s' = (update_seq s ((s.max_seq + d) % 65536)).1 in
    let (v', p) = step_InStep s d lost v o.0 o.1 (omega arith) in
    let (w, q) = feed-InStep ds s' (lost + (d - 1)) v' o.2 (omega arith) in
    let e : lost + (d - 1) + gaps ds ≡ lost + ((d - 1) + gaps ds) = omega arith in
    (subst (InStep (feed s' ds)) e w, omega arith)

calc_lost_balance :
    (s : Source) (lost : ℕ)
    → InStep s lost
    → s.cycles + s.max_seq < 2 ^ 31
    → lost ≤ 0x7fffff
    → calc_lost s ≡ ℤ.pos lost
unfolding calc_lost
calc_lost_balance s lost v h1 h2 = ground (arith, v)

-- For a valid source that has so far counted `lost` packets as missing, a run of packets each from
-- 1 to 2999 ahead of the one before, modulo 2^16, makes rtp_source_calc_lost report `lost` and the
-- numbers that the run left out, where the extended sequence number stays below 2^31 - 2^16 and
-- the sum is at most 2^23 - 1.
pub calc_lost-feed :
    (ds : List ℕ) (s : Source) (lost : ℕ)
    → InStep s lost
    → InOrder ds
    → s.cycles + s.max_seq + total ds + 65536 < 2 ^ 31
    → lost + gaps ds ≤ 0x7fffff
    → calc_lost (feed s ds) ≡ ℤ.pos (lost + gaps ds)
calc_lost-feed ds s lost v o h le =
    let (w, q) = feed-InStep ds s lost v o h in
    calc_lost_balance (feed s ds) (lost + gaps ds) w (omega arith) le

fraction_lem : (e l : ℕ) → 0 < e → e < 2 ^ 31 → l < 2 ^ 23 → fraction e l ≡ l * 256 / e % 256
unfolding fraction
fraction_lem e l h0 h1 h2 = ground arith

-- Where of the `interval` packets expected since the last report at least one was received and
-- `lost`, fewer than 2^23, were not, and the counters are below 2^31,
-- rtp_source_calc_fraction_lost gives 256 times `lost` divided by `interval` and closes the
-- interval.
pub calc_fraction_lost_lem :
    (s : Source) (interval lost : ℕ)
    → expected s ≡ s.expected_prior + interval
    → interval ≡ (s.received - s.received_prior) + lost
    → s.received_prior < s.received
    → s.received < 2 ^ 31
    → s.expected_prior + interval < 2 ^ 31
    → lost < 2 ^ 23
    → calc_fraction_lost s ≡ (
      lost * 256 / interval,
      record s { expected_prior = expected s; received_prior = s.received },
    )
unfolding calc_fraction_lost
calc_fraction_lost_lem s interval lost e1 e2 h1 h2 h3 h4 =
    let ei : (expected s + 2 ^ 32 - s.expected_prior) % 2 ^ 32 ≡ interval = omega (arith, e1) in
    let ri : (s.received + 2 ^ 32 - s.received_prior) % 2 ^ 32 ≡ s.received - s.received_prior =
      omega arith in
    let li : (interval + 2 ^ 32 - (s.received - s.received_prior)) % 2 ^ 32 ≡ lost = omega arith in
    let small : lost * 256 / interval < 256 =
      (div-lt_iff_lt-mul {k = interval} {x = lost * 256} {y = 256} (omega arith)).1 (omega arith) in
    let byte : lost * 256 / interval % 256 ≡ lost * 256 / interval = omega arith in
    rw (ei, ri, li, fraction_lem interval lost (omega arith) (omega arith) h4, byte)

-- Where all of the packets expected since the last report, one at least and fewer than 2^23, are
-- lost, and the counters are below 2^31, rtp_source_calc_fraction_lost reports a fraction of 0.
pub calc_fraction_lost_all :
    (s : Source) (interval : ℕ)
    → expected s ≡ s.expected_prior + interval
    → s.received ≡ s.received_prior
    → 0 < interval
    → s.received < 2 ^ 31
    → s.expected_prior + interval < 2 ^ 31
    → interval < 2 ^ 23
    → (calc_fraction_lost s).0 ≡ 0
unfolding calc_fraction_lost
calc_fraction_lost_all s interval e1 e2 h0 h1 h2 h3 =
    let ei : (expected s + 2 ^ 32 - s.expected_prior) % 2 ^ 32 ≡ interval = omega (arith, e1) in
    let ri : (s.received + 2 ^ 32 - s.received_prior) % 2 ^ 32 ≡ 0 = omega arith in
    let li : (interval + 2 ^ 32 - 0) % 2 ^ 32 ≡ interval = omega arith in
    let whole : interval * 256 / interval ≡ 256 =
      div-eq_of_lt-le {k = 256} interval {m = interval * 256} (omega arith) (omega arith) in
    rw (ei, ri, li, fraction_lem interval interval h0 (omega arith) h3, whole)
