-- ===== src/Rtp/Source/Jitter.antt =====
-- rtp_source_calc_jitter of src/rtp/source.c (RFC 3550, appendix A.8): the jitter in 16ths of a
-- timestamp unit.
use re.Base.{
  ℕ, ◌+◌, ◌-◌, ◌*◌, ◌/◌, ◌%◌, ◌^◌, ◌≤◌, ◌<◌, ◌≡◌, ◌≢◌, refl, ◌⊎◌, inl, inr, true, false, Bool-cases,
  lt→ltb, ltb→lt, ltb→le, arith, ltb, ◌==◌, if◌then◌else◌,
}

-- The two fields of `struct rtp_source` that the function uses; `transit` is the 32 bits of an `int`.
pub record Jitter : Type 0 where
  pub transit : ℕ
  pub jitter : ℕ

-- `arrival - rtp_ts`
abbrev pub transit_of : ℕ → ℕ → ℕ
transit_of rtp_ts arrival = (arrival + 2 ^ 32 - rtp_ts) % 2 ^ 32

-- The magnitude of `transit - s->transit`.
abbrev pub distance : ℕ → ℕ → ℕ
distance transit prior =
    let d = (transit + 2 ^ 32 - prior) % 2 ^ 32 in if ltb d (2 ^ 31) then d else 2 ^ 32 - d

pub calc_jitter : Jitter → ℕ → ℕ → Jitter
calc_jitter s rtp_ts arrival =
    let transit' = transit_of rtp_ts arrival in
    let d = distance transit' s.transit in
    if s.transit == 0 then record s { transit = transit' } else (record {
      transit = transit';
      jitter = (s.jitter + d + 2 ^ 32 - (s.jitter + 8) % 2 ^ 32 / 16) % 2 ^ 32;
    })

bounded :
    (j d dmax : ℕ)
    → j ≤ 16 * dmax + 7
    → dmax < 2 ^ 27
    → d ≤ dmax
    → ((j + d + 2 ^ 32 - (j + 8) / 16) % 2 ^ 32 + (j + 8) / 16 ≡ j + d)
      × ((j + d + 2 ^ 32 - (j + 8) / 16) % 2 ^ 32 ≤ 16 * dmax + 7)
bounded j d dmax h1 h2 h3 = (omega arith, omega arith)

-- Between the transit times of two packets lie `d` units, one way or the other, on 32 bits.
abbrev pub Apart : ℕ → ℕ → ℕ → Type 0
Apart d transit prior = ((prior + d) % 2 ^ 32 ≡ transit) ⊎ ((transit + d) % 2 ^ 32 ≡ prior)

distance_lem :
    (d transit prior : ℕ)
    → transit < 2 ^ 32
    → prior < 2 ^ 32
    → d < 2 ^ 27
    → Apart d transit prior
    → distance transit prior ≡ d
distance_lem d transit prior h1 h2 h3 (inl e) =
    let small : ltb ((transit + 2 ^ 32 - prior) % 2 ^ 32) (2 ^ 31) ≡ true =
      lt→ltb _ _ (omega arith) in
    rw small (omega arith)
distance_lem d transit prior h1 h2 h3 (inr e) =
    elim (Bool-cases (ltb ((transit + 2 ^ 32 - prior) % 2 ^ 32) (2 ^ 31))) [
      | inl lt ↦ let small = ltb→lt _ _ lt in rw lt (omega arith)
      | inr ge ↦ let large = ltb→le _ _ ge in rw ge (omega arith)
    ]

-- For a packet that arrives its transit time after its timestamp, modulo 2^32, where an earlier
-- packet has set a transit time that lies `d` before or behind it on 32 bits, d is at most `dmax`,
-- below 2^27, and the jitter is at most 16 times `dmax` and 7: rtp_source_calc_jitter stores the
-- transit time, adds d to the jitter and takes away a 16th of the rounded jitter without wrapping,
-- and the bound holds again; where no earlier packet has set a transit time it only stores this
-- one.
pub calc_jitter_lem :
    (s : Jitter) (rtp_ts arrival transit d dmax : ℕ)
    → rtp_ts < 2 ^ 32
    → transit < 2 ^ 32
    → (rtp_ts + transit) % 2 ^ 32 ≡ arrival
    → s.transit ≢ 0
    → s.transit < 2 ^ 32
    → Apart d transit s.transit
    → d ≤ dmax
    → dmax < 2 ^ 27
    → s.jitter ≤ 16 * dmax + 7
    → let s' = calc_jitter s rtp_ts arrival in
      (s'.transit ≡ transit)
      × (s'.jitter + (s.jitter + 8) / 16 ≡ s.jitter + d)
      × (s'.jitter ≤ 16 * dmax + 7)
      × (calc_jitter (record s { transit = 0 }) rtp_ts arrival ≡ record s { transit = transit })
unfolding calc_jitter
calc_jitter_lem s rtp_ts arrival transit d dmax h1 h2 h3 h4 h5 h6 h7 h8 h9 =
    let started : (s.transit == 0) ≡ false = ground arith in
    let small : (s.jitter + 8) % 2 ^ 32 ≡ s.jitter + 8 = omega arith in
    let here : transit_of rtp_ts arrival ≡ transit = omega arith in
    let apart = distance_lem d transit s.transit h2 h5 (omega arith) h6 in
    rw (here, started, small, apart)
      (let (sum, bound) = bounded s.jitter d dmax h9 h8 h7 in (refl, sum, bound, refl))
