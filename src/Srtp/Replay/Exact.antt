-- ===== src/Srtp/Replay/Exact.antt =====
-- The specification of the replay window, which keeps every index that was accepted, and its
-- relation to the bitmap.
use re.Base.{
  ℕ, zero, suc, ◌+◌, ◌-◌, ◌*◌, ◌%◌, ◌^◌, ◌≤◌, ◌<◌, max, ◌≡◌, inl, inr, refl, ap, ◌∙◌, arith, Bool,
  true, false, not, ◌&&◌, ◌||◌, ◌==◌, ltb, leb, if◌then◌else◌, to_int, bit_and, bit_or, List, [],
  ◌∷◌, test_bit, test_bit-bit_or, test_bit-shifted, test_bit-shifted_low, test_bit-mod,
  test_bit-zero, bit_and_single, test_bit-single_self, test_bit-single_ne, Bool-cases, ltb→lt,
  ltb→le, lt→ltb, le→ltb,
}
use native.Mathlib.Nat.{one-le-pow}
use re.Srtp.Replay.{Replay, check, init, run}

-- The specification keeps the indices that were accepted.
abbrev pub seen : ℕ → List ℕ → Bool
seen ix [] = false
seen ix (h ∷ hs) = ix == h || seen ix hs

abbrev pub highest : List ℕ → ℕ
highest [] = 0
highest (h ∷ hs) = max h (highest hs)

pub accepts : List ℕ → ℕ → Bool
accepts hs ix = not (seen ix hs) && ltb (highest hs) (ix + 64)

pub spec_run : List ℕ → List ℕ → List Bool
spec_run hs [] = []
spec_run hs (ix ∷ ixs) = let ok = accepts hs ix in ok ∷ spec_run (if ok then ix ∷ hs else hs) ixs

-- Bit `d` of the bitmap says whether the index `d` behind the highest has been seen.
pub record Tracks (r : Replay) (hs : List ℕ) : Type 0 where
  pub lix_eq : r.lix ≡ highest hs
  pub bit_eq : (d : ℕ) → d < 64 → d ≤ r.lix → test_bit r.bitmap d ≡ to_int (seen (r.lix - d) hs)

seen_above : (hs : List ℕ) (ix : ℕ) → highest hs < ix → seen ix hs ≡ false
seen_above [] ix h = refl
seen_above (x ∷ hs) ix h = ground (arith, seen_above hs ix)

init-Tracks : Tracks init []
unfolding init
init-Tracks = record { lix_eq = refl; bit_eq = λ d h le. test_bit-zero d }

-- A new highest index: bit 0 is its own, and bit `d` is what stood `ix - lix` places below.
module _ (r : Replay) (hs : List ℕ) (t : Tracks r hs) (ix : ℕ) (above : r.lix < ix) where
  shifted_bit :
      (d : ℕ)
      → d < 64
      → d ≤ ix
      → test_bit (bit_or (r.bitmap * 2 ^ (ix - r.lix) % 2 ^ 64) 1) d
        ≡ to_int (seen (ix - d) (ix ∷ hs))
  shifted_bit zero h le =
      let b = r.bitmap * 2 ^ (ix - r.lix) % 2 ^ 64 in ground (arith, test_bit-bit_or 0 b 1)
  shifted_bit (suc d) h le =
      let b = r.bitmap * 2 ^ (ix - r.lix) % 2 ^ 64 in
      let diff = ix - r.lix in
      let both : test_bit (bit_or b 1) (suc d) ≡ test_bit (r.bitmap * 2 ^ diff) (suc d) = omega (
        arith,
        test_bit-bit_or (suc d) b 1,
        test_bit-mod 64 (suc d) (r.bitmap * 2 ^ diff) h,
        test_bit-zero d,
      ) in
      elim (Bool-cases (ltb (suc d) diff)) [
        | inl lt ↦ ground (
          arith,
          both,
          test_bit-shifted_low (suc d) diff r.bitmap (ltb→lt _ _ lt),
          seen_above hs (ix - suc d),
          t.lix_eq,
        )
        | inr ge ↦
            let back : ix - suc d ≡ r.lix - (suc d - diff) = omega (arith, ltb→le _ _ ge) in
            ground (
              arith,
              both,
              test_bit-shifted diff (suc d) r.bitmap (ltb→le _ _ ge),
              t.bit_eq (suc d - diff),
              ap (λ k. seen k hs) back,
            )
      ]

  jumped_bit :
      (d : ℕ) → d < 64 → d ≤ ix → 64 ≤ ix - r.lix → test_bit 1 d ≡ to_int (seen (ix - d) (ix ∷ hs))
  jumped_bit zero h le far = ground arith
  jumped_bit (suc d) h le far =
      ground (arith, test_bit-zero d, seen_above hs (ix - suc d), t.lix_eq)

-- An index in the window.
marked_bit :
    (r : Replay) (hs : List ℕ) (ix d : ℕ)
    → Tracks r hs
    → ix ≤ r.lix
    → d < 64
    → d ≤ r.lix
    → test_bit (bit_or r.bitmap (2 ^ (r.lix - ix))) d ≡ to_int (seen (r.lix - d) (ix ∷ hs))
marked_bit r hs ix d t below h le = elim (Bool-cases (d == r.lix - ix)) [
  | inl same ↦
      ground
        (arith, test_bit-bit_or d r.bitmap (2 ^ (r.lix - ix)), t.bit_eq d, test_bit-single_self d)
  | inr other ↦ ground (
    arith,
    test_bit-bit_or d r.bitmap (2 ^ (r.lix - ix)),
    t.bit_eq d,
    test_bit-single_ne (r.lix - ix) d,
  )
]

already_seen :
    (r : Replay) (hs : List ℕ) (ix : ℕ)
    → Tracks r hs
    → ix ≤ r.lix
    → r.lix - ix < 64
    → not (bit_and r.bitmap (2 ^ (r.lix - ix)) == 0) ≡ seen ix hs
already_seen r hs ix t below near =
    let d = r.lix - ix in
    let at : r.lix - d ≡ ix = omega arith in
    let bit : test_bit r.bitmap d ≡ to_int (seen ix hs) =
      t.bit_eq d near (omega arith) ∙ ap (λ k. to_int (seen k hs)) at in
    rw (bit_and_single d r.bitmap, bit)
      (nonzero (seen ix hs) (2 ^ d) (one-le-pow d 2 (omega arith)))
  where
    nonzero : (b : Bool) (w : ℕ) → 0 < w → not (to_int b * w == 0) ≡ b
    nonzero true w h = ground arith
    nonzero false w h = ground arith

-- One packet.
abbrev Step : Replay → List ℕ → ℕ → Bool × Replay → Type 0
Step r hs ix s = (s.0 ≡ accepts hs ix) × Tracks s.1 (if s.0 then ix ∷ hs else hs)

check_above :
    (r : Replay) (hs : List ℕ) (ix : ℕ) → Tracks r hs → r.lix < ix → Step r hs ix (check r ix)
unfolding check accepts
check_above r hs ix t above =
    let here : ltb r.lix ix ≡ true = lt→ltb _ _ above in
    let passes : true ≡ (not (seen ix hs) && ltb (highest hs) (ix + 64)) =
      ground (arith, seen_above hs ix, t.lix_eq) in
    let top : ix ≡ max ix (highest hs) = omega (arith, t.lix_eq) in
    elim (Bool-cases (ltb (ix - r.lix) 64)) [
      | inl near ↦
          rw (here, near) (passes, record { lix_eq = top; bit_eq = shifted_bit r hs t ix above })
      | inr far ↦
          rw (here, far)
            (
              passes,
              record {
                lix_eq = top;
                bit_eq = λ d h le. jumped_bit r hs t ix above d h le (ltb→le _ _ far);
              },
            )
    ]

check_below :
    (r : Replay) (hs : List ℕ) (ix : ℕ) → Tracks r hs → ix ≤ r.lix → Step r hs ix (check r ix)
unfolding check accepts
check_below r hs ix t below =
    let here : ltb r.lix ix ≡ false = le→ltb _ _ below in
    elim (Bool-cases (leb 64 (r.lix - ix))) [
      | inl old ↦ rw (here, old) (ground (arith, t.lix_eq), t)
      | inr near ↦
          let lt : r.lix - ix < 64 = ground arith in
          let fresh : ltb (highest hs) (ix + 64) ≡ true = lt→ltb _ _ (omega (arith, t.lix_eq)) in
          elim (Bool-cases (seen ix hs)) [
            | inl dup ↦ rw (here, near, already_seen r hs ix t below lt, dup) (refl, t)
            | inr new ↦
                rw (here, near, already_seen r hs ix t below lt, new, fresh)
                  (
                    refl,
                    record {
                      lix_eq = omega (arith, t.lix_eq);
                      bit_eq = λ d h le. marked_bit r hs ix d t below h le;
                    },
                  )
          ]
    ]

pub check_lem : (r : Replay) (hs : List ℕ) (ix : ℕ) → Tracks r hs → Step r hs ix (check r ix)
check_lem r hs ix t = elim (Bool-cases (ltb r.lix ix)) [
  | inl above ↦ check_above r hs ix t (ltb→lt _ _ above)
  | inr below ↦ check_below r hs ix t (ltb→le _ _ below)
]

run-spec_run : (ixs : List ℕ) (r : Replay) (hs : List ℕ) → Tracks r hs → run r ixs ≡ spec_run hs ixs
unfolding run spec_run
run-spec_run [] r hs t = refl
run-spec_run (ix ∷ ixs) r hs t =
    let s = check_lem r hs ix t in
    let next = λ (b : Bool). b ∷ spec_run (if b then ix ∷ hs else hs) ixs in
    ap (◌∷◌ (check r ix).0) (run-spec_run ixs (check r ix).1 _ s.1) ∙ ap next s.0

-- For any sequence of packet indices, the answers of srtp_replay_check from a fresh window are
-- those of the specification, which keeps the indices accepted so far and accepts an index that is
-- not among them and is less than 64 behind the highest of them.
pub run-init : (ixs : List ℕ) → run init ixs ≡ spec_run [] ixs
run-init ixs = run-spec_run ixs init [] init-Tracks
