-- ===== src/Srtp/Replay.antt =====
-- src/srtp/replay.c: the replay window.
pub mod Exact
use re.Base.{
  ℕ, ◌+◌, ◌-◌, ◌*◌, ◌%◌, ◌^◌, max, Bool, true, false, not, ◌&&◌, ◌||◌, ◌==◌, ltb, leb,
  if◌then◌else◌, bit_and, bit_or, List, [], ◌∷◌,
}

pub record Replay : Type 0 where
  pub bitmap : ℕ
  pub lix : ℕ

abbrev pub window_size : ℕ
window_size = 64

pub init : Replay
init = record { bitmap = 0; lix = 0 }

-- srtp_replay_check: whether the packet is permitted, and the new state.
pub check : Replay → ℕ → Bool × Replay
check r ix =
    if ltb r.lix ix
    then (let diff = ix - r.lix in
        (
          true,
          record {
            bitmap = if ltb diff window_size then bit_or (r.bitmap * 2 ^ diff % 2 ^ 64) 1 else 1;
            lix = ix;
          },
        ))
    else (let diff = r.lix - ix in
        if leb window_size diff
        then (false, r)
        else if not (bit_and r.bitmap (2 ^ diff) == 0)
        then (false, r)
        else (true, record r { bitmap = bit_or r.bitmap (2 ^ diff) }))

-- A run over the packets of a stream.
pub run : Replay → List ℕ → List Bool
run r [] = []
run r (ix ∷ ixs) = let s = check r ix in s.0 ∷ run s.1 ixs
