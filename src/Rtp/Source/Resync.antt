-- ===== src/Rtp/Source/Resync.antt =====
-- How a source becomes valid, and how it follows a sender that has restarted.
use re.Base.{ℕ, ◌+◌, ◌-◌, ◌%◌, ◌^◌, ◌≤◌, ◌<◌, ◌≡◌, ◌≢◌, ◌⊎◌, arith}
use re.Rtp.Source.{Source, update_seq, init_seq}

-- `seq` is neither close ahead of nor close behind what was received last.
abbrev pub FarFrom : Source → ℕ → Type 0
FarFrom s seq =
    (3000 ≤ (seq + 65536 - s.max_seq) % 65536) × ((seq + 65536 - s.max_seq) % 65536 ≤ 65436)

-- For a valid source, a packet that is neither less than 3000 ahead nor less than 100 behind, and
-- is not the one expected after an earlier jump, is not counted and changes only `bad_seq`; the
-- packet next in sequence, where it is as far away, is counted and restarts the source at its
-- number with one packet received.
pub resync :
    (s : Source) (seq : ℕ)
    → s.probation ≡ 0
    → seq < 65536
    → s.max_seq < 65536
    → seq ≢ s.bad_seq
    → FarFrom s seq
    → FarFrom s ((seq + 1) % 65536)
    → let first = update_seq s seq in
      let second = update_seq first.1 ((seq + 1) % 65536) in
      (first ≡ (0, record s { bad_seq = (seq + 1) % 65536 }))
      × (second ≡ (1, record (init_seq s ((seq + 1) % 65536)) { received = 1 }))
unfolding update_seq
resync s seq h1 h2 h3 h4 h5 h6 = (ground arith, ground arith)

-- For a valid source whose count of packets is below 2^32 - 1, a packet less than 3000 ahead of
-- the highest or less than 100 behind it counts: one more packet is received, and the number that
-- the source began with stays.
pub update_seq_near :
    (s : Source) (seq : ℕ)
    → s.probation ≡ 0
    → seq < 65536
    → s.max_seq < 65536
    → s.received < 2 ^ 32 - 1
    → ((seq + 65536 - s.max_seq) % 65536 < 3000) ⊎ (65436 < (seq + 65536 - s.max_seq) % 65536)
    → let r = update_seq s seq in
      (r.0 ≡ 1) × (r.1.received ≡ s.received + 1) × (r.1.base_seq ≡ s.base_seq)
unfolding update_seq
update_seq_near s seq h1 h2 h3 h4 h5 = ground arith
