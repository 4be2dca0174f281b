-- ===== src/Srtp/Index.antt =====
-- srtp_get_index of src/srtp/misc.c: the packet index guessed from the roll-over counter, the
-- highest sequence number and the sequence number of a packet (RFC 3711, appendix A).
use re.Base.{ℕ, ◌+◌, ◌-◌, ◌*◌, ◌%◌, ◌^◌, ◌≤◌, ◌<◌, ◌≡◌, ltb, if◌then◌else◌, arith}

-- `(uint64_t)v` for an `int v` with these 32 bits: the sign is extended.
extend : ℕ → ℕ
extend v = if ltb v (2 ^ 31) then v else v + 2 ^ 64 - 2 ^ 32

-- `v` before it is stored in an `int`.
guess : ℕ → ℕ → ℕ → ℕ
guess roc s_l seq =
    if ltb s_l 32768
    then if ltb (s_l + 32768) seq then (roc + 2 ^ 32 - 1) % 2 ^ 32 else roc
    else if ltb (seq + 32768) s_l
    then (roc + 1) % 2 ^ 32
    else roc

pub get_index : ℕ → ℕ → ℕ → ℕ
unfolding extend guess
get_index roc s_l seq = (seq + extend (guess roc s_l seq) * 65536 % 2 ^ 64) % 2 ^ 64

-- For a roll-over counter from 1 to 2^31 - 2, the index of srtp_get_index has the sequence number
-- as its low 16 bits and lies within 32768 of the index that the counter and the highest sequence
-- number make up.
pub get_index_near :
    (roc s_l seq : ℕ)
    → 1 ≤ roc
    → roc < 2 ^ 31 - 1
    → s_l < 2 ^ 16
    → seq < 2 ^ 16
    → (get_index roc s_l seq % 65536 ≡ seq)
      × (get_index roc s_l seq ≤ roc * 65536 + s_l + 32768)
      × (roc * 65536 + s_l ≤ get_index roc s_l seq + 32768)
unfolding get_index
get_index_near roc s_l seq h1 h2 h3 h4 = ground arith

-- For a roll-over counter from 2^31 on, with the highest sequence number below 32768 and the
-- packet's at most 32768 above it, the result of srtp_get_index is not the index 65536 times the
-- counter plus the sequence number, but that with its upper 16 bits set.
pub get_index_high :
    (roc s_l seq : ℕ)
    → 2 ^ 31 ≤ roc
    → roc < 2 ^ 32
    → s_l < 32768
    → seq ≤ s_l + 32768
    → get_index roc s_l seq ≡ 2 ^ 64 - 2 ^ 48 + roc * 65536 + seq
unfolding get_index
get_index_high roc s_l seq h1 h2 h3 h4 = ground arith
