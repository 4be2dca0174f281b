-- ===== src/Srtp/Tests.antt =====
-- A stream with late, repeated and old packets, and the theorems about SRTP applied.
use re.Base.{◌+◌, ◌-◌, ◌*◌, ◌^◌, ◌%◌, ◌≤◌, ◌≡◌, arith, [], ◌∷◌}
use re.Srtp.Replay.{init, run}
use re.Srtp.Replay.Exact.{spec_run, run-init}
use re.Srtp.Index.{get_index, get_index_near, get_index_high}

run-init_example :
    run init (5 ∷ 3 ∷ 5 ∷ 100 ∷ 37 ∷ 36 ∷ 3 ∷ []) ≡ spec_run [] (5 ∷ 3 ∷ 5 ∷ 100 ∷ 37 ∷ 36 ∷ 3 ∷ [])
run-init_example = run-init (5 ∷ 3 ∷ 5 ∷ 100 ∷ 37 ∷ 36 ∷ 3 ∷ [])

get_index_near_example :
    (get_index 3 65000 10 % 65536 ≡ 10)
    × (get_index 3 65000 10 ≤ 3 * 65536 + 65000 + 32768)
    × (3 * 65536 + 65000 ≤ get_index 3 65000 10 + 32768)
get_index_near_example =
    get_index_near 3 65000 10 (omega arith) (omega arith) (omega arith) (omega arith)

get_index_high_example : get_index (2 ^ 31) 100 200 ≡ 2 ^ 64 - 2 ^ 48 + 2 ^ 31 * 65536 + 200
get_index_high_example =
    get_index_high (2 ^ 31) 100 200 (omega arith) (omega arith) (omega arith) (omega arith)
