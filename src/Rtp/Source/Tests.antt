-- ===== src/Rtp/Source/Tests.antt =====
-- A source near the wrap of its sequence numbers, and the theorems about sources applied to it.
use re.Base.{◌+◌, ◌*◌, ◌≤◌, ◌≡◌, refl, arith, inl, [], ◌∷◌, ℤ}
use re.Rtp.Source.{Source, init_seq, update_seq, calc_lost, calc_fraction_lost}
use re.Rtp.Source.Lost.{
  InStep, feed, calc_lost-feed, calc_fraction_lost_lem, calc_fraction_lost_all,
}
use re.Rtp.Source.Jitter.{Jitter, calc_jitter, calc_jitter_lem}
use re.Rtp.Source.Resync.{resync, update_seq_near}

abbrev source : Source
source = record {
  max_seq = 65530;
  cycles = 0;
  base_seq = 65521;
  bad_seq = 65537;
  probation = 0;
  received = 10;
  expected_prior = 6;
  received_prior = 6;
}

source-InStep : InStep source 0
source-InStep = record {
  validated = refl;
  max_lt = omega arith;
  base_le = omega arith;
  balance = refl;
}

calc_lost-feed_example : calc_lost (feed source (1 ∷ 3 ∷ 1 ∷ 5 ∷ 1 ∷ [])) ≡ ℤ.pos 6
calc_lost-feed_example =
    calc_lost-feed (1 ∷ 3 ∷ 1 ∷ 5 ∷ 1 ∷ []) source 0 source-InStep (ground arith) (omega arith)
      (omega arith)

-- Eight expected since the last report, six of them received.
abbrev lossy : Source
lossy = record source { base_seq = 65517; received = 12 }

calc_fraction_lost_lem_example :
    calc_fraction_lost lossy ≡ (64, record lossy { expected_prior = 14; received_prior = 12 })
calc_fraction_lost_lem_example =
    calc_fraction_lost_lem lossy 8 2 refl refl (omega arith) (omega arith) (omega arith)
      (omega arith)

-- Four expected since the last report, none received.
abbrev silent : Source
silent = record source { received = 6 }

calc_fraction_lost_all_example : (calc_fraction_lost silent).0 ≡ 0
calc_fraction_lost_all_example =
    calc_fraction_lost_all silent 4 refl refl (omega arith) (omega arith) (omega arith)
      (omega arith)

resync_example :
    (update_seq source 20000 ≡ (0, record source { bad_seq = 20001 }))
    × (update_seq (update_seq source 20000).1 20001
        ≡ (1, record (init_seq source 20001) { received = 1 }))
resync_example =
    resync source 20000 refl (omega arith) (omega arith) (omega arith) (omega arith, omega arith)
      (omega arith, omega arith)

update_seq_near_example :
    ((update_seq source 3).0 ≡ 1)
    × ((update_seq source 3).1.received ≡ 11)
    × ((update_seq source 3).1.base_seq ≡ 65521)
update_seq_near_example =
    update_seq_near source 3 refl (omega arith) (omega arith) (omega arith) (inl (omega arith))

-- A packet that has taken 40 units longer than the one before it.
abbrev steady : Jitter
steady = record { transit = 1000; jitter = 500 }

calc_jitter_lem_example :
    let later = calc_jitter steady 8000 9040 in
    (later.transit ≡ 1040)
    × (later.jitter + 31 ≡ 540)
    × (later.jitter ≤ 16 * 40 + 7)
    × (calc_jitter (record steady { transit = 0 }) 8000 9040 ≡ record steady { transit = 1040 })
calc_jitter_lem_example =
    calc_jitter_lem steady 8000 9040 1040 40 40 (omega arith) (omega arith) refl (omega arith)
      (omega arith) (inl refl) (omega arith) (omega arith) (omega arith)
