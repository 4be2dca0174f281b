-- ===== src/Getbit/Tests.antt =====
-- Two bytes of bits, and the theorems applied to them.
use re.Base.{◌≡◌, refl, arith, some, [], ◌∷◌, ◌++◌}
use re.Getbit.{Getbit, get_ue_golomb, getbit_read_ns}
use re.Getbit.Left.{HasLeft}
use re.Getbit.Golomb.{ue_golomb, get_ue_golomb_lem}
use re.Getbit.NonSymmetric.{ns_code, getbit_read_ns_lem}

-- 00101 is the code of 4.
abbrev four : Getbit
four = record { buf = 0x2c ∷ []; pos = 0; end = 8 }

four-HasLeft : HasLeft four (ue_golomb 2 1 ++ (1 ∷ 0 ∷ 0 ∷ []))
four-HasLeft = record { inside = omega arith; in_buffer = omega arith; bits = refl }

get_ue_golomb_lem_example :
    let r = get_ue_golomb four in (r.0 ≡ 0) × (r.1 ≡ some 4) × HasLeft r.2 (1 ∷ 0 ∷ 0 ∷ [])
get_ue_golomb_lem_example =
    get_ue_golomb_lem 2 1 (1 ∷ 0 ∷ 0 ∷ []) (omega arith) (omega arith) four-HasLeft

-- Of the numbers below 5, 3 has the code 110.
abbrev three_of_five : Getbit
three_of_five = record { buf = 0xc8 ∷ []; pos = 0; end = 5 }

three_of_five-HasLeft : HasLeft three_of_five (ns_code 2 5 3 ++ (0 ∷ 1 ∷ []))
three_of_five-HasLeft = record { inside = omega arith; in_buffer = omega arith; bits = refl }

getbit_read_ns_lem_example :
    ((getbit_read_ns three_of_five 5).0 ≡ 3)
    × HasLeft (getbit_read_ns three_of_five 5).1 (0 ∷ 1 ∷ [])
getbit_read_ns_lem_example =
    getbit_read_ns_lem 5 2 3 (0 ∷ 1 ∷ []) (omega arith) (omega arith) (omega arith) (omega arith)
      three_of_five-HasLeft
