-- ===== src/Mbuf/Tests.antt =====
-- Small buffers, and the theorems about buffers applied to them.
use re.Base.{ℕ, ◌⊎◌, ◌≡◌, refl, arith, some, ℤ, [], ◌∷◌, ◌++◌, replicate, erange, ◌<◌, ◌≤◌}
use re.Machine.{machine}
use re.Mbuf.{
  alloc, allocated, resize, resized, obtain, trim, set_posend, Mbuf, write_mem, read_mem, set_pos,
  mem_alloc,
}
use re.Mbuf.Valid.{IsValid}
use re.Mbuf.Write.{Wrote, write_mem_lem}
use re.Mbuf.Outcome.{Wrote-fits}
use re.Mbuf.Read.{Holds, ahead}
use re.Mbuf.RoundTrip.{read_mem-write_mem}
use re.Mbuf.Trim.{Trimmed, trim_lem, set_posend_lem}
use re.Mbuf.Text.{fill, strdup, read_str, shift, write_pl_skip}
use re.Mbuf.Text.RoundTrip.{fill-eq-write_mem, write_pl_skip_lem, strdup-append, read_str-append}
use re.Mbuf.Text.Shift.{ShiftResult, shift_lem, shift_below_start}

-- Five bytes written, of which one has been read, in a block of eight.
abbrev pub hello : Mbuf
hello = record {
  buf = some (104 ∷ 101 ∷ 108 ∷ 108 ∷ 0 ∷ 0 ∷ 0 ∷ 0 ∷ []);
  size = 8;
  pos = 1;
  end = 5;
}

pub hello-IsValid : IsValid hello
hello-IsValid = record {
  block_length = refl;
  pos_le = omega arith;
  end_le = omega arith;
  small = omega arith;
}

hello-Holds : Holds hello ((101 ∷ 108 ∷ 108 ∷ []) ++ (0 ∷ []))
hello-Holds = record { valid = hello-IsValid; left = refl }

write_mem_lem_example : Wrote hello (replicate 9 7) (write_mem machine hello (replicate 9 7))
write_mem_lem_example = write_mem_lem machine hello (replicate 9 7) hello-IsValid (omega arith)

hello_written : (write_mem machine hello (1 ∷ 2 ∷ [])).0 ≡ 0
hello_written =
    Wrote-fits hello _ _ (write_mem_lem machine hello (1 ∷ 2 ∷ []) hello-IsValid (omega arith))
      (omega arith)

read_mem-write_mem_example :
    read_mem (set_pos (write_mem machine hello (1 ∷ 2 ∷ [])).1 1) 2
    ≡ (0, 1 ∷ 2 ∷ [], ahead (set_pos (write_mem machine hello (1 ∷ 2 ∷ [])).1 1) 2)
read_mem-write_mem_example =
    read_mem-write_mem machine hello (1 ∷ 2 ∷ []) hello-IsValid (omega arith) hello_written

shift_lem_example : ShiftResult hello (ℤ.pos 6) (shift machine hello (ℤ.pos 6))
shift_lem_example = shift_lem machine hello (ℤ.pos 6) hello-IsValid (omega arith) refl

shift_below_start_example : shift machine hello (ℤ.negsuc 1) ≡ (erange, hello)
shift_below_start_example = shift_below_start machine hello 1 (omega arith)

write_pl_skip_lem_example : Wrote hello ((1 ∷ []) ++ (4 ∷ 5 ∷ [])) (
    write_pl_skip machine hello
      (record { p = 1000; text = (1 ∷ []) ++ ((2 ∷ 3 ∷ []) ++ (4 ∷ 5 ∷ [])) })
      (record { p = 1001; text = 2 ∷ 3 ∷ [] }))
write_pl_skip_lem_example =
    write_pl_skip_lem machine hello 1000 (1 ∷ []) (2 ∷ 3 ∷ []) (4 ∷ 5 ∷ []) hello-IsValid
      (omega arith)

fill-eq-write_mem_example : fill machine hello 9 20 ≡ write_mem machine hello (replicate 20 9)
fill-eq-write_mem_example = fill-eq-write_mem machine hello 9 20 (omega arith)

four_bytes : mem_alloc machine 4 ≡ some (replicate 4 0)
unfolding mem_alloc
four_bytes = refl

strdup-append_example : strdup machine hello 3 ≡ (0, some (101 ∷ 108 ∷ 108 ∷ 0 ∷ []), ahead hello 3)
strdup-append_example =
    strdup-append machine (101 ∷ 108 ∷ 108 ∷ []) (0 ∷ []) (replicate 4 0) hello-Holds four_bytes

read_str-append_example : read_str 16 hello ≡ (101 ∷ 108 ∷ 108 ∷ 0 ∷ [], ahead hello 4)
read_str-append_example =
    read_str-append (101 ∷ 108 ∷ 108 ∷ []) [] 16 (omega arith, (omega arith, (omega arith, tt)))
      hello-Holds (omega arith)

trim_lem_example : Trimmed hello (trim machine hello)
trim_lem_example = trim_lem machine hello hello-IsValid

set_posend_lem_example :
    IsValid (set_posend hello 2 9)
    × (((2 ≤ 9) × (9 ≤ 8) × ((set_posend hello 2 9).pos ≡ 2) × ((set_posend hello 2 9).end ≡ 9))
        ⊎ (((9 < 2) ⊎ (8 < 9)) × (set_posend hello 2 9 ≡ hello)))
set_posend_lem_example = set_posend_lem hello 2 9 hello-IsValid

abbrev pub blank : ℕ → Mbuf
blank n = record { buf = some (replicate n 0); size = n; pos = 0; end = 0 }

pub blank_five : alloc machine 5 ≡ some (blank 5)
unfolding alloc allocated resize resized obtain mem_alloc
blank_five = refl

pub blank_261 : alloc machine 261 ≡ some (blank 261)
unfolding alloc allocated resize resized obtain mem_alloc
blank_261 = refl

pub blank_zero : alloc machine 0 ≡ some (blank 512)
unfolding alloc allocated resize resized obtain mem_alloc
blank_zero = refl

pub eighty_bytes : mem_alloc machine 80 ≡ some (replicate 80 0)
unfolding mem_alloc
eighty_bytes = refl
