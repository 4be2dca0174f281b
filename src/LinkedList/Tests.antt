-- ===== src/LinkedList/Tests.antt =====
-- A list of three elements, and runs of the operations on it.
use re.Base.{
  ◌≡◌, ◌≢◌, refl, arith, Bool, false, not, ◌||◌, ◌&&◌, if◌then◌else◌, ◌==◌, List, [], ◌∷◌,
}
use re.LinkedList.{Ptr, null, Le, Store, append, insert_after, unlink, insert_sorted, apply, flush}
use re.LinkedList.Valid.{IsList, Others}
use re.LinkedList.Place.{Placed, append_lem}
use re.LinkedList.Beside.{insert_after_lem}
use re.LinkedList.Unlink.{unlink-IsList}
use re.LinkedList.Sorted.{SortedIn, insert_sorted_lem}
use re.LinkedList.Traverse.{apply_lem}
use re.LinkedList.Flush.{Flushed, flush_lem}

abbrev blank : Le
blank = record { prev = null; next = null; list = null; ledata = null }

-- The elements 1, 2 and 3 of the list at 100; all others are in none.
abbrev elements : Ptr → Le
elements a =
    if a == 1
    then record { prev = null; next = 2; list = 100; ledata = 10 }
    else if a == 2
    then record { prev = 1; next = 3; list = 100; ledata = 20 }
    else if a == 3
    then record { prev = 2; next = null; list = 100; ledata = 30 }
    else blank

abbrev sample : Store
sample = record { le = elements; lists = λ m. record { head = 1; tail = 3; cnt = 3 } }

abbrev members : List Ptr
members = 1 ∷ 2 ∷ 3 ∷ []

sample-IsList : IsList sample 100 members
sample-IsList = record {
  l_ne = omega arith;
  links = (
    omega arith,
    refl,
    refl,
    refl,
    (omega arith, refl, refl, refl, (omega arith, refl, refl, refl, tt)),
  );
  distinct = (refl, (refl, (refl, tt)));
  head_eq = refl;
  tail_eq = refl;
  cnt_eq = refl;
  small = omega arith;
  owned = λ a h. ground arith;
}

four-ne : 4 ≢ null
four-ne = omega arith

append_lem_example : Placed sample (append sample 100 4 40) 100 4 40 members []
append_lem_example = append_lem sample 100 4 40 members sample-IsList four-ne refl (omega arith)

unlink-IsList_example :
    IsList (unlink sample 2) 100 (1 ∷ 3 ∷ [])
    × ((unlink sample 2).le 2 ≡ record (sample.le 2) { prev = null; next = null; list = null })
    × Others sample (unlink sample 2) 100 2
unlink-IsList_example = unlink-IsList sample 100 2 (1 ∷ []) (3 ∷ []) sample-IsList

abbrev odd_first : Ptr → Ptr → Bool
odd_first a b = a == 1 || b == 4 && a == 2

insert_sorted_lem_example :
    SortedIn odd_first 4 sample (insert_sorted odd_first sample 100 4 25) 100 25 members
insert_sorted_lem_example =
    insert_sorted_lem odd_first sample 100 4 25 members sample-IsList four-ne refl (omega arith)

insert_after_lem_example :
    Placed sample (insert_after sample 100 2 4 25) 100 4 25 (1 ∷ 2 ∷ []) (3 ∷ [])
insert_after_lem_example =
    insert_after_lem sample 100 2 4 25 (1 ∷ []) (3 ∷ []) sample-IsList four-ne refl (omega arith)

apply_lem_example : apply (λ a. not (a == 1)) sample 100 false ≡ 3
apply_lem_example = apply_lem (λ a. not (a == 1)) sample 100 members false sample-IsList

flush_lem_example :
    ((flush sample 100).0 ≡ 10 ∷ 20 ∷ 30 ∷ []) × Flushed sample (flush sample 100).1 100 members
flush_lem_example = flush_lem 100 sample members sample-IsList
