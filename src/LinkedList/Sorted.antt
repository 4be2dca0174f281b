-- ===== src/LinkedList/Sorted.antt =====
-- Where list_insert_sorted puts an element.
use re.Base.{
  ℕ, zero, suc, ◌+◌, ◌^◌, ◌<◌, ◌≡◌, ◌≢◌, ◌⊎◌, refl, sym, ap, subst, ◌∙◌, arith, Bool-cases, inl,
  inr, Bool, true, false, List, [], ◌∷◌, ◌++◌, length, length-append, append_assoc, append-nil,
}
use re.LinkedList.{Ptr, null, Store, sorted_loop, insert_sorted}
use re.LinkedList.Chain.{snoc_cases, last, Links-split}
use re.LinkedList.Valid.{==_refl, ne_null, IsList, last-append}
use re.LinkedList.Label.{labelled, labelled-IsList}
use re.LinkedList.Place.{Placed, prepend_lem}
use re.LinkedList.Beside.{insert_after_lem}

module _ (sh : Ptr → Ptr → Bool) (ile : Ptr) where
  -- No element of `ws` may stand before `ile`.
  abbrev pub NoneBefore : List Ptr → Type 0
  NoneBefore [] = Unit
  NoneBefore (w ∷ ws) = (sh w ile ≡ false) × NoneBefore ws

  -- `ile` stands behind the last element that may stand before it.
  pub record InPlace (us vs : List Ptr) : Type 0 where
    pub before : (us ≡ []) ⊎ (sh (last null us) ile ≡ true)
    pub after : NoneBefore vs

  -- The list `xs` with `ile` in its place.
  abbrev pub SortedIn : Store → Store → Ptr → Ptr → List Ptr → Type 0
  SortedIn s s' l d xs =
      (us : List Ptr) × (vs : List Ptr) × (xs ≡ us ++ vs)
      × InPlace us vs
      × Placed s s' l ile d us vs

module _ (sh : Ptr → Ptr → Bool) (s : Store) (l ile : Ptr) (ne : ile ≢ null)
    (free : (s.le ile).list ≡ null) where
  nothing_left :
      (fuel : ℕ) (ws : List Ptr)
      → IsList s l ws
      → length ws + 1 < 2 ^ 64
      → NoneBefore sh ile ws
      → SortedIn sh ile s (sorted_loop sh (suc fuel) s l null ile) l (s.le ile).ledata ws
  unfolding sorted_loop
  nothing_left fuel ws v room none_before = (
    [],
    ws,
    refl,
    record { before = inl refl; after = none_before },
    prepend_lem s l ile (s.le ile).ledata ws v ne free room,
  )

  one_back :
      (fuel : ℕ) (us : List Ptr) (e : Ptr) (ws : List Ptr)
      → IsList s l (us ++ (e ∷ ws))
      → length (us ++ (e ∷ ws)) + 1 < 2 ^ 64
      → NoneBefore sh ile ws
      → (sh e ile ≡ false
          → SortedIn sh ile s
              (sorted_loop sh fuel s l (last null us) ile)
              l
              (s.le ile).ledata
              (us ++ (e ∷ ws)))
      → SortedIn sh ile s (sorted_loop sh (suc fuel) s l e ile) l (s.le ile).ledata (us ++ (e ∷ ws))
  unfolding sorted_loop
  one_back fuel us e ws v room none_before further =
      let links = (Links-split s.le l null us (e ∷ ws) null v.links).1 in
      let e_ne = ne_null e links.0 in
      elim (Bool-cases (sh e ile)) [
        | inl here ↦
            rw (e_ne, here)
              (
                us ++ (e ∷ []),
                ws,
                sym (append_assoc us (e ∷ []) ws),
                record { before = inr (rw (last-append null us e []) here); after = none_before },
                insert_after_lem s l e ile (s.le ile).ledata us ws v ne free room,
              )
        | inr before ↦ rw (e_ne, before, links.1) (further before)
      ]

  sorted_loop_lem :
      (fuel : ℕ) (us ws : List Ptr)
      → IsList s l (us ++ ws)
      → length (us ++ ws) + 1 < 2 ^ 64
      → NoneBefore sh ile ws
      → length us < fuel
      → SortedIn sh ile s
          (sorted_loop sh fuel s l (last null us) ile)
          l
          (s.le ile).ledata
          (us ++ ws)
  sorted_loop_lem zero us ws v room none_before h = absurd (omega arith)
  sorted_loop_lem (suc fuel) us ws v room none_before h =
      let goal = λ (t : List Ptr).
        SortedIn sh ile s (sorted_loop sh (suc fuel) s l (last null t) ile) l (s.le ile).ledata
          (t ++ ws) in
      elim (snoc_cases us) [
        | inl nothing ↦
            subst goal (sym nothing)
              (nothing_left fuel ws (rw nothing at v) (rw nothing at room) none_before)
        | inr (us0, e, parts) ↦
            let split : us ++ ws ≡ us0 ++ (e ∷ ws) =
              ap (λ t. t ++ ws) parts ∙ append_assoc us0 (e ∷ []) ws in
            let v0 = rw split at v in
            let room0 = rw split at room in
            let less : length us0 < fuel =
              omega (arith, ap length parts, length-append us0 (e ∷ [])) in
            let moved =
              one_back fuel us0 e ws v0 room0 none_before
                (λ before. sorted_loop_lem fuel us0 (e ∷ ws) v0 room0 (before, none_before) less) in
            let back : SortedIn sh ile s (sorted_loop sh (suc fuel) s l (last null us) ile) l
                (s.le ile).ledata (us ++ ws) =
              rw (split, ap (last null) parts, last-append null us0 e []) moved in
            back
      ]

module _ (sh : Ptr → Ptr → Bool) (s : Store) (l ile d : Ptr) (xs : List Ptr) (v : IsList s l xs)
    (ne : ile ≢ null) (free : (s.le ile).list ≡ null) (room : length xs + 1 < 2 ^ 64) where
  -- Where the list `l` holds fewer than 2^64 - 1 elements, and an element is in no list,
  -- list_insert_sorted puts it behind the last element that the handler lets stand before it, or
  -- in front of all where there is none: the list then holds the elements in their order with the
  -- new one there, with the data given, and no element outside of `l` and no other list changes.
  pub insert_sorted_lem : SortedIn sh ile s (insert_sorted sh s l ile d) l d xs
  unfolding insert_sorted
  insert_sorted_lem =
      let s1 = labelled s ile d in
      let v1 = labelled-IsList s l ile d xs v free in
      let free1 : (s1.le ile).list ≡ null = rw (==_refl ile) free in
      let found =
        sorted_loop_lem sh s1 l ile ne free1 ((s.lists l).cnt + 1) xs []
          (subst (IsList s1 l) (sym (append-nil xs)) v1) (omega (arith, length-append xs [])) tt
          (omega (arith, v.cnt_eq)) in
      let same : (s1.le ile).ledata ≡ d = rw (==_refl ile) in
      let (us, vs, split, place, (is, label, off)) = rw (← v.tail_eq, append-nil) at found in
      rw (ne_null l v.l_ne) (
        us,
        vs,
        split,
        place,
        (
          is,
          label ∙ same,
          record { le_eq = λ a h n. off.le_eq a h (rw h n) ∙ rw h; lists_eq = off.lists_eq },
        ),
      )
