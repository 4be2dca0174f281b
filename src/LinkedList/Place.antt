-- ===== src/LinkedList/Place.antt =====
-- Where list_append, list_prepend, list_insert_after and list_insert_before put an element.
use re.Base.{
  ◌+◌, ◌^◌, ◌<◌, ◌≡◌, ◌≢◌, refl, sym, ap, subst, ◌∙◌, arith, false, if◌then◌else◌, ◌==◌, List, [],
  ◌∷◌, ◌++◌, length, length-append, append-nil,
}
use re.LinkedList.{Ptr, null, Store, append, prepend}
use re.LinkedList.Chain.{first, last, Links}
use re.LinkedList.Valid.{
  Others, free-not_mem, ne-first, ==_refl, ne_null, ne_sym, if_same, IsList, ne-last, first-null,
  last-append, last-ne,
}
use re.LinkedList.Edit.{Ends}
use re.LinkedList.Append.{append_le, append_lists}
use re.LinkedList.Insert.{prepend_le, prepend_lists}
use re.LinkedList.Insertion.{inserted-IsList, inserted-Others}

-- The list at `l` is now `us`, the element `e` with the data `d`, and `vs`; nothing else changes.
abbrev pub Placed : Store → Store → Ptr → Ptr → Ptr → List Ptr → List Ptr → Type 0
Placed s s' l e d us vs = IsList s' l (us ++ (e ∷ vs)) × ((s'.le e).ledata ≡ d) × Others s s' l e

module _ (s : Store) (l e d : Ptr) (xs : List Ptr) (v : IsList s l xs) (ne : e ≢ null)
    (free : (s.le e).list ≡ null) (room : length xs + 1 < 2 ^ 64) where
  prepend-Ends : Ends ((prepend s l e d).lists l) (e ∷ xs)
  prepend-Ends =
      let b =
        rw (v.head_eq, v.tail_eq, v.cnt_eq, ==_refl l) at
          (prepend_lists s l e d (ne_null l v.l_ne) (ne_null e ne) free l) in
      record {
        head_eq = ap (λ x. x.head) b;
        tail_eq = ap (λ x. x.tail) b ∙ tail_of xs v.links;
        cnt_eq = ap (λ x. x.cnt) b ∙ omega arith;
      }
    where
      tail_of :
          (ys : List Ptr)
          → Links s.le l null ys null
          → (if last null ys == null then e else last null ys) ≡ last e ys
      tail_of [] f = refl
      tail_of (y ∷ ys) f = rw (last-ne s.le l null y ys null f)

  prepend_at :
      (a : Ptr)
      → (prepend s l e d).le a ≡ (
          let h = first xs null in
          if a == e
          then (record { prev = null; next = h; list = l; ledata = d })
          else if h == null
          then s.le a
          else if a == h
          then record (s.le a) { prev = e }
          else s.le a)
  prepend_at a =
      let he : ((s.lists l).head == e) ≡ false =
        rw v.head_eq (ne_sym e (first xs null) (ne-first e xs (free-not_mem v e free) ne)) in
      rw v.head_eq at (prepend_le s l e d (ne_null l v.l_ne) (ne_null e ne) free a he)

  pub prepend_lem : Placed s (prepend s l e d) l e d [] xs
  prepend_lem =
      let new = rw (==_refl e) at (prepend_at e) in
      let old = λ (a : Ptr) (h : (a == e) ≡ false). rw h at (prepend_at a) in
      (
        inserted-IsList s (prepend s l e d) l e d [] xs v ne free new old prepend-Ends room,
        ap (λ x. x.ledata) new,
        inserted-Others s (prepend s l e d) l e d [] xs v ne free new old
            (λ m h. rw h at (prepend_lists s l e d (ne_null l v.l_ne) (ne_null e ne) free m)),
      )

  append_at :
      (a : Ptr)
      → (append s l e d).le a ≡ (
          let old =
            if a == e
            then record { prev = last null xs; next = null; list = l; ledata = d }
            else s.le a in
          if last null xs == null
          then old
          else if a == last null xs
          then record old { next = e }
          else old)
  append_at a = rw v.tail_eq at (append_le s l e d (ne_null l v.l_ne) (ne_null e ne) free a)

  append-Ends : Ends ((append s l e d).lists l) (xs ++ (e ∷ []))
  append-Ends =
      let b =
        rw (v.head_eq, v.tail_eq, v.cnt_eq, ==_refl l) at
          (append_lists s l e d (ne_null l v.l_ne) (ne_null e ne) free l) in
      record {
        head_eq = ap (λ x. x.head) b ∙ sym (first-null s.le l null xs (e ∷ []) v.links);
        tail_eq = ap (λ x. x.tail) b ∙ sym (last-append null xs e []);
        cnt_eq = ap (λ x. x.cnt) b ∙ omega (arith, length-append xs (e ∷ []));
      }

  pub append_lem : Placed s (append s l e d) l e d xs []
  append_lem =
      let out = free-not_mem v e free in
      let v' = subst (IsList s l) (sym (append-nil xs)) v in
      let new =
        rw (ne-last e null xs out ne, ==_refl e) at (append_at e)
        ∙ if_same (last null xs == null) _ in
      let old = λ (a : Ptr) (h : (a == e) ≡ false). rw h at (append_at a) in
      (
        inserted-IsList s (append s l e d) l e d xs [] v' ne free new old append-Ends
            (omega (arith, length-append xs [])),
        ap (λ x. x.ledata) new,
        inserted-Others s (append s l e d) l e d xs [] v' ne free new old
            (λ m h. rw h at (append_lists s l e d (ne_null l v.l_ne) (ne_null e ne) free m)),
      )
