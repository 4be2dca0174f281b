-- ===== src/LinkedList/Beside.antt =====
-- Where list_insert_after puts an element.
use re.Base.{
  ◌+◌, ◌^◌, ◌<◌, ◌≡◌, ◌≢◌, sym, ap, subst, ◌∙◌, arith, Bool-cases, inl, inr, true, false, ◌||◌,
  if◌then◌else◌, ◌==◌, List, [], ◌∷◌, ◌++◌, length, length-append, append_assoc,
}
use re.LinkedList.{Ptr, null, Store, insert_after}
use re.LinkedList.Place.{Placed}
use re.LinkedList.Chain.{
  Distinct, has, has-append, Distinct-append, first, last, Links, Links-split,
}
use re.LinkedList.Valid.{
  first_mid, free-not_mem, ne-first, ==_refl, ne_null, ne_sym, IsList, last-append,
}
use re.LinkedList.Edit.{Ends}
use re.LinkedList.Insert.{insert_after_le, insert_after_lists}
use re.LinkedList.Insertion.{around, inserted-IsList, inserted-Others}

-- The element `ile`, which is in no list, and `e`, which is in this one.
module _ (s : Store) (l e ile d : Ptr) (us vs : List Ptr) (v : IsList s l (us ++ (e ∷ vs)))
    (ne : ile ≢ null) (free : (s.le ile).list ≡ null)
    (room : length (us ++ (e ∷ vs)) + 1 < 2 ^ 64) where
  parts : (Links s.le l null us e) × Links s.le l (last null us) (e ∷ vs) null
  parts = Links-split s.le l null us (e ∷ vs) null v.links

  around_e :
      Distinct us × Distinct (e ∷ vs) × ((a : Ptr) → has a us ≡ true → has a (e ∷ vs) ≡ false)
  around_e = Distinct-append us (e ∷ vs) v.distinct

  apart : (ile == e) ≡ false
  apart =
      let h : (has ile us || has ile (e ∷ vs)) ≡ false =
        sym (has-append ile us (e ∷ vs)) ∙ free-not_mem v ile free in
      ground (arith, h)

  i_vs : has ile vs ≡ false
  i_vs =
      let h : (has ile us || has ile (e ∷ vs)) ≡ false =
        sym (has-append ile us (e ∷ vs)) ∙ free-not_mem v ile free in
      ground (arith, h)

  after_at :
      (a : Ptr)
      → (insert_after s l e ile d).le a ≡ (
          let n = first vs null in
          if a == ile
          then (record { prev = e; next = n; list = l; ledata = d })
          else if a == e
          then record (s.le e) { next = ile }
          else if n == null
          then s.le a
          else if a == n
          then record (s.le a) { prev = ile }
          else s.le a)
  after_at a =
      let e_ne = parts.1.0 in
      let h1 : ((s.le e).next == e) ≡ false =
        rw parts.1.2 (ne_sym e (first vs null) (ne-first e vs around_e.1.0 e_ne)) in
      let h2 : ((s.le e).next == ile) ≡ false =
        rw parts.1.2 (ne_sym ile (first vs null) (ne-first ile vs i_vs ne)) in
      rw parts.1.2 at (
        insert_after_le s l e ile d (ne_null l v.l_ne) (ne_null e e_ne) (ne_null ile ne) free apart
          a h1 h2)

  after_old :
      (a : Ptr)
      → (a == ile) ≡ false
      → (insert_after s l e ile d).le a ≡ around e (first vs null) ile a (s.le a)
  after_old a h =
      let e_first = ne-first e vs around_e.1.0 parts.1.0 in
      let e_null = ne_null e parts.1.0 in
      elim (Bool-cases (a == e)) [
        | inl is ↦
            let same : a ≡ e = ground (arith, is) in
            rw same (after_at e ∙ ground (arith, apart, e_first, e_null))
        | inr other ↦ after_at a ∙ ground (arith, h, other, e_null)
      ]

  after-Ends : Ends ((insert_after s l e ile d).lists l) (us ++ (e ∷ (ile ∷ vs)))
  after-Ends =
      let b =
        rw (v.head_eq, v.tail_eq, v.cnt_eq, parts.1.2, ==_refl l) at
          (insert_after_lists s l e ile d (ne_null l v.l_ne) (ne_null e parts.1.0) (ne_null ile ne)
            free apart l) in
      record {
        head_eq = ap (λ x. x.head) b ∙ first_mid us e vs (ile ∷ vs);
        tail_eq =
            ap (λ x. x.tail) b
            ∙ rw (last-append null us e vs, last-append null us e (ile ∷ vs))
                (tail_of vs parts.1.4);
        cnt_eq =
            ap (λ x. x.cnt) b
            ∙ omega (arith, length-append us (e ∷ vs), length-append us (e ∷ (ile ∷ vs)));
      }
    where
      tail_of :
          (ys : List Ptr)
          → Links s.le l e ys null
          → (if first ys null == null
              then (if last e ys == e then ile else last e ys)
              else last e ys)
            ≡ last ile ys
      tail_of [] f = rw (==_refl e)
      tail_of (y ∷ ys) (n, _, _, _, _) = rw (ne_null y n)

  -- Where the list `l` holds the elements `us`, `e` and `vs`, fewer than 2^64 - 1, and an element
  -- is in no list, list_insert_after of it behind `e` leaves `l` holding `us`, `e`, the new
  -- element with the data given, and `vs`, and no element outside of `l` and no other list
  -- changes.
  pub insert_after_lem : Placed s (insert_after s l e ile d) l ile d (us ++ (e ∷ [])) vs
  insert_after_lem =
      let v' = subst (IsList s l) (sym (append_assoc us (e ∷ []) vs)) v in
      let room' = subst (λ t. length t + 1 < 2 ^ 64) (sym (append_assoc us (e ∷ []) vs)) room in
      let ends =
        subst (Ends ((insert_after s l e ile d).lists l))
          (sym (append_assoc us (e ∷ []) (ile ∷ vs))) after-Ends in
      let last_e = last-append null us e [] in
      let new : (insert_after s l e ile d).le ile ≡ record {
        prev = last null (us ++ (e ∷ []));
        next = first vs null;
        list = l;
        ledata = d;
      } =
        rw last_e (rw (==_refl ile) at (after_at ile)) in
      let old = λ (a : Ptr) (h : (a == ile) ≡ false).
        let q : (insert_after s l e ile d).le a
            ≡ around (last null (us ++ (e ∷ []))) (first vs null) ile a (s.le a) =
          rw last_e (after_old a h) in
        q in
      (
        inserted-IsList s (insert_after s l e ile d) l ile d (us ++ (e ∷ [])) vs v' ne free new old
            ends room',
        ap (λ x. x.ledata) new,
        inserted-Others s (insert_after s l e ile d) l ile d (us ++ (e ∷ [])) vs v' ne free new old
            (λ m h. rw h at (
              insert_after_lists s l e ile d (ne_null l v.l_ne) (ne_null e parts.1.0)
                (ne_null ile ne) free apart m)),
      )
