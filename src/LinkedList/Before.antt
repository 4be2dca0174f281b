-- ===== src/LinkedList/Before.antt =====
-- Where list_insert_before puts an element.
use re.Base.{
  ◌+◌, ◌^◌, ◌<◌, ◌≡◌, ◌≢◌, sym, ap, ◌∙◌, arith, Bool-cases, inl, inr, true, false, ◌||◌,
  if◌then◌else◌, ◌==◌, List, [], ◌∷◌, ◌++◌, length, length-append,
}
use re.LinkedList.{Ptr, null, Store, insert_before}
use re.LinkedList.Place.{Placed}
use re.LinkedList.Chain.{
  Distinct, has, has-append, Distinct-append, first, last, Links, Links-split,
}
use re.LinkedList.Valid.{
  free-not_mem, bool_clash, ==_refl, ne_null, ne_sym, IsList, ne-last, last-append, last-ne,
}
use re.LinkedList.Edit.{Ends}
use re.LinkedList.Insert.{insert_before_le, insert_before_lists}
use re.LinkedList.Insertion.{around, inserted-IsList, inserted-Others}

-- The element `ile`, which is in no list, and `e`, which is in this one.
module _ (s : Store) (l e ile d : Ptr) (us vs : List Ptr) (v : IsList s l (us ++ (e ∷ vs)))
    (ne : ile ≢ null) (free : (s.le ile).list ≡ null)
    (room : length (us ++ (e ∷ vs)) + 1 < 2 ^ 64) where
  parts : (Links s.le l null us e) × Links s.le l (last null us) (e ∷ vs) null
  parts = Links-split s.le l null us (e ∷ vs) null v.links

  around_e :
      Distinct us × Distinct (e ∷ vs) × ((a : Ptr) → has a us ≡ true → has a (e ∷ vs) ≡ false)
  around_e = Distinct-append us (e ∷ vs) v.distinct

  apart : (ile == e) ≡ false
  apart =
      let h : (has ile us || has ile (e ∷ vs)) ≡ false =
        sym (has-append ile us (e ∷ vs)) ∙ free-not_mem v ile free in
      ground (arith, h)

  i_us : has ile us ≡ false
  i_us =
      let h : (has ile us || has ile (e ∷ vs)) ≡ false =
        sym (has-append ile us (e ∷ vs)) ∙ free-not_mem v ile free in
      ground (arith, h)

  e_us : has e us ≡ false
  e_us = elim (Bool-cases (has e us)) [
    | inl h ↦ absurd (bool_clash (around_e.2 e h) (rw (==_refl e)))
    | inr h ↦ h
  ]

  before_at :
      (a : Ptr)
      → (insert_before s l e ile d).le a ≡ (
          let p = last null us in
          if a == ile
          then (record { prev = p; next = e; list = l; ledata = d })
          else if a == e
          then record (s.le e) { prev = ile }
          else if p == null
          then s.le a
          else if a == p
          then record (s.le a) { next = ile }
          else s.le a)
  before_at a =
      let e_ne = parts.1.0 in
      let h1 : ((s.le e).prev == e) ≡ false =
        rw parts.1.1 (ne_sym e (last null us) (ne-last e null us e_us e_ne)) in
      let h2 : ((s.le e).prev == ile) ≡ false =
        rw parts.1.1 (ne_sym ile (last null us) (ne-last ile null us i_us ne)) in
      rw parts.1.1 at (
        insert_before_le s l e ile d (ne_null l v.l_ne) (ne_null e e_ne) (ne_null ile ne) free apart
          a h1 h2)

  before_old :
      (a : Ptr)
      → (a == ile) ≡ false
      → (insert_before s l e ile d).le a ≡ around (last null us) e ile a (s.le a)
  before_old a h =
      let e_last = ne-last e null us e_us parts.1.0 in
      let e_null = ne_null e parts.1.0 in
      elim (Bool-cases (a == e)) [
        | inl is ↦
            let same : a ≡ e = ground (arith, is) in
            rw same (before_at e ∙ ground (arith, apart, e_last, e_null))
        | inr other ↦ before_at a ∙ ground (arith, h, other, e_null)
      ]

  before-Ends : Ends ((insert_before s l e ile d).lists l) (us ++ (ile ∷ (e ∷ vs)))
  before-Ends =
      let b =
        rw (v.head_eq, v.tail_eq, v.cnt_eq, parts.1.1, ==_refl l) at
          (insert_before_lists s l e ile d (ne_null l v.l_ne) (ne_null e parts.1.0) (ne_null ile ne)
            free apart l) in
      record {
        head_eq = ap (λ x. x.head) b ∙ head_of us parts.0;
        tail_eq =
            ap (λ x. x.tail) b ∙ rw (last-append null us e vs, last-append null us ile (e ∷ vs));
        cnt_eq =
            ap (λ x. x.cnt) b
            ∙ omega (arith, length-append us (e ∷ vs), length-append us (ile ∷ (e ∷ vs)));
      }
    where
      head_of :
          (ys : List Ptr)
          → Links s.le l null ys e
          → (if last null ys == null
              then (if first (ys ++ (e ∷ vs)) null == e then ile else first (ys ++ (e ∷ vs)) null)
              else first (ys ++ (e ∷ vs)) null)
            ≡ first (ys ++ (ile ∷ (e ∷ vs))) null
      head_of [] f = rw (==_refl e)
      head_of (y ∷ ys) f = rw (last-ne s.le l null y ys e f)

  pub insert_before_lem : Placed s (insert_before s l e ile d) l ile d us (e ∷ vs)
  insert_before_lem =
      let new = rw (==_refl ile) at (before_at ile) in
      (
        inserted-IsList s (insert_before s l e ile d) l ile d us (e ∷ vs) v ne free new before_old
            before-Ends room,
        ap (λ x. x.ledata) new,
        inserted-Others s (insert_before s l e ile d) l ile d us (e ∷ vs) v ne free new before_old
            (λ m h. rw h at (
              insert_before_lists s l e ile d (ne_null l v.l_ne) (ne_null e parts.1.0)
                (ne_null ile ne) free apart m)),
      )
