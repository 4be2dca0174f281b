-- ===== src/LinkedList/Unlink.antt =====
-- list_unlink takes the element out.
use re.Base.{
  ◌-◌, ◌≡◌, ◌⊎◌, sym, ap, ◌∙◌, arith, Bool-cases, inl, inr, true, false, if◌then◌else◌, ◌==◌, List,
  ◌∷◌, ◌++◌, length-append,
}
use re.LinkedList.{Ptr, null, Le, Store, unlink, detach}
use re.LinkedList.Chain.{has, Distinct, Distinct-append, first, last, Links, Links-split, ne_of_has}
use re.LinkedList.Valid.{
  Others, not_mem_of_list, first_without, last_without, last_off, first_off, bool_clash, ne-first,
  first-ne_of_mem, Links-list, ==_refl, ne_null, ne_sym, if_same, or_true, IsList, ne-last,
  last-ne_of_mem,
}
use re.LinkedList.Edit.{remove-IsChain, IsList-IsChain, Ends, IsChain-IsList}

list_kept :
    (p n a : Ptr) (x : Le)
    → (let s1 = if p == null then x else if a == p then record x { next = n } else x in
        if n == null then s1 else if a == n then record s1 { prev = p } else s1).list
      ≡ x.list
list_kept p n a x = ground arith

data_kept :
    (p n a : Ptr) (x : Le)
    → (let s1 = if p == null then x else if a == p then record x { next = n } else x in
        if n == null then s1 else if a == n then record s1 { prev = p } else s1).ledata
      ≡ x.ledata
data_kept p n a x = ground arith

spared :
    (p n a : Ptr) (x : Le)
    → (p == null) ≡ true ⊎ ((a == p) ≡ false)
    → (n == null) ≡ true ⊎ ((a == n) ≡ false)
    → (let s1 = if p == null then x else if a == p then record x { next = n } else x in
        if n == null then s1 else if a == n then record s1 { prev = p } else s1)
      ≡ x
spared p n a x h k = ground arith

module _ (s : Store) (e l : Ptr) where
  -- The neighbours of `e`, as the element and as its list see them.
  detach_le :
      (a : Ptr)
      → ((s.le e).prev == e) ≡ false
      → ((s.le e).next == e) ≡ false
      → (a == e) ≡ false
      → (detach s e l).le a ≡ (
          let p = (s.le e).prev in
          let n = (s.le e).next in
          let s1 = λ (b : Ptr).
            if p == null then s.le b else if b == p then record (s.le b) { next = n } else s.le b in
          if n == null then s1 a else if a == n then record (s1 a) { prev = p } else s1 a)
  unfolding detach
  detach_le a h1 h2 h3 = elim (Bool-cases ((s.le e).prev == null)) [
    | inl p ↦ elim (Bool-cases ((s.le e).next == null)) [
      | inl n ↦ rw (p, n, h3) (ground arith)
      | inr n ↦ rw (p, n, h3) (ground arith)
    ]
    | inr p ↦ elim (Bool-cases ((s.le e).next == null)) [
      | inl n ↦ rw (p, ne_sym (s.le e).prev e h1, n, h3) (ground arith)
      | inr n ↦ rw (p, ne_sym (s.le e).prev e h1, n, h3) (ground arith)
    ]
  ]

  detach_self :
      ((s.le e).prev == e) ≡ false
      → ((s.le e).next == e) ≡ false
      → (detach s e l).le e ≡ record (s.le e) { prev = null; next = null; list = null }
  unfolding detach
  detach_self h1 h2 = elim (Bool-cases ((s.le e).prev == null)) [
    | inl p ↦ elim (Bool-cases ((s.le e).next == null)) [
      | inl n ↦ rw (p, n, ==_refl e) (ground arith)
      | inr n ↦ rw (p, n, ne_sym (s.le e).next e h2, ==_refl e) (ground arith)
    ]
    | inr p ↦ elim (Bool-cases ((s.le e).next == null)) [
      | inl n ↦ rw (p, ne_sym (s.le e).prev e h1, n, ==_refl e) (ground arith)
      | inr n ↦
          rw (p, ne_sym (s.le e).prev e h1, n, ne_sym (s.le e).next e h2, ==_refl e) (ground arith)
    ]
  ]

  detach_lists :
      (m : Ptr)
      → ((s.le e).prev == e) ≡ false
      → (detach s e l).lists m ≡ (
          let b = s.lists l in
          if m == l
          then (record {
            head = if (s.le e).prev == null then (s.le e).next else b.head;
            tail = if (s.le e).next == null then (s.le e).prev else b.tail;
            cnt = if b.cnt == 0 then b.cnt else b.cnt - 1;
          })
          else s.lists m)
  unfolding detach
  detach_lists m h1 = elim (Bool-cases ((s.le e).prev == null)) [
    | inl p ↦ elim (Bool-cases ((s.le e).next == null)) [
      | inl n ↦ rw (p, n, ==_refl l) (ground arith)
      | inr n ↦ rw (p, n, ==_refl l) (ground arith)
    ]
    | inr p ↦ elim (Bool-cases ((s.le e).next == null)) [
      | inl n ↦ rw (p, ne_sym (s.le e).prev e h1, n, ==_refl l) (ground arith)
      | inr n ↦ rw (p, ne_sym (s.le e).prev e h1, n) (ground arith)
    ]
  ]

module _ (s : Store) (l e : Ptr) (us vs : List Ptr) (v : IsList s l (us ++ (e ∷ vs))) where
  parts : (Links s.le l null us e) × Links s.le l (last null us) (e ∷ vs) null
  parts = Links-split s.le l null us (e ∷ vs) null v.links

  p_eq : (s.le e).prev ≡ last null us
  p_eq = parts.1.1

  n_eq : (s.le e).next ≡ first vs null
  n_eq = parts.1.2

  apart : Distinct us × Distinct (e ∷ vs) × ((a : Ptr) → has a us ≡ true → has a (e ∷ vs) ≡ false)
  apart = Distinct-append us (e ∷ vs) v.distinct

  out_before : has e us ≡ false
  out_before = elim (Bool-cases (has e us)) [
    | inl h ↦ absurd (bool_clash (apart.2 e h) (rw (==_refl e)))
    | inr h ↦ h
  ]

  p_ne : ((s.le e).prev == e) ≡ false
  p_ne = rw p_eq (ne_sym e (last null us) (ne-last e null us out_before parts.1.0))

  n_ne : ((s.le e).next == e) ≡ false
  n_ne = rw n_eq (ne_sym e (first vs null) (ne-first e vs apart.1.0 parts.1.0))

  le_at :
      (a : Ptr)
      → (a == e) ≡ false
      → (detach s e l).le a ≡ (
          let p = last null us in
          let n = first vs null in
          let s1 = λ (b : Ptr).
            if p == null then s.le b else if b == p then record (s.le b) { next = n } else s.le b in
          if n == null then s1 a else if a == n then record (s1 a) { prev = p } else s1 a)
  le_at a h = rw (p_eq, n_eq) at (detach_le s e l a p_ne n_ne h)

  before :
      (a : Ptr)
      → has a us ≡ true
      → (detach s e l).le a
        ≡ (if a == last null us then record (s.le a) { next = first vs null } else s.le a)
  before a h =
      let out = apart.2 a h in
      let a_e : (a == e) ≡ false = ground (arith, out) in
      let a_vs : has a vs ≡ false = ground (arith, out) in
      let a_ne = (Links-list s.le l null us e a parts.0 h).1 in
      let some_last = last-ne_of_mem s.le l a us e parts.0 h in
      rw (le_at a a_e, some_last, ne-first a vs a_vs a_ne) (if_same (first vs null == null) _)

  after :
      (a : Ptr)
      → has a vs ≡ true
      → (detach s e l).le a
        ≡ (if a == first vs null then record (s.le a) { prev = last null us } else s.le a)
  after a h =
      let a_e = ne_sym e a (ne_of_has e a vs apart.1.0 h) in
      let a_ne = (Links-list s.le l e vs null a parts.1.4 h).1 in
      let a_us : has a us ≡ false = elim (Bool-cases (has a us)) [
        | inl k ↦ absurd (bool_clash (apart.2 a k) (rw (h) (or_true (a == e))))
        | inr k ↦ k
      ] in
      rw (le_at a a_e, first-ne_of_mem s.le l e a vs parts.1.4 h, ne-last a null us a_us a_ne)
        (ground arith)

  other : (a : Ptr) → (a == e) ≡ false → ((detach s e l).le a).list ≡ (s.le a).list
  other a h = rw (le_at a h) (list_kept (last null us) (first vs null) a (s.le a))

  ends : Ends ((detach s e l).lists l) (us ++ vs)
  ends =
      let len1 = length-append us (e ∷ vs) in
      let len2 = length-append us vs in
      let b =
        rw (p_eq, n_eq, v.head_eq, v.tail_eq, v.cnt_eq, ==_refl l) at (detach_lists s e l l p_ne) in
      record {
        head_eq = ap (λ x. x.head) b ∙ first_without s.le l e us vs parts.0;
        tail_eq = ap (λ x. x.tail) b ∙ last_without s.le l e e us vs parts.1.4;
        cnt_eq = ap (λ x. x.cnt) b ∙ ground (arith, len1, len2);
      }

  detach-IsList : IsList (detach s e l) l (us ++ vs)
  detach-IsList =
      IsChain-IsList (detach s e l) l (us ++ vs) v.l_ne
        (omega (arith, v.small, length-append us (e ∷ vs), length-append us vs))
        (remove-IsChain s.le (detach s e l).le l us vs e (IsList-IsChain v)
          (record { before = before; after = after })
          (λ h. v.l_ne (sym h ∙ ap (λ x. x.list) (detach_self s e l p_ne n_ne))) other)
        ends

  others : Others s (detach s e l) l e
  others = record {
    le_eq = λ a h n.
        let a_us = not_mem_of_list s.le l null us e a parts.0 n in
        let a_vs = not_mem_of_list s.le l e vs null a parts.1.4 n in
        rw (le_at a h) (
          spared (last null us) (first vs null) a (s.le a) (last_off us a a_us)
            (first_off vs a a_vs));
    lists_eq = λ m h. rw (detach_lists s e l m p_ne, h);
  }

  -- Where the list `l` holds the elements `us`, `e` and `vs` in this order, list_unlink of `e`
  -- leaves it holding `us` and `vs`: linked both ways, with head, tail and count to match. `e`
  -- then names no neighbour and no list and keeps its data, and every element outside of `l`, and
  -- every other list, stays as it was.
  pub unlink-IsList :
      IsList (unlink s e) l (us ++ vs)
      × ((unlink s e).le e ≡ record (s.le e) { prev = null; next = null; list = null })
      × Others s (unlink s e) l e
  unfolding unlink
  unlink-IsList =
      let e_ne = ne_null e parts.1.0 in
      let l_ne = ne_null l v.l_ne in
      let owner : (s.le e).list ≡ l = parts.1.3 in
      rw (e_ne, owner, l_ne) (detach-IsList, detach_self s e l p_ne n_ne, others)

  pub unlink_data : (a : Ptr) → ((unlink s e).le a).ledata ≡ (s.le a).ledata
  unfolding unlink
  unlink_data a =
      let e_ne = ne_null e parts.1.0 in
      let l_ne = ne_null l v.l_ne in
      let owner : (s.le e).list ≡ l = parts.1.3 in
      rw (e_ne, owner, l_ne)
        (elim (Bool-cases (a == e)) [
          | inl is ↦
              let same : a ≡ e = ground (arith, is) in
              rw same (ap (λ x. x.ledata) (detach_self s e l p_ne n_ne))
          | inr other ↦ rw (le_at a other) (data_kept (last null us) (first vs null) a (s.le a))
        ])
