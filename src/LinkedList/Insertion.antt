-- ===== src/LinkedList/Insertion.antt =====
-- A list with an element put in, from what the store holds at each address.
use re.Base.{
  ◌+◌, ◌^◌, ◌<◌, ◌≡◌, ◌≢◌, ◌⊎◌, sym, ap, ◌∙◌, arith, Bool-cases, inl, inr, true, false, ◌||◌,
  if◌then◌else◌, ◌==◌, List, ◌∷◌, ◌++◌, length, length-append,
}
use re.LinkedList.{Ptr, null, Le, Store}
use re.LinkedList.Chain.{
  has, has-append, Distinct-append, first, last, Links, Links-split, ne_of_has,
}
use re.LinkedList.Valid.{
  Others, last_off, first_off, not_mem_of_list, free-not_mem, bool_clash, ne-first, first-ne_of_mem,
  last-ne_of_mem, Links-list, ne_sym, if_same, IsList, ne-last,
}
use re.LinkedList.Edit.{insert-IsChain, IsList-IsChain, Ends, IsChain-IsList}

-- The element `x` at `a`, with `e` put in between `p` and `n`.
abbrev pub around : Ptr → Ptr → Ptr → Ptr → Le → Le
around p n e a x =
    let y = if p == null then x else if a == p then record x { next = e } else x in
    if n == null then y else if a == n then record y { prev = e } else y

around_list : (p n e a : Ptr) (x : Le) → (around p n e a x).list ≡ x.list
around_list p n e a x = ground arith

around_spared :
    (p n e a : Ptr) (x : Le)
    → ((p == null) ≡ true) ⊎ ((a == p) ≡ false)
    → ((n == null) ≡ true) ⊎ ((a == n) ≡ false)
    → around p n e a x ≡ x
around_spared p n e a x h k = ground arith

module _ (s s' : Store) (l e d : Ptr) (us vs : List Ptr) (v : IsList s l (us ++ vs)) (ne : e ≢ null)
    (free : (s.le e).list ≡ null)
    (at_new : s'.le e ≡ record { prev = last null us; next = first vs null; list = l; ledata = d })
    (at_old : (a : Ptr)
      → (a == e) ≡ false
      → s'.le a ≡ around (last null us) (first vs null) e a (s.le a)) where
  out : has e (us ++ vs) ≡ false
  out = free-not_mem v e free

  out_us : has e us ≡ false
  out_us =
      let h : (has e us || has e vs) ≡ false = sym (has-append e us vs) ∙ out in ground (arith, h)

  out_vs : has e vs ≡ false
  out_vs =
      let h : (has e us || has e vs) ≡ false = sym (has-append e us vs) ∙ out in ground (arith, h)

  parts : Links s.le l null us (first vs null) × Links s.le l (last null us) vs null
  parts = Links-split s.le l null us vs null v.links

  apart : (a : Ptr) → has a us ≡ true → has a vs ≡ false
  apart = (Distinct-append us vs v.distinct).2

  before :
      (a : Ptr)
      → has a us ≡ true
      → s'.le a ≡ (if a == last null us then record (s.le a) { next = e } else s.le a)
  before a h =
      let a_ne = (Links-list s.le l null us (first vs null) a parts.0 h).1 in
      rw
        (
          at_old a (ne_sym e a (ne_of_has e a us out_us h)),
          last-ne_of_mem s.le l a us (first vs null) parts.0 h,
          ne-first a vs (apart a h) a_ne,
        )
        (if_same (first vs null == null) _)

  after :
      (a : Ptr)
      → has a vs ≡ true
      → s'.le a ≡ (if a == first vs null then record (s.le a) { prev = e } else s.le a)
  after a h =
      let a_ne = (Links-list s.le l (last null us) vs null a parts.1 h).1 in
      let a_us : has a us ≡ false = elim (Bool-cases (has a us)) [
        | inl k ↦ absurd (bool_clash (apart a k) h)
        | inr k ↦ k
      ] in
      rw
        (
          at_old a (ne_sym e a (ne_of_has e a vs out_vs h)),
          first-ne_of_mem s.le l (last null us) a vs parts.1 h,
          ne-last a null us a_us a_ne,
        )
        (ground arith)

  pub inserted-IsList :
      Ends (s'.lists l) (us ++ (e ∷ vs))
      → length (us ++ vs) + 1 < 2 ^ 64
      → IsList s' l (us ++ (e ∷ vs))
  inserted-IsList ends room =
      IsChain-IsList s' l (us ++ (e ∷ vs)) v.l_ne
        (omega (arith, length-append us (e ∷ vs), length-append us vs))
        (insert-IsChain s.le s'.le l us vs e (IsList-IsChain v) out ne
          (record { before = before; after = after }) (ap (λ x. x.prev) at_new)
          (ap (λ x. x.next) at_new) (ap (λ x. x.list) at_new)
          (λ a h.
            ap (λ x. x.list) (at_old a h)
            ∙ around_list (last null us) (first vs null) e a (s.le a)))
        ends

  pub inserted-Others : ((m : Ptr) → (m == l) ≡ false → s'.lists m ≡ s.lists m) → Others s s' l e
  inserted-Others same = record {
    le_eq = λ a h n.
        let a_us = not_mem_of_list s.le l null us (first vs null) a parts.0 n in
        let a_vs = not_mem_of_list s.le l (last null us) vs null a parts.1 n in
        at_old a h
        ∙ around_spared (last null us) (first vs null) e a (s.le a) (last_off us a a_us)
            (first_off vs a a_vs);
    lists_eq = same;
  }
