-- ===== src/LinkedList/Edit.antt =====
-- An element put into a chain, or taken out of it, from what becomes of the elements on either side.
use re.Base.{
  ◌^◌, ◌<◌, ◌≡◌, ◌≢◌, sym, ◌∙◌, arith, Bool-cases, inl, inr, true, false, ◌||◌, if◌then◌else◌, ◌==◌,
  List, ◌∷◌, ◌++◌, length,
}
use re.LinkedList.{Ptr, null, Le, LeList, Store}
use re.LinkedList.Chain.{
  has, has-append, Distinct, Distinct-append, append-Distinct, first, last, Links, Links-append,
  Links-split, Links-relink_last, Links-relink_first, ne_of_has,
}
use re.LinkedList.Valid.{IsList, ne_sym, or_true}

-- `le'` has the elements `us` and `vs` of `le`, linked to `x` and `y` where they meet.
pub record Meet (le le' : Ptr → Le) (us vs : List Ptr) (x y : Ptr) : Type 0 where
  pub before :
      (a : Ptr)
      → has a us ≡ true
      → le' a ≡ (if a == last null us then record (le a) { next = x } else le a)
  pub after :
      (a : Ptr)
      → has a vs ≡ true
      → le' a ≡ (if a == first vs null then record (le a) { prev = y } else le a)

-- What a list consists of, but for its address and length.
pub record IsChain (le : Ptr → Le) (l : Ptr) (xs : List Ptr) : Type 0 where
  pub links : Links le l null xs null
  pub distinct : Distinct xs
  pub owned : (a : Ptr) → (le a).list ≡ l → has a xs ≡ true

module _ (le le' : Ptr → Le) (l : Ptr) (us vs : List Ptr) (e : Ptr) where
  pub insert-IsChain :
      IsChain le l (us ++ vs)
      → has e (us ++ vs) ≡ false
      → e ≢ null
      → Meet le le' us vs e e
      → (le' e).prev ≡ last null us
      → (le' e).next ≡ first vs null
      → (le' e).list ≡ l
      → ((a : Ptr) → (a == e) ≡ false → (le' a).list ≡ (le a).list)
      → IsChain le' l (us ++ (e ∷ vs))
  insert-IsChain c out ne m p q o same =
      let (d1, d2, apart) = Distinct-append us vs c.distinct in
      let (f, g) = Links-split le l null us vs null c.links in
      let both : (has e us || has e vs) ≡ false = sym (has-append e us vs) ∙ out in
      let out1 : has e us ≡ false = ground (arith, both) in
      let out2 : has e vs ≡ false = ground (arith, both) in
      record {
        links =
            Links-append le' l null us (e ∷ vs) null
              (Links-relink_last le l le' null us (first vs null) e d1 f m.before)
              (ne, p, q, o, Links-relink_first le l le' (last null us) e vs null d2 g m.after);
        distinct =
            append-Distinct us (e ∷ vs) d1 (out2, d2)
              (λ a h. rw (ne_sym e a (ne_of_has e a us out1 h)) (apart a h));
        owned = λ a h. elim (Bool-cases (a == e)) [
          | inl is ↦ rw (has-append a us (e ∷ vs), is) (or_true (has a us))
          | inr other ↦
              rw (has-append a us (e ∷ vs), other)
                (sym (has-append a us vs) ∙ c.owned a (sym (same a other) ∙ h))
        ];
      }

  pub remove-IsChain :
      IsChain le l (us ++ (e ∷ vs))
      → Meet le le' us vs (first vs null) (last null us)
      → ((le' e).list ≡ l → ⊥)
      → ((a : Ptr) → (a == e) ≡ false → (le' a).list ≡ (le a).list)
      → IsChain le' l (us ++ vs)
  remove-IsChain c m gone same =
      let (d1, (out, d2), apart) = Distinct-append us (e ∷ vs) c.distinct in
      let (f, (ne, p, q, o, g)) = Links-split le l null us (e ∷ vs) null c.links in
      record {
        links =
            Links-append le' l null us vs null
              (Links-relink_last le l le' null us e (first vs null) d1 f m.before)
              (Links-relink_first le l le' e (last null us) vs null d2 g m.after);
        distinct = append-Distinct us vs d1 d2 (λ a h. ground (arith, apart a h));
        owned = λ a h. elim (Bool-cases (a == e)) [
          | inl is ↦ absurd (gone (ground (arith, h, is)))
          | inr other ↦
              let old = c.owned a (sym (same a other) ∙ h) in
              rw (has-append a us vs) (rw (has-append a us (e ∷ vs), other) at old)
        ];
      }

pub IsList-IsChain : {s : Store} {l : Ptr} {xs : List Ptr} → IsList s l xs → IsChain s.le l xs
IsList-IsChain v = record { links = v.links; distinct = v.distinct; owned = v.owned }

-- The ends and the count of a list that has this chain.
pub record Ends (b : LeList) (xs : List Ptr) : Type 0 where
  pub head_eq : b.head ≡ first xs null
  pub tail_eq : b.tail ≡ last null xs
  pub cnt_eq : b.cnt ≡ length xs

pub IsChain-IsList :
    (s : Store) (l : Ptr) (xs : List Ptr)
    → l ≢ null
    → length xs < 2 ^ 64
    → IsChain s.le l xs
    → Ends (s.lists l) xs
    → IsList s l xs
IsChain-IsList s l xs ne small c b = record {
  l_ne = ne;
  links = c.links;
  distinct = c.distinct;
  head_eq = b.head_eq;
  tail_eq = b.tail_eq;
  cnt_eq = b.cnt_eq;
  small = small;
  owned = c.owned;
}
