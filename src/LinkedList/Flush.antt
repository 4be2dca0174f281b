-- ===== src/LinkedList/Flush.antt =====
-- list_flush: what becomes of the elements, and which data are let go.
use re.Base.{
  ℕ, zero, suc, ◌+◌, ◌<◌, ◌≡◌, refl, ap, ◌∙◌, arith, Bool-cases, inl, inr, true, false, ◌==◌, List,
  [], ◌∷◌, length,
}
use mathlib.Core.List.{map}
use re.LinkedList.{Ptr, null, Le, Store, unlink, flush_loop, flush, list_init}
use re.LinkedList.Chain.{has, first, ne_of_has}
use re.LinkedList.Valid.{bool_clash, ==_refl, ne_null, ne_sym, IsList}
use re.LinkedList.Label.{labelled, labelled-IsList}
use re.LinkedList.Unlink.{unlink-IsList, unlink_data}

abbrev pub cleared : Le
cleared = record { prev = null; next = null; list = null; ledata = null }

abbrev pub data_of : Store → List Ptr → List Ptr
data_of s xs = map (λ a. (s.le a).ledata) xs

map_same :
    (s s' : Store) (xs : List Ptr)
    → ((a : Ptr) → has a xs ≡ true → (s'.le a).ledata ≡ (s.le a).ledata)
    → data_of s' xs ≡ data_of s xs
map_same s s' [] h = refl
map_same s s' (x ∷ xs) h =
    let e = h x (ground arith) in let r = map_same s s' xs (λ a k. h a (ground arith)) in rw (e, r)

-- The elements `xs` are in no list, and nothing else changes but the list at `l`.
pub record Flushed (s s' : Store) (l : Ptr) (xs : List Ptr) : Type 0 where
  pub empty : IsList s' l []
  pub freed : (a : Ptr) → has a xs ≡ true → s'.le a ≡ cleared
  pub kept : (a : Ptr) → has a xs ≡ false → s'.le a ≡ s.le a
  pub lists_eq : (m : Ptr) → (m == l) ≡ false → s'.lists m ≡ s.lists m

module _ (l : Ptr) where
  flush_loop_lem :
      (fuel : ℕ) (s : Store) (xs : List Ptr)
      → IsList s l xs
      → length xs < fuel
      → ((flush_loop fuel s (first xs null)).0 ≡ data_of s xs)
        × Flushed s (flush_loop fuel s (first xs null)).1 l xs
  unfolding flush_loop
  flush_loop_lem zero s xs v h = absurd (omega arith)
  flush_loop_lem (suc fuel) s [] v h =
      (refl, record { empty = v; freed = λ a k. cc; kept = λ a k. refl; lists_eq = λ m k. refl })
  flush_loop_lem (suc fuel) s (x ∷ xs) v h =
      let (v1, alone, off) = unlink-IsList s l x [] xs v in
      let s1 = unlink s x in
      let free : (s1.le x).list ≡ null = ap (λ q. q.list) alone in
      let v2 = labelled-IsList s1 l x null xs v1 free in
      let s2 = labelled s1 x null in
      let out = v.distinct.0 in
      let (d, f) = flush_loop_lem fuel s2 xs v2 (omega arith) in
      let rest = flush_loop fuel s2 (first xs null) in
      let same =
        map_same s s2 xs
          (λ a k. rw (ne_sym x a (ne_of_has x a xs out k)) (unlink_data s l x [] xs v a)) in
      rw (ne_null x v.links.0, v.links.2)
        (
          ap (◌∷◌ (s.le x).ledata) (d ∙ same),
          record {
            empty = f.empty;
            freed = λ a k. elim (Bool-cases (a == x)) [
              | inl is ↦
                  let here : a ≡ x = ground (arith, is) in
                  rw here (f.kept x out ∙ rw (==_refl x, alone))
              | inr other ↦ f.freed a (rw other at k)
            ];
            kept = λ a k.
                let a_x : (a == x) ≡ false = ground (arith, k) in
                let a_xs : has a xs ≡ false = ground (arith, k) in
                let elsewhere = off.le_eq a a_x (λ e. bool_clash k (v.owned a e)) in
                f.kept a a_xs ∙ rw a_x elsewhere;
            lists_eq = λ m k. f.lists_eq m k ∙ off.lists_eq m k;
          },
        )

  -- Where `l` holds the elements `xs`, list_flush lets their data go, each once and in the order
  -- of the list; it leaves an empty list, clears every element of `xs`, and changes no other
  -- element and no other list.
  pub flush_lem :
      (s : Store) (xs : List Ptr)
      → IsList s l xs
      → ((flush s l).0 ≡ data_of s xs) × Flushed s (flush s l).1 l xs
  unfolding flush list_init
  flush_lem s xs v =
      let (d', f') =
        rw (← v.head_eq) at
          (flush_loop_lem ((s.lists l).cnt + 1) s xs v (omega (arith, v.cnt_eq))) in
      rw (ne_null l v.l_ne) (
        d',
        record {
          empty = record {
            l_ne = v.l_ne;
            links = tt;
            distinct = tt;
            head_eq = rw (==_refl l);
            tail_eq = rw (==_refl l);
            cnt_eq = rw (==_refl l);
            small = omega arith;
            owned = f'.empty.owned;
          };
          freed = f'.freed;
          kept = f'.kept;
          lists_eq = λ m k. rw k (f'.lists_eq m k);
        },
      )
