-- ===== src/LinkedList/Chain.antt =====
-- The elements of a list in order, and the pointers between them.
use re.Base.{
  ◌≡◌, ◌≢◌, refl, ap, ◌∙◌, ◌⊎◌, inl, inr, arith, Bool, true, false, ◌||◌, if◌then◌else◌, ◌==◌, List,
  [], ◌∷◌, ◌++◌,
}
use re.LinkedList.{Ptr, null, Le}

abbrev pub has : Ptr → List Ptr → Bool
has a [] = false
has a (p ∷ ps) = (a == p) || has a ps

abbrev pub Distinct : List Ptr → Type 0
Distinct [] = Unit
Distinct (p ∷ ps) = (has p ps ≡ false) × Distinct ps

-- The first and the last of `ps`, or `stop` and `prev`.
abbrev pub first : List Ptr → Ptr → Ptr
first [] stop = stop
first (p ∷ ps) stop = p

abbrev pub last : Ptr → List Ptr → Ptr
last prev [] = prev
last prev (p ∷ ps) = last p ps

-- The elements `ps` of the list `l` are linked to one another, to `prev` before and `stop` behind.
abbrev pub Links : (Ptr → Le) → Ptr → Ptr → List Ptr → Ptr → Type 0
Links le l prev [] stop = Unit
Links le l prev (p ∷ ps) stop =
    (p ≢ null)
    × ((le p).prev ≡ prev)
    × ((le p).next ≡ first ps stop)
    × ((le p).list ≡ l)
    × Links le l p ps stop

pub has-append : (a : Ptr) (us vs : List Ptr) → has a (us ++ vs) ≡ (has a us || has a vs)
has-append a [] vs = refl
has-append a (x ∷ us) vs = ground (arith, has-append a us vs)

pub Distinct-append :
    (us vs : List Ptr)
    → Distinct (us ++ vs)
    → Distinct us × Distinct vs × ((a : Ptr) → has a us ≡ true → has a vs ≡ false)
Distinct-append [] vs d = (tt, d, λ a h. cc)
Distinct-append (x ∷ us) vs (out, d) =
    let (d1, d2, apart) = Distinct-append us vs d in
    (
      (ground (arith, has-append x us vs), d1),
      d2,
      λ a h. ground (arith, has-append x us vs, apart a),
    )

pub append-Distinct :
    (us vs : List Ptr)
    → Distinct us
    → Distinct vs
    → ((a : Ptr) → has a us ≡ true → has a vs ≡ false)
    → Distinct (us ++ vs)
append-Distinct [] vs d1 d2 apart = d2
append-Distinct (x ∷ us) vs (out, d1) d2 apart = (
  ground (arith, has-append x us vs, apart x),
  append-Distinct us vs d1 d2 (λ a h. ground (arith, apart a)),
)

pub has-last : (p : Ptr) (ps : List Ptr) → has (last p ps) (p ∷ ps) ≡ true
has-last p [] = ground arith
has-last p (q ∷ ps) = ground (arith, has-last q ps)

pub ne_of_has : (x a : Ptr) (ps : List Ptr) → has x ps ≡ false → has a ps ≡ true → (x == a) ≡ false
ne_of_has x a [] h1 h2 = cc
ne_of_has x a (p ∷ ps) h1 h2 = ground (arith, ne_of_has x a ps)

module _ (le : Ptr → Le) (l : Ptr) where
  pub Links-append :
      (prev : Ptr) (us vs : List Ptr) (stop : Ptr)
      → Links le l prev us (first vs stop)
      → Links le l (last prev us) vs stop
      → Links le l prev (us ++ vs) stop
  Links-append prev [] vs stop f g = g
  Links-append prev (x ∷ []) vs stop (n, p, q, o, _) g = (n, p, q, o, g)
  Links-append prev (x ∷ y ∷ us) vs stop (n, p, q, o, f) g =
      (n, p, q, o, Links-append x (y ∷ us) vs stop f g)

  pub Links-split :
      (prev : Ptr) (us vs : List Ptr) (stop : Ptr)
      → Links le l prev (us ++ vs) stop
      → Links le l prev us (first vs stop) × Links le l (last prev us) vs stop
  Links-split prev [] vs stop f = (tt, f)
  Links-split prev (x ∷ []) vs stop (n, p, q, o, f) = ((n, p, q, o, tt), f)
  Links-split prev (x ∷ y ∷ us) vs stop (n, p, q, o, f) =
      let (f1, f2) = Links-split x (y ∷ us) vs stop f in ((n, p, q, o, f1), f2)

  pub Links-frame :
      (le' : Ptr → Le) (prev : Ptr) (us : List Ptr) (stop : Ptr)
      → Links le l prev us stop
      → ((a : Ptr) → has a us ≡ true → le' a ≡ le a)
      → Links le' l prev us stop
  Links-frame le' prev [] stop f same = tt
  Links-frame le' prev (x ∷ us) stop (n, p, q, o, f) same =
      let e : le' x ≡ le x = same x (ground arith) in
      (
        n,
        ap (λ v. v.prev) e ∙ p,
        ap (λ v. v.next) e ∙ q,
        ap (λ v. v.list) e ∙ o,
        Links-frame le' x us stop f (λ a h. same a (ground arith)),
      )

  -- The last element is linked to `stop'` in place of `stop`.
  pub Links-relink_last :
      (le' : Ptr → Le) (prev : Ptr) (us : List Ptr) (stop stop' : Ptr)
      → Distinct us
      → Links le l prev us stop
      → ((a : Ptr)
          → has a us ≡ true
          → le' a ≡ (if a == last prev us then record (le a) { next = stop' } else le a))
      → Links le' l prev us stop'
  Links-relink_last le' prev [] stop stop' d f to = tt
  Links-relink_last le' prev (x ∷ []) stop stop' d (n, p, q, o, f) to =
      let e : le' x ≡ record (le x) { next = stop' } = ground (arith, to x) in
      (n, ap (λ v. v.prev) e ∙ p, ap (λ v. v.next) e, ap (λ v. v.list) e ∙ o, tt)
  Links-relink_last le' prev (x ∷ y ∷ us) stop stop' (out, d) (n, p, q, o, f) to =
      let other : (x == last y us) ≡ false = ne_of_has x (last y us) (y ∷ us) out (has-last y us) in
      let e : le' x ≡ le x = rw other at (to x (ground arith)) in
      (
        n,
        ap (λ v. v.prev) e ∙ p,
        ap (λ v. v.next) e ∙ q,
        ap (λ v. v.list) e ∙ o,
        Links-relink_last le' x (y ∷ us) stop stop' d f (λ a h. to a (ground arith)),
      )

  -- The first element is linked to `prev'` in place of `prev`.
  pub Links-relink_first :
      (le' : Ptr → Le) (prev prev' : Ptr) (us : List Ptr) (stop : Ptr)
      → Distinct us
      → Links le l prev us stop
      → ((a : Ptr)
          → has a us ≡ true
          → le' a ≡ (if a == first us stop then record (le a) { prev = prev' } else le a))
      → Links le' l prev' us stop
  Links-relink_first le' prev prev' [] stop d f to = tt
  Links-relink_first le' prev prev' (x ∷ us) stop (out, d) (n, p, q, o, f) to =
      let e : le' x ≡ record (le x) { prev = prev' } = ground (arith, to x) in
      (
        n,
        ap (λ v. v.prev) e,
        ap (λ v. v.next) e ∙ q,
        ap (λ v. v.list) e ∙ o,
        Links-frame le' x us stop f (λ a h. ground (arith, to a)),
      )

-- A list seen from its end.
pub snoc_cases : (us : List Ptr) → (us ≡ []) ⊎ ((ws : List Ptr) × (e : Ptr) × (us ≡ ws ++ (e ∷ [])))
snoc_cases [] = inl refl
snoc_cases (u ∷ us) = elim (snoc_cases us) [
  | inl h ↦ inr ([], u, rw h)
  | inr (ws, e, h) ↦ inr (u ∷ ws, e, rw h)
]
