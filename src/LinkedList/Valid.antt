-- ===== src/LinkedList/Valid.antt =====
-- When the store holds a list, and where its elements stand.
use re.Base.{
  ℕ, ◌^◌, ◌<◌, ◌≡◌, ◌≢◌, refl, sym, ap, ◌∙◌, arith, Bool-cases, inl, inr, Bool, true, false, ◌||◌,
  if◌then◌else◌, ◌==◌, List, [], ◌∷◌, ◌++◌, length, append-nil, ◌⊎◌,
}
use re.LinkedList.{Ptr, null, Le, Store}
use re.LinkedList.Chain.{has, Distinct, first, last, Links, has-last, ne_of_has}

pub ==_refl : (a : ℕ) → (a == a) ≡ true
==_refl a = ground arith

pub ne_null : (a : ℕ) → a ≢ null → (a == null) ≡ false
ne_null a h = ground arith

pub ne_sym : (a b : ℕ) → (a == b) ≡ false → (b == a) ≡ false
ne_sym a b h = ground arith

pub if_same {ℓ} : {A : Type ℓ} (b : Bool) (x : A) → (if b then x else x) ≡ x
if_same true x = refl
if_same false x = refl

pub bool_clash : {b : Bool} → b ≡ false → b ≡ true → ⊥
bool_clash h k = cc

pub or_true : (b : Bool) → (b || true) ≡ true
or_true true = refl
or_true false = refl

-- At `l` stands a list of the elements `xs`, which are all that name it.
pub record IsList (s : Store) (l : Ptr) (xs : List Ptr) : Type 0 where
  pub l_ne : l ≢ null
  pub links : Links s.le l null xs null
  pub distinct : Distinct xs
  pub head_eq : (s.lists l).head ≡ first xs null
  pub tail_eq : (s.lists l).tail ≡ last null xs
  pub cnt_eq : (s.lists l).cnt ≡ length xs
  pub small : length xs < 2 ^ 64
  pub owned : (a : Ptr) → (s.le a).list ≡ l → has a xs ≡ true

module _ (le : Ptr → Le) (l : Ptr) where
  pub Links-list :
      (prev : Ptr) (ps : List Ptr) (stop a : Ptr)
      → Links le l prev ps stop
      → has a ps ≡ true
      → ((le a).list ≡ l) × (a ≢ null)
  Links-list prev [] stop a f h = absurd (cc)
  Links-list prev (p ∷ ps) stop a (n, _, _, o, f) h = ground (arith, Links-list p ps stop a f)

-- An element that is in no list.
module _ {s : Store} {l : Ptr} {xs : List Ptr} (v : IsList s l xs) (e : Ptr)
    (free : (s.le e).list ≡ null) where
  pub free-not_mem : has e xs ≡ false
  free-not_mem = elim (Bool-cases (has e xs)) [
    | inl h ↦ absurd (v.l_ne (sym (Links-list s.le l null xs null e v.links h).0 ∙ free))
    | inr h ↦ h
  ]

-- An address that is none of `ps` is not the last of them.
pub ne-last :
    (e prev : Ptr) (ps : List Ptr) → has e ps ≡ false → e ≢ prev → (e == last prev ps) ≡ false
ne-last e prev [] h n = ground arith
ne-last e prev (p ∷ ps) h n = ne_of_has e (last p ps) (p ∷ ps) h (has-last p ps)

pub last-ne :
    (le : Ptr → Le) (l prev p : Ptr) (ps : List Ptr) (stop : Ptr)
    → Links le l prev (p ∷ ps) stop
    → (last p ps == null) ≡ false
last-ne le l prev p ps stop f =
    ground (arith, Links-list le l prev (p ∷ ps) stop (last p ps) f (has-last p ps))

-- What a list with an element says about its ends.
pub last-ne_of_mem :
    (le : Ptr → Le) (l a : Ptr) (xs : List Ptr) (stop : Ptr)
    → Links le l null xs stop
    → has a xs ≡ true
    → (last null xs == null) ≡ false
last-ne_of_mem le l a [] stop f h = cc
last-ne_of_mem le l a (x ∷ xs) stop f h = last-ne le l null x xs stop f

pub first-null :
    (le : Ptr → Le) (l prev : Ptr) (xs ys : List Ptr)
    → Links le l prev xs null
    → first (xs ++ ys) null ≡ (if first xs null == null then first ys null else first xs null)
first-null le l prev [] ys f = refl
first-null le l prev (x ∷ xs) ys (n, _, _, _, _) = ground arith

pub last-append :
    (prev : Ptr) (xs : List Ptr) (e : Ptr) (ys : List Ptr) → last prev (xs ++ (e ∷ ys)) ≡ last e ys
last-append prev [] e ys = refl
last-append prev (x ∷ xs) e ys = last-append x xs e ys

pub ne-first :
    (e : Ptr) (ps : List Ptr) → has e ps ≡ false → e ≢ null → (e == first ps null) ≡ false
ne-first e [] h n = ground arith
ne-first e (p ∷ ps) h n = ground arith

pub first-ne_of_mem :
    (le : Ptr → Le) (l prev a : Ptr) (ps : List Ptr)
    → Links le l prev ps null
    → has a ps ≡ true
    → (first ps null == null) ≡ false
first-ne_of_mem le l prev a [] f h = cc
first-ne_of_mem le l prev a (p ∷ ps) (n, _, _, _, _) h = ne_null p n

-- The last of `us` and the first of `vs`, by the list they make up.
pub last-nil :
    (us : List Ptr) (le : Ptr → Le) (l stop : Ptr)
    → Links le l null us stop
    → (last null us == null) ≡ true
    → us ≡ []
last-nil [] le l stop f h = refl
last-nil (u ∷ us) le l stop f h = cc (last-ne le l null u us stop f)

-- The ends of a list with `e` taken out.
pub first_without :
    (le : Ptr → Le) (l e : Ptr) (us vs : List Ptr)
    → Links le l null us e
    → (if last null us == null then first vs null else first (us ++ (e ∷ vs)) null)
      ≡ first (us ++ vs) null
first_without le l e [] vs f = refl
first_without le l e (u ∷ us) vs f = rw (last-ne le l null u us e f)

pub last_without :
    (le : Ptr → Le) (l prev e : Ptr) (us vs : List Ptr)
    → Links le l prev vs null
    → (if first vs null == null then last null us else last null (us ++ (e ∷ vs)))
      ≡ last null (us ++ vs)
last_without le l prev e us [] f = ap (last null) (sym (append-nil us))
last_without le l prev e us (x ∷ vs) (n, _, _, _, _) =
    rw (ne_null x n, last-append null us e (x ∷ vs), last-append null us x vs)

-- What is done to the list `l` leaves the others as they were: the elements of none of them and of
-- no list but `e`, and the lists themselves.
pub record Others (s s' : Store) (l e : Ptr) : Type 0 where
  pub le_eq : (a : Ptr) → (a == e) ≡ false → (s.le a).list ≢ l → s'.le a ≡ s.le a
  pub lists_eq : (m : Ptr) → (m == l) ≡ false → s'.lists m ≡ s.lists m

pub not_mem_of_list :
    (le : Ptr → Le) (l prev : Ptr) (ps : List Ptr) (stop a : Ptr)
    → Links le l prev ps stop
    → (le a).list ≢ l
    → has a ps ≡ false
not_mem_of_list le l prev ps stop a f n = elim (Bool-cases (has a ps)) [
  | inl h ↦ absurd (n (Links-list le l prev ps stop a f h).0)
  | inr h ↦ h
]

pub last_off :
    (ps : List Ptr) (a : Ptr)
    → has a ps ≡ false
    → ((last null ps == null) ≡ true) ⊎ ((a == last null ps) ≡ false)
last_off [] a h = inl refl
last_off (p ∷ ps) a h = inr (ne_of_has a (last p ps) (p ∷ ps) h (has-last p ps))

pub first_off :
    (ps : List Ptr) (a : Ptr)
    → has a ps ≡ false
    → ((first ps null == null) ≡ true) ⊎ ((a == first ps null) ≡ false)
first_off [] a h = inl refl
first_off (p ∷ ps) a h = inr (ground (arith, h))

pub first_mid :
    (us : List Ptr) (e : Ptr) (vs ws : List Ptr)
    → first (us ++ (e ∷ vs)) null ≡ first (us ++ (e ∷ ws)) null
first_mid [] e vs ws = refl
first_mid (u ∷ us) e vs ws = refl
