-- ===== src/LinkedList/Traverse.antt =====
-- list_apply in both directions, and list_flush.
use re.Base.{
  ℕ, zero, suc, ◌+◌, ◌<◌, ◌≡◌, refl, ap, arith, inl, inr, Bool, true, false, if◌then◌else◌, ◌==◌,
  List, [], ◌∷◌, ◌++◌, length, length-append,
}
use re.LinkedList.{Ptr, null, Store, apply_loop, apply}
use re.LinkedList.Chain.{snoc_cases, first, last, Links, Links-split}
use re.LinkedList.Valid.{ne_null, IsList, last-append}

-- The first, and the last, of the elements that the handler stops at; 0 where there is none.
abbrev pub find : (Ptr → Bool) → List Ptr → Ptr
find ah [] = null
find ah (p ∷ ps) = if ah p then p else find ah ps

abbrev pub find_back : (Ptr → Bool) → List Ptr → Ptr
find_back ah [] = null
find_back ah (p ∷ ps) =
    let r = find_back ah ps in if r == null then (if ah p then p else null) else r

find_back-snoc :
    (ah : Ptr → Bool) (us : List Ptr) (e : Ptr)
    → (e == null) ≡ false
    → find_back ah (us ++ (e ∷ [])) ≡ (if ah e then e else find_back ah us)
find_back-snoc ah [] e h = ground (arith, h)
find_back-snoc ah (u ∷ us) e h = ground (arith, h, find_back-snoc ah us e h)

module _ (ah : Ptr → Bool) (s : Store) (l : Ptr) where
  forward :
      (fuel : ℕ) (prev : Ptr) (xs : List Ptr)
      → Links s.le l prev xs null
      → length xs < fuel
      → apply_loop ah (λ a. (s.le a).next) fuel (first xs null) ≡ find ah xs
  unfolding apply_loop
  forward zero prev xs f h = absurd (omega arith)
  forward (suc fuel) prev [] f h = refl
  forward (suc fuel) prev (x ∷ xs) (n, _, q, _, f) h =
      rw (ne_null x n, q, forward fuel x xs f (omega arith))

  backward :
      (fuel : ℕ) (us : List Ptr) (stop : Ptr)
      → Links s.le l null us stop
      → length us < fuel
      → apply_loop ah (λ a. (s.le a).prev) fuel (last null us) ≡ find_back ah us
  unfolding apply_loop
  backward zero us stop f h = absurd (omega arith)
  backward (suc fuel) us stop f h = elim (snoc_cases us) [
    | inl nothing ↦ rw nothing
    | inr (ws, e, parts) ↦
        let (f1, f2) = Links-split s.le l null ws (e ∷ []) stop (rw parts at f) in
        let e_ne = ne_null e f2.0 in
        let less : length ws < fuel = omega (arith, ap length parts, length-append ws (e ∷ [])) in
        rw (
          parts,
          last-append null ws e [],
          e_ne,
          f2.1,
          backward fuel ws e f1 less,
          find_back-snoc ah ws e e_ne,
        )
  ]

  -- Where `l` holds the elements `xs`, list_apply forwards gives the first of them at which the
  -- handler returns true, and backwards the last, or NULL where there is none.
  pub apply_lem :
      (xs : List Ptr) (fwd : Bool)
      → IsList s l xs
      → apply ah s l fwd ≡ (if fwd then find ah xs else find_back ah xs)
  unfolding apply
  apply_lem xs true v =
      rw (ne_null l v.l_ne, v.head_eq, v.cnt_eq)
        (forward (length xs + 1) null xs v.links (omega arith))
  apply_lem xs false v =
      rw (ne_null l v.l_ne, v.tail_eq, v.cnt_eq)
        (backward (length xs + 1) xs null v.links (omega arith))
