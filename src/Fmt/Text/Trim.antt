-- ===== src/Fmt/Text/Trim.antt =====
-- What pl_trim leaves of a text.
use re.Base.{
  ℕ, zero, suc, ◌≤◌, ◌<◌, ◌≡◌, ◌≢◌, refl, sym, ap, subst, ◌∙◌, inl, inr, arith, true, false, ◌==◌,
  Bool-cases, [], ◌∷◌, ◌++◌, append_assoc, append-nil, length, take, drop, get_or, Bytes,
}
use re.Mbuf.Text.{Pl}
use re.Fmt.Text.{is_space, pl_advance, ltrim_loop, pl_ltrim, rtrim_loop, pl_rtrim, pl_trim}

-- All, or none at the front or at the end, is white space.
abbrev pub AllSpace : Bytes → Type 0
AllSpace [] = Unit
AllSpace (c ∷ s) = (is_space c ≡ true) × AllSpace s

abbrev pub NoneFirst : Bytes → Type 0
NoneFirst [] = Unit
NoneFirst (c ∷ s) = is_space c ≡ false

abbrev pub NoneLast : Bytes → Type 0
NoneLast [] = Unit
NoneLast (c ∷ []) = is_space c ≡ false
NoneLast (c ∷ d ∷ s) = NoneLast (d ∷ s)

-- `t` is `s` without the white space in front and behind.
pub record Trimmed (s t : Bytes) : Type 0 where
  pub front : Bytes
  pub back : Bytes
  pub parts : s ≡ front ++ (t ++ back)
  pub front_space : AllSpace front
  pub back_space : AllSpace back
  pub no_first : NoneFirst t
  pub no_last : NoneLast t

-- The loop from the front.
ltrim_split :
    (s : Bytes)
    → (a : Bytes) × (s ≡ a ++ drop (ltrim_loop s) s)
      × AllSpace a
      × NoneFirst (drop (ltrim_loop s) s)
      × (ltrim_loop s ≤ length s)
unfolding ltrim_loop
ltrim_split [] = ([], refl, tt, tt, omega arith)
ltrim_split (c ∷ s) = elim (Bool-cases (is_space c)) [
  | inl is ↦
      let (a, e, all, first, le) = ltrim_split s in
      rw is (c ∷ a, ap (◌∷◌ c) e, (is, all), first, omega arith)
  | inr off ↦ rw off ([], refl, tt, off, omega arith)
]

take_last : (s : Bytes) (l : ℕ) → l < length s → take (suc l) s ≡ take l s ++ (get_or s l 0 ∷ [])
take_last [] l h = absurd (omega arith)
take_last (c ∷ s) zero h = refl
take_last (c ∷ s) (suc l) h = ap (◌∷◌ c) (take_last s l (omega arith))

take_all : (s : Bytes) → take (length s) s ≡ s
take_all [] = refl
take_all (c ∷ s) = ap (◌∷◌ c) (take_all s)

drop_all : (s : Bytes) → drop (length s) s ≡ []
drop_all [] = refl
drop_all (c ∷ s) = drop_all s

AllSpace-snoc : (b : Bytes) (c : ℕ) → AllSpace b → is_space c ≡ true → AllSpace (b ++ (c ∷ []))
AllSpace-snoc [] c a h = (h, tt)
AllSpace-snoc (x ∷ b) c (y, a) h = (y, AllSpace-snoc b c a h)

NoneLast-snoc : (s : Bytes) (c : ℕ) → is_space c ≡ false → NoneLast (s ++ (c ∷ []))
NoneLast-snoc [] c h = h
NoneLast-snoc (x ∷ []) c h = h
NoneLast-snoc (x ∷ y ∷ s) c h = NoneLast-snoc (y ∷ s) c h

NoneFirst-take : (n : ℕ) (s : Bytes) → NoneFirst s → NoneFirst (take n s)
NoneFirst-take zero s h = tt
NoneFirst-take (suc n) [] h = tt
NoneFirst-take (suc n) (c ∷ s) h = h

-- The loop from the end, over the first `l` characters.
rtrim_split :
    (s : Bytes) (l : ℕ)
    → l ≤ length s
    → (b : Bytes) × (take l s ≡ take (rtrim_loop s l) s ++ b)
      × AllSpace b
      × NoneLast (take (rtrim_loop s l) s)
unfolding rtrim_loop
rtrim_split s zero h = ([], refl, tt, tt)
rtrim_split s (suc l) h = elim (Bool-cases (is_space (get_or s l 0))) [
  | inl is ↦
      let (b, e, all, end) = rtrim_split s l (omega arith) in
      let c = get_or s l 0 in
      rw is (
        b ++ (c ∷ []),
        take_last s l (omega arith)
            ∙ ap (λ t. t ++ (c ∷ [])) e
            ∙ append_assoc (take (rtrim_loop s l) s) b (c ∷ []),
        AllSpace-snoc b c all is,
        end,
      )
  | inr off ↦ rw off (
    [],
    sym (append-nil (take (suc l) s)),
    tt,
    subst NoneLast (sym (take_last s l (omega arith)))
        (NoneLast-snoc (take l s) (get_or s l 0) off),
  )
]

drop_empty : (n : ℕ) (s : Bytes) → (length s == 0) ≡ true → drop n s ≡ s
drop_empty zero s h = refl
drop_empty (suc n) [] h = refl
drop_empty (suc n) (c ∷ s) h = ground (arith, h)

take_empty : (n : ℕ) (s : Bytes) → (length s == 0) ≡ true → take n s ≡ s
take_empty zero [] h = refl
take_empty zero (c ∷ s) h = ground (arith, h)
take_empty (suc n) [] h = refl
take_empty (suc n) (c ∷ s) h = ground (arith, h)

text-pl_ltrim : (pl : Pl) → pl.p ≢ 0 → (pl_ltrim pl).text ≡ drop (ltrim_loop pl.text) pl.text
unfolding pl_ltrim pl_advance ltrim_loop
text-pl_ltrim pl h =
    let s = pl.text in
    let p_set : (pl.p == 0) ≡ false = ground arith in
    elim (Bool-cases (length s == 0)) [
      | inl e ↦ rw (p_set, e) (sym (drop_empty (ltrim_loop s) s e))
      | inr e ↦ elim (Bool-cases (ltrim_loop s == length s)) [
        | inl k ↦
            let whole : ltrim_loop s ≡ length s = ground (arith, k) in
            rw (p_set, e, k) (sym (ap (λ n. drop n s) whole ∙ drop_all s))
        | inr k ↦ rw (p_set, e, k) refl
      ]
    ]

p-pl_ltrim : (pl : Pl) → pl.p ≢ 0 → (pl_ltrim pl).p ≢ 0
unfolding pl_ltrim pl_advance
p-pl_ltrim pl h = ground arith

text-pl_rtrim :
    (pl : Pl) → pl.p ≢ 0 → (pl_rtrim pl).text ≡ take (rtrim_loop pl.text (length pl.text)) pl.text
unfolding pl_rtrim rtrim_loop
text-pl_rtrim pl h =
    let s = pl.text in
    let p_set : (pl.p == 0) ≡ false = ground arith in
    elim (Bool-cases (length s == 0)) [
      | inl e ↦ rw (p_set, e) (sym (take_empty (rtrim_loop s (length s)) s e))
      | inr e ↦ rw (p_set, e) refl
    ]

-- Where the text is not NULL, pl_trim takes white space away in front and behind, and no other
-- character: what is left neither begins nor ends with white space.
pub pl_trim_lem : (pl : Pl) → pl.p ≢ 0 → Trimmed pl.text (pl_trim pl).text
unfolding pl_trim
pl_trim_lem pl h =
    let s = pl.text in
    let s' = drop (ltrim_loop s) s in
    let (a, e, a_space, first, le) = ltrim_split s in
    let (b, e', b_space, end) = rtrim_split s' (length s') (omega arith) in
    let text : (pl_rtrim (pl_ltrim pl)).text ≡ take (rtrim_loop s' (length s')) s' =
      text-pl_rtrim (pl_ltrim pl) (p-pl_ltrim pl h)
      ∙ ap (λ t. take (rtrim_loop t (length t)) t) (text-pl_ltrim pl h) in
    subst (Trimmed s) (sym text) (record {
      front = a;
      back = b;
      parts = e ∙ ap (λ t. a ++ t) (sym (take_all s') ∙ e');
      front_space = a_space;
      back_space = b_space;
      no_first = NoneFirst-take (rtrim_loop s' (length s')) s' first;
      no_last = end;
    })
