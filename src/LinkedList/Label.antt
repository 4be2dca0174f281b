-- ===== src/LinkedList/Label.antt =====
-- An element that is in no list may be given other data.
use re.Base.{◌≡◌, sym, ◌∙◌, Bool-cases, inl, inr, ◌==◌, List}
use re.LinkedList.{Ptr, null, Store, set_le}
use re.LinkedList.Chain.{Links-frame, ne_of_has}
use re.LinkedList.Valid.{free-not_mem, ne_sym, IsList}

abbrev pub labelled : Store → Ptr → Ptr → Store
labelled s ile d = set_le s ile (record (s.le ile) { ledata = d })

module _ (s : Store) (l ile d : Ptr) (xs : List Ptr) (v : IsList s l xs)
    (free : (s.le ile).list ≡ null) where
  pub labelled-IsList : IsList (labelled s ile d) l xs
  labelled-IsList =
      let out = free-not_mem v ile free in
      record {
        l_ne = v.l_ne;
        links =
            Links-frame s.le l (labelled s ile d).le null xs null v.links
              (λ a h. rw (ne_sym ile a (ne_of_has ile a xs out h)));
        distinct = v.distinct;
        head_eq = v.head_eq;
        tail_eq = v.tail_eq;
        cnt_eq = v.cnt_eq;
        small = v.small;
        owned = λ a h. elim (Bool-cases (a == ile)) [
          | inl is ↦ absurd (v.l_ne (sym (rw is at h) ∙ free))
          | inr other ↦ v.owned a (rw other at h)
        ];
      }
