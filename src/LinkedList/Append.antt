-- ===== src/LinkedList/Append.antt =====
-- list_append at the elements and at the list.
use re.Base.{◌+◌, ◌%◌, ◌^◌, ◌≡◌, arith, Bool-cases, inl, inr, false, if◌then◌else◌, ◌==◌}
use re.LinkedList.{Ptr, null, Store, append}
use re.LinkedList.Valid.{==_refl}

-- What list_append leaves at an element, and at the list.
module _ (s : Store) (l e d : Ptr) (l_ne : (l == null) ≡ false) (e_ne : (e == null) ≡ false)
    (free : (s.le e).list ≡ null) where
  pub append_le :
      (a : Ptr)
      → (append s l e d).le a ≡ (
          let old =
            if a == e
            then record { prev = (s.lists l).tail; next = null; list = l; ledata = d }
            else s.le a in
          if (s.lists l).tail == null
          then old
          else if a == (s.lists l).tail
          then record old { next = e }
          else old)
  unfolding append
  append_le a = elim (Bool-cases ((s.lists l).head == null)) [
    | inl h ↦ elim (Bool-cases ((s.lists l).tail == null)) [
      | inl t ↦ rw (l_ne, e_ne, free, h, ==_refl l, t)
      | inr t ↦ rw (l_ne, e_ne, free, h, ==_refl l, t) (ground arith)
    ]
    | inr h ↦ elim (Bool-cases ((s.lists l).tail == null)) [
      | inl t ↦ rw (l_ne, e_ne, free, h, t)
      | inr t ↦ rw (l_ne, e_ne, free, h, t) (ground arith)
    ]
  ]

  pub append_lists :
      (m : Ptr)
      → (append s l e d).lists m ≡ (
          if m == l
          then (record {
            head = if (s.lists l).head == null then e else (s.lists l).head;
            tail = e;
            cnt = ((s.lists l).cnt + 1) % 2 ^ 64;
          })
          else s.lists m)
  unfolding append
  append_lists m = elim (Bool-cases ((s.lists l).head == null)) [
    | inl h ↦ elim (Bool-cases ((s.lists l).tail == null)) [
      | inl t ↦ rw (l_ne, e_ne, free, h, ==_refl l, t) (ground arith)
      | inr t ↦ rw (l_ne, e_ne, free, h, ==_refl l, t) (ground arith)
    ]
    | inr h ↦ elim (Bool-cases ((s.lists l).tail == null)) [
      | inl t ↦ rw (l_ne, e_ne, free, h, t) (ground arith)
      | inr t ↦ rw (l_ne, e_ne, free, h, t) (ground arith)
    ]
  ]
