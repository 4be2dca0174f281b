-- ===== src/LinkedList/Insert.antt =====
-- list_insert_after and list_insert_before at the elements and at the list.
use re.Base.{◌+◌, ◌%◌, ◌^◌, ◌≡◌, arith, Bool-cases, inl, inr, false, if◌then◌else◌, ◌==◌}
use re.LinkedList.{Ptr, null, Store, insert_after, insert_before, prepend}
use re.LinkedList.Valid.{==_refl, ne_sym}

module _ (s : Store) (l e ile d : Ptr) (l_ne : (l == null) ≡ false) (e_ne : (e == null) ≡ false)
    (i_ne : (ile == null) ≡ false) (free : (s.le ile).list ≡ null)
    (apart : (ile == e) ≡ false) where
  pub insert_after_le :
      (a : Ptr)
      → ((s.le e).next == e) ≡ false
      → ((s.le e).next == ile) ≡ false
      → (insert_after s l e ile d).le a ≡ (
          let n = (s.le e).next in
          if a == ile
          then (record { prev = e; next = n; list = l; ledata = d })
          else if a == e
          then record (s.le e) { next = ile }
          else if n == null
          then s.le a
          else if a == n
          then record (s.le a) { prev = ile }
          else s.le a)
  unfolding insert_after
  insert_after_le a h1 h2 = elim (Bool-cases ((s.le e).next == null)) [
    | inl n ↦ elim (Bool-cases ((s.lists l).tail == e)) [
      | inl t ↦ rw (l_ne, e_ne, i_ne, free, n, t, ne_sym ile e apart) (ground (arith, apart))
      | inr t ↦ rw (l_ne, e_ne, i_ne, free, n, t, ne_sym ile e apart) (ground (arith, apart))
    ]
    | inr n ↦
        rw (l_ne, e_ne, i_ne, free, n, ne_sym ile e apart, ne_sym (s.le e).next e h1)
          (ground (arith, apart, h1, h2))
  ]

  pub insert_after_lists :
      (m : Ptr)
      → (insert_after s l e ile d).lists m ≡ (
          let b = s.lists l in
          if m == l
          then (record {
            head = b.head;
            tail = if (s.le e).next == null then (if b.tail == e then ile else b.tail) else b.tail;
            cnt = (b.cnt + 1) % 2 ^ 64;
          })
          else s.lists m)
  unfolding insert_after
  insert_after_lists m = elim (Bool-cases ((s.le e).next == null)) [
    | inl n ↦ elim (Bool-cases ((s.lists l).tail == e)) [
      | inl t ↦ rw (l_ne, e_ne, i_ne, free, n, t, ==_refl l) (ground arith)
      | inr t ↦ rw (l_ne, e_ne, i_ne, free, n, t) (ground arith)
    ]
    | inr n ↦ rw (l_ne, e_ne, i_ne, free, n) (ground arith)
  ]

  pub insert_before_le :
      (a : Ptr)
      → ((s.le e).prev == e) ≡ false
      → ((s.le e).prev == ile) ≡ false
      → (insert_before s l e ile d).le a ≡ (
          let p = (s.le e).prev in
          if a == ile
          then (record { prev = p; next = e; list = l; ledata = d })
          else if a == e
          then record (s.le e) { prev = ile }
          else if p == null
          then s.le a
          else if a == p
          then record (s.le a) { next = ile }
          else s.le a)
  unfolding insert_before
  insert_before_le a h1 h2 = elim (Bool-cases ((s.le e).prev == null)) [
    | inl n ↦ elim (Bool-cases ((s.lists l).head == e)) [
      | inl t ↦ rw (l_ne, e_ne, i_ne, free, n, t, ne_sym ile e apart) (ground (arith, apart))
      | inr t ↦ rw (l_ne, e_ne, i_ne, free, n, t, ne_sym ile e apart) (ground (arith, apart))
    ]
    | inr n ↦
        rw (l_ne, e_ne, i_ne, free, n, ne_sym ile e apart, ne_sym (s.le e).prev e h1)
          (ground (arith, apart, h1, h2))
  ]

  pub insert_before_lists :
      (m : Ptr)
      → (insert_before s l e ile d).lists m ≡ (
          let b = s.lists l in
          if m == l
          then (record {
            head = if (s.le e).prev == null then (if b.head == e then ile else b.head) else b.head;
            tail = b.tail;
            cnt = (b.cnt + 1) % 2 ^ 64;
          })
          else s.lists m)
  unfolding insert_before
  insert_before_lists m = elim (Bool-cases ((s.le e).prev == null)) [
    | inl n ↦ elim (Bool-cases ((s.lists l).head == e)) [
      | inl t ↦ rw (l_ne, e_ne, i_ne, free, n, t, ==_refl l) (ground arith)
      | inr t ↦ rw (l_ne, e_ne, i_ne, free, n, t) (ground arith)
    ]
    | inr n ↦ rw (l_ne, e_ne, i_ne, free, n) (ground arith)
  ]

module _ (s : Store) (l e d : Ptr) (l_ne : (l == null) ≡ false) (e_ne : (e == null) ≡ false)
    (free : (s.le e).list ≡ null) where
  pub prepend_le :
      (a : Ptr)
      → ((s.lists l).head == e) ≡ false
      → (prepend s l e d).le a ≡ (
          let h = (s.lists l).head in
          if a == e
          then (record { prev = null; next = h; list = l; ledata = d })
          else if h == null
          then s.le a
          else if a == h
          then record (s.le a) { prev = e }
          else s.le a)
  unfolding prepend
  prepend_le a he = elim (Bool-cases ((s.lists l).head == null)) [
    | inl h ↦ elim (Bool-cases ((s.lists l).tail == null)) [
      | inl t ↦ rw (l_ne, e_ne, free, h, t)
      | inr t ↦ rw (l_ne, e_ne, free, h, t)
    ]
    | inr h ↦ elim (Bool-cases ((s.lists l).tail == null)) [
      | inl t ↦ rw (l_ne, e_ne, free, h, t) (ground (arith, he))
      | inr t ↦ rw (l_ne, e_ne, free, h, t) (ground (arith, he))
    ]
  ]

  pub prepend_lists :
      (m : Ptr)
      → (prepend s l e d).lists m ≡ (
          if m == l
          then (record {
            head = e;
            tail = if (s.lists l).tail == null then e else (s.lists l).tail;
            cnt = ((s.lists l).cnt + 1) % 2 ^ 64;
          })
          else s.lists m)
  unfolding prepend
  prepend_lists m = elim (Bool-cases ((s.lists l).head == null)) [
    | inl h ↦ elim (Bool-cases ((s.lists l).tail == null)) [
      | inl t ↦ rw (l_ne, e_ne, free, h, ==_refl l, t) (ground arith)
      | inr t ↦ rw (l_ne, e_ne, free, h, t) (ground arith)
    ]
    | inr h ↦ elim (Bool-cases ((s.lists l).tail == null)) [
      | inl t ↦ rw (l_ne, e_ne, free, h, ==_refl l, t) (ground arith)
      | inr t ↦ rw (l_ne, e_ne, free, h, t) (ground arith)
    ]
  ]
