-- ===== src/LinkedList.antt =====
-- src/list/list.c: doubly linked lists of elements that live in other objects. A store holds the
-- elements and the lists at their addresses, and 0 is NULL; a function returns the store it leaves.
-- `mem_deref(data)` of a flush is the list of the data that were let go, in order. A handler is a
-- function of the elements' addresses, and changes no list.
pub mod Chain
pub mod Valid
pub mod Edit
pub mod Append
pub mod Unlink
pub mod Insert
pub mod Insertion
pub mod Place
pub mod Beside
pub mod Before
pub mod Label
pub mod Sorted
pub mod Traverse
pub mod Flush
mod Tests
use re.Base.{
  ℕ, zero, suc, ◌+◌, ◌-◌, ◌%◌, ◌^◌, Bool, true, false, not, ◌||◌, if◌then◌else◌, ◌==◌, List, [],
  ◌∷◌,
}

abbrev pub Ptr : Type 0
Ptr = ℕ

abbrev pub null : Ptr
null = 0

-- `struct le`; `list` is the list that the element is linked into.
pub record Le : Type 0 where
  pub prev : Ptr
  pub next : Ptr
  pub list : Ptr
  pub ledata : Ptr

-- `struct list`
pub record LeList : Type 0 where
  pub head : Ptr
  pub tail : Ptr
  pub cnt : ℕ

pub record Store : Type 0 where
  pub le : Ptr → Le
  pub lists : Ptr → LeList

-- Assignments through a pointer.
abbrev pub set_le : Store → Ptr → Le → Store
set_le s p v = record s { le = λ a. if a == p then v else s.le a }

abbrev pub set_list : Store → Ptr → LeList → Store
set_list s l v = record s { lists = λ a. if a == l then v else s.lists a }

abbrev pub set_next : Store → Ptr → Ptr → Store
set_next s p q = set_le s p (record (s.le p) { next = q })

abbrev pub set_prev : Store → Ptr → Ptr → Store
set_prev s p q = set_le s p (record (s.le p) { prev = q })

abbrev pub set_head : Store → Ptr → Ptr → Store
set_head s l p = set_list s l (record (s.lists l) { head = p })

abbrev pub set_tail : Store → Ptr → Ptr → Store
set_tail s l p = set_list s l (record (s.lists l) { tail = p })

-- `++list->cnt` of a `size_t`
abbrev pub count_up : Store → Ptr → Store
count_up s l = set_list s l (record (s.lists l) { cnt = ((s.lists l).cnt + 1) % 2 ^ 64 })

-- `if (list->cnt) --list->cnt;`
abbrev pub count_down : Store → Ptr → Store
count_down s l =
    let n = (s.lists l).cnt in
    set_list s l (record (s.lists l) { cnt = if n == 0 then n else n - 1 })

pub list_init : Store → Ptr → Store
list_init s l = if l == null then s else set_list s l (record { head = null; tail = null; cnt = 0 })

pub append : Store → Ptr → Ptr → Ptr → Store
append s l e ledata =
    if l == null || e == null
    then s
    else if not ((s.le e).list == null)
    then s
    else (let s1 =
          set_le s e (record { prev = (s.lists l).tail; next = null; list = l; ledata = ledata }) in
        let s2 = if (s1.lists l).head == null then set_head s1 l e else s1 in
        let s3 = if (s2.lists l).tail == null then s2 else set_next s2 (s2.lists l).tail e in
        count_up (set_tail s3 l e) l)

pub prepend : Store → Ptr → Ptr → Ptr → Store
prepend s l e ledata =
    if l == null || e == null
    then s
    else if not ((s.le e).list == null)
    then s
    else (let s1 =
          set_le s e (record { prev = null; next = (s.lists l).head; list = l; ledata = ledata }) in
        let s2 = if (s1.lists l).head == null then s1 else set_prev s1 (s1.lists l).head e in
        let s3 = if (s2.lists l).tail == null then set_tail s2 l e else s2 in
        count_up (set_head s3 l e) l)

pub insert_before : Store → Ptr → Ptr → Ptr → Ptr → Store
insert_before s l e ile ledata =
    if l == null || e == null || ile == null
    then s
    else if not ((s.le ile).list == null)
    then s
    else (let s1 =
          if not ((s.le e).prev == null)
          then set_next s (s.le e).prev ile
          else if (s.lists l).head == e
          then set_head s l ile
          else s in
        let s2 =
          set_le s1 ile (record { prev = (s1.le e).prev; next = e; list = l; ledata = ledata }) in
        count_up (set_prev s2 e ile) l)

pub insert_after : Store → Ptr → Ptr → Ptr → Ptr → Store
insert_after s l e ile ledata =
    if l == null || e == null || ile == null
    then s
    else if not ((s.le ile).list == null)
    then s
    else (let s1 =
          if not ((s.le e).next == null)
          then set_prev s (s.le e).next ile
          else if (s.lists l).tail == e
          then set_tail s l ile
          else s in
        let s2 =
          set_le s1 ile (record { prev = e; next = (s1.le e).next; list = l; ledata = ledata }) in
        count_up (set_next s2 e ile) l)

-- The part behind the guard of list_unlink.
detach : Store → Ptr → Ptr → Store
detach s e l =
    let s1 =
      if (s.le e).prev == null
      then set_head s l (s.le e).next
      else set_next s (s.le e).prev (s.le e).next in
    let s2 =
      if (s1.le e).next == null
      then set_tail s1 l (s1.le e).prev
      else set_prev s1 (s1.le e).next (s1.le e).prev in
    let s3 = set_le s2 e (record (s2.le e) { next = null; prev = null; list = null }) in
    count_down s3 l

pub unlink : Store → Ptr → Store
unfolding detach
unlink s e = if e == null then s else if (s.le e).list == null then s else detach s e (s.le e).list

-- The loop of list_insert_sorted, from `e` towards the head, for at most `fuel` rounds.
sorted_loop : (Ptr → Ptr → Bool) → ℕ → Store → Ptr → Ptr → Ptr → Store
sorted_loop sh zero s l e ile = prepend s l ile (s.le ile).ledata
sorted_loop sh (suc fuel) s l e ile =
    let rest = sorted_loop sh fuel s l (s.le e).prev ile in
    if e == null
    then prepend s l ile (s.le ile).ledata
    else if sh e ile
    then insert_after s l e ile (s.le ile).ledata
    else rest

pub insert_sorted : (Ptr → Ptr → Bool) → Store → Ptr → Ptr → Ptr → Store
unfolding sorted_loop
insert_sorted sh s l ile ledata =
    if l == null
    then s
    else (let s1 = set_le s ile (record (s.le ile) { ledata = ledata }) in
        sorted_loop sh ((s.lists l).cnt + 1) s1 l (s.lists l).tail ile)

-- The two loops of list_apply: along `next` or along `prev`, for at most `fuel` rounds.
apply_loop : (Ptr → Bool) → (Ptr → Ptr) → ℕ → Ptr → Ptr
apply_loop ah step zero e = null
apply_loop ah step (suc fuel) e =
    let rest = apply_loop ah step fuel (step e) in
    if e == null then null else if ah e then e else rest

pub apply : (Ptr → Bool) → Store → Ptr → Bool → Ptr
unfolding apply_loop
apply ah s l fwd =
    if l == null
    then null
    else if fwd
    then apply_loop ah (λ a. (s.le a).next) ((s.lists l).cnt + 1) (s.lists l).head
    else apply_loop ah (λ a. (s.le a).prev) ((s.lists l).cnt + 1) (s.lists l).tail

-- The loop of list_flush: the data let go, and the store.
flush_loop : ℕ → Store → Ptr → List Ptr × Store
flush_loop zero s e = ([], s)
flush_loop (suc fuel) s e =
    let s1 = unlink s e in
    let s2 = set_le s1 e (record (s1.le e) { ledata = null }) in
    let rest = flush_loop fuel s2 (s.le e).next in
    if e == null then ([], s) else ((s.le e).ledata ∷ rest.0, rest.1)

pub flush : Store → Ptr → List Ptr × Store
unfolding flush_loop
flush s l =
    if l == null
    then ([], s)
    else (let r = flush_loop ((s.lists l).cnt + 1) s (s.lists l).head in (r.0, list_init r.1 l))

clear_loop : ℕ → Store → Ptr → Store
clear_loop zero s e = s
clear_loop (suc fuel) s e =
    let cleared : Le = record { prev = null; next = null; list = null; ledata = null } in
    let rest = clear_loop fuel (set_le s e cleared) (s.le e).next in if e == null then s else rest

pub clear : Store → Ptr → Store
unfolding clear_loop
clear s l =
    if l == null then s else list_init (clear_loop ((s.lists l).cnt + 1) s (s.lists l).head) l

pub list_head : Store → Ptr → Ptr
list_head s l = if l == null then null else (s.lists l).head

pub list_tail : Store → Ptr → Ptr
list_tail s l = if l == null then null else (s.lists l).tail

-- The cast to `uint32_t` keeps the low 32 bits.
pub list_count : Store → Ptr → ℕ
list_count s l = if l == null then 0 else (s.lists l).cnt % 2 ^ 32
