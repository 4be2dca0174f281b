-- ===== src/Mbuf/Read.antt =====
-- mbuf_read_mem on a well-formed buffer, and what is left to read.
use re.Base.{
  false, ltb, ◌^◌, ℕ, ◌+◌, ◌-◌, ◌≤◌, ◌<◌, ◌≡◌, sym, ap, ◌∙◌, arith, length, take, drop, slice,
  Bytes, ◌++◌, eoverflow, [], le→ltb, lt→ltb, length-take, length-drop, length-append, take_prefix,
  drop_append, drop-take, drop-drop,
}
use re.Mbuf.{Mbuf, block, add_size, get_left, read_mem}
use re.Mbuf.Valid.{IsValid, contents, left_bytes}

-- A well-formed buffer in which `bs` is left to read.
pub record Holds (mb : Mbuf) (bs : Bytes) : Type 0 where
  pub valid : IsValid mb
  pub left : left_bytes mb ≡ bs

abbrev pub ahead : Mbuf → ℕ → Mbuf
ahead mb n = record mb { pos = mb.pos + n }

pub get_left_lem : {mb : Mbuf} {bs : Bytes} → Holds mb bs → get_left mb ≡ length bs
unfolding get_left
get_left_lem {mb} {bs} h =
    ground
      (arith, ap length h.left, length-drop mb.pos (contents mb), length-take mb.end (block mb.buf))

pub get_left-le : {mb : Mbuf} {bs : Bytes} → Holds mb bs → get_left mb < 2 ^ 63
unfolding get_left
get_left-le {mb} h = ground (arith, h.valid)

pub get_left_room : (mb : Mbuf) (n : ℕ) → 0 < n → ltb (get_left mb) n ≡ false → mb.pos + n ≤ mb.end
unfolding get_left
get_left_room mb n h k = ground arith

pub get_left_fits : (mb : Mbuf) (n : ℕ) → mb.pos + n ≤ mb.end → ltb (get_left mb) n ≡ false
unfolding get_left
get_left_fits mb n h = ground arith

-- What is left, as a part of the block.
left_slice :
    {mb : Mbuf} {bs : Bytes}
    → Holds mb bs
    → take (mb.end - mb.pos) (drop mb.pos (block mb.buf)) ≡ bs
left_slice {mb} h = sym (drop-take mb.pos mb.end (block mb.buf)) ∙ h.left

span_eq : {mb : Mbuf} {bs : Bytes} → Holds mb bs → mb.end - mb.pos ≡ length bs
span_eq {mb} h =
    omega
      (arith, ap length h.left, length-drop mb.pos (contents mb), length-take mb.end (block mb.buf))

pub ahead-Holds :
    {mb : Mbuf} (xs ys : Bytes) → Holds mb (xs ++ ys) → Holds (ahead mb (length xs)) ys
ahead-Holds {mb} xs ys h = record {
  valid = record {
    block_length = h.valid.block_length;
    pos_le = omega (arith, length-append xs ys, span_eq h);
    end_le = h.valid.end_le;
    small = h.valid.small;
  };
  left =
      drop-drop mb.pos (length xs) (contents mb) ∙ ap (drop (length xs)) h.left ∙ drop_append xs ys;
}

pub read_mem-append :
    {mb : Mbuf} (xs ys : Bytes)
    → Holds mb (xs ++ ys)
    → read_mem mb (length xs) ≡ (0, xs, ahead mb (length xs))
unfolding read_mem
read_mem-append {mb} xs ys h =
    let fits : length xs ≤ get_left mb = omega (arith, get_left_lem h, length-append xs ys) in
    let got : slice mb.pos (length xs) (block mb.buf) ≡ xs =
      take_prefix (mb.end - mb.pos) (drop mb.pos (block mb.buf)) xs ys (left_slice h) in
    let moved : add_size mb.pos (length xs) ≡ mb.pos + length xs =
      omega (arith, length-append xs ys, span_eq h) in
    rw (le→ltb _ _ fits, got, moved)

pub read_mem_short :
    {mb : Mbuf} {bs : Bytes} (n : ℕ)
    → Holds mb bs
    → length bs < n
    → read_mem mb n ≡ (eoverflow, [], mb)
unfolding read_mem
read_mem_short {mb} {bs} n h lt = rw (get_left_lem h, lt→ltb _ _ lt)

-- Reading never leaves the buffer, whatever it holds.
pub read_mem-IsValid : (mb : Mbuf) (n : ℕ) → IsValid mb → IsValid (read_mem mb n).2
unfolding read_mem
read_mem-IsValid mb n v = ground (arith, v)

-- Skipping over `xs`.
pub skip-Holds :
    {mb : Mbuf} (xs ys : Bytes)
    → Holds mb (xs ++ ys)
    → Holds (record mb { pos = add_size mb.pos (length xs) }) ys
skip-Holds {mb} xs ys h =
    let e : add_size mb.pos (length xs) ≡ mb.pos + length xs =
      omega (arith, length-append xs ys, span_eq h) in
    rw e (ahead-Holds xs ys h)

pub skip-IsValid :
    (m : Mbuf) (n : ℕ)
    → IsValid m
    → ltb (get_left m) n ≡ false
    → IsValid (record m { pos = add_size m.pos n })
unfolding get_left
skip-IsValid m n v h = ground (arith, v)
