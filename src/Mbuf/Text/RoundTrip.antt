-- ===== src/Mbuf/Text/RoundTrip.antt =====
-- mbuf_fill, mbuf_write_pl_skip, mbuf_strdup and mbuf_read_str in terms of what they write and read.
use re.Base.{
  ℕ, zero, suc, ◌+◌, ◌-◌, ◌^◌, ◌<◌, ◌≡◌, ◌≢◌, ap, ◌∙◌, arith, length, drop, replicate, Bytes, ltb,
  ◌==◌, ◌++◌, ◌∷◌, [], some, length-append, length-replicate, le→ltb, false, take_append,
  drop_append, drop-drop,
}
use re.Platform.{Platform}
use re.Mbuf.{Mbuf, write_mem, mem_alloc, add_size}
use re.Mbuf.Words.{read_u8-cons}
use re.Mbuf.Valid.{IsValid}
use re.Mbuf.Write.{Wrote, write_mem_lem, Wrote-then}
use re.Mbuf.Read.{get_left_lem, get_left-le, Holds, ahead, ahead-Holds, read_mem-append}
use re.Mbuf.Text.{write_pl_skip, fill, strdup, read_str}

length-le_size : {mb : Mbuf} (xs ys : Bytes) → Holds mb (xs ++ ys) → length xs < 2 ^ 63
length-le_size xs ys h = omega (arith, get_left_lem h, get_left-le h, length-append xs ys)

module _ (p : Platform) where
  -- For a positive `n`, mbuf_fill does what mbuf_write_mem of `n` copies of the byte does, on
  -- every buffer.
  pub fill-eq-write_mem :
      (mb : Mbuf) (c n : ℕ) → n ≢ 0 → fill p mb c n ≡ write_mem p mb (replicate n c)
  unfolding fill write_mem
  fill-eq-write_mem mb c n h =
      let t : (n == 0) ≡ false = ground arith in rw (t, length-replicate n c)

  -- On a well-formed buffer, mbuf_write_pl_skip of a text and a part that lies inside it writes,
  -- as one write would, what stands before the part and what stands after it.
  pub write_pl_skip_lem :
      (mb : Mbuf) (at : ℕ) (before skipped after : Bytes)
      → IsValid mb
      → length (before ++ (skipped ++ after)) < 2 ^ 63
      → Wrote mb (before ++ after) (
          write_pl_skip p mb
            (record { p = at; text = before ++ (skipped ++ after) })
            (record { p = at + length before; text = skipped }))
  unfolding write_pl_skip
  write_pl_skip_lem mb at before skipped after v h =
      let text = before ++ (skipped ++ after) in
      let len : length text ≡ length before + (length skipped + length after) =
        omega (arith, length-append before (skipped ++ after), length-append skipped after) in
      let starts : ltb (at + length before) at ≡ false = le→ltb _ _ (omega arith) in
      let ends : ltb (at + length text) (at + length before + length skipped) ≡ false =
        le→ltb _ _ (omega (arith, len)) in
      let front : at + length before - at ≡ length before = omega arith in
      let back : at + length before + length skipped - at ≡ length before + length skipped =
        omega arith in
      let tail_eq : drop (length before + length skipped) text ≡ after =
        drop-drop (length before) (length skipped) text
        ∙ ap (drop (length skipped)) (drop_append before (skipped ++ after))
        ∙ drop_append skipped after in
      rw (starts, ends, front, back, take_append before (skipped ++ after), tail_eq)
        (Wrote-then mb before after (write_mem p mb before) (λ m. write_mem p m after) v
          (write_mem_lem p mb before v (omega (arith, len)))
          (λ m vm. write_mem_lem p m after vm (omega (arith, len))))

  -- Where a well-formed buffer has the bytes `xs` in front of what is left to read and the
  -- allocation succeeds, mbuf_strdup of their number gives `xs` with a terminator and moves the
  -- position behind `xs`.
  pub strdup-append :
      {mb : Mbuf} (xs ys block : Bytes)
      → Holds mb (xs ++ ys)
      → mem_alloc p (length xs + 1) ≡ some block
      → strdup p mb (length xs) ≡ (0, some (xs ++ 0 ∷ []), ahead mb (length xs))
  unfolding strdup
  strdup-append {mb} xs ys block h e =
      let len : add_size (length xs) 1 ≡ length xs + 1 = omega (arith, length-le_size xs ys h) in
      rw (len, e, strdup, read_mem-append xs ys h)

abbrev NonZero : Bytes → Type 0
NonZero [] = Unit
NonZero (c ∷ s) = (c ≢ 0) × NonZero s

-- Where a well-formed buffer has a string without zero bytes and its terminator in front of what
-- is left to read, and the destination is longer than the string, mbuf_read_str copies the string
-- and the terminator and stops behind it.
pub read_str-append :
    (s ys : Bytes) {mb : Mbuf} (size : ℕ)
    → NonZero s
    → Holds mb (s ++ (0 ∷ ys))
    → length s < size
    → read_str size mb ≡ (s ++ 0 ∷ [], ahead mb (length s + 1))
unfolding read_str
read_str-append s ys zero n h lt = absurd (omega arith)
read_str-append [] ys (suc size) n h lt = rw (read_u8-cons 0 ys h)
read_str-append (c ∷ s) ys {mb} (suc size) (c_ne, n) h lt =
    let t : (c == 0) ≡ false = ground arith in
    let next : Holds (ahead mb 1) (s ++ (0 ∷ ys)) = ahead-Holds (c ∷ []) (s ++ (0 ∷ ys)) h in
    rw (read_u8-cons c (s ++ (0 ∷ ys)) h, t, read_str-append s ys size n next (omega arith))
      (ap (λ q. (c ∷ (s ++ 0 ∷ []), record mb { pos = q })) (omega arith))
