-- ===== src/Mbuf/Text.antt =====
-- Strings in a buffer: mbuf_write_str to mbuf_fill of src/mbuf/mbuf.c. A C string is the list of
-- the bytes before its terminator; a `struct pl` is an address with the bytes that stand there.
pub mod RoundTrip
pub mod Shift
use re.Base.{
  ℕ, zero, suc, ◌+◌, ◌-◌, ◌*◌, ◌%◌, ◌^◌, ◌≤◌, ◌<◌, max, ◌≡◌, ◌≢◌, refl, sym, ap, ◌∙◌, ◌⊎◌, inl, inr,
  arith, Bool-cases, length, take, drop, replicate, Bytes, ltb, if◌then◌else◌, ◌==◌, ◌||◌, ◌++◌,
  ◌∷◌, [], List, Option, none, some, einval, enomem, erange, ℤ, Bool, false, slice, blit,
  length-append, length-replicate, le→ltb,
}
use mathlib.Core.Option
use re.Platform.{Platform}
use re.Mbuf.{
  Mbuf, block, add_signed, get_left, resize, write_mem, read_mem, mem_alloc, add_size, put,
  make_room,
}
use re.Mbuf.Words.{read_u8, read_u8-cons}
use re.Mbuf.Valid.{IsValid, left_bytes}
use re.Mbuf.Write.{Wrote, write_mem_lem, Wrote-then}
use re.Mbuf.Read.{Holds, ahead, ahead-Holds, read_mem-append, read_mem_short}

-- `struct pl`: the bytes from address `p` on.
pub record Pl : Type 0 where
  pub p : ℕ
  pub text : Bytes

-- err = w1; if (err) return err; return w2;
infixl 6 ◌then_write◌
abbrev ◌then_write◌ : ℕ × Mbuf → (Mbuf → ℕ × Mbuf) → ℕ × Mbuf
r then_write w = if r.0 == 0 then w r.1 else r

module _ (pf : Platform) where
  pub write_str : Mbuf → Bytes → ℕ × Mbuf
  write_str mb str = write_mem pf mb str

  pub write_pl : Mbuf → Pl → ℕ × Mbuf
  write_pl mb pl = write_mem pf mb pl.text

  -- `skip` lies in the memory of `pl`; only its place counts.
  pub write_pl_skip : Mbuf → Pl → Pl → ℕ × Mbuf
  write_pl_skip mb pl skip =
      if ltb skip.p pl.p || ltb (pl.p + length pl.text) (skip.p + length skip.text)
      then (erange, mb)
      else (write_mem pf mb (take (skip.p - pl.p) pl.text) then_write λ m.
          write_mem pf m (drop (skip.p + length skip.text - pl.p) pl.text))

  -- The test of `n`, then the code of mbuf_write_mem with a memset for the memcpy.
  pub fill : Mbuf → ℕ → ℕ → ℕ × Mbuf
  fill mb c n =
      if n == 0
      then (einval, mb)
      else (let (err, mb') = make_room pf mb (add_size mb.pos n) in
          if err == 0 then (0, put mb' (replicate n c)) else (err, mb'))

  -- The block that `*strp` is set to, `none` where it is left as it was.
  pub strdup : Mbuf → ℕ → ℕ × Option Bytes × Mbuf
  strdup mb len = elim (mem_alloc pf (add_size len 1)) [
    | none ↦ (enomem, none, mb)
    | some _ ↦
        (let (err, bs, mb') = read_mem mb len in
          if err == 0 then (0, some (bs ++ 0 ∷ []), mb') else (err, none, mb'))
  ]

-- What is written to `str`, for a destination of `size` bytes.
pub read_str : ℕ → Mbuf → Bytes × Mbuf
read_str zero mb = ([], mb)
read_str (suc size) mb =
    let r = read_u8 mb in
    let rest = read_str size r.1 in if r.0 == 0 then (0 ∷ [], r.1) else (r.0 ∷ rest.0, rest.1)

-- `((ssize_t)n + shift) < 0`
abbrev is_negative : ℕ → ℤ → Bool
is_negative n (ℤ.pos k) = false
is_negative n (ℤ.negsuc k) = ltb n (suc k)

abbrev moved : Mbuf → ℤ → Mbuf
moved mb s =
    let to = add_signed mb.pos s in
    let part = slice mb.pos (get_left mb) (block mb.buf) in
    record mb { buf = Option.map (λ b. blit b to part) mb.buf; pos = to; end = add_signed mb.end s }

module _ (pf : Platform) where
  -- mbuf_shift
  pub shift : Mbuf → ℤ → ℕ × Mbuf
  unfolding get_left
  shift mb s =
      if is_negative mb.pos s || is_negative mb.end s
      then (erange, mb)
      else (let rsize = add_signed mb.end s in
          let (err, mb') = if ltb mb.size rsize then resize pf mb rsize else (0, mb) in
          if err == 0 then (0, moved mb' s) else (err, mb'))
