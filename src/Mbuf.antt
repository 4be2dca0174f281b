-- ===== src/Mbuf.antt =====
-- src/mbuf/mbuf.c and the inline functions of include/re_mbuf.h: a buffer of bytes with a read and
-- write position. A function that changes `*mb` returns the new buffer behind its result, and an
-- `int` result is 0 or an error number. A buffer here is never NULL and owns its block (nrefs is 1),
-- so the tests `if (!mb)` have no counterpart; `size_t` is 64 bits wide.
pub mod Valid
pub mod Write
pub mod Outcome
pub mod Trim
pub mod Read
pub mod RoundTrip
pub mod Words
pub mod Alloc
pub mod Text
pub mod Tests
use re.Base.{
  ℕ, suc, ◌+◌, ◌-◌, ◌*◌, ◌%◌, ◌^◌, max, ◌||◌, Option, none, some, [], ltb, ◌==◌, if◌then◌else◌,
  length, take, slice, blit, bit_or, Bytes, ℤ, enomem, eoverflow,
}
use re.Platform.{Platform}
use mathlib.Core.Option

pub record Mbuf : Type 0 where
  pub buf : Option Bytes
  pub size : ℕ
  pub pos : ℕ
  pub end : ℕ

-- The bytes behind `buf`; NULL has none.
abbrev pub block : Option Bytes → Bytes
block none = []
block (some b) = b

-- `size_t` arithmetic; the second adds an `ssize_t`.
abbrev pub add_size : ℕ → ℕ → ℕ
add_size a b = (a + b) % 2 ^ 64

abbrev pub add_signed : ℕ → ℤ → ℕ
add_signed a (ℤ.pos n) = (a + n) % 2 ^ 64
add_signed a (ℤ.negsuc n) = (a + 2 ^ 64 - suc n) % 2 ^ 64

-- MEM_SIZE_MAX where `size_t` is wider than 32 bits.
abbrev mem_size_max : ℕ
mem_size_max = 2 ^ 32 - 1

abbrev default_size : ℕ
default_size = 512

-- The part of mbuf_dup behind the allocation.
copy_of : Mbuf → Mbuf → Mbuf
copy_of mbd mb = record {
  size = mbd.size;
  pos = mbd.pos;
  end = mbd.end;
  buf = Option.map (λ b. blit b 0 (take mbd.size (block mbd.buf))) mb.buf;
}

-- The part of mbuf_write_mem behind the resizing.
abbrev put : Mbuf → Bytes → Mbuf
put mb src =
    let pos' = add_size mb.pos (length src) in
    record mb {
      buf = Option.map (λ b. blit b mb.pos src) mb.buf;
      pos = pos';
      end = max mb.end pos';
    }

module _ (p : Platform) where
  -- mem_alloc of src/mem/mem.c: the object behind its header.
  pub mem_alloc : ℕ → Option Bytes
  mem_alloc size = if ltb mem_size_max size then none else p.malloc size

  -- mem_realloc of src/mem/mem.c, on an object with one reference.
  pub mem_realloc : Bytes → ℕ → Option Bytes
  mem_realloc b size = if ltb mem_size_max size then none else p.realloc b size

  resized : Mbuf → ℕ → Option Bytes → ℕ × Mbuf
  resized mb size none = (enomem, mb)
  resized mb size (some b) = (0, record mb { buf = some b; size = size })

  obtain : Option Bytes → ℕ → Option Bytes
  obtain none size = mem_alloc size
  obtain (some b) size = mem_realloc b size

  pub resize : Mbuf → ℕ → ℕ × Mbuf
  unfolding resized obtain
  resize mb size = resized mb size (obtain mb.buf size)

  allocated : ℕ → Option Bytes → Option Mbuf
  allocated size none = none
  allocated size (some _) =
      let (err, mb) =
        resize (record { buf = none; size = 0; pos = 0; end = 0 })
          (if size == 0 then default_size else size) in
      if err == 0 then some mb else none

  -- sizeof(struct mbuf) is 32.
  pub alloc : ℕ → Option Mbuf
  unfolding allocated
  alloc size = allocated size (mem_alloc 32)

  pub dup : Mbuf → Option Mbuf
  unfolding copy_of
  dup mbd = Option.map (copy_of mbd) (alloc mbd.size)

  pub trim : Mbuf → Mbuf
  trim mb = if mb.end == 0 || mb.end == mb.size then mb else (resize mb mb.end).1

  -- Room for a write that ends at `rsize`; where the buffer has to grow it at least doubles.
  abbrev make_room : Mbuf → ℕ → ℕ × Mbuf
  make_room mb rsize =
      if ltb mb.size rsize
      then resize mb (max rsize (if mb.size == 0 then default_size else mb.size * 2 % 2 ^ 64))
      else (0, mb)

  pub write_mem : Mbuf → Bytes → ℕ × Mbuf
  write_mem mb src =
      let (err, mb') = make_room mb (add_size mb.pos (length src)) in
      if err == 0 then (0, put mb' src) else (err, mb')

-- Also what mbuf_reset leaves, the reference to the block dropped.
pub init : Mbuf
init = record { buf = none; size = 0; pos = 0; end = 0 }

pub get_left : Mbuf → ℕ
get_left mb = if ltb mb.pos mb.end then mb.end - mb.pos else 0

pub get_space : Mbuf → ℕ
get_space mb = if ltb mb.pos mb.size then mb.size - mb.pos else 0

-- The error, the bytes copied out, and the buffer.
pub read_mem : Mbuf → ℕ → ℕ × Bytes × Mbuf
unfolding get_left
read_mem mb size =
    if ltb (get_left mb) size
    then (eoverflow, [], mb)
    else (0, slice mb.pos size (block mb.buf), record mb { pos = add_size mb.pos size })

-- The checks MBUF_CHECK_POS and MBUF_CHECK_END break into a debugger and change nothing.
abbrev pub set_pos : Mbuf → ℕ → Mbuf
set_pos mb pos' = record mb { pos = pos' }

abbrev pub set_end : Mbuf → ℕ → Mbuf
set_end mb end' = record mb { end = end' }

abbrev pub advance : Mbuf → ℤ → Mbuf
advance mb n = record mb { pos = add_signed mb.pos n }

abbrev pub rewind : Mbuf → Mbuf
rewind mb = record mb { pos = 0; end = 0 }

abbrev pub skip_to_end : Mbuf → Mbuf
skip_to_end mb = record mb { pos = mb.end }

pub set_posend : Mbuf → ℕ → ℕ → Mbuf
set_posend mb pos' end' =
    if ltb end' pos'
    then mb
    else if ltb mb.size end'
    then mb
    else record mb { pos = pos'; end = end' }

-- err = w1; err |= w2: the second write is made whether or not the first has failed.
infixl 6 ◌|=◌
abbrev pub ◌|=◌ : ℕ × Mbuf → (Mbuf → ℕ × Mbuf) → ℕ × Mbuf
r |= w = let s = w r.1 in (bit_or r.0 s.0, s.1)
