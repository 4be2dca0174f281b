-- ===== src/Mbuf/Valid.antt =====
-- What a buffer holds, when it is well formed, and what resizing keeps of it.
use re.Base.{
  ℕ, ◌^◌, ◌≤◌, ◌<◌, min, ◌≡◌, refl, ◌⊎◌, inl, inr, Option, none, some, arith, length, take, drop,
  Bytes, enomem,
}
use re.Platform.{Platform}
use re.Mbuf.{Mbuf, block, mem_alloc, mem_realloc, resized, obtain, resize}

-- `pos` and `end` lie inside the block, and no sum of two offsets wraps.
pub record IsValid (mb : Mbuf) : Type 0 where
  pub block_length : length (block mb.buf) ≡ mb.size
  pub pos_le : mb.pos ≤ mb.end
  pub end_le : mb.end ≤ mb.size
  pub small : mb.size < 2 ^ 63

-- The bytes up to `end`, and those of them from `pos` on.
abbrev pub contents : Mbuf → Bytes
contents mb = take mb.end (block mb.buf)

abbrev pub left_bytes : Mbuf → Bytes
left_bytes mb = drop mb.pos (contents mb)

module _ (p : Platform) where
  mem_alloc-length : (n : ℕ) (b : Bytes) → mem_alloc p n ≡ some b → (length b ≡ n) × (n < 2 ^ 32)
  unfolding mem_alloc
  mem_alloc-length n b h = ground (arith, p.malloc_length n b)

  mem_realloc_keeps :
      (b : Bytes) (n : ℕ) (c : Bytes)
      → mem_realloc p b n ≡ some c
      → (length c ≡ n) × (n < 2 ^ 32) × (take (min (length b) n) c ≡ take (min (length b) n) b)
  unfolding mem_realloc
  mem_realloc_keeps b n c h = ground (arith, p.realloc_length b n c, p.realloc_keeps b n c)

  obtain_keeps :
      (o : Option Bytes) (n : ℕ) (c : Bytes)
      → obtain p o n ≡ some c
      → (length c ≡ n)
        × (n < 2 ^ 32)
        × (take (min (length (block o)) n) c ≡ take (min (length (block o)) n) (block o))
  unfolding obtain
  obtain_keeps none n c h =
      let (l, b) = mem_alloc-length n c h in let e : min 0 n ≡ 0 = omega arith in (l, b, rw e)
  obtain_keeps (some b) n c h = mem_realloc_keeps b n c h

-- `mb'` is `mb` with a block of `n` bytes that keeps the bytes up to the smaller size.
pub record Resized (mb : Mbuf) (n : ℕ) (mb' : Mbuf) : Type 0 where
  pub size_eq : mb'.size ≡ n
  pub length_eq : length (block mb'.buf) ≡ n
  pub pos_eq : mb'.pos ≡ mb.pos
  pub end_eq : mb'.end ≡ mb.end
  pub keeps : take (min mb.size n) (block mb'.buf) ≡ take (min mb.size n) (block mb.buf)
  pub below : n < 2 ^ 32

abbrev pub ResizeResult : Mbuf → ℕ → ℕ × Mbuf → Type 0
ResizeResult mb n r = ((r.0 ≡ 0) × Resized mb n r.1) ⊎ ((r.0 ≡ enomem) × (r.1 ≡ mb))

module _ (p : Platform) where
  resized_lem :
      (mb : Mbuf) (n : ℕ) (o : Option Bytes)
      → length (block mb.buf) ≡ mb.size
      → obtain p mb.buf n ≡ o
      → ResizeResult mb n (resized p mb n o)
  unfolding resized
  resized_lem mb n none e h = inr (refl, refl)
  resized_lem mb n (some c) e h =
      let (l, b, k) = obtain_keeps p mb.buf n c h in
      inl (
        refl,
        record {
          size_eq = refl;
          length_eq = l;
          pos_eq = refl;
          end_eq = refl;
          keeps = rw e at k;
          below = b;
        },
      )

  pub resize_lem :
      (mb : Mbuf) (n : ℕ) → length (block mb.buf) ≡ mb.size → ResizeResult mb n (resize p mb n)
  unfolding resize
  resize_lem mb n e = resized_lem mb n (obtain p mb.buf n) e refl
