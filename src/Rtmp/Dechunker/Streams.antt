-- ===== src/Rtmp/Dechunker/Streams.antt =====
-- The list of chunk streams: finding one, opening one, and changing one.
use re.Base.{
  ℕ, ◌≤◌, ◌≡◌, refl, ◌⊎◌, inl, inr, arith, ltb, true, false, ◌==◌, Bool-cases, none, some, List, [],
  ◌∷◌, ◌++◌, length, Bytes,
}
use re.Platform.{Platform}
use re.Mbuf.{mem_alloc}
use re.Rtmp.Header.{RtmpHeader}
use re.Rtmp.Dechunker.{Chunk, find_chunk, put_back, create_chunk, open_chunk}

pub find_chunk-put_back :
    (l : List Chunk) (id : ℕ) (c c' : Chunk)
    → find_chunk l id ≡ some c
    → c'.hdr.chunk_id ≡ id
    → find_chunk (put_back l id c') id ≡ some c'
unfolding find_chunk put_back
find_chunk-put_back [] id c c' h e = absurd cc
find_chunk-put_back (x ∷ l) id c c' h e = elim (Bool-cases (id == x.hdr.chunk_id)) [
  | inl same ↦ let yes : (id == c'.hdr.chunk_id) ≡ true = ground arith in rw (same, yes) refl
  | inr other ↦ rw (other, other) (find_chunk-put_back l id c c' (rw other at h) e)
]

pub find_chunk-append :
    (l : List Chunk) (id : ℕ) (c : Chunk)
    → find_chunk l id ≡ none
    → c.hdr.chunk_id ≡ id
    → find_chunk (l ++ c ∷ []) id ≡ some c
unfolding find_chunk
find_chunk-append [] id c h e =
    let yes : (id == c.hdr.chunk_id) ≡ true = ground arith in rw yes refl
find_chunk-append (x ∷ l) id c h e = elim (Bool-cases (id == x.hdr.chunk_id)) [
  | inl same ↦ absurd (let h' : some x ≡ none = rw same at h in cc)
  | inr other ↦ rw other (find_chunk-append l id c (rw other at h) e)
]

-- The stream of the messages is there, or can be opened.
abbrev pub CanOpen : Platform → List Chunk → ℕ → Type 0
CanOpen p l id =
    ((c : Chunk) × (find_chunk l id ≡ some c))
    ⊎ ((find_chunk l id ≡ none) × (length l ≤ 64) × ((b : Bytes) × (mem_alloc p 80 ≡ some b)))

module _ (p : Platform) where
  -- The first stream of a connection.
  pub CanOpen-nil : (id : ℕ) (b : Bytes) → mem_alloc p 80 ≡ some b → CanOpen p [] id
  unfolding find_chunk
  CanOpen-nil id b h = inr (refl, omega arith, (b, h))

  pub open_chunk_lem :
      (l : List Chunk) (hdr : RtmpHeader)
      → hdr.format ≡ 0
      → CanOpen p l hdr.chunk_id
      → (c : Chunk) × (l' : List Chunk) × (open_chunk p l hdr ≡ (0, some c, l'))
        × (find_chunk l' hdr.chunk_id ≡ some c)
  unfolding open_chunk create_chunk
  open_chunk_lem l hdr hf (inl (c, found)) = (c, l, rw (open_chunk, found) refl, found)
  open_chunk_lem l hdr hf (inr (absent, few, (b, room))) =
      let zero_format : (hdr.format == 0) ≡ true = ground arith in
      let few' : ltb 64 (length l) ≡ false = ground arith in
      (
        record { hdr = hdr; mb = none },
        l ++ record { hdr = hdr; mb = none } ∷ [],
        rw (open_chunk, absent, zero_format, few', room) refl,
        find_chunk-append l hdr.chunk_id _ absent refl,
      )
