-- ===== src/Mbuf/Write.antt =====
-- mbuf_write_mem as a write to an unbounded buffer, and sequences of such writes.
use re.Base.{
  ℕ, ◌+◌, ◌^◌, ◌≤◌, ◌<◌, min, ◌≡◌, ◌≢◌, refl, sym, ap, ◌∙◌, ◌⊎◌, inl, inr, Option, none, some,
  Bool-cases, ltb→lt, ltb→le, arith, length, take, blit, splice, Bytes, ltb, if◌then◌else◌, ◌==◌,
  enomem, ◌++◌, bit_or, bit_or_eq_zero, bit_or-zero_left, false, length-append, length-blit,
  take-blit, splice-splice, take-take, length-take,
}
use mathlib.Core.Option
use re.Platform.{Platform}
use re.Mbuf.{Mbuf, ◌|=◌, block, add_size, make_room, put, write_mem}
use re.Mbuf.Valid.{IsValid, contents, Resized, ResizeResult, resize_lem}

-- `mb'` is `mb` with `src` written at its position: over what was there, and past the end.
pub record Appended (mb : Mbuf) (src : Bytes) (mb' : Mbuf) : Type 0 where
  pub pos_eq : mb'.pos ≡ mb.pos + length src
  pub contents_eq : contents mb' ≡ splice (contents mb) mb.pos src
  pub grows : mb.size ≤ mb'.size

-- Either the write succeeds, or it fails for want of memory, which can happen only where the block
-- had to grow.
abbrev pub Wrote : Mbuf → Bytes → ℕ × Mbuf → Type 0
Wrote mb src r =
    IsValid r.1
    × (((r.0 ≡ 0) × Appended mb src r.1) ⊎ ((r.0 ≢ 0) × (mb.size < mb.pos + length src)))

-- Enough room, reached with the contents kept.
pub record HasRoom (mb : Mbuf) (n : ℕ) (mb' : Mbuf) : Type 0 where
  pub block_length : length (block mb'.buf) ≡ mb'.size
  pub fits : n ≤ mb'.size
  pub grows : mb.size ≤ mb'.size
  pub small : mb'.size < 2 ^ 63
  pub pos_eq : mb'.pos ≡ mb.pos
  pub end_eq : mb'.end ≡ mb.end
  pub contents_eq : contents mb' ≡ contents mb

abbrev pub RoomResult : Mbuf → ℕ → ℕ × Mbuf → Type 0
RoomResult mb n r = ((r.0 ≡ 0) × HasRoom mb n r.1) ⊎ ((r.0 ≡ enomem) × (r.1 ≡ mb) × (mb.size < n))

grown :
    (mb : Mbuf) (n m : ℕ) (mb' : Mbuf)
    → IsValid mb
    → mb.size < n
    → n ≤ m
    → Resized mb m mb'
    → HasRoom mb n mb'
grown mb n m mb' v lt le r = record {
  block_length = r.length_eq ∙ sym r.size_eq;
  fits = omega (arith, r.size_eq);
  grows = omega (arith, r.size_eq);
  small = omega (arith, r.size_eq, r.below);
  pos_eq = r.pos_eq;
  end_eq = r.end_eq;
  contents_eq =
      let k = min mb.size m in
      let h : mb.end ≤ k = omega arith in
      ap (λ e. take e (block mb'.buf)) r.end_eq
      ∙ sym (take-take mb.end k (block mb'.buf) h)
      ∙ ap (take mb.end) r.keeps
      ∙ take-take mb.end k (block mb.buf) h;
}

pub kept_room : (mb : Mbuf) (n : ℕ) → IsValid mb → n ≤ mb.size → HasRoom mb n mb
kept_room mb n v le = record {
  block_length = v.block_length;
  fits = le;
  grows = omega arith;
  small = v.small;
  pos_eq = refl;
  end_eq = refl;
  contents_eq = refl;
}

pub room_of_resize :
    (mb : Mbuf) (n m : ℕ) (r : ℕ × Mbuf)
    → IsValid mb
    → mb.size < n
    → n ≤ m
    → ResizeResult mb m r
    → RoomResult mb n r
room_of_resize mb n m r v lt le (inl (e, q)) = inl (e, grown mb n m r.1 v lt le q)
room_of_resize mb n m r v lt le (inr (e, q)) = inr (e, q, lt)

pub block-map-blit :
    (o : Option Bytes) (i : ℕ) (src : Bytes)
    → block (Option.map (λ b. blit b i src) o) ≡ blit (block o) i src
block-map-blit none i src = refl
block-map-blit (some b) i src = refl

module _ (mb mb' : Mbuf) (src : Bytes) (v : IsValid mb)
    (room : HasRoom mb (mb.pos + length src) mb') where
  next_pos : add_size mb'.pos (length src) ≡ mb.pos + length src
  next_pos = omega (arith, room.pos_eq, room.fits, room.small)

  put-contents : contents (put mb' src) ≡ splice (contents mb) mb.pos src
  put-contents =
      ap (take (put mb' src).end) (block-map-blit mb'.buf mb'.pos src)
      ∙ take-blit (block mb'.buf) src mb'.pos mb'.end (put mb' src).end
          (omega (arith, room.fits, room.block_length, room.pos_eq))
          (omega (arith, room.pos_eq, room.end_eq)) (omega (arith, next_pos, room.pos_eq))
      ∙ ap (λ q. splice (contents mb') q src) room.pos_eq
      ∙ ap (λ c. splice c mb.pos src) room.contents_eq

  put-IsValid : IsValid (put mb' src)
  put-IsValid = record {
    block_length =
        ap length (block-map-blit mb'.buf mb'.pos src)
        ∙ length-blit (block mb'.buf) mb'.pos src
        ∙ room.block_length;
    pos_le = omega arith;
    end_le = omega (arith, next_pos, room.fits, room.end_eq, room.grows);
    small = room.small;
  }

  put-Appended : Appended mb src (put mb' src)
  put-Appended = record { pos_eq = next_pos; contents_eq = put-contents; grows = room.grows }

put_result :
    (mb : Mbuf) (src : Bytes) (r : ℕ × Mbuf)
    → IsValid mb
    → RoomResult mb (mb.pos + length src) r
    → Wrote mb src (if r.0 == 0 then (0, put r.1 src) else (r.0, r.1))
put_result mb src r v (inl (e, room)) =
    rw e (put-IsValid mb r.1 src v room, inl (refl, put-Appended mb r.1 src v room))
put_result mb src r v (inr (e, same, lt)) = rw (e, same) (v, inr (omega arith, lt))

module _ (p : Platform) where
  pub make_room_lem : (mb : Mbuf) (n : ℕ) → IsValid mb → RoomResult mb n (make_room p mb n)
  make_room_lem mb n v = elim (Bool-cases (ltb mb.size n)) [
    | inl lt ↦
        rw lt (
          room_of_resize mb n _ _ v (ltb→lt _ _ lt) (omega arith)
            (resize_lem p mb _ v.block_length))
    | inr ge ↦ rw ge (inl (refl, kept_room mb n v (ltb→le _ _ ge)))
  ]

  -- On a well-formed buffer, mbuf_write_mem of fewer than 2^63 bytes leaves a well-formed buffer,
  -- and either it succeeds, the contents then being the old ones with the bytes put over them at
  -- the position and past the end, the position behind them and the block no smaller, or it
  -- reports an error, which happens only where the block had to grow.
  pub write_mem_lem :
      (mb : Mbuf) (src : Bytes)
      → IsValid mb
      → length src < 2 ^ 63
      → Wrote mb src (write_mem p mb src)
  unfolding write_mem
  write_mem_lem mb src v h =
      let e : add_size mb.pos (length src) ≡ mb.pos + length src = omega arith in
      rw e (put_result mb src _ v (make_room_lem mb (mb.pos + length src) v))

bit_or_ne_zero : (a b : ℕ) → (a ≢ 0) ⊎ (b ≢ 0) → bit_or a b ≢ 0
bit_or_ne_zero a b (inl h) e = h (bit_or_eq_zero a b e).0
bit_or_ne_zero a b (inr h) e = h (bit_or_eq_zero a b e).1

Appended-append :
    (mb m1 m2 : Mbuf) (a b : Bytes)
    → IsValid mb
    → Appended mb a m1
    → Appended m1 b m2
    → Appended mb (a ++ b) m2
Appended-append mb m1 m2 a b v w1 w2 = record {
  pos_eq = omega (arith, w1.pos_eq, w2.pos_eq, length-append a b);
  contents_eq =
      w2.contents_eq
      ∙ ap (λ c. splice c m1.pos b) w1.contents_eq
      ∙ ap (λ q. splice (splice (contents mb) mb.pos a) q b) w1.pos_eq
      ∙ splice-splice (contents mb) mb.pos a b
          (omega (arith, length-take mb.end (block mb.buf), v.block_length, v.pos_le, v.end_le));
  grows = omega (arith, w1.grows, w2.grows);
}

Wrote-seq :
    (mb : Mbuf) (a b : Bytes) (r s : ℕ × Mbuf)
    → IsValid mb
    → Wrote mb a r
    → Wrote r.1 b s
    → Wrote mb (a ++ b) (bit_or r.0 s.0, s.1)
Wrote-seq mb a b r s v (v1, inl (e1, w1)) (v2, inl (e2, w2)) =
    (v2, inl (rw (e1, e2), Appended-append mb r.1 s.1 a b v w1 w2))
Wrote-seq mb a b r s v (v1, inl (e1, w1)) (v2, inr (e2, lt)) = (
  v2,
  inr (bit_or_ne_zero r.0 s.0 (inr e2), omega (arith, length-append a b, w1.pos_eq, w1.grows)),
)
Wrote-seq mb a b r s v (v1, inr (e1, lt)) (v2, o2) =
    (v2, inr (bit_or_ne_zero r.0 s.0 (inl e1), omega (arith, length-append a b)))

-- Two writes in a row are one write of both.
pub Wrote-|= :
    (mb : Mbuf) (a b : Bytes) (r : ℕ × Mbuf) (w : Mbuf → ℕ × Mbuf)
    → IsValid mb
    → Wrote mb a r
    → ((m : Mbuf) → IsValid m → Wrote m b (w m))
    → Wrote mb (a ++ b) (r |= w)
Wrote-|= mb a b r w v w1 f = Wrote-seq mb a b r (w r.1) v w1 (f r.1 w1.0)

-- A second write that is made only if the first has not failed.
pub Wrote-then :
    (mb : Mbuf) (a b : Bytes) (r : ℕ × Mbuf) (w : Mbuf → ℕ × Mbuf)
    → IsValid mb
    → Wrote mb a r
    → ((m : Mbuf) → IsValid m → Wrote m b (w m))
    → Wrote mb (a ++ b) (if r.0 == 0 then w r.1 else r)
Wrote-then mb a b r w v (v1, inl (e1, w1)) f =
    let then_both : bit_or r.0 (w r.1).0 ≡ (w r.1).0 = rw (e1, bit_or-zero_left) in
    rw e1 (rw then_both at (Wrote-seq mb a b r (w r.1) v (v1, inl (e1, w1)) (f r.1 v1)))
Wrote-then mb a b r w v (v1, inr (e1, lt)) f =
    let failed : (r.0 == 0) ≡ false = ground arith in
    rw failed (v1, inr (e1, omega (arith, length-append a b)))
