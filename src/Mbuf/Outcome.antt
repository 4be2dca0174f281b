-- ===== src/Mbuf/Outcome.antt =====
-- When a write succeeds, and a write of nothing.
use re.Base.{
  ℕ, ◌+◌, ◌≤◌, ◌≡◌, ◌≢◌, ◌<◌, ◌^◌, ◌==◌, if◌then◌else◌, refl, sym, inl, inr, arith, [], length,
  Bytes, length-take, splice-nil,
}
use re.Mbuf.{Mbuf, block, put, write_mem, add_size}
use re.Mbuf.Valid.{IsValid, contents}
use re.Platform.{Platform}
use re.Mbuf.Write.{Wrote, RoomResult, make_room_lem}

-- A write that fits the block succeeds.
pub Wrote-fits :
    (mb : Mbuf) (src : Bytes) (r : ℕ × Mbuf)
    → Wrote mb src r
    → mb.pos + length src ≤ mb.size
    → r.0 ≡ 0
Wrote-fits mb src r (v, inl (e, w)) h = e
Wrote-fits mb src r (v, inr (ne, lt)) h = absurd (omega arith)

pub Wrote-nil : (mb : Mbuf) → IsValid mb → Wrote mb [] (0, mb)
Wrote-nil mb v =
    let inside : mb.pos ≤ length (contents mb) =
      omega (arith, length-take mb.end (block mb.buf), v.block_length, v.pos_le, v.end_le) in
    (
      v,
      inl (
        refl,
        record {
          pos_eq = omega arith;
          contents_eq = sym (splice-nil (contents mb) mb.pos inside);
          grows = omega arith;
        },
      ),
    )

kept_result :
    (mb : Mbuf) (src : Bytes) (n : ℕ) (r : ℕ × Mbuf)
    → RoomResult mb n r
    → let w : ℕ × Mbuf = if r.0 == 0 then (0, put r.1 src) else (r.0, r.1) in w.0 ≢ 0 → w.1 ≡ mb
kept_result mb src n r (inl (e, room)) = rw e (λ ne. absurd (ne refl))
kept_result mb src n r (inr (e, same, lt)) = rw (e, same) (λ ne. refl)

-- A write that fails leaves the buffer as it was.
pub write_mem_fails :
    (p : Platform) (mb : Mbuf) (src : Bytes)
    → IsValid mb
    → length src < 2 ^ 63
    → (write_mem p mb src).0 ≢ 0
    → (write_mem p mb src).1 ≡ mb
unfolding write_mem
write_mem_fails p mb src v h =
    let e : add_size mb.pos (length src) ≡ mb.pos + length src = omega arith in
    rw e (kept_result mb src _ _ (make_room_lem p mb (mb.pos + length src) v))
