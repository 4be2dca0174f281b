-- ===== src/Mbuf/RoundTrip.antt =====
-- mbuf_read_mem on what mbuf_write_mem wrote, with the position set back.
use re.Base.{
  ℕ, ◌+◌, ◌≤◌, ◌<◌, ◌^◌, ◌≡◌, ap, ◌∙◌, inl, inr, arith, length, drop, Bytes, ◌++◌, length-take,
  drop-splice,
}
use re.Platform.{Platform}
use re.Mbuf.{Mbuf, block, set_pos, write_mem, read_mem}
use re.Mbuf.Valid.{IsValid, contents}
use re.Mbuf.Write.{Appended, Wrote, write_mem_lem}
use re.Mbuf.Read.{Holds, ahead, read_mem-append}

pos-le-length : {mb : Mbuf} → IsValid mb → mb.pos ≤ length (contents mb)
pos-le-length {mb} v =
    omega (arith, length-take mb.end (block mb.buf), v.block_length, v.pos_le, v.end_le)

pub set_pos-Holds :
    (mb mb' : Mbuf) (src : Bytes)
    → IsValid mb
    → IsValid mb'
    → Appended mb src mb'
    → Holds (set_pos mb' mb.pos) (src ++ drop (mb.pos + length src) (contents mb))
set_pos-Holds mb mb' src v v' w = record {
  valid = record {
    block_length = v'.block_length;
    pos_le = omega (arith, w.pos_eq, v'.pos_le);
    end_le = v'.end_le;
    small = v'.small;
  };
  left = ap (drop mb.pos) w.contents_eq ∙ drop-splice (contents mb) mb.pos src (pos-le-length v);
}

-- The success of a write, taken out of its two outcomes.
pub Wrote-done :
    (mb : Mbuf) (src : Bytes) (r : ℕ × Mbuf) → Wrote mb src r → r.0 ≡ 0 → Appended mb src r.1
Wrote-done mb src r (v, inl (e, w)) h = w
Wrote-done mb src r (v, inr (ne, lt)) h = absurd (ne h)

module _ (p : Platform) where
  -- On a well-formed buffer, where a write of fewer than 2^63 bytes succeeds and the position is
  -- set back, mbuf_read_mem of as many bytes succeeds, gives the bytes written and moves the
  -- position behind them.
  pub read_mem-write_mem :
      (mb : Mbuf) (src : Bytes)
      → IsValid mb
      → length src < 2 ^ 63
      → (write_mem p mb src).0 ≡ 0
      → let back = set_pos (write_mem p mb src).1 mb.pos in
        read_mem back (length src) ≡ (0, src, ahead back (length src))
  read_mem-write_mem mb src v h e =
      let w = write_mem_lem p mb src v h in
      read_mem-append src _ (set_pos-Holds mb _ src v w.0 (Wrote-done mb src _ w e))
