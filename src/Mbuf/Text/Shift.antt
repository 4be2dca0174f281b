-- ===== src/Mbuf/Text/Shift.antt =====
-- mbuf_shift on a well-formed buffer.
use re.Base.{
  ℕ, suc, ◌-◌, ◌^◌, ◌≤◌, ◌<◌, ◌≡◌, refl, sym, ap, ◌∙◌, ◌⊎◌, inl, inr, arith, Bool-cases, length,
  drop, slice, blit, Bytes, ltb, if◌then◌else◌, ◌==◌, erange, enomem, false, ℤ, length-take,
  length-drop, length-blit, slice-blit, drop-take, le→ltb, lt→ltb, ltb→lt, ltb→le,
}
use re.Platform.{Platform}
use re.Mbuf.{Mbuf, block, add_signed, get_left, resize}
use re.Mbuf.Valid.{IsValid, contents, left_bytes, resize_lem}
use re.Mbuf.Write.{HasRoom, RoomResult, kept_room, room_of_resize, block-map-blit}
use re.Mbuf.Text.{shift, moved, is_negative}

module _ (m : Mbuf) (s : ℤ) (to e : ℕ) (v : IsValid m) (to_eq : add_signed m.pos s ≡ to)
    (e_eq : add_signed m.end s ≡ e) (span : e - to ≡ m.end - m.pos) (to_le : to ≤ e)
    (e_le : e ≤ m.size) where
  part : Bytes
  part = slice m.pos (get_left m) (block m.buf)

  part-left_bytes : part ≡ left_bytes m
  unfolding part
  part-left_bytes =
      let l : get_left m ≡ m.end - m.pos = unfold get_left in ground (arith, v) in
      ap (λ n. slice m.pos n (block m.buf)) l ∙ sym (drop-take m.pos m.end (block m.buf))

  length-part : length part ≡ e - to
  length-part = omega (
    arith,
    ap length part-left_bytes,
    length-drop m.pos (contents m),
    length-take m.end (block m.buf),
    v.block_length,
    v.pos_le,
    v.end_le,
  )

  moved-IsValid : IsValid (moved m s)
  unfolding part
  moved-IsValid = record {
    block_length =
        ap length (block-map-blit m.buf (add_signed m.pos s) part)
        ∙ length-blit (block m.buf) (add_signed m.pos s) part
        ∙ v.block_length;
    pos_le = rw (to_eq, e_eq) to_le;
    end_le = rw e_eq e_le;
    small = v.small;
  }

  moved-left_bytes : left_bytes (moved m s) ≡ left_bytes m
  unfolding part
  moved-left_bytes =
      let b = block m.buf in
      rw (block-map-blit m.buf (add_signed m.pos s) part, to_eq, e_eq)
        (drop-take to e (blit b to part)
          ∙ ap (λ n. slice to n (blit b to part)) (sym length-part)
          ∙ slice-blit b to part (omega (arith, length-part, v.block_length))
          ∙ part-left_bytes)

-- What mbuf_shift promises: the bytes left are the same, and stand `s` places further on.
pub record Shifted (mb : Mbuf) (s : ℤ) (mb' : Mbuf) : Type 0 where
  pub valid : IsValid mb'
  pub left_eq : left_bytes mb' ≡ left_bytes mb
  pub pos_eq : mb'.pos ≡ add_signed mb.pos s
  pub end_eq : mb'.end ≡ add_signed mb.end s

HasRoom-IsValid : (mb m : Mbuf) (n : ℕ) → IsValid mb → HasRoom mb n m → IsValid m
HasRoom-IsValid mb m n v r = record {
  block_length = r.block_length;
  pos_le = omega (arith, r.pos_eq, r.end_eq);
  end_le = omega (arith, r.end_eq, r.grows);
  small = r.small;
}

module _ (mb : Mbuf) (s : ℤ) (v : IsValid mb) (to_le : add_signed mb.pos s ≤ add_signed mb.end s)
    (span : add_signed mb.end s - add_signed mb.pos s ≡ mb.end - mb.pos) where
  moved-Shifted : (m : Mbuf) → HasRoom mb (add_signed mb.end s) m → Shifted mb s (moved m s)
  moved-Shifted m r =
      let to = add_signed mb.pos s in
      let e = add_signed mb.end s in
      let vm = HasRoom-IsValid mb m e v r in
      let to_eq : add_signed m.pos s ≡ to = ap (λ q. add_signed q s) r.pos_eq in
      let e_eq : add_signed m.end s ≡ e = ap (λ q. add_signed q s) r.end_eq in
      let span' : e - to ≡ m.end - m.pos = omega (arith, r.pos_eq, r.end_eq) in
      record {
        valid = moved-IsValid m s to e vm to_eq e_eq span' to_le r.fits;
        left_eq =
            moved-left_bytes m s to e vm to_eq e_eq span' to_le r.fits
            ∙ ap (drop m.pos) r.contents_eq
            ∙ ap (λ q. drop q (contents mb)) r.pos_eq;
        pos_eq = to_eq;
        end_eq = e_eq;
      }

-- Either the contents have moved, or memory ran out with nothing changed, which can happen only
-- where the block had to grow.
abbrev pub ShiftResult : Mbuf → ℤ → ℕ × Mbuf → Type 0
ShiftResult mb s r =
    ((r.0 ≡ 0) × Shifted mb s r.1) ⊎ ((r.0 ≡ enomem) × (r.1 ≡ mb) × (mb.size < add_signed mb.end s))

move_result : ℤ → ℕ × Mbuf → ℕ × Mbuf
move_result s r = if r.0 == 0 then (0, moved r.1 s) else (r.0, r.1)

module _ (mb : Mbuf) (s : ℤ) (v : IsValid mb) (to_le : add_signed mb.pos s ≤ add_signed mb.end s)
    (span : add_signed mb.end s - add_signed mb.pos s ≡ mb.end - mb.pos) where
  move_result_lem :
      (r : ℕ × Mbuf) → RoomResult mb (add_signed mb.end s) r → ShiftResult mb s (move_result s r)
  unfolding move_result
  move_result_lem r (inl (e, room)) = rw e (inl (refl, moved-Shifted mb s v to_le span r.1 room))
  move_result_lem r (inr (e, same, lt)) = rw (e, same) (inr (refl, refl, lt))

  resized_room :
      (p : Platform)
      → let n = add_signed mb.end s in
        RoomResult mb n (if ltb mb.size n then resize p mb n else (0, mb))
  resized_room p =
      let n = add_signed mb.end s in
      elim (Bool-cases (ltb mb.size n)) [
        | inl lt ↦ rw lt (
            room_of_resize mb n n _ v (ltb→lt _ _ lt) (omega arith)
              (resize_lem p mb n v.block_length))
        | inr ge ↦ rw ge (inl (refl, kept_room mb n v (ltb→le _ _ ge)))
      ]

abbrev pub FitsSsize : ℤ → Type 0
FitsSsize (ℤ.pos k) = k < 2 ^ 63
FitsSsize (ℤ.negsuc k) = k < 2 ^ 63

module _ (p : Platform) where
  -- On a well-formed buffer and for a shift that fits an ssize_t and does not take the position
  -- below 0, mbuf_shift either succeeds with the same bytes left to read and the position and end
  -- moved by the shift, in a well-formed buffer, or reports ENOMEM with nothing changed, which
  -- happens only where the block had to grow.
  pub shift_lem :
      (mb : Mbuf) (s : ℤ)
      → IsValid mb
      → FitsSsize s
      → is_negative mb.pos s ≡ false
      → ShiftResult mb s (shift p mb s)
  unfolding shift move_result
  shift_lem mb (ℤ.pos k) v f h =
      let s = ℤ.pos k in
      move_result_lem mb s v (omega arith) (omega arith) _
        (resized_room mb s v (omega arith) (omega arith) p)
  shift_lem mb (ℤ.negsuc k) v f h =
      let s = ℤ.negsuc k in
      let ge : suc k ≤ mb.pos = ltb→le _ _ h in
      let h' : ltb mb.end (suc k) ≡ false = le→ltb _ _ (omega arith) in
      rw (h, h')
        (move_result_lem mb s v (omega arith) (omega arith) _
          (resized_room mb s v (omega arith) (omega arith) p))

  -- A negative shift by more than the position is refused with ERANGE and changes nothing.
  pub shift_below_start : (mb : Mbuf) (k : ℕ) → mb.pos ≤ k → shift p mb (ℤ.negsuc k) ≡ (erange, mb)
  unfolding shift
  shift_below_start mb k h = rw (lt→ltb mb.pos (suc k) (omega arith))
