-- ===== src/Dns/Dname/Bound.antt =====
-- The rounds of dns_dname_decode: the buffer on the stack, the limit on pointers, and the end.
use re.Base.{
  ℕ, zero, suc, ◌+◌, ◌-◌, ◌≤◌, ◌<◌, ◌^◌, ◌%◌, ◌≡◌, ◌≢◌, refl, sym, ap, subst, ◌∙◌, arith, false,
  if◌then◌else◌, ◌==◌, ltb, bit_and, none, some, List, [], ◌∷◌, ◌++◌, length, drop, slice, get_or,
  length-append, length-take, length-drop, ℤ, Bool-cases, inl, inr,
}
use re.Platform.{Platform}
use re.Mbuf.{Mbuf, block, get_left, add_size, add_signed}
use re.Mbuf.Read.{get_left_room}
use re.Mbuf.Valid.{IsValid}
use re.Mbuf.Words.{read_u16_frame}
use re.Dns.Dname.{
  Walk, Round, copy_label, jump, round, walk, begin, dname_decode, comp_mask, comp_loop, buf_size,
}

-- The buffer on the stack has room for one byte more, at most 256 pointers were followed, and the
-- bytes up to `end` lie in the block.
pub record Safe (w : Walk) : Type 0 where
  pub room : length w.buf < 256
  pub loops : w.loopc ≤ 256
  pub block_length : length (block w.mb.buf) ≡ w.mb.size
  pub end_le : w.mb.end ≤ w.mb.size
  pub small : w.mb.size < 2 ^ 63

-- The number of rounds left at most.
abbrev pub left : Walk → ℕ
left w = (255 - length w.buf) + (256 - w.loopc)

pub length-slice : (i n : ℕ) (b : List ℕ) → i + n ≤ length b → length (slice i n b) ≡ n
length-slice i n b h = omega (arith, length-take n (drop i b), length-drop i b)

-- A label that fits the block is copied whole.
length-copy_label :
    (w : Walk) (m : Mbuf) (len : ℕ)
    → m.pos + len ≤ length (block m.buf)
    → (length (copy_label w m len).buf ≤ length w.buf + len + 1)
      × (length w.buf + len ≤ length (copy_label w m len).buf)
unfolding copy_label
length-copy_label w m len h =
    let sep = if ltb 0 (length w.buf) then b'.' ∷ [] else [] in
    let part = length-slice m.pos len (block m.buf) h in
    let whole = length-append (w.buf ++ sep) (slice m.pos len (block m.buf)) in
    let front = length-append w.buf sep in
    let short : length sep ≤ 1 = ground arith in omega (arith, part, whole, front, short)

copy_label_bound :
    (w : Walk) (m : Mbuf) (len : ℕ)
    → Safe w
    → m.buf ≡ w.mb.buf
    → m.size ≡ w.mb.size
    → m.end ≡ w.mb.end
    → 0 < len
    → len + length w.buf + 2 ≤ 256
    → m.pos + len ≤ m.end
    → Safe (copy_label w m len) × (left (copy_label w m len) < left w)
unfolding copy_label
copy_label_bound w m len v eb es ee h1 h2 h3 =
    let inside : m.pos + len ≤ length (block m.buf) =
      omega (arith, v.block_length, v.end_le, es, ee, ap (λ b. length (block b)) eb) in
    let (up, down) = length-copy_label w m len inside in
    (
      record {
        room = omega arith;
        loops = v.loops;
        block_length = ap (λ b. length (block b)) eb ∙ v.block_length ∙ sym es;
        end_le = omega (arith, v.end_le);
        small = omega (arith, v.small);
      },
      omega (arith, v.room),
    )

pub small_sum :
    (len n : ℕ)
    → len < 256
    → n < 256
    → ltb buf_size ((len + n + 2) % 2 ^ 32) ≡ false
    → len + n + 2 ≤ 256
small_sum len n h k fits = ground arith

-- The round ends, or goes on within the bounds and with fewer rounds left.
abbrev pub Bounded : Walk → Round → Type 0
Bounded w (Round.done r) = Unit
Bounded w (Round.again w') = Safe w' × (left w' < left w)

module _ (p : Platform) (start : ℕ) where
  jump_bound :
      (w : Walk) (m : Mbuf)
      → Safe w
      → m.buf ≡ w.mb.buf
      → m.size ≡ w.mb.size
      → m.end ≡ w.mb.end
      → Bounded w (jump p start w m)
  unfolding jump
  jump_bound w m v eb es ee =
      let m1 = record m { pos = add_signed m.pos (ℤ.negsuc 0) } in
      let (fb, fs, fe) = read_u16_frame p m1 in
      elim (Bool-cases (ltb comp_loop w.loopc)) [
        | inl many ↦ rw many tt
        | inr few ↦ elim (Bool-cases (ltb (get_left m1) 2)) [
          | inl short ↦ rw (few, short) tt
          | inr long ↦
              rw (few, long)
                (
                  record {
                    room = v.room;
                    loops = ground arith;
                    block_length =
                        ap (λ b. length (block b)) (fb ∙ eb) ∙ v.block_length ∙ sym (fs ∙ es);
                    end_le = omega (arith, v.end_le, fe, ee, fs, es);
                    small = omega (arith, v.small, fs, es);
                  },
                  ground (arith, v.loops),
                )
        ]
      ]

  pub round_bound : (w : Walk) → Safe w → Bounded w (round p start w)
  unfolding round
  round_bound w v =
      let len = get_or (block w.mb.buf) w.mb.pos 0 % 2 ^ 8 in
      let m = record w.mb { pos = add_size w.mb.pos 1 } in
      elim (Bool-cases (ltb w.mb.pos w.mb.end)) [
        | inr out ↦ rw out tt
        | inl more ↦ elim (Bool-cases (len == 0)) [
          | inl root ↦ rw (more, root) tt
          | inr some_len ↦ elim (Bool-cases (bit_and len comp_mask == comp_mask)) [
            | inl ptr ↦ rw (more, some_len, ptr) (jump_bound w m v refl refl refl)
            | inr label ↦ elim (Bool-cases (ltb (get_left m) len)) [
              | inl short ↦ rw (more, some_len, label, short) tt
              | inr whole ↦ elim (Bool-cases (ltb buf_size ((len + length w.buf + 2) % 2 ^ 32))) [
                | inl large ↦ rw (more, some_len, label, whole, large) tt
                | inr fits ↦
                    rw (more, some_len, label, whole, fits)
                      (let pos_len : 0 < len = ground (arith, some_len) in
                        let inside = get_left_room m len pos_len whole in
                        copy_label_bound w m len v refl refl refl pos_len
                          (small_sum len (length w.buf) (omega arith) v.room fits) inside)
              ]
            ]
          ]
        ]
      ]

  walk_ends : (fuel : ℕ) (w : Walk) → Safe w → left w < fuel → walk p start fuel w ≢ none
  unfolding walk
  walk_ends zero w v h = absurd (omega arith)
  walk_ends (suc fuel) w v h = ends (round p start w) (round_bound w v) (walk_ends fuel)
    where
      ends :
          (r : Round)
          → Bounded w r
          → ((w' : Walk) → Safe w' → left w' < fuel → walk p start fuel w' ≢ none)
          → elim r [ Round.done r ↦ some r | Round.again w' ↦ walk p start fuel w' ] ≢ none
      ends (Round.done r) b f k = cc
      ends (Round.again w') (v', less) f k = f w' v' (omega arith) k

  -- The state at the head of a round of the loop, from `w0` on.
  pub data Reached (w0 : Walk) : Walk → Type 0 where
    started : Reached w0 w0
    further : {w w' : Walk} → Reached w0 w → round p start w ≡ Round.again w' → Reached w0 w'

  pub Reached-Safe : {w0 w : Walk} → Safe w0 → Reached w0 w → Safe w
  Reached-Safe v started = v
  Reached-Safe v (further {w} r h) = (subst (Bounded w) h (round_bound w (Reached-Safe v r))).0

  pub begin-Safe : (mb : Mbuf) → IsValid mb → Safe (begin mb)
  begin-Safe mb v = record {
    room = omega arith;
    loops = omega arith;
    block_length = v.block_length;
    end_le = v.end_le;
    small = v.small;
  }

  -- On any well-formed buffer, whatever its bytes and pointers, the loop of dns_dname_decode ends
  -- within 512 rounds, and at the head of each round at most 255 of the 256 bytes on the stack are
  -- written and at most 256 pointers were followed.
  pub dname_decode_bounds :
      (mb : Mbuf)
      → IsValid mb
      → (dname_decode p start mb ≢ none) × ((w : Walk) → Reached (begin mb) w → Safe w)
  unfolding dname_decode
  dname_decode_bounds mb v =
      let safe = begin-Safe mb v in
      (walk_ends 512 (begin mb) safe (omega arith), λ w r. Reached-Safe safe r)
