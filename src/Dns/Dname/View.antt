-- ===== src/Dns/Dname/View.antt =====
-- What a round of dns_dname_decode finds at the position.
use re.Base.{
  ℕ, zero, suc, ◌+◌, ◌-◌, ◌≤◌, ◌<◌, ◌^◌, ◌%◌, ◌≡◌, refl, ap, ◌⊎◌, inl, inr, arith, ◌==◌, ltb,
  ltb→lt, Bool-cases, bit_and, none, [], ◌∷◌, length, slice, get_or, Bytes, einval,
}
use re.Platform.{Platform}
use re.Mbuf.{Mbuf, block, get_left, add_size}
use re.Mbuf.Read.{get_left_room}
use re.Dns.Dname.{Walk, Round, jump, round, comp_mask, comp_loop, buf_size}
use re.Dns.Dname.Bound.{Safe, small_sum}
use re.Dns.Dname.Names.{bit_and_top}

pub slice_two :
    (i : ℕ) (b : Bytes) → i + 2 ≤ length b → slice i 2 b ≡ get_or b i 0 ∷ get_or b (suc i) 0 ∷ []
slice_two i [] h = absurd (omega arith)
slice_two zero (x ∷ []) h = absurd (omega arith)
slice_two zero (x ∷ y ∷ b) h = refl
slice_two (suc i) (x ∷ b) h = slice_two i b (omega arith)

module _ (p : Platform) (start : ℕ) (w : Walk) where
  abbrev pub Fails : Round → Type 0
  Fails r = (m : Mbuf) × (r ≡ Round.done (einval, none, m))

  abbrev pub CanJump : Type 0
  CanJump = (w.loopc < 256) × (w.mb.pos + 2 ≤ w.mb.end)

  jump_view :
      Safe w
      → w.mb.pos < w.mb.end
      → Fails (jump p start w (record w.mb { pos = w.mb.pos + 1 })) ⊎ CanJump
  unfolding jump
  jump_view v h =
      let m0 = record w.mb { pos = w.mb.pos + 1 } in
      let back : (w.mb.pos + 1 + 2 ^ 64 - 1) % 2 ^ 64 ≡ w.mb.pos =
        omega (arith, v.end_le, v.small) in
      let here : record w.mb { pos = (w.mb.pos + 1 + 2 ^ 64 - 1) % 2 ^ 64 } ≡ w.mb =
        ap (λ t. record w.mb { pos = t }) back in
      elim (Bool-cases (ltb comp_loop w.loopc)) [
        | inl many ↦ inl (rw many (m0, refl))
        | inr few ↦ elim (Bool-cases (ltb (get_left w.mb) 2)) [
          | inl short ↦ inl (rw (few, here, short) (w.mb, refl))
          | inr long ↦ inr (ground (arith, few), get_left_room w.mb 2 (omega arith) long)
        ]
      ]

  -- The first byte of what stands at the position.
  abbrev pub first : ℕ
  first = get_or (block w.mb.buf) w.mb.pos 0

  abbrev pub IsLabel : Type 0
  IsLabel =
      (0 < first)
      × (first < 192)
      × (w.mb.pos + 1 + first ≤ w.mb.end)
      × (length w.buf + first + 2 ≤ 256)

  pub round_view :
      Safe w
      → first < 256
      → Fails (round p start w)
        ⊎ ((w.mb.pos < w.mb.end) × ((first ≡ 0) ⊎ IsLabel ⊎ ((192 ≤ first) × CanJump)))
  unfolding round
  round_view v byte =
      let m = record w.mb { pos = w.mb.pos + 1 } in
      let moved : w.mb.pos < w.mb.end → add_size w.mb.pos 1 ≡ w.mb.pos + 1 =
        λ h. omega (arith, v.end_le, v.small) in
      let len : first % 2 ^ 8 ≡ first = omega arith in
      elim (Bool-cases (ltb w.mb.pos w.mb.end)) [
        | inr out ↦ inl (rw out (w.mb, refl))
        | inl more ↦
            let at = ltb→lt _ _ more in
            elim (Bool-cases (first == 0)) [
              | inl root ↦ inr (at, inl (ground (arith, root)))
              | inr filled ↦ elim (Bool-cases (bit_and first comp_mask == comp_mask)) [
                | inl ptr ↦ elim (jump_view v at) [
                  | inl f ↦ inl (rw (more, len, moved at, filled, ptr) f)
                  | inr can ↦ inr (at, inr (inr (ground (arith, ptr, bit_and_top first byte), can)))
                ]
                | inr label ↦ elim (Bool-cases (ltb (get_left m) first)) [
                  | inl short ↦ inl (rw (more, len, moved at, filled, label, short) (m, refl))
                  | inr whole ↦
                      elim (Bool-cases (ltb buf_size ((first + length w.buf + 2) % 2 ^ 32))) [
                        | inl large ↦
                            inl (rw (more, len, moved at, filled, label, whole, large) (m, refl))
                        | inr fits ↦
                            let pos : 0 < first = ground (arith, filled) in
                            inr (
                              at,
                              inr (
                                  inl (
                                    pos,
                                    ground (arith, label, bit_and_top first byte),
                                    get_left_room m first pos whole,
                                    omega (arith, small_sum first (length w.buf) byte v.room fits),
                                  )),
                            )
                      ]
                ]
              ]
            ]
      ]
