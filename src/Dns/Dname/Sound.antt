-- ===== src/Dns/Dname/Sound.antt =====
-- What dns_dname_decode accepts is a name.
use re.Base.{
  ℕ, zero, suc, ◌+◌, ◌-◌, ◌*◌, ◌/◌, ◌≤◌, ◌<◌, ◌^◌, ◌%◌, ◌≡◌, ◌≢◌, refl, sym, ap, subst, ◌∙◌, inl,
  inr, arith, none, some, List, [], ◌∷◌, slice, get_or, be_bytes, Bytes, einval,
}
use re.Platform.{Platform}
use re.Mbuf.{Mbuf, block, add_size}
use re.Mbuf.Valid.{IsValid}
use re.Dns.Dname.{Walk, Result, copy_label, walk, begin, dname_decode}
use re.Dns.Dname.View.{slice_two, first, IsLabel, round_view}
use re.Dns.Dname.Bound.{Safe, begin-Safe}
use re.Dns.Dname.Names.{
  Named, joined, dotted, given, jumped, round-root, round-label, round-pointer,
}
use re.Dns.Dname.Decode.{
  left_at, finish_lem, next-Safe, walk-done, walk-again, joined-nil, Named-Filled,
}

-- A name at the position of the walk, of which the result is what is made.
abbrev NameFound : Platform → ℕ → Walk → Result → Type 0
NameFound p start w r =
    (ls : List Bytes) × (j : ℕ) × (q : ℕ) × Named (block w.mb.buf) w.mb.end start w.mb.pos ls j q
    × (w.loopc + j ≤ 256)
    × (r ≡ given p (joined w.buf ls) (left_at p start w q))

abbrev pub AllBytes : Bytes → Type 0
AllBytes b = (i : ℕ) → get_or b i 0 < 256

some_eq : {A : Type 0} (d x y : A) → some x ≡ some y → x ≡ y
some_eq d x y e = ap (λ o. elim o [ none ↦ d | some a ↦ a ]) e

module _ (p : Platform) (start : ℕ) where
  from_label :
      (w : Walk) (r : Result)
      → Safe w
      → IsLabel p start w
      → NameFound p start (copy_label w (record w.mb { pos = w.mb.pos + 1 }) (first p start w)) r
      → NameFound p start w r
  unfolding copy_label
  from_label w r v (h0, hl, hs, room) (ls, j, q, n, loops, e) =
      let len = first p start w in
      let moved : add_size (w.mb.pos + 1) len ≡ w.mb.pos + 1 + len =
        omega (arith, v.end_le, v.small) in
      let n' = subst (λ i. Named (block w.mb.buf) w.mb.end start i ls j q) moved n in
      (
        slice (w.mb.pos + 1) len (block w.mb.buf) ∷ ls,
        j,
        q,
        Named.label len refl h0 hl hs n',
        loops,
        e,
      )

  -- The pointer that two bytes are.
  offset_at :
      (w : Walk)
      → Safe w
      → AllBytes (block w.mb.buf)
      → 192 ≤ first p start w
      → w.mb.pos + 2 ≤ w.mb.end
      → (offset : ℕ) × (offset < 2 ^ 14)
        × (slice w.mb.pos 2 (block w.mb.buf) ≡ be_bytes 2 (0xc000 + offset))
  offset_at w v bytes h k =
      let b = block w.mb.buf in
      let x = get_or b w.mb.pos 0 in
      let y = get_or b (suc w.mb.pos) 0 in
      let hx = bytes w.mb.pos in
      let hy = bytes (suc w.mb.pos) in
      let offset = (x - 192) * 256 + y in
      let high : x ≡ (0xc000 + offset) / 256 % 256 = omega arith in
      let low : y ≡ (0xc000 + offset) / 1 % 256 = omega arith in
      (
        offset,
        omega arith,
        slice_two w.mb.pos b (omega (arith, v.block_length, v.end_le)) ∙ (λ i. high i ∷ low i ∷ []),
      )

  walk_sound :
      (fuel : ℕ) (w : Walk) (r : Result)
      → Safe w
      → AllBytes (block w.mb.buf)
      → r.0 ≢ einval
      → walk p start fuel w ≡ some r
      → NameFound p start w r
  unfolding walk copy_label
  walk_sound zero w r v bytes ok h = cc
  walk_sound (suc fuel) w r v bytes ok h = elim (round_view p start w v (bytes w.mb.pos)) [
    | inl (m, fails) ↦ absurd (
        ok (
          ap (λ t. t.0) (some_eq r r (einval, none, m) (sym h ∙ walk-done p start fuel w _ fails))))
    | inr (at, inl root) ↦
        let e = walk-done p start fuel w _ (round-root p start w v at root) in
        (
          [],
          0,
          w.mb.pos + 1,
          Named.root at root,
          omega (arith, v.loops),
          some_eq r r _ (sym h ∙ e) ∙ finish_lem p start w (w.mb.pos + 1),
        )
    | inr (at, inr (inl label)) ↦
        let (h0, hl, hs, room) = label in
        let len = first p start w in
        let e = round-label p start w len v refl h0 hl hs room in
        let w' = copy_label w (record w.mb { pos = w.mb.pos + 1 }) len in
        from_label w r v label (
          walk_sound fuel w' r (next-Safe p start w w' v e) bytes ok
            (sym (walk-again p start fuel w w' e) ∙ h))
    | inr (at, inr (inr (ptr, (few, two)))) ↦
        let (offset, ho, hs) = offset_at w v bytes ptr two in
        let e = round-pointer p start w offset v ho hs two few in
        let w' = jumped p start w offset in
        let (ls, j, q, n, loops, got) =
          walk_sound fuel w' r (next-Safe p start w w' v e) bytes ok
            (sym (walk-again p start fuel w w' e) ∙ h) in
        (ls, suc j, w.mb.pos + 2, Named.pointer offset ho hs two n, omega arith, got)
  ]

  -- On a well-formed buffer of bytes below 256, where dns_dname_decode ends with another result
  -- than EINVAL, a name stands at the position: labels of 1 to 191 bytes inside the message, up to
  -- a zero byte or a pointer to the rest of the name, through at most 256 pointers; and the result
  -- is what is made of that name, its dotted text as a C string or ENOMEM, with the position
  -- behind the zero byte or the first pointer.
  pub dname_decode_accepts :
      (mb : Mbuf) (r : Result)
      → IsValid mb
      → AllBytes (block mb.buf)
      → dname_decode p start mb ≡ some r
      → r.0 ≢ einval
      → (ls : List Bytes) × (j : ℕ) × (q : ℕ) × Named (block mb.buf) mb.end start mb.pos ls j q
        × (j ≤ 256)
        × (r ≡ given p (dotted ls) (record mb { pos = q }))
  unfolding dname_decode
  dname_decode_accepts mb r v bytes h ok =
      let (ls, j, q, n, loops, e) =
        walk_sound 512 (begin mb) r (begin-Safe p start mb v) bytes ok h in
      let text = joined-nil ls (Named-Filled (omega (arith, v.block_length, v.end_le)) n) in
      (ls, j, q, n, omega arith, e ∙ ap (λ t. given p t (record mb { pos = q })) text)
