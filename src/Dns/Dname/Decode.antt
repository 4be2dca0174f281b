-- ===== src/Dns/Dname/Decode.antt =====
-- dns_dname_decode on a name, through its pointers.
use re.Base.{
  ℕ, zero, suc, ◌+◌, ◌≤◌, ◌<◌, ◌≡◌, refl, sym, ap, subst, ◌∙◌, arith, true, if◌then◌else◌, ltb,
  Bool-cases, inl, inr, Option, some, List, [], ◌∷◌, ◌++◌, append_assoc, append-nil, length, slice,
  Bytes, length-append,
}
use re.Platform.{Platform}
use re.Mbuf.{Mbuf, block}
use re.Mbuf.Valid.{IsValid}
use re.Dns.Dname.{
  Walk, Round, Result, copy_label, finish, round, walk, begin, dname_decode, str_ncpy,
}
use re.Dns.Dname.Bound.{Safe, Bounded, length-slice, round_bound, begin-Safe}
use re.Dns.Dname.Names.{
  Named, joined, length-joined, dotted, dotted_rest, handed, given, given_lem, jumped, round-root,
  round-label, round-pointer,
}

-- The check of the space left passes for each label of a text that fits.
room_for :
    (buf l : Bytes) (ls : List Bytes)
    → length (joined buf (l ∷ ls)) < 256
    → (len : ℕ) → length l ≡ len
    → len < 192
    → length buf + len + 2 ≤ 256
room_for buf l ls h len e hl =
    let sep : Bytes = if ltb 0 (length buf) then b'.' ∷ [] else [] in
    let long = length-joined ((buf ++ sep) ++ l) ls in
    let parts = length-append (buf ++ sep) l in
    let front = length-append buf sep in
    elim (Bool-cases (ltb 0 (length buf))) [
      | inl more ↦ let one : length sep ≡ 1 = rw more refl in omega arith
      | inr none_yet ↦ let zero_len : length buf ≡ 0 = ground (arith, none_yet) in omega arith
    ]

-- The text of the labels, one separator between two of them.
joined-rest :
    (ls : List Bytes) (buf : Bytes) → 0 < length buf → joined buf ls ≡ buf ++ dotted_rest ls
joined-rest [] buf h = sym (append-nil buf)
joined-rest (l ∷ ls) buf h =
    let more : ltb 0 (length buf) ≡ true = ground arith in
    let dot : Bytes = b'.' ∷ [] in
    let long : 0 < length ((buf ++ dot) ++ l) =
      omega (arith, length-append (buf ++ dot) l, length-append buf dot) in
    let next = joined-rest ls ((buf ++ dot) ++ l) long in
    let flat : ((buf ++ dot) ++ l) ++ dotted_rest ls ≡ buf ++ (b'.' ∷ (l ++ dotted_rest ls)) =
      append_assoc (buf ++ dot) l (dotted_rest ls) ∙ append_assoc buf dot (l ++ dotted_rest ls) in
    rw more (next ∙ flat)

abbrev Filled : List Bytes → Type 0
Filled [] = Unit
Filled (l ∷ ls) = (0 < length l) × Filled ls

pub joined-nil : (ls : List Bytes) → Filled ls → joined [] ls ≡ dotted ls
joined-nil [] f = refl
joined-nil (l ∷ ls) (h, f) = joined-rest ls l h

length-dotted_rest : (ls : List Bytes) → length ls ≤ length (dotted_rest ls)
length-dotted_rest [] = omega arith
length-dotted_rest (l ∷ ls) = omega (arith, length-dotted_rest ls, length-append l (dotted_rest ls))

length-dotted : (ls : List Bytes) → Filled ls → length ls ≤ length (dotted ls)
length-dotted [] f = omega arith
length-dotted (l ∷ ls) (h, f) =
    omega (arith, length-dotted_rest ls, length-append l (dotted_rest ls))

pub Named-Filled :
    {b : Bytes} {stop start i j q : ℕ} {ls : List Bytes}
    → stop ≤ length b
    → Named b stop start i ls j q
    → Filled ls
Named-Filled h (Named.root lt z) = tt
Named-Filled {b} {stop} {start} {i} h (Named.label len z h0 hl hs n) =
    (omega (arith, length-slice (i + 1) len b (omega arith)), Named-Filled h n)
Named-Filled h (Named.pointer offset ho hs hl n) = Named-Filled h n

module _ (p : Platform) (start : ℕ) where
  -- Where the position is left: behind the first pointer, or behind the name.
  abbrev pub left_at : Walk → ℕ → Mbuf
  left_at w q = record w.mb { pos = if w.comp then w.pos else q }

  pub finish_lem :
      (w : Walk) (q : ℕ) → finish p start w (record w.mb { pos = q }) ≡ given p w.buf (left_at w q)
  unfolding finish
  finish_lem w q =
      let text = w.buf ++ (0 ∷ []) in
      let there : (if w.comp
            then record (record w.mb { pos = q }) { pos = w.pos }
            else record w.mb { pos = q })
          ≡ left_at w q =
        elim (Bool-cases w.comp) [ inl t ↦ rw t refl | inr f ↦ rw f refl ] in
      ap (handed p (length text) (str_ncpy text (length text))) there
      ∙ given_lem p w.buf (left_at w q)

  pub next-Safe : (w w' : Walk) → Safe w → round p start w ≡ Round.again w' → Safe w'
  next-Safe w w' v h = (subst (Bounded w) h (round_bound p start w v)).0

  resumed : ℕ → Round → Option Result
  resumed fuel r = elim r [ Round.done r ↦ some r | Round.again w' ↦ walk p start fuel w' ]

  pub walk-done :
      (fuel : ℕ) (w : Walk) (r : Result)
      → round p start w ≡ Round.done r
      → walk p start (suc fuel) w ≡ some r
  unfolding walk resumed
  walk-done fuel w r h = ap (resumed fuel) h

  pub walk-again :
      (fuel : ℕ) (w w' : Walk)
      → round p start w ≡ Round.again w'
      → walk p start (suc fuel) w ≡ walk p start fuel w'
  unfolding walk resumed
  walk-again fuel w w' h = ap (resumed fuel) h

  walk_lem :
      (fuel : ℕ) (w : Walk) {ls : List Bytes} {j q : ℕ}
      → Safe w
      → Named (block w.mb.buf) w.mb.end start w.mb.pos ls j q
      → w.loopc + j ≤ 256
      → length (joined w.buf ls) < 256
      → length ls + j < fuel
      → walk p start fuel w ≡ some (given p (joined w.buf ls) (left_at w q))
  unfolding copy_label
  walk_lem zero w v n h1 h2 h3 = absurd (omega arith)
  walk_lem (suc fuel) w v (Named.root lt z) h1 h2 h3 =
      walk-done fuel w _ (round-root p start w v lt z) ∙ ap some (finish_lem w (w.mb.pos + 1))
  walk_lem (suc fuel) w v (Named.label {j} {q} {ls} len z h0 hl hs n) h1 h2 h3 =
      let b = block w.mb.buf in
      let l = slice (w.mb.pos + 1) len b in
      let m = record w.mb { pos = w.mb.pos + 1 } in
      let whole = length-slice (w.mb.pos + 1) len b (omega (arith, v.block_length, v.end_le)) in
      let room : length w.buf + len + 2 ≤ 256 = room_for w.buf l ls h2 len whole hl in
      let e = round-label p start w len v z h0 hl hs room in
      let w' = copy_label w m len in
      let moved : w.mb.pos + 1 + len ≡ w'.mb.pos = omega (arith, v.end_le, v.small) in
      let n' = subst (λ i. Named b w.mb.end start i ls j q) moved n in
      let rest = walk_lem fuel w' (next-Safe w w' v e) n' h1 h2 (omega arith) in
      walk-again fuel w w' e ∙ rest
  walk_lem (suc fuel) w v (Named.pointer offset ho hs hl n) h1 h2 h3 =
      let e = round-pointer p start w offset v ho hs hl (omega arith) in
      let w' = jumped p start w offset in
      let rest = walk_lem fuel w' (next-Safe w w' v e) n (omega arith) h2 (omega arith) in
      walk-again fuel w w' e ∙ rest

  -- On a well-formed buffer, where a name stands at the position - labels of 1 to 191 bytes inside
  -- the message, up to a zero byte or a pointer to the rest of the name - through at most 256
  -- pointers and with a dotted text below 256 bytes, dns_dname_decode succeeds with the dotted
  -- text and a NUL behind it, all bytes behind a zero byte of a label being zeros too, or fails
  -- with ENOMEM where the memory is refused, and leaves the position behind the zero byte or the
  -- first pointer.
  pub dname_decode_lem :
      (mb : Mbuf) {ls : List Bytes} {j q : ℕ}
      → IsValid mb
      → Named (block mb.buf) mb.end start mb.pos ls j q
      → j ≤ 256
      → length (dotted ls) < 256
      → dname_decode p start mb ≡ some (given p (dotted ls) (record mb { pos = q }))
  unfolding dname_decode
  dname_decode_lem mb {ls} {j} {q} v n hj ht =
      let filled = Named-Filled (omega (arith, v.block_length, v.end_le)) n in
      let text = joined-nil ls filled in
      let fits = subst (λ t. length t < 256) (sym text) ht in
      walk_lem 512 (begin mb) (begin-Safe p start mb v) n (omega arith) fits
        (omega (arith, length-dotted ls filled))
      ∙ ap (λ t. some (given p t (record mb { pos = q }))) text
