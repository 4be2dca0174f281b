-- ===== src/Nal/Fragments.antt =====
-- The fragments of a NAL unit, and the receiver of RFC 6184 that puts them together.
use re.Base.{
  ℕ, zero, suc, ◌+◌, ◌-◌, ◌*◌, ◌/◌, ◌%◌, ◌^◌, ◌<◌, ◌≤◌, ◌≡◌, refl, ap, sym, subst, ◌∙◌, inl, inr,
  arith, Bool, true, false, not, ◌&&◌, if◌then◌else◌, ◌==◌, leb, ltb, lt→ltb, ltb→lt, ltb→le,
  bit_and, bit_and_low, bit_and_field, bit_or, bit_or_shifted, bit_or_under, Bool-cases, get_or,
  Option, none, some, List, [], ◌∷◌, ◌++◌, length, take, drop, take-drop, length-take, length-drop,
  Bytes,
}
use mathlib.Core.Option
use re.Nal.{NalPacket, send_data, fragment_loop, nal_send}

abbrev indicator : NalPacket → ℕ
indicator k = get_or k.hdr 0 0

abbrev fu_of : NalPacket → ℕ
fu_of k = get_or k.hdr 1 0

abbrev is_start : NalPacket → Bool
is_start k = fu_of k / 2 ^ 7 % 2 == 1

abbrev is_end : NalPacket → Bool
is_end k = fu_of k / 2 ^ 6 % 2 == 1

abbrev before : Bytes → Bytes × Bool → Bytes × Bool
before bs r = (bs ++ r.0, r.1)

-- The fragments behind the first: none of them starts, the last one alone ends and has the marker.
pub later : List NalPacket → Option (Bytes × Bool)
later [] = none
later (k ∷ []) = if is_start k then none else if is_end k then some (k.buf, k.eof) else none
later (k ∷ l ∷ ks) =
    let rest = later (l ∷ ks) in
    if is_start k
    then none
    else if is_end k
    then none
    else if k.eof
    then none
    else Option.map (before k.buf) rest

-- The header of the NAL unit, its bytes and the marker, from all its fragments.
pub reassembled : List NalPacket → Option (ℕ × Bytes × Bool)
unfolding later
reassembled [] = none
reassembled (k ∷ ks) =
    if not (is_start k)
    then none
    else if is_end k
    then none
    else if k.eof
    then none
    else Option.map
        (λ r. (bit_or (bit_and (indicator k) 0x60) (bit_and (fu_of k) 0x1f), k.buf ++ r.0, r.1))
        (later ks)

abbrev pub AllFit : ℕ → List NalPacket → Type 0
AllFit n [] = Unit
AllFit n (k ∷ ks) = (length k.hdr + length k.buf ≤ n) × AllFit n ks

module _ (pkth : NalPacket → ℕ) (marker : Bool) (ind sz : ℕ) (pos : 0 < sz) where
  abbrev loop : ℕ → ℕ → Bytes → List NalPacket
  loop n fu buf = (fragment_loop pkth n ind fu true marker buf sz).1

  loop-more :
      (n fu : ℕ) (buf : Bytes)
      → ltb sz (length buf) ≡ true
      → (fragment_loop pkth (suc n) ind fu true marker buf sz).1
        ≡ record { eof = false; hdr = ind ∷ fu ∷ []; buf = take sz buf }
          ∷ loop n (bit_and fu 0x7f) (drop sz buf)
  unfolding fragment_loop send_data
  loop-more n fu buf h = rw h refl

  loop-last :
      (n fu : ℕ) (buf : Bytes)
      → ltb sz (length buf) ≡ false
      → (fragment_loop pkth (suc n) ind fu true marker buf sz).1
        ≡ record { eof = marker && true; hdr = ind ∷ bit_or fu (2 ^ 6) ∷ []; buf = buf } ∷ []
  unfolding fragment_loop send_data
  loop-last n fu buf h = rw h refl

  later-cons :
      (k : NalPacket) (ks : List NalPacket) (r : Bytes × Bool)
      → is_start k ≡ false
      → is_end k ≡ false
      → k.eof ≡ false
      → later ks ≡ some r
      → later (k ∷ ks) ≡ some (before k.buf r)
  unfolding later
  later-cons k [] r s e m h = absurd cc
  later-cons k (l ∷ ks) r s e m h = rw (s, e, m, h) refl

  and_true : (b : Bool) → (b && true) ≡ b
  and_true true = refl
  and_true false = refl

  later-last :
      (t : ℕ) (buf : Bytes)
      → t < 32
      → later (record { eof = marker && true; hdr = ind ∷ bit_or t (2 ^ 6) ∷ []; buf = buf } ∷ [])
        ≡ some (buf, marker)
  unfolding later
  later-last t buf ht =
      let joined : bit_or t (2 ^ 6) ≡ t + 2 ^ 6 = bit_or_under 6 1 t (omega arith) in
      let s : ((t + 2 ^ 6) / 2 ^ 7 % 2 == 1) ≡ false = ground arith in
      let e : ((t + 2 ^ 6) / 2 ^ 6 % 2 == 1) ≡ true = ground arith in
      rw (joined, s, e, and_true marker) refl

  loop-later :
      (n t : ℕ) (buf : Bytes) → t < 32 → length buf < n → later (loop n t buf) ≡ some (buf, marker)
  loop-later zero t buf ht lt = absurd (omega arith)
  loop-later (suc n) t buf ht lt = elim (Bool-cases (ltb sz (length buf))) [
    | inl more ↦
        let keep : bit_and t 0x7f ≡ t = omega (arith, bit_and_low 7 t) in
        let s : (t / 2 ^ 7 % 2 == 1) ≡ false = ground arith in
        let e : (t / 2 ^ 6 % 2 == 1) ≡ false = ground arith in
        let ih =
          loop-later n t (drop sz buf) ht (omega (arith, length-drop sz buf, ltb→lt _ _ more)) in
        ap later (
          loop-more n t buf more
          ∙ ap
              (λ u.
                record { eof = false; hdr = ind ∷ t ∷ []; buf = take sz buf }
                ∷ loop n u (drop sz buf))
              keep)
        ∙ later-cons (record { eof = false; hdr = ind ∷ t ∷ []; buf = take sz buf })
            (loop n t (drop sz buf)) _ s e refl ih
        ∙ ap (λ b. some (b, marker)) (take-drop sz buf)
    | inr last ↦ ap later (loop-last n t buf last) ∙ later-last t buf ht
  ]

  loop-AllFit : (n fu : ℕ) (buf : Bytes) → AllFit (sz + 2) (loop n fu buf)
  unfolding fragment_loop
  loop-AllFit zero fu buf = tt
  loop-AllFit (suc n) fu buf = elim (Bool-cases (ltb sz (length buf))) [
    | inl more ↦
        subst (AllFit (sz + 2)) (sym (loop-more n fu buf more))
          (omega (arith, length-take sz buf), loop-AllFit n (bit_and fu 0x7f) (drop sz buf))
    | inr last ↦
        subst (AllFit (sz + 2)) (sym (loop-last n fu buf last)) (omega (arith, ltb→le _ _ last), tt)
  ]

  -- All fragments, the first with the start bit.
  loop-reassembled :
      (n t : ℕ) (buf : Bytes)
      → t < 32
      → sz < length buf
      → length buf ≤ n
      → reassembled (loop (suc n) (bit_or (2 ^ 7) t) buf)
        ≡ some (bit_or (bit_and ind 0x60) t, buf, marker)
  unfolding reassembled
  loop-reassembled n t buf ht more lt =
      let joined : bit_or (2 ^ 7) t ≡ 2 ^ 7 + t = bit_or_shifted 7 1 t (omega arith) in
      let s : ((2 ^ 7 + t) / 2 ^ 7 % 2 == 1) ≡ true = ground arith in
      let e : ((2 ^ 7 + t) / 2 ^ 6 % 2 == 1) ≡ false = ground arith in
      let low : bit_and (2 ^ 7 + t) 0x7f ≡ t = omega (arith, bit_and_low 7 (2 ^ 7 + t)) in
      let type : bit_and (2 ^ 7 + t) 0x1f ≡ t = omega (arith, bit_and_low 5 (2 ^ 7 + t)) in
      let after = loop-later n t (drop sz buf) ht (omega (arith, length-drop sz buf)) in
      ap reassembled
        (ap (λ u. loop (suc n) u buf) joined ∙ loop-more n (2 ^ 7 + t) buf (lt→ltb _ _ more))
      ∙ rw (s, e, low, after, type, take-drop sz buf) refl

-- For packets of more than 2 bytes, and a whole NAL unit that is longer than a packet: of what
-- h264_nal_send hands to its handler, whatever the handler returns, no packet is longer than the
-- maximum, the first fragment alone has the start bit and the last alone the end bit and the
-- marker, and a receiver that joins them gets the header but for its first bit, and the bytes, of
-- the unit.
pub nal_send-reassembled :
    (pkth : NalPacket → ℕ) (marker : Bool) (hdr : ℕ) (buf : Bytes) (maxsz : ℕ)
    → hdr < 2 ^ 8
    → 2 < maxsz
    → maxsz < length buf
    → length buf < 2 ^ 64
    → let sent = (nal_send pkth true true marker hdr buf maxsz).1 in
      (reassembled sent ≡ some (hdr % 2 ^ 7, buf, marker)) × AllFit maxsz sent
unfolding nal_send
nal_send-reassembled pkth marker hdr buf maxsz hh two large lt =
    let big : leb (length buf) maxsz ≡ false = ground arith in
    let byte : hdr % 2 ^ 8 ≡ hdr = omega arith in
    let room : (maxsz + 2 ^ 64 - 2) % 2 ^ 64 ≡ maxsz - 2 = omega arith in
    let type : bit_and hdr 0x1f ≡ hdr % 32 = bit_and_low 5 hdr in
    let nri : bit_and hdr 0x60 ≡ hdr / 32 % 4 * 2 ^ 5 = bit_and_field 2 5 hdr in
    let ind = bit_or (hdr / 32 % 4 * 2 ^ 5) 28 in
    let ind_eq : ind ≡ hdr / 32 % 4 * 2 ^ 5 + 28 =
      bit_or_shifted 5 (hdr / 32 % 4) 28 (omega arith) in
    let field : bit_and ind 0x60 ≡ ind / 32 % 4 * 2 ^ 5 = bit_and_field 2 5 ind in
    let top : ind / 32 % 4 ≡ hdr / 32 % 4 = omega (arith, ind_eq) in
    let whole : bit_or (ind / 32 % 4 * 2 ^ 5) (hdr % 32) ≡ hdr % 2 ^ 7 =
      omega (arith, bit_or_shifted 5 (ind / 32 % 4) (hdr % 32) (omega arith), top) in
    let pos : 0 < maxsz - 2 = omega arith in
    let fits : maxsz - 2 + 2 ≡ maxsz = omega arith in
    let all =
      loop-reassembled pkth marker ind (maxsz - 2) pos (length buf) (hdr % 32) buf (omega arith)
        (omega arith) (omega arith) in
    rw (big, byte, room, type, nri)
      (
        all ∙ ap (λ z. some (z, buf, marker)) (ap (λ z. bit_or z (hdr % 32)) field ∙ whole),
        subst
            (λ z. AllFit z (
              loop pkth marker ind (maxsz - 2) pos (suc (length buf)) (bit_or (2 ^ 7) (hdr % 32))
                buf))
            fits
            (loop-AllFit pkth marker ind (maxsz - 2) pos (suc (length buf))
              (bit_or (2 ^ 7) (hdr % 32)) buf),
      )
