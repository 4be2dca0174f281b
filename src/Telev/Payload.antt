-- ===== src/Telev/Payload.antt =====
-- The payload of RFC 4733: what payload_encode writes, and payload_decode of it.
use re.Base.{
  ℕ, ◌+◌, ◌%◌, ◌^◌, ◌<◌, ◌≡◌, ◌≢◌, refl, ◌⊎◌, inl, inr, arith, Bool, true, false, if◌then◌else◌,
  ◌==◌, ltb, le→ltb, bit_and, bit_or, some, [], ◌∷◌, ◌++◌, length, Bytes, be_bytes,
}
use re.Platform.{Platform}
use re.Mbuf.{Mbuf, get_left}
use re.Mbuf.Valid.{IsValid}
use re.Mbuf.Write.{Appended, Wrote, Wrote-|=}
use re.Mbuf.Read.{Holds, get_left_lem}
use re.Mbuf.Words.{write_u8_lem, then_u16, read_u8-Holds, read_u16-Holds}
use re.Telev.{payload_encode, payload_decode}

-- The event, the end bit with the volume 10, and the duration.
abbrev pub payload : ℕ → Bool → ℕ → Bytes
payload event end dur = event ∷ (if end then 0x8a else 0x0a) ∷ be_bytes 2 dur

-- The payload is written, or for want of room nothing moves the position.
abbrev pub Encoded : Mbuf → Bytes → ℕ × Mbuf → Type 0
Encoded mb src r =
    ((r.0 ≡ 0) × IsValid r.1 × Appended mb src r.1)
    ⊎ ((r.0 ≢ 0) × (r.1.pos ≡ mb.pos) × (mb.size < mb.pos + length src))

end_byte :
    (end : Bool)
    → bit_or (if end then 0x80 else 0x00) (bit_and 10 0x3f) ≡ (if end then 0x8a else 0x0a)
end_byte true = refl
end_byte false = refl

read_end : (end : Bool) → (bit_and (if end then 0x8a else 0x0a) 0x80 == 0x80) ≡ end
read_end true = refl
read_end false = refl

read_volume : (end : Bool) → bit_and (if end then 0x8a else 0x0a) 0x3f ≡ 10
read_volume true = refl
read_volume false = refl

module _ (p : Platform) where
  restored :
      (mb : Mbuf) (src : Bytes) (r : ℕ × Mbuf)
      → Wrote mb src r
      → Encoded mb src (if r.0 == 0 then (0, r.1) else (r.0, record r.1 { pos = mb.pos }))
  restored mb src r (v, inl (e, w)) = rw e (inl (refl, v, w))
  restored mb src r (v, inr (ne, lt)) =
      let off : (r.0 == 0) ≡ false = ground arith in rw off (inr (ne, refl, lt))

  pub payload_encode_lem :
      (mb : Mbuf) (event : ℕ) (end : Bool) (dur : ℕ)
      → IsValid mb
      → dur < 2 ^ 16
      → Encoded mb (payload (event % 2 ^ 8) end dur) (payload_encode p mb event end dur)
  unfolding payload_encode
  payload_encode_lem mb event end dur v h =
      let w1 = write_u8_lem p (event % 2 ^ 8) mb v in
      let w2 =
        Wrote-|= mb _ ((if end then 0x8a else 0x0a) ∷ []) _ _ v w1
          (λ m vm. write_u8_lem p (if end then 0x8a else 0x0a) m vm) in
      rw (end_byte end) (restored mb _ _ (then_u16 p dur mb _ _ v w2 h))

  pub payload_decode_lem :
      (m : Mbuf) (event : ℕ) (end : Bool) (dur : ℕ) (rest : Bytes)
      → dur < 2 ^ 16
      → Holds m (payload event end dur ++ rest)
      → ((payload_decode p m).0 ≡ 0)
        × ((payload_decode p m).1 ≡ some (record { event = event; end = end; vol = 10; dur = dur }))
        × Holds (payload_decode p m).2 rest
  unfolding payload_decode
  payload_decode_lem m event end dur rest h held =
      let room : ltb (get_left m) 4 ≡ false = le→ltb _ _ (omega (arith, get_left_lem held)) in
      let (e1, h1) = read_u8-Holds event _ held in
      let (e2, h2) = read_u8-Holds (if end then 0x8a else 0x0a) _ h1 in
      let (e3, h3) = read_u16-Holds p dur rest h2 h in
      rw (room, e1, e2, e3, read_end end, read_volume end) (refl, refl, h3)
