-- ===== src/Stun/Header/RoundTrip.antt =====
-- stun_hdr_decode on the bytes of a header, and on what stun_hdr_encode wrote.
use re.Base.{
  ℕ, ◌+◌, ◌*◌, ◌/◌, ◌%◌, ◌<◌, ◌^◌, ◌≡◌, inl, inr, refl, arith, Bool, true, false, not,
  if◌then◌else◌, ltb, ◌==◌, le→ltb, bit_and, bit_and_low, bit_and_field, ◌++◌, drop, length,
  length-append, Bool-cases, Bytes, be_bytes, ebadmsg,
}
use re.Platform.{Platform}
use re.Mbuf.{Mbuf, set_pos, get_left, read_mem}
use re.Mbuf.Valid.{IsValid, contents}
use re.Mbuf.Write.{Wrote, write_mem_lem, Wrote-|=}
use re.Mbuf.Read.{Holds, ahead-Holds, get_left_lem, read_mem-append}
use re.Mbuf.RoundTrip.{set_pos-Holds, Wrote-done}
use re.Mbuf.Words.{write_u16_lem, then_u16, then_u32, read_u16-Holds, read_u32, read_u32-Holds}
use re.Stun.Header.{StunHdr, stun_hdr_encode, stun_hdr_decode, decode_rest}

-- The fields have the values that their types allow.
pub record IsStunHdr (hdr : StunHdr) : Type 0 where
  pub type_lt : hdr.type < 2 ^ 16
  pub len_lt : hdr.len < 2 ^ 16
  pub cookie_lt : hdr.cookie < 2 ^ 32
  pub tid_length : length hdr.tid ≡ 12

abbrev pub wire : StunHdr → Bytes
wire hdr = be_bytes 2 hdr.type ++ (be_bytes 2 hdr.len ++ (be_bytes 4 hdr.cookie ++ hdr.tid))

-- What a receiver accepts: two zero bits first, a length of whole words, and that many bytes.
abbrev pub accepted : StunHdr → Bytes → Bool
accepted hdr rest =
    if ltb hdr.type (2 ^ 14)
    then if hdr.len % 4 == 0 then not (ltb (length rest) hdr.len) else false
    else false

-- Success with this header and `rest` left to read, or EBADMSG.
abbrev pub Judged : Bool → ℕ × StunHdr × Mbuf → StunHdr → Bytes → Type 0
Judged true r hdr rest = (r.0 ≡ 0) × (r.1 ≡ hdr) × Holds r.2 rest
Judged false r hdr rest = r.0 ≡ ebadmsg

module _ (p : Platform) where
  read_tid :
      (hdr : StunHdr) (rest : Bytes) (m : Mbuf)
      → length hdr.tid ≡ 12
      → Holds m (hdr.tid ++ rest)
      → read_mem m 12 ≡ (0, hdr.tid, record m { pos = m.pos + 12 })
  read_tid hdr rest m h held = rw h at (read_mem-append hdr.tid rest held)

  length-wire :
      (hdr : StunHdr) (rest : Bytes) → IsStunHdr hdr → length (wire hdr ++ rest) ≡ 20 + length rest
  length-wire hdr rest h = omega (arith, length-append hdr.tid rest, h.tid_length)

  decode_rest_lem :
      (hdr0 hdr : StunHdr) (rest : Bytes) (m : Mbuf)
      → IsStunHdr hdr
      → Holds m (be_bytes 4 hdr.cookie ++ (hdr.tid ++ rest))
      → Judged
          (if hdr.len % 4 == 0 then not (ltb (length rest) hdr.len) else false)
          (decode_rest p (record hdr0 { type = hdr.type; len = hdr.len }) m)
          hdr
          rest
  unfolding decode_rest
  decode_rest_lem hdr0 hdr rest m h held =
      let (e, h1) = read_u32-Holds p hdr.cookie _ held h.cookie_lt in
      let m1 = (read_u32 p m).1 in
      let got = read_tid hdr rest m1 h.tid_length h1 in
      let h2 : Holds (record m1 { pos = m1.pos + 12 }) rest =
        rw h.tid_length at (ahead-Holds hdr.tid rest h1) in
      let words : bit_and hdr.len 3 ≡ hdr.len % 4 = bit_and_low 2 hdr.len in
      let room = get_left_lem h2 in
      elim (Bool-cases (hdr.len % 4 == 0)) [
        | inr odd ↦ rw (words, odd) refl
        | inl even ↦ elim (Bool-cases (ltb (length rest) hdr.len)) [
          | inl short ↦ rw (words, even, e, got, room, short) refl
          | inr long ↦ rw (words, even, e, got, room, long) (refl, refl, h2)
        ]
      ]

  pub stun_hdr_decode_lem :
      (hdr0 hdr : StunHdr) (rest : Bytes) (mb : Mbuf)
      → IsStunHdr hdr
      → Holds mb (wire hdr ++ rest)
      → Judged (accepted hdr rest) (stun_hdr_decode p hdr0 mb) hdr rest
  unfolding stun_hdr_decode
  stun_hdr_decode_lem hdr0 hdr rest mb h held =
      let room : ltb (get_left mb) 20 ≡ false =
        le→ltb _ _ (omega (arith, get_left_lem held, length-wire hdr rest h)) in
      let (e1, h1) = read_u16-Holds p hdr.type _ held h.type_lt in
      let (e2, h2) = read_u16-Holds p hdr.len _ h1 h.len_lt in
      let top : bit_and hdr.type 0xc000 ≡ hdr.type / 2 ^ 14 % 4 * 2 ^ 14 =
        bit_and_field 2 14 hdr.type in
      elim (Bool-cases (ltb hdr.type (2 ^ 14))) [
        | inl low ↦
            let clear : (bit_and hdr.type 0xc000 == 0) ≡ true = ground (arith, top, low) in
            rw (room, e1, clear, e2, low) (decode_rest_lem hdr0 hdr rest _ h h2)
        | inr high ↦
            let set : (bit_and hdr.type 0xc000 == 0) ≡ false =
              ground (arith, top, high, h.type_lt) in
            rw (room, e1, set, high) refl
      ]

  pub stun_hdr_encode_lem :
      (mb : Mbuf) (hdr : StunHdr)
      → IsValid mb
      → IsStunHdr hdr
      → hdr.type < 2 ^ 14
      → Wrote mb (wire hdr) (stun_hdr_encode p mb hdr)
  unfolding stun_hdr_encode
  stun_hdr_encode_lem mb hdr v h t =
      let low : bit_and hdr.type 0x3fff ≡ hdr.type = omega (arith, bit_and_low 14 hdr.type) in
      let w1 = write_u16_lem p hdr.type mb v h.type_lt in
      let w2 = then_u16 p hdr.len mb _ _ v w1 h.len_lt in
      let w3 = then_u32 p hdr.cookie mb _ _ v w2 h.cookie_lt in
      rw low (
        Wrote-|= mb _ hdr.tid _ _ v w3
          (λ m vm. write_mem_lem p m hdr.tid vm (omega (arith, h.tid_length))))

  -- For a well-formed buffer and a STUN header with a type below 2^14 and a transaction ID of 12
  -- bytes: where stun_hdr_encode succeeds and the position is set back, stun_hdr_decode gives the
  -- same header and leaves what stood behind to read if the payload length is a multiple of 4 and
  -- no more than what is left, and EBADMSG otherwise.
  pub stun_hdr_decode-stun_hdr_encode :
      (mb : Mbuf) (hdr0 hdr : StunHdr)
      → IsValid mb
      → IsStunHdr hdr
      → hdr.type < 2 ^ 14
      → (stun_hdr_encode p mb hdr).0 ≡ 0
      → let rest = drop (mb.pos + 20) (contents mb) in
        Judged
          (accepted hdr rest)
          (stun_hdr_decode p hdr0 (set_pos (stun_hdr_encode p mb hdr).1 mb.pos))
          hdr
          rest
  stun_hdr_decode-stun_hdr_encode mb hdr0 hdr v h t e =
      let w = stun_hdr_encode_lem mb hdr v h t in
      let held = set_pos-Holds mb _ (wire hdr) v w.0 (Wrote-done mb (wire hdr) _ w e) in
      let twenty : length (wire hdr) ≡ 20 = omega (arith, h.tid_length) in
      stun_hdr_decode_lem hdr0 hdr _ _ h (rw twenty at held)
