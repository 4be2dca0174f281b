-- ===== src/Stun/Header.antt =====
-- stun_hdr_encode and stun_hdr_decode of src/stun/hdr.c. The header passed to the decoder is
-- returned as the decoder leaves it.
pub mod RoundTrip
use re.Base.{ℕ, ◌%◌, ◌^◌, if◌then◌else◌, not, ◌==◌, ltb, bit_and, length, Bytes, ebadmsg}
use re.Platform.{Platform}
use re.Mbuf.{Mbuf, ◌|=◌, get_left, write_mem, read_mem}
use re.Mbuf.Words.{write_u16, write_u32, read_u16, read_u32}

-- `struct stun_hdr`
pub record StunHdr : Type 0 where
  pub type : ℕ
  pub len : ℕ
  pub cookie : ℕ
  pub tid : Bytes

abbrev pub stun_header_size : ℕ
stun_header_size = 20

abbrev pub stun_tid_size : ℕ
stun_tid_size = 12

module _ (p : Platform) where
  pub stun_hdr_encode : Mbuf → StunHdr → ℕ × Mbuf
  stun_hdr_encode mb hdr =
      write_u16 p mb (p.hton 2 (bit_and hdr.type 0x3fff))
      |= (λ m. write_u16 p m (p.hton 2 hdr.len))
      |= (λ m. write_u32 p m (p.hton 4 hdr.cookie))
      |= (λ m. write_mem p m hdr.tid)

  -- The part behind the payload length.
  pub decode_rest : StunHdr → Mbuf → ℕ × StunHdr × Mbuf
  decode_rest hdr mb =
      if not (bit_and hdr.len 0x3 == 0)
      then (ebadmsg, hdr, mb)
      else (let (cookie', m1) = read_u32 p mb in
          let (err, bs, m2) = read_mem m1 stun_tid_size in
          let hdr' = record hdr {
            cookie = p.ntoh 4 cookie';
            tid = if err == 0 then bs else hdr.tid;
          } in
          if ltb (get_left m2) hdr'.len then (ebadmsg, hdr', m2) else (0, hdr', m2))

  pub stun_hdr_decode : StunHdr → Mbuf → ℕ × StunHdr × Mbuf
  unfolding decode_rest
  stun_hdr_decode hdr mb =
      if ltb (get_left mb) stun_header_size
      then (ebadmsg, hdr, mb)
      else (let (type', m1) = read_u16 p mb in
          let hdr1 = record hdr { type = p.ntoh 2 type' } in
          if not (bit_and hdr1.type 0xc000 == 0)
          then (ebadmsg, hdr1, m1)
          else (let (len', m2) = read_u16 p m1 in
              decode_rest (record hdr1 { len = p.ntoh 2 len' }) m2))
