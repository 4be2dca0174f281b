-- ===== src/Dns/Header.antt =====
-- src/dns/hdr.c but for the names of codes. The header passed to the decoder is returned as the
-- decoder leaves it.
pub mod Wire
pub mod RoundTrip
use re.Base.{
  ℕ, ◌+◌, ◌*◌, ◌/◌, ◌%◌, ◌^◌, Bool, if◌then◌else◌, ◌==◌, ltb, to_int, bit_and, bit_or, einval,
}
use re.Platform.{Platform}
use re.Mbuf.{Mbuf, ◌|=◌, get_left}
use re.Mbuf.Words.{write_u16, read_u16}

-- `struct dnshdr`
pub record DnsHdr : Type 0 where
  pub id : ℕ
  pub qr : Bool
  pub opcode : ℕ
  pub aa : Bool
  pub tc : Bool
  pub rd : Bool
  pub ra : Bool
  pub z : ℕ
  pub rcode : ℕ
  pub nq : ℕ
  pub nans : ℕ
  pub nauth : ℕ
  pub nadd : ℕ

abbrev pub dns_header_size : ℕ
dns_header_size = 12

-- One `flags |= x` on a `uint16_t`.
abbrev with_bits : ℕ → ℕ → ℕ
with_bits flags x = bit_or flags x % 2 ^ 16

pub flags_of : DnsHdr → ℕ
flags_of hdr =
    let f1 = with_bits 0 (to_int hdr.qr * 2 ^ 15) in
    let f2 = with_bits f1 (hdr.opcode * 2 ^ 11) in
    let f3 = with_bits f2 (to_int hdr.aa * 2 ^ 10) in
    let f4 = with_bits f3 (to_int hdr.tc * 2 ^ 9) in
    let f5 = with_bits f4 (to_int hdr.rd * 2 ^ 8) in
    let f6 = with_bits f5 (to_int hdr.ra * 2 ^ 7) in
    let f7 = with_bits f6 (hdr.z * 2 ^ 4) in with_bits f7 hdr.rcode

-- The bit `0x1 & (flags >> k)` as a `bool`.
abbrev bit_of : ℕ → ℕ → Bool
bit_of flags k = bit_and 1 (flags / 2 ^ k) == 1

pub set_flags : DnsHdr → ℕ → DnsHdr
set_flags hdr flags = record hdr {
  qr = bit_of flags 15;
  opcode = bit_and 0xf (flags / 2 ^ 11);
  aa = bit_of flags 10;
  tc = bit_of flags 9;
  rd = bit_of flags 8;
  ra = bit_of flags 7;
  z = bit_and 0x7 (flags / 2 ^ 4);
  rcode = bit_and 0xf flags;
}

module _ (p : Platform) where
  pub dns_hdr_encode : Mbuf → DnsHdr → ℕ × Mbuf
  dns_hdr_encode mb hdr =
      write_u16 p mb (p.hton 2 hdr.id)
      |= (λ m. write_u16 p m (p.hton 2 (flags_of hdr)))
      |= (λ m. write_u16 p m (p.hton 2 hdr.nq))
      |= (λ m. write_u16 p m (p.hton 2 hdr.nans))
      |= (λ m. write_u16 p m (p.hton 2 hdr.nauth))
      |= (λ m. write_u16 p m (p.hton 2 hdr.nadd))

  pub dns_hdr_decode : DnsHdr → Mbuf → ℕ × DnsHdr × Mbuf
  dns_hdr_decode hdr mb =
      if ltb (get_left mb) dns_header_size
      then (einval, hdr, mb)
      else (let (id', m1) = read_u16 p mb in
          let (flags, m2) = read_u16 p m1 in
          let (nq', m3) = read_u16 p m2 in
          let (nans', m4) = read_u16 p m3 in
          let (nauth', m5) = read_u16 p m4 in
          let (nadd', m6) = read_u16 p m5 in
          (
            0,
            record (set_flags hdr (p.ntoh 2 flags)) {
              id = p.ntoh 2 id';
              nq = p.ntoh 2 nq';
              nans = p.ntoh 2 nans';
              nauth = p.ntoh 2 nauth';
              nadd = p.ntoh 2 nadd';
            },
            m6,
          ))
