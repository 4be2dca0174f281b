-- ===== src/Dns/Header/RoundTrip.antt =====
-- dns_hdr_decode on what dns_hdr_encode wrote.
use re.Base.{◌+◌, ◌≡◌, refl, arith, false, ltb, le→ltb, ◌++◌, drop, Bytes}
use re.Platform.{Platform}
use re.Mbuf.{Mbuf, set_pos, get_left}
use re.Mbuf.Valid.{IsValid, contents}
use re.Mbuf.Read.{Holds, get_left_lem}
use re.Mbuf.RoundTrip.{set_pos-Holds, Wrote-done}
use re.Mbuf.Words.{read_u16-Holds}
use re.Dns.Header.{DnsHdr, dns_hdr_encode, dns_hdr_decode}
use re.Dns.Header.Wire.{
  IsDnsHdr, flags_value, wire, flags_of_lem, set_flags_lem, dns_hdr_encode_lem,
}

module _ (p : Platform) where
  dns_hdr_decode_lem :
      (hdr0 hdr : DnsHdr) (rest : Bytes) (mb : Mbuf)
      → IsDnsHdr hdr
      → Holds mb (wire hdr ++ rest)
      → ((dns_hdr_decode p hdr0 mb).0 ≡ 0)
        × ((dns_hdr_decode p hdr0 mb).1 ≡ hdr)
        × Holds (dns_hdr_decode p hdr0 mb).2 rest
  unfolding dns_hdr_decode
  dns_hdr_decode_lem hdr0 hdr rest mb h held =
      let room : ltb (get_left mb) 12 ≡ false = le→ltb _ _ (omega (arith, get_left_lem held)) in
      let f_lt = (flags_of_lem hdr h).1 in
      let (e1, h1) = read_u16-Holds p hdr.id _ held h.id_lt in
      let (e2, h2) = read_u16-Holds p (flags_value hdr) _ h1 f_lt in
      let (e3, h3) = read_u16-Holds p hdr.nq _ h2 h.nq_lt in
      let (e4, h4) = read_u16-Holds p hdr.nans _ h3 h.nans_lt in
      let (e5, h5) = read_u16-Holds p hdr.nauth _ h4 h.nauth_lt in
      let (e6, h6) = read_u16-Holds p hdr.nadd rest h5 h.nadd_lt in
      rw (room, e1, e2, e3, e4, e5, e6, set_flags_lem hdr0 hdr h) (refl, refl, h6)

  -- For a well-formed buffer and a DNS header whose fields fit their widths: where dns_hdr_encode
  -- succeeds and the position is set back, dns_hdr_decode succeeds and gives the same header, and
  -- what stood behind the header is left to read.
  pub dns_hdr_decode-dns_hdr_encode :
      (mb : Mbuf) (hdr0 hdr : DnsHdr)
      → IsValid mb
      → IsDnsHdr hdr
      → (dns_hdr_encode p mb hdr).0 ≡ 0
      → let r = dns_hdr_decode p hdr0 (set_pos (dns_hdr_encode p mb hdr).1 mb.pos) in
        (r.0 ≡ 0) × (r.1 ≡ hdr) × Holds r.2 (drop (mb.pos + 12) (contents mb))
  dns_hdr_decode-dns_hdr_encode mb hdr0 hdr v h e =
      let w = dns_hdr_encode_lem p mb v hdr h in
      dns_hdr_decode_lem hdr0 hdr _ _ h
        (set_pos-Holds mb _ (wire hdr) v w.0 (Wrote-done mb (wire hdr) _ w e))
