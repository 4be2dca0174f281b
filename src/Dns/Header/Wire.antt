-- ===== src/Dns/Header/Wire.antt =====
-- The bytes of a DNS header, and the flags taken apart again.
use re.Base.{
  ℕ, ◌+◌, ◌*◌, ◌/◌, ◌%◌, ◌^◌, ◌<◌, ◌≤◌, ◌≡◌, refl, ◌∙◌, arith, Bool, true, false, to_int, bit_and,
  ◌++◌, Bytes, be_bytes, bit_or_shifted, bit_or-zero_left, bit_and_low_left,
}
use re.Platform.{Platform}
use re.Mbuf.{Mbuf}
use re.Mbuf.Valid.{IsValid}
use re.Mbuf.Words.{write_u16_lem, then_u16}
use re.Mbuf.Write.{Wrote}
use re.Dns.Header.{DnsHdr, flags_of, set_flags, with_bits, bit_of, dns_hdr_encode}

-- The fields fit their widths.
pub record IsDnsHdr (hdr : DnsHdr) : Type 0 where
  pub id_lt : hdr.id < 2 ^ 16
  pub opcode_lt : hdr.opcode < 16
  pub z_lt : hdr.z < 8
  pub rcode_lt : hdr.rcode < 16
  pub nq_lt : hdr.nq < 2 ^ 16
  pub nans_lt : hdr.nans < 2 ^ 16
  pub nauth_lt : hdr.nauth < 2 ^ 16
  pub nadd_lt : hdr.nadd < 2 ^ 16

-- The fields of the flags side by side, as in RFC 1035 section 4.1.1.
abbrev pub flags_value : DnsHdr → ℕ
flags_value hdr =
    to_int hdr.qr * 2 ^ 15
    + hdr.opcode * 2 ^ 11
    + to_int hdr.aa * 2 ^ 10
    + to_int hdr.tc * 2 ^ 9
    + to_int hdr.rd * 2 ^ 8
    + to_int hdr.ra * 2 ^ 7
    + hdr.z * 2 ^ 4
    + hdr.rcode

abbrev pub wire : DnsHdr → Bytes
wire hdr =
    be_bytes 2 hdr.id
    ++ (be_bytes 2 (flags_value hdr)
        ++ (be_bytes 2 hdr.nq
            ++ (be_bytes 2 hdr.nans ++ (be_bytes 2 hdr.nauth ++ be_bytes 2 hdr.nadd))))

to_int-le-one : (b : Bool) → to_int b ≤ 1
to_int-le-one true = omega arith
to_int-le-one false = omega arith

-- Bits below those that are set.
with_bits_below :
    (k q r : ℕ) → r < 2 ^ k → q * 2 ^ k + r < 2 ^ 16 → with_bits (q * 2 ^ k) r ≡ q * 2 ^ k + r
with_bits_below k q r h lt = omega (arith, bit_or_shifted k q r h)

pub flags_of_lem :
    (hdr : DnsHdr) → IsDnsHdr hdr → (flags_of hdr ≡ flags_value hdr) × (flags_value hdr < 2 ^ 16)
unfolding flags_of
flags_of_lem hdr h =
    let qr = to_int hdr.qr in
    let aa = to_int hdr.aa in
    let tc = to_int hdr.tc in
    let rd = to_int hdr.rd in
    let ra = to_int hdr.ra in
    let qr_le = to_int-le-one hdr.qr in
    let aa_le = to_int-le-one hdr.aa in
    let tc_le = to_int-le-one hdr.tc in
    let rd_le = to_int-le-one hdr.rd in
    let ra_le = to_int-le-one hdr.ra in
    let q2 = qr * 16 + hdr.opcode in
    let q3 = q2 * 2 + aa in
    let q4 = q3 * 2 + tc in
    let q5 = q4 * 2 + rd in
    let q6 = q5 * 2 + ra in
    let q7 = q6 * 8 + hdr.z in
    let e1 : with_bits 0 (qr * 2 ^ 15) ≡ qr * 2 ^ 15 =
      omega (arith, bit_or-zero_left (qr * 2 ^ 15)) in
    let e2 : with_bits (qr * 2 ^ 15) (hdr.opcode * 2 ^ 11) ≡ q2 * 2 ^ 11 =
      with_bits_below 15 qr (hdr.opcode * 2 ^ 11) (omega (arith, h.opcode_lt))
        (omega (arith, h.opcode_lt))
      ∙ omega arith in
    let e3 : with_bits (q2 * 2 ^ 11) (aa * 2 ^ 10) ≡ q3 * 2 ^ 10 =
      with_bits_below 11 q2 (aa * 2 ^ 10) (omega arith) (omega (arith, h.opcode_lt))
      ∙ omega arith in
    let e4 : with_bits (q3 * 2 ^ 10) (tc * 2 ^ 9) ≡ q4 * 2 ^ 9 =
      with_bits_below 10 q3 (tc * 2 ^ 9) (omega arith) (omega (arith, h.opcode_lt)) ∙ omega arith in
    let e5 : with_bits (q4 * 2 ^ 9) (rd * 2 ^ 8) ≡ q5 * 2 ^ 8 =
      with_bits_below 9 q4 (rd * 2 ^ 8) (omega arith) (omega (arith, h.opcode_lt)) ∙ omega arith in
    let e6 : with_bits (q5 * 2 ^ 8) (ra * 2 ^ 7) ≡ q6 * 2 ^ 7 =
      with_bits_below 8 q5 (ra * 2 ^ 7) (omega arith) (omega (arith, h.opcode_lt)) ∙ omega arith in
    let e7 : with_bits (q6 * 2 ^ 7) (hdr.z * 2 ^ 4) ≡ q7 * 2 ^ 4 =
      with_bits_below 7 q6 (hdr.z * 2 ^ 4) (omega (arith, h.z_lt))
        (omega (arith, h.opcode_lt, h.z_lt))
      ∙ omega arith in
    let e8 =
      with_bits_below 4 q7 hdr.rcode h.rcode_lt (omega (arith, h.opcode_lt, h.z_lt, h.rcode_lt)) in
    (
      rw (e1, e2, e3, e4, e5, e6, e7) (e8 ∙ omega arith),
      omega (arith, h.opcode_lt, h.z_lt, h.rcode_lt),
    )

bit_of_lem : (flags k : ℕ) (x : Bool) → flags / 2 ^ k % 2 ≡ to_int x → bit_of flags k ≡ x
bit_of_lem flags k true e = rw (bit_and_low_left 1 (flags / 2 ^ k), e)
bit_of_lem flags k false e = rw (bit_and_low_left 1 (flags / 2 ^ k), e)

-- The flags of a header, set in another one.
pub set_flags_lem :
    (hdr0 hdr : DnsHdr)
    → IsDnsHdr hdr
    → set_flags hdr0 (flags_value hdr) ≡ record hdr {
      id = hdr0.id;
      nq = hdr0.nq;
      nans = hdr0.nans;
      nauth = hdr0.nauth;
      nadd = hdr0.nadd;
    }
unfolding set_flags
set_flags_lem hdr0 hdr h =
    let f = flags_value hdr in
    let qr_le = to_int-le-one hdr.qr in
    let aa_le = to_int-le-one hdr.aa in
    let tc_le = to_int-le-one hdr.tc in
    let rd_le = to_int-le-one hdr.rd in
    let ra_le = to_int-le-one hdr.ra in
    let o_lt = h.opcode_lt in
    let z_lt = h.z_lt in
    let r_lt = h.rcode_lt in
    let qr_eq : bit_of f 15 ≡ hdr.qr = bit_of_lem f 15 hdr.qr (omega arith) in
    let aa_eq : bit_of f 10 ≡ hdr.aa = bit_of_lem f 10 hdr.aa (omega arith) in
    let tc_eq : bit_of f 9 ≡ hdr.tc = bit_of_lem f 9 hdr.tc (omega arith) in
    let rd_eq : bit_of f 8 ≡ hdr.rd = bit_of_lem f 8 hdr.rd (omega arith) in
    let ra_eq : bit_of f 7 ≡ hdr.ra = bit_of_lem f 7 hdr.ra (omega arith) in
    let opcode_eq : bit_and 15 (f / 2 ^ 11) ≡ hdr.opcode =
      omega (arith, bit_and_low_left 4 (f / 2 ^ 11)) in
    let z_eq : bit_and 7 (f / 2 ^ 4) ≡ hdr.z = omega (arith, bit_and_low_left 3 (f / 2 ^ 4)) in
    let rcode_eq : bit_and 15 f ≡ hdr.rcode = omega (arith, bit_and_low_left 4 f) in
    rw (qr_eq, aa_eq, tc_eq, rd_eq, ra_eq, opcode_eq, z_eq, rcode_eq) refl

module _ (p : Platform) (mb : Mbuf) (v : IsValid mb) where
  pub dns_hdr_encode_lem :
      (hdr : DnsHdr) → IsDnsHdr hdr → Wrote mb (wire hdr) (dns_hdr_encode p mb hdr)
  unfolding dns_hdr_encode
  dns_hdr_encode_lem hdr h =
      let (f, f_lt) = flags_of_lem hdr h in
      let w1 = write_u16_lem p hdr.id mb v h.id_lt in
      let w2 = then_u16 p (flags_value hdr) mb _ _ v w1 f_lt in
      let w3 = then_u16 p hdr.nq mb _ _ v w2 h.nq_lt in
      let w4 = then_u16 p hdr.nans mb _ _ v w3 h.nans_lt in
      let w5 = then_u16 p hdr.nauth mb _ _ v w4 h.nauth_lt in
      rw f (then_u16 p hdr.nadd mb _ _ v w5 h.nadd_lt)
