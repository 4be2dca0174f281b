-- ===== src/Rtp/Header/Flags.antt =====
-- The two bytes of flags, taken apart as rtp_hdr_decode does.
use re.Base.{ℕ, ◌/◌, ◌%◌, ◌^◌, ◌≤◌, ◌≡◌, arith, Bool, true, false, to_int, bit_and, bit_and_low}
use re.Rtp.Header.{RtpHeader, bit_at}
use re.Rtp.Header.Wire.{IsHeader, first_flags, second_flags}

-- What read_fields makes of the flags, with the numbers as they were sent.
unfoldable pub unpacked : RtpHeader → RtpHeader → ℕ → ℕ → RtpHeader
unpacked hdr0 hdr b0 b1 = record hdr0 {
  ver = bit_and (b0 / 2 ^ 6) 3;
  pad = bit_at b0 5;
  ext = bit_at b0 4;
  cc = bit_and b0 15;
  m = bit_at b1 7;
  pt = bit_and b1 127;
  seq = hdr.seq;
  ts = hdr.ts;
  ssrc = hdr.ssrc;
}

to_int-le-one : (b : Bool) → to_int b ≤ 1
to_int-le-one true = omega arith
to_int-le-one false = omega arith

bit_at_lem : (b k : ℕ) (x : Bool) → b / 2 ^ k % 2 ≡ to_int x → bit_at b k ≡ x
bit_at_lem b k true e = rw (bit_and_low 1 (b / 2 ^ k), e)
bit_at_lem b k false e = rw (bit_and_low 1 (b / 2 ^ k), e)

pub flags_lem :
    (hdr0 hdr : RtpHeader)
    → IsHeader hdr
    → unpacked hdr0 hdr (first_flags hdr) (second_flags hdr)
      ≡ record hdr { csrc = hdr0.csrc; x_type = hdr0.x_type; x_len = hdr0.x_len }
unfolding unpacked
flags_lem hdr0 hdr v =
    let b0 = first_flags hdr in
    let b1 = second_flags hdr in
    let p1 = to_int-le-one hdr.pad in
    let e1 = to_int-le-one hdr.ext in
    let ver_eq : bit_and (b0 / 64) 3 ≡ hdr.ver =
      omega (arith, bit_and_low 2 (b0 / 64), v.version) in
    let pad_eq : bit_at b0 5 ≡ hdr.pad = bit_at_lem b0 5 hdr.pad (omega arith) in
    let ext_eq : bit_at b0 4 ≡ hdr.ext = bit_at_lem b0 4 hdr.ext (omega arith) in
    let cc_eq : bit_and b0 15 ≡ hdr.cc = omega (arith, bit_and_low 4 b0, v.cc_lt) in
    let m_eq : bit_at b1 7 ≡ hdr.m =
      bit_at_lem b1 7 hdr.m (omega (arith, v.pt_lt, to_int-le-one hdr.m)) in
    let pt_eq : bit_and b1 127 ≡ hdr.pt = omega (arith, bit_and_low 7 b1, v.pt_lt) in
    λ i. record hdr {
      ver = ver_eq i;
      pad = pad_eq i;
      ext = ext_eq i;
      cc = cc_eq i;
      m = m_eq i;
      pt = pt_eq i;
      csrc = hdr0.csrc;
      x_type = hdr0.x_type;
      x_len = hdr0.x_len;
    }
