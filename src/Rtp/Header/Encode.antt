-- ===== src/Rtp/Header/Encode.antt =====
-- rtp_encode and rtp_encode_seq.
use re.Base.{
  ℕ, ◌+◌, ◌/◌, ◌%◌, ◌^◌, ◌≤◌, ◌<◌, ◌≡◌, refl, arith, Bool, true, false, ◌==◌, bit_and, einval,
  test_bit-div, bit_and_single,
}
use re.Platform.{Platform}
use re.Mbuf.{Mbuf}
use re.Mbuf.Valid.{IsValid}
use re.Mbuf.Write.{Wrote}
use re.Rtp.Header.{RtpHeader, Encoder, zero_header, encode, encode_seq}
use re.Rtp.Header.Wire.{wire, IsHeader, hdr_encode_lem}

-- The header of a packet with this sequence number.
abbrev pub numbered : Encoder → ℕ → Bool → Bool → ℕ → ℕ → RtpHeader
numbered enc seq ext marker pt ts = record zero_header {
  ver = 2;
  ext = ext;
  m = marker;
  pt = pt;
  seq = seq;
  ts = ts;
  ssrc = enc.ssrc;
}

seven_bits : (pt : ℕ) → pt < 128 → (bit_and pt 128 == 0) ≡ true
seven_bits pt h =
    let e : pt / 128 % 2 ≡ 0 = omega arith in rw (bit_and_single 7 pt, test_bit-div 7 pt, e)

eight_bits : (pt : ℕ) → 128 ≤ pt → pt < 256 → (bit_and pt 128 == 0) ≡ false
eight_bits pt h lt =
    let e : pt / 128 % 2 ≡ 1 = omega arith in rw (bit_and_single 7 pt, test_bit-div 7 pt, e)

numbered-IsHeader :
    (enc : Encoder) (seq : ℕ) (ext marker : Bool) (pt ts : ℕ)
    → seq < 2 ^ 16
    → enc.ssrc < 2 ^ 32
    → pt < 128
    → ts < 2 ^ 32
    → IsHeader (numbered enc seq ext marker pt ts)
numbered-IsHeader enc seq ext marker pt ts h1 h2 h3 h4 = record {
  version = refl;
  cc_lt = omega arith;
  pt_lt = h3;
  seq_lt = h1;
  ts_lt = h4;
  ssrc_lt = h2;
  csrc_length = refl;
  csrc_lt = ground arith;
}

module _ (p : Platform) where
  -- On a well-formed buffer, for a payload type below 128 and a source and timestamp of 32 bits,
  -- rtp_encode steps the sequence number modulo 2^16, and does what rtp_encode_seq does with the
  -- new number, which is to write the header with it or to fail, the latter only where the block
  -- had to grow.
  pub encode_lem :
      (enc : Encoder) (ext marker : Bool) (pt ts : ℕ) (mb : Mbuf)
      → IsValid mb
      → enc.ssrc < 2 ^ 32
      → pt < 128
      → ts < 2 ^ 32
      → let seq' = (enc.seq + 1) % 2 ^ 16 in
        let r = encode p enc ext marker pt ts mb in
        (r.1 ≡ record enc { seq = seq' })
        × Wrote mb (wire (numbered enc seq' ext marker pt ts)) (r.0, r.2)
        × ((r.0, r.2) ≡ encode_seq p enc seq' ext marker pt ts mb)
  unfolding encode encode_seq
  encode_lem enc ext marker pt ts mb v h2 h3 h4 =
      let hdr = numbered enc ((enc.seq + 1) % 2 ^ 16) ext marker pt ts in
      let ok =
        numbered-IsHeader enc ((enc.seq + 1) % 2 ^ 16) ext marker pt ts (omega arith) h2 h3 h4 in
      rw (seven_bits pt h3) (refl, hdr_encode_lem p mb v hdr ok, refl)

  -- For a payload type from 128 to 255, rtp_encode and rtp_encode_seq refuse with EINVAL, and
  -- neither the buffer nor the sequence number changes.
  pub encode_refused :
      (enc : Encoder) (ext marker : Bool) (pt ts seq : ℕ) (mb : Mbuf)
      → 128 ≤ pt
      → pt < 256
      → (encode p enc ext marker pt ts mb ≡ (einval, enc, mb))
        × (encode_seq p enc seq ext marker pt ts mb ≡ (einval, mb))
  unfolding encode encode_seq
  encode_refused enc ext marker pt ts seq mb h lt = rw (eight_bits pt h lt) (refl, refl)
