-- ===== src/Rtp/Header.antt =====
-- rtp_hdr_encode, rtp_hdr_decode, rtp_encode, rtp_encode_seq and rtp_decode of src/rtp/rtp.c. The
-- header passed to a decoder is returned as the decoder leaves it.
pub mod Wire
mod Flags
pub mod Decode
pub mod RoundTrip
pub mod Safe
pub mod Encode
pub mod Tests
use re.Base.{
  ℕ, zero, suc, ◌+◌, ◌*◌, ◌/◌, ◌%◌, ◌^◌, Bool, true, false, if◌then◌else◌, not, ◌==◌, ltb, to_int,
  bit_and, bit_or, List, [], ◌∷◌, length, get_or, replicate, blit, Bytes, ebadmsg, einval,
}
use re.Platform.{Platform}
use re.Mbuf.{Mbuf, ◌|=◌, write_mem, read_mem, get_left, add_size}
use re.Mbuf.Words.{write_u16, write_u32, read_u16, read_u32}

-- `struct rtp_header` but for `ts_arrive`, which no function here touches; `x` is the extension.
pub record RtpHeader : Type 0 where
  pub ver : ℕ
  pub pad : Bool
  pub ext : Bool
  pub cc : ℕ
  pub m : Bool
  pub pt : ℕ
  pub seq : ℕ
  pub ts : ℕ
  pub ssrc : ℕ
  pub csrc : List ℕ
  pub x_type : ℕ
  pub x_len : ℕ

abbrev pub rtp_version : ℕ
rtp_version = 2

abbrev pub rtp_header_size : ℕ
rtp_header_size = 12

-- buf[0] and buf[1] of rtp_hdr_encode
pub first_byte : RtpHeader → ℕ
first_byte hdr =
    bit_or
      (bit_or (bit_or (bit_and hdr.ver 2 * 2 ^ 6) (to_int hdr.pad * 2 ^ 5))
        (to_int hdr.ext * 2 ^ 4))
      (bit_and hdr.cc 15)

pub second_byte : RtpHeader → ℕ
second_byte hdr = bit_or (to_int hdr.m * 2 ^ 7) (bit_and hdr.pt 127)

-- The header that memset leaves.
abbrev pub zero_header : RtpHeader
zero_header = record {
  ver = 0;
  pad = false;
  ext = false;
  cc = 0;
  m = false;
  pt = 0;
  seq = 0;
  ts = 0;
  ssrc = 0;
  csrc = replicate 16 0;
  x_type = 0;
  x_len = 0;
}

-- The part of rtp_decode behind the call of rtp_hdr_decode.
check_version : ℕ × RtpHeader × Mbuf → ℕ × RtpHeader × Mbuf
check_version (err, hdr, mb) =
    if not (err == 0)
    then (err, hdr, mb)
    else if not (rtp_version == hdr.ver)
    then (ebadmsg, hdr, mb)
    else (0, hdr, mb)

-- The bit `(b >> k) & 1` as a `bool`.
abbrev bit_at : ℕ → ℕ → Bool
bit_at b k = bit_and (b / 2 ^ k) 1 == 1

module _ (p : Platform) where
  -- for (i = i0; i < i0 + n; i++) err |= mbuf_write_u32(mb, htonl(csrc[i]))
  pub write_csrc : ℕ → ℕ → List ℕ → ℕ × Mbuf → ℕ × Mbuf
  write_csrc zero i csrc r = r
  write_csrc (suc n) i csrc r =
      write_csrc n (i + 1) csrc (r |= λ m. write_u32 p m (p.hton 4 (get_or csrc i 0)))

  pub hdr_encode : Mbuf → RtpHeader → ℕ × Mbuf
  hdr_encode mb hdr = write_csrc hdr.cc 0 hdr.csrc (
      write_mem p mb (first_byte hdr ∷ second_byte hdr ∷ [])
      |= (λ m. write_u16 p m (p.hton 2 hdr.seq))
      |= (λ m. write_u32 p m (p.hton 4 hdr.ts))
      |= (λ m. write_u32 p m (p.hton 4 hdr.ssrc)))

  pub read_csrc : ℕ → ℕ → List ℕ → Mbuf → List ℕ × Mbuf
  read_csrc zero i csrc mb = (csrc, mb)
  read_csrc (suc n) i csrc mb =
      let (v, mb') = read_u32 p mb in read_csrc n (i + 1) (blit csrc i (p.ntoh 4 v ∷ [])) mb'

  -- The part behind the test `if (hdr->ext)`.
  pub read_extension : RtpHeader → Mbuf → ℕ × RtpHeader × Mbuf
  read_extension hdr mb =
      if ltb (get_left mb) 4
      then (ebadmsg, hdr, mb)
      else (let (t, m1) = read_u16 p mb in
          let (l, m2) = read_u16 p m1 in
          let hdr' = record hdr { x_type = p.ntoh 2 t; x_len = p.ntoh 2 l } in
          if ltb (get_left m2) (hdr'.x_len * 4)
          then (ebadmsg, hdr', m2)
          else (0, hdr', record m2 { pos = add_size m2.pos (hdr'.x_len * 4) }))

  -- The part behind the fixed header.
  pub read_tail : RtpHeader → Mbuf → ℕ × RtpHeader × Mbuf
  unfolding read_extension
  read_tail hdr mb =
      if ltb (get_left mb) (hdr.cc * 4)
      then (ebadmsg, hdr, mb)
      else (let (csrc', m1) = read_csrc hdr.cc 0 hdr.csrc mb in
          let hdr' = record hdr { csrc = csrc' } in
          if hdr.ext then read_extension hdr' m1 else (0, hdr', m1))

  pub read_fields : RtpHeader → Bytes → Mbuf → ℕ × RtpHeader × Mbuf
  read_fields hdr buf m =
      let (seq', m1) = read_u16 p m in
      let (ts', m2) = read_u32 p m1 in
      let (ssrc', m3) = read_u32 p m2 in
      let b0 = get_or buf 0 0 in
      let b1 = get_or buf 1 0 in
      read_tail
        (record hdr {
          ver = bit_and (b0 / 2 ^ 6) 3;
          pad = bit_at b0 5;
          ext = bit_at b0 4;
          cc = bit_and b0 15;
          m = bit_at b1 7;
          pt = bit_and b1 127;
          seq = p.ntoh 2 seq';
          ts = p.ntoh 4 ts';
          ssrc = p.ntoh 4 ssrc';
        })
        m3

  pub hdr_decode : RtpHeader → Mbuf → ℕ × RtpHeader × Mbuf
  hdr_decode hdr mb =
      if ltb (get_left mb) rtp_header_size
      then (ebadmsg, hdr, mb)
      else (let (err, buf, m) = read_mem mb 2 in
          if err == 0 then read_fields hdr buf m else (err, hdr, m))

  pub decode : Mbuf → ℕ × RtpHeader × Mbuf
  unfolding check_version
  decode mb = check_version (hdr_decode zero_header mb)

-- `enc` of `struct rtp_sock`
pub record Encoder : Type 0 where
  pub seq : ℕ
  pub ssrc : ℕ

module _ (p : Platform) where
  pub encode_seq : Encoder → ℕ → Bool → Bool → ℕ → ℕ → Mbuf → ℕ × Mbuf
  encode_seq enc seq ext marker pt ts mb =
      if not (bit_and pt 128 == 0)
      then (einval, mb)
      else (hdr_encode p mb (record zero_header {
        ver = rtp_version;
        pad = false;
        ext = ext;
        cc = 0;
        m = marker;
        pt = pt;
        seq = seq;
        ts = ts;
        ssrc = enc.ssrc;
      }))

  pub encode : Encoder → Bool → Bool → ℕ → ℕ → Mbuf → ℕ × Encoder × Mbuf
  encode enc ext marker pt ts mb =
      if not (bit_and pt 128 == 0)
      then (einval, enc, mb)
      else (let seq' = (enc.seq + 1) % 2 ^ 16 in
          let (err, mb') = hdr_encode p mb (record zero_header {
            ver = rtp_version;
            pad = false;
            ext = ext;
            cc = 0;
            m = marker;
            pt = pt;
            seq = seq';
            ts = ts;
            ssrc = enc.ssrc;
          }) in
          (err, record enc { seq = seq' }, mb'))
