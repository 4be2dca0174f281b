-- ===== src/Rtp/Header/Safe.antt =====
-- rtp_hdr_decode and rtp_decode on a buffer with any bytes.
use re.Base.{arith, ℕ, zero, suc, ◌+◌, ◌*◌, List, Bytes}
use re.Platform.{Platform}
use re.Mbuf.{Mbuf, read_mem}
use re.Mbuf.Valid.{IsValid}
use re.Mbuf.Read.{read_mem-IsValid, skip-IsValid}
use re.Mbuf.Words.{read_u16, read_u16-IsValid, read_u32-IsValid}
use re.Rtp.Header.{
  RtpHeader, hdr_decode, decode, check_version, zero_header, read_csrc, read_extension, read_tail,
  read_fields,
}

module _ (p : Platform) where
  read_csrc-IsValid :
      (n i : ℕ) (csrc : List ℕ) (m : Mbuf) → IsValid m → IsValid (read_csrc p n i csrc m).1
  unfolding read_csrc
  read_csrc-IsValid zero i csrc m v = v
  read_csrc-IsValid (suc n) i csrc m v = read_csrc-IsValid n (i + 1) _ _ (read_u32-IsValid p m v)

  read_extension-IsValid :
      (hdr : RtpHeader) (m : Mbuf) → IsValid m → IsValid (read_extension p hdr m).2
  unfolding read_extension
  read_extension-IsValid hdr m v =
      let r1 = read_u16 p m in
      let r2 = read_u16 p r1.1 in
      let v2 : IsValid r2.1 = read_u16-IsValid p r1.1 (read_u16-IsValid p m v) in
      ground (arith, v, v2, skip-IsValid r2.1 (p.ntoh 2 r2.0 * 4) v2)

  read_tail-IsValid : (hdr : RtpHeader) (m : Mbuf) → IsValid m → IsValid (read_tail p hdr m).2
  unfolding read_tail
  read_tail-IsValid hdr m v =
      let r = read_csrc p hdr.cc 0 hdr.csrc m in
      let v1 : IsValid r.1 = read_csrc-IsValid hdr.cc 0 hdr.csrc m v in
      ground (arith, v, v1, read_extension-IsValid (record hdr { csrc = r.0 }) r.1 v1)

  read_fields-IsValid :
      (hdr : RtpHeader) (buf : Bytes) (m : Mbuf) → IsValid m → IsValid (read_fields p hdr buf m).2
  unfolding read_fields
  read_fields-IsValid hdr buf m v =
      let v1 = read_u16-IsValid p m v in
      let v2 = read_u32-IsValid p (read_u16 p m).1 v1 in
      read_tail-IsValid _ _ (read_u32-IsValid p _ v2)

  pub hdr_decode-IsValid :
      (hdr : RtpHeader) (mb : Mbuf) → IsValid mb → IsValid (hdr_decode p hdr mb).2
  unfolding hdr_decode
  hdr_decode-IsValid hdr mb v =
      let r = read_mem mb 2 in
      let v1 : IsValid r.2 = read_mem-IsValid mb 2 v in
      ground (arith, v, v1, read_fields-IsValid hdr r.1 r.2 v1)

check_version-IsValid : (r : ℕ × RtpHeader × Mbuf) → IsValid r.2 → IsValid (check_version r).2
unfolding check_version
check_version-IsValid (err, hdr, mb) v = ground (arith, v)

module _ (p : Platform) where
  -- Whatever bytes a well-formed buffer holds, rtp_decode leaves it well formed: its position does
  -- not pass the end, also not when it skips an extension.
  pub decode-IsValid : (mb : Mbuf) → IsValid mb → IsValid (decode p mb).2
  unfolding decode
  decode-IsValid mb v =
      check_version-IsValid (hdr_decode p zero_header mb) (hdr_decode-IsValid p zero_header mb v)
