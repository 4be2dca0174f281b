-- ===== src/Rtmp/Header.antt =====
-- src/rtmp/hdr.c but for printing. The header that the decoder fills is returned as it leaves it.
pub mod Wire
pub mod Decode
pub mod RoundTrip
use re.Base.{
  ℕ, ◌+◌, ◌-◌, ◌*◌, ◌/◌, ◌%◌, ◌^◌, Bool, true, false, not, if◌then◌else◌, ◌==◌, leb, ltb, bit_and,
  bit_or, einval,
}
use re.Platform.{Platform}
use re.Sys.{sys_htoll, sys_ltohl}
use re.Mbuf.{Mbuf, ◌|=◌, get_left}
use re.Mbuf.Words.{read_u8, write_u8, read_u16, write_u16, read_u32, write_u32}

abbrev pub enodata : ℕ
enodata = 61

abbrev rtmp_chunk_offset : ℕ
rtmp_chunk_offset = 64

abbrev timestamp_24max : ℕ
timestamp_24max = 0x00ffffff

-- `struct rtmp_header`; `format` has 2 bits.
pub record RtmpHeader : Type 0 where
  pub format : ℕ
  pub chunk_id : ℕ
  pub timestamp : ℕ
  pub timestamp_delta : ℕ
  pub timestamp_ext : ℕ
  pub length : ℕ
  pub type_id : ℕ
  pub stream_id : ℕ
  pub ext_ts : Bool

-- memset(hdr, 0, sizeof(*hdr))
abbrev pub cleared : RtmpHeader
cleared = record {
  format = 0;
  chunk_id = 0;
  timestamp = 0;
  timestamp_delta = 0;
  timestamp_ext = 0;
  length = 0;
  type_id = 0;
  stream_id = 0;
  ext_ts = false;
}

pub read_u24_ntoh : Mbuf → ℕ × Mbuf
read_u24_ntoh mb =
    let (b0, m1) = read_u8 mb in
    let (b1, m2) = read_u8 m1 in
    let (b2, m3) = read_u8 m2 in (bit_or (bit_or (b0 * 2 ^ 16) (b1 * 2 ^ 8)) b2, m3)

abbrev pub ts_24 : ℕ → ℕ
ts_24 ts = if leb timestamp_24max ts then timestamp_24max else ts

abbrev pub ts_ext : ℕ → ℕ
ts_ext ts = if leb timestamp_24max ts then ts else 0

module _ (p : Platform) where
  pub write_u24_hton : Mbuf → ℕ → ℕ × Mbuf
  write_u24_hton mb u24 =
      (0, mb)
      |= (λ m. write_u8 p m (u24 / 2 ^ 16 % 2 ^ 8))
      |= (λ m. write_u8 p m (u24 / 2 ^ 8 % 2 ^ 8))
      |= (λ m. write_u8 p m (u24 / 2 ^ 0 % 2 ^ 8))

  pub encode_basic_hdr : Mbuf → ℕ → ℕ → ℕ × Mbuf
  encode_basic_hdr mb fmt chunk_id =
      if leb 320 chunk_id
      then ((0, mb)
          |= (λ m. write_u8 p m (bit_or (fmt * 2 ^ 6) 1 % 2 ^ 8))
          |= (λ m. write_u16 p m (p.hton 2 ((chunk_id - rtmp_chunk_offset) % 2 ^ 16))))
      else if leb rtmp_chunk_offset chunk_id
      then ((0, mb)
          |= (λ m. write_u8 p m (bit_or (fmt * 2 ^ 6) 0 % 2 ^ 8))
          |= (λ m. write_u8 p m ((chunk_id - rtmp_chunk_offset) % 2 ^ 8)))
      else ((0, mb) |= (λ m. write_u8 p m (bit_or (fmt * 2 ^ 6) chunk_id % 2 ^ 8)))

  pub decode_basic_hdr : RtmpHeader → Mbuf → ℕ × RtmpHeader × Mbuf
  decode_basic_hdr hdr mb =
      if ltb (get_left mb) 1
      then (enodata, hdr, mb)
      else (let (v, m1) = read_u8 mb in
          let hdr1 = record hdr { format = v / 2 ^ 6 } in
          let cs_id = bit_and v 0x3f in
          if cs_id == 0
          then (if ltb (get_left m1) 1
              then (enodata, hdr1, m1)
              else (let (b, m2) = read_u8 m1 in
                  (0, record hdr1 { chunk_id = b + rtmp_chunk_offset }, m2)))
          else if cs_id == 1
          then (if ltb (get_left m1) 2
              then (enodata, hdr1, m1)
              else (let (w, m2) = read_u16 p m1 in
                  (0, record hdr1 { chunk_id = p.ntoh 2 w + rtmp_chunk_offset }, m2)))
          else (0, record hdr1 { chunk_id = cs_id }, m1))

  -- The switch of rtmp_header_encode, for a buffer behind the basic header.
  pub encode_fields : Mbuf → RtmpHeader → ℕ × RtmpHeader × Mbuf
  encode_fields mb hdr =
      if hdr.format == 0
      then (let (err, m) =
            (0, mb)
            |= (λ m. write_u24_hton m (ts_24 hdr.timestamp))
            |= (λ m. write_u24_hton m hdr.length)
            |= (λ m. write_u8 p m hdr.type_id)
            |= (λ m. write_u32 p m (sys_htoll p hdr.stream_id)) in
          (err, record hdr { timestamp_ext = ts_ext hdr.timestamp }, m))
      else if hdr.format == 1
      then (let (err, m) =
            (0, mb)
            |= (λ m. write_u24_hton m (ts_24 hdr.timestamp_delta))
            |= (λ m. write_u24_hton m hdr.length)
            |= (λ m. write_u8 p m hdr.type_id) in
          (err, record hdr { timestamp_ext = ts_ext hdr.timestamp_delta }, m))
      else if hdr.format == 2
      then (let (err, m) = (0, mb) |= (λ m. write_u24_hton m (ts_24 hdr.timestamp_delta)) in
          (err, record hdr { timestamp_ext = ts_ext hdr.timestamp_delta }, m))
      else (0, hdr, mb)

  -- The error, the header with its extended timestamp, and the buffer.
  pub header_encode : Mbuf → RtmpHeader → ℕ × RtmpHeader × Mbuf
  unfolding encode_fields
  header_encode mb hdr =
      let (err, m) = encode_basic_hdr mb hdr.format hdr.chunk_id in
      if not (err == 0)
      then (err, hdr, m)
      else (let (err', hdr', m') = encode_fields m hdr in
          if hdr'.timestamp_ext == 0
          then (err', hdr', m')
          else (let (err'', m'') =
                (err', m') |= (λ m. write_u32 p m (p.hton 4 hdr'.timestamp_ext)) in
              (err'', hdr', m'')))

  pub decode_fields : RtmpHeader → Mbuf → ℕ × RtmpHeader × Mbuf
  decode_fields hdr mb =
      if hdr.format == 0
      then (if ltb (get_left mb) 11
          then (enodata, hdr, mb)
          else (let (ts, m1) = read_u24_ntoh mb in
              let (len, m2) = read_u24_ntoh m1 in
              let (type, m3) = read_u8 m2 in
              let (stream, m4) = read_u32 p m3 in
              (
                0,
                record hdr {
                  timestamp = ts;
                  length = len;
                  type_id = type;
                  stream_id = sys_ltohl p stream;
                },
                m4,
              )))
      else if hdr.format == 1
      then (if ltb (get_left mb) 7
          then (enodata, hdr, mb)
          else (let (delta, m1) = read_u24_ntoh mb in
              let (len, m2) = read_u24_ntoh m1 in
              let (type, m3) = read_u8 m2 in
              (0, record hdr { timestamp_delta = delta; length = len; type_id = type }, m3)))
      else if hdr.format == 2
      then (if ltb (get_left mb) 3
          then (enodata, hdr, mb)
          else (let (delta, m1) = read_u24_ntoh mb in
              (0, record hdr { timestamp_delta = delta }, m1)))
      else (0, hdr, mb)

  -- The extended timestamp, in place of the one that is the marker.
  pub decode_ext : RtmpHeader → Mbuf → ℕ × RtmpHeader × Mbuf
  decode_ext hdr mb =
      if hdr.timestamp == timestamp_24max
      then (if ltb (get_left mb) 4
          then (enodata, hdr, mb)
          else (let (ts, m) = read_u32 p mb in
              (0, record hdr { timestamp = p.ntoh 4 ts; ext_ts = true }, m)))
      else if hdr.timestamp_delta == timestamp_24max
      then (if ltb (get_left mb) 4
          then (enodata, hdr, mb)
          else (let (ts, m) = read_u32 p mb in
              (0, record hdr { timestamp_delta = p.ntoh 4 ts; ext_ts = true }, m)))
      else (0, hdr, mb)

  pub header_decode : Mbuf → ℕ × RtmpHeader × Mbuf
  unfolding decode_basic_hdr decode_fields decode_ext
  header_decode mb =
      let (err, hdr, m) = decode_basic_hdr cleared mb in
      if not (err == 0)
      then (err, hdr, m)
      else (let (err', hdr', m') = decode_fields hdr m in
          if not (err' == 0) then (err', hdr', m') else decode_ext hdr' m')
