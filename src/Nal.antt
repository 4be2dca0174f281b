-- ===== src/Nal.antt =====
-- src/h264/nal.c: the headers of NAL units and of their fragments, and h264_nal_send. The handler
-- of packets is a function that gives its error; the packets that it is called with are a result.
-- Left out of a packet are the time stamp, which is passed on as it comes, and the sizes of its two
-- parts, which are the lengths of the lists.
pub mod Headers
pub mod Fragments
pub mod Tests
use re.Base.{
  ℕ, zero, suc, ◌+◌, ◌-◌, ◌*◌, ◌/◌, ◌%◌, ◌^◌, Bool, true, false, not, ◌&&◌, if◌then◌else◌, leb, ltb,
  bit_and, bit_or, List, [], ◌∷◌, ◌++◌, length, take, drop, Bytes, ebadmsg,
}
use re.Platform.{Platform}
use re.Mbuf.{Mbuf, get_left}
use re.Mbuf.Words.{read_u8, write_u8}

abbrev pub enoent : ℕ
enoent = 2

abbrev pub h264_nalu_fu_a : ℕ
h264_nalu_fu_a = 28

-- `struct h264_nal_header`; the fields have 1, 2 and 5 bits.
pub record NalHeader : Type 0 where
  pub f : ℕ
  pub nri : ℕ
  pub type : ℕ

-- `struct h264_fu`; the fields have 1, 1, 1 and 5 bits.
pub record FuHeader : Type 0 where
  pub s : ℕ
  pub e : ℕ
  pub r : ℕ
  pub type : ℕ

pub nal_header_decode : NalHeader → Mbuf → ℕ × NalHeader × Mbuf
nal_header_decode hdr mb =
    if ltb (get_left mb) 1
    then (ebadmsg, hdr, mb)
    else (let (v, m) = read_u8 mb in
        (
          0,
          record {
            f = bit_and (v / 2 ^ 7) 0x1;
            nri = bit_and (v / 2 ^ 5) 0x3;
            type = bit_and v 0x1f;
          },
          m,
        ))

pub fu_hdr_decode : FuHeader → Mbuf → ℕ × FuHeader × Mbuf
fu_hdr_decode fu mb =
    if ltb (get_left mb) 1
    then (enoent, fu, mb)
    else (let (v, m) = read_u8 mb in
        (
          0,
          record {
            s = bit_and (v / 2 ^ 7) 0x1;
            e = bit_and (v / 2 ^ 6) 0x1;
            r = bit_and (v / 2 ^ 5) 0x1;
            type = bit_and (v / 2 ^ 0) 0x1f;
          },
          m,
        ))

module _ (p : Platform) where
  pub nal_header_encode : Mbuf → NalHeader → ℕ × Mbuf
  nal_header_encode mb hdr =
      write_u8 p mb (bit_or (bit_or (hdr.f * 2 ^ 7) (hdr.nri * 2 ^ 5)) hdr.type % 2 ^ 8)

  pub fu_hdr_encode : FuHeader → Mbuf → ℕ × Mbuf
  fu_hdr_encode fu mb =
      write_u8 p mb
        (bit_or (bit_or (bit_or (fu.s * 2 ^ 7) (fu.s * 2 ^ 6)) (fu.r * 2 ^ 5)) fu.type % 2 ^ 8)

-- What the handler gets: the marker, the bytes of the header and those behind it.
pub record NalPacket : Type 0 where
  pub eof : Bool
  pub hdr : Bytes
  pub buf : Bytes

module _ (pkth : NalPacket → ℕ) where
  pub send_data : Bytes → Bytes → Bool → ℕ × List NalPacket
  send_data hdr buf eof =
      let packet : NalPacket = record { eof = eof; hdr = hdr; buf = buf } in
      (pkth packet, packet ∷ [])

  -- The loop over the fragments and what follows it, with a round for each byte; `fu` is fu_hdr[1].
  -- A failure of the handler does not stop the loop.
  pub fragment_loop : ℕ → ℕ → ℕ → Bool → Bool → Bytes → ℕ → ℕ × List NalPacket
  unfolding send_data
  fragment_loop zero ind fu last marker buf sz = (0, [])
  fragment_loop (suc n) ind fu last marker buf sz =
      let (err', sent') = fragment_loop n ind (bit_and fu 0x7f) last marker (drop sz buf) sz in
      if ltb sz (length buf)
      then (let (err, sent) = send_data (ind ∷ fu ∷ []) (take sz buf) false in
          (bit_or err err', sent ++ sent'))
      else send_data (ind ∷ (if last then bit_or fu (2 ^ 6) else fu) ∷ []) buf (marker && last)

  pub nal_send : Bool → Bool → Bool → ℕ → Bytes → ℕ → ℕ × List NalPacket
  unfolding send_data fragment_loop
  nal_send first last marker ihdr buf maxsz =
      let hdr = ihdr % 2 ^ 8 in
      if first && last && leb (length buf) maxsz
      then send_data (hdr ∷ []) buf marker
      else (let type = bit_and hdr 0x1f in
          let nri = bit_and hdr 0x60 in
          let fu = if first then bit_or (2 ^ 7) type else type in
          fragment_loop (suc (length buf)) (bit_or nri h264_nalu_fu_a) fu last marker buf
            ((maxsz + 2 ^ 64 - 2) % 2 ^ 64))
