-- ===== src/Rtp/Header/Tests.antt =====
-- A header, and the theorems about headers applied to it.
use re.Base.{einval, ◌≡◌, refl, arith, true, false, some, [], ◌∷◌, ◌++◌, replicate, Bytes}
use re.Machine.{machine}
use re.Mbuf.{Mbuf, set_pos}
use re.Mbuf.Valid.{IsValid}
use re.Mbuf.Write.{Wrote}
use re.Mbuf.Outcome.{Wrote-fits}
use re.Mbuf.Read.{Holds}
use re.Rtp.Header.{
  Encoder, encode, encode_seq, RtpHeader, zero_header, hdr_encode, hdr_decode, decode,
}
use re.Rtp.Header.Wire.{wire, IsHeader, hdr_encode_lem}
use re.Rtp.Header.Decode.{Decoded, stored, extension, with_extension, hdr_decode_lem}
use re.Rtp.Header.RoundTrip.{Received, decode-hdr_encode}
use re.Rtp.Header.Encode.{numbered, encode_lem, encode_refused}
use re.Rtp.Header.Safe.{decode-IsValid}

-- An audio packet with one contributing source.
abbrev audio : RtpHeader
audio = record {
  ver = 2;
  pad = false;
  ext = false;
  cc = 1;
  m = true;
  pt = 111;
  seq = 65535;
  ts = 160;
  ssrc = 0x12345678;
  csrc = 7 ∷ replicate 15 0;
  x_type = 0;
  x_len = 0;
}

audio-IsHeader : IsHeader audio
audio-IsHeader = record {
  version = refl;
  cc_lt = omega arith;
  pt_lt = omega arith;
  seq_lt = omega arith;
  ts_lt = omega arith;
  ssrc_lt = omega arith;
  csrc_length = refl;
  csrc_lt = ground arith;
}

abbrev empty : Mbuf
empty = record { buf = some (replicate 64 0); size = 64; pos = 0; end = 0 }

empty-IsValid : IsValid empty
empty-IsValid = record {
  block_length = refl;
  pos_le = omega arith;
  end_le = omega arith;
  small = omega arith;
}

hdr_encode_lem_example : Wrote empty (wire audio) (hdr_encode machine empty audio)
hdr_encode_lem_example = hdr_encode_lem machine empty empty-IsValid audio audio-IsHeader

audio_written : (hdr_encode machine empty audio).0 ≡ 0
audio_written =
    Wrote-fits empty (wire audio) _
      (hdr_encode_lem machine empty empty-IsValid audio audio-IsHeader) (omega arith)

decode-hdr_encode_example :
    let r = decode machine (set_pos (hdr_encode machine empty audio).1 0) in
    (r.0 ≡ 0) × Received audio r.1 × Holds r.2 []
decode-hdr_encode_example =
    decode-hdr_encode machine empty audio empty-IsValid audio-IsHeader refl audio_written

-- The same header with an extension of one word, and one byte of payload.
abbrev video : RtpHeader
video = record audio { ext = true }

video-IsHeader : IsHeader video
video-IsHeader = record {
  version = refl;
  cc_lt = omega arith;
  pt_lt = omega arith;
  seq_lt = omega arith;
  ts_lt = omega arith;
  ssrc_lt = omega arith;
  csrc_length = refl;
  csrc_lt = ground arith;
}

abbrev video_bytes : Bytes
video_bytes =
    0x91 ∷ 0xef ∷ 255 ∷ 255 ∷ 0 ∷ 0 ∷ 0 ∷ 160 ∷ 0x12 ∷ 0x34 ∷ 0x56 ∷ 0x78 ∷ 0 ∷ 0 ∷ 0 ∷ 7 ∷ 0xbe
    ∷ 0xde ∷ 0 ∷ 1 ∷ 1 ∷ 2 ∷ 3 ∷ 4 ∷ 99 ∷ []

abbrev packet : Mbuf
packet = record { buf = some video_bytes; size = 25; pos = 0; end = 25 }

packet-IsValid : IsValid packet
packet-IsValid = record {
  block_length = refl;
  pos_le = omega arith;
  end_le = omega arith;
  small = omega arith;
}

packet-Holds :
    Holds packet (wire video ++ (extension true 0xbede 1 (1 ∷ 2 ∷ 3 ∷ 4 ∷ []) ++ (99 ∷ [])))
packet-Holds = record { valid = packet-IsValid; left = refl }

hdr_decode_lem_example :
    Decoded
      (hdr_decode machine zero_header packet)
      (with_extension true 0xbede 1 (record video {
        csrc = stored 1 0 (replicate 16 0) (7 ∷ replicate 15 0);
        x_type = 0;
        x_len = 0;
      }))
      (99 ∷ [])
hdr_decode_lem_example =
    hdr_decode_lem machine zero_header video 0xbede 1 (1 ∷ 2 ∷ 3 ∷ 4 ∷ []) (99 ∷ []) packet
      video-IsHeader (omega arith) (omega arith) refl packet-Holds

-- A packet cut off in its extension.
abbrev cut_off : Mbuf
cut_off = record { buf = some video_bytes; size = 25; pos = 0; end = 22 }

cut_off-IsValid : IsValid cut_off
cut_off-IsValid = record {
  block_length = refl;
  pos_le = omega arith;
  end_le = omega arith;
  small = omega arith;
}

decode-IsValid_example : IsValid (decode machine cut_off).2
decode-IsValid_example = decode-IsValid machine cut_off cut_off-IsValid

-- A sender at the last sequence number before the wrap.
abbrev sender : Encoder
sender = record { seq = 65535; ssrc = 99 }

encode_lem_example :
    let r = encode machine sender false true 111 160 empty in
    (r.1 ≡ record { seq = 0; ssrc = 99 })
    × Wrote empty (wire (numbered sender 0 false true 111 160)) (r.0, r.2)
    × ((r.0, r.2) ≡ encode_seq machine sender 0 false true 111 160 empty)
encode_lem_example =
    encode_lem machine sender false true 111 160 empty empty-IsValid (omega arith) (omega arith)
      (omega arith)

encode_refused_example :
    (encode machine sender false true 200 160 empty ≡ (einval, sender, empty))
    × (encode_seq machine sender 7 false true 200 160 empty ≡ (einval, empty))
encode_refused_example =
    encode_refused machine sender false true 200 160 7 empty (omega arith) (omega arith)
