-- ===== src/Av1/Tests.antt =====
-- Numbers of one and of several bytes, short units, and the theorems about AV1 applied to them.
use re.Base.{◌≡◌, refl, arith, some, true, [], ◌∷◌, ◌++◌, List, replicate}
use re.Machine.{machine}
use re.Mbuf.{Mbuf, set_pos}
use re.Mbuf.Valid.{IsValid}
use re.Mbuf.Write.{Wrote}
use re.Mbuf.Outcome.{Wrote-fits}
use re.Mbuf.Read.{Holds}
use re.Av1.Leb128.{leb128_encode, leb128_decode}
use re.Av1.Leb128.RoundTrip.{leb_bytes, Decoded, leb128_encode_lem, leb128_decode-leb128_encode}
use re.Av1.Obu.{zero_hdr, obu_encode, obu_decode, obu_count, obu_count_rtp}
use re.Av1.Obu.Wire.{obu_bytes, sized, obu_encode_lem, obu_decode_lem}
use re.Av1.Obu.Safe.{Inside, obu_decode-Inside}
use re.Av1.Obu.Count.{Obu, tally, goes_by_rtp, count-bitstream}

abbrev blank : Mbuf
blank = record { buf = some (replicate 32 0); size = 32; pos = 0; end = 0 }

blank-IsValid : IsValid blank
blank-IsValid = record {
  block_length = refl;
  pos_le = omega arith;
  end_le = omega arith;
  small = omega arith;
}

-- 300 is 0xac 0x02.
leb128_encode_lem_example : Wrote blank (0xac ∷ 2 ∷ []) (leb128_encode machine blank 300)
leb128_encode_lem_example = leb128_encode_lem machine blank 300 blank-IsValid (omega arith)

number_written : (leb128_encode machine blank 300).0 ≡ 0
number_written =
    Wrote-fits blank (leb_bytes 9 300) _
      (leb128_encode_lem machine blank 300 blank-IsValid (omega arith)) (omega arith)

leb128_decode-leb128_encode_example :
    Decoded (leb128_decode (set_pos (leb128_encode machine blank 300).1 0)) 300 []
leb128_decode-leb128_encode_example =
    leb128_decode-leb128_encode machine blank 300 blank-IsValid (omega arith) number_written

obu_encode_lem_example :
    Wrote blank
      (50 ∷ 3 ∷ 7 ∷ 8 ∷ 9 ∷ [])
      (obu_encode machine blank 6 true 3 (some (7 ∷ 8 ∷ 9 ∷ [])))
obu_encode_lem_example =
    obu_encode_lem machine blank blank-IsValid 6 (7 ∷ 8 ∷ 9 ∷ []) (omega arith) (omega arith)

-- A frame with three bytes of payload, and one byte behind it.
abbrev frame : Mbuf
frame = record { buf = some (50 ∷ 3 ∷ 7 ∷ 8 ∷ 9 ∷ 18 ∷ []); size = 6; pos = 0; end = 6 }

frame-IsValid : IsValid frame
frame-IsValid = record {
  block_length = refl;
  pos_le = omega arith;
  end_le = omega arith;
  small = omega arith;
}

frame-Holds : Holds frame (obu_bytes 6 (7 ∷ 8 ∷ 9 ∷ []) ++ (18 ∷ []))
frame-Holds = record { valid = frame-IsValid; left = refl }

obu_decode_lem_example :
    ((obu_decode zero_hdr frame).0 ≡ 0)
    × ((obu_decode zero_hdr frame).1 ≡ sized 6 3)
    × Holds (obu_decode zero_hdr frame).2 (7 ∷ 8 ∷ 9 ∷ 18 ∷ [])
obu_decode_lem_example =
    obu_decode_lem zero_hdr 6 (7 ∷ 8 ∷ 9 ∷ []) (18 ∷ []) frame (omega arith) (omega arith)
      frame-Holds

-- The same bytes with the frame cut short.
abbrev cut_short : Mbuf
cut_short = record { buf = some (50 ∷ 3 ∷ 7 ∷ 8 ∷ 9 ∷ 18 ∷ []); size = 6; pos = 0; end = 4 }

cut_short-IsValid : IsValid cut_short
cut_short-IsValid = record {
  block_length = refl;
  pos_le = omega arith;
  end_le = omega arith;
  small = omega arith;
}

obu_decode-Inside_example : Inside (obu_decode zero_hdr cut_short)
obu_decode-Inside_example = obu_decode-Inside zero_hdr cut_short cut_short-IsValid

-- A temporal delimiter and a frame.
abbrev units : List Obu
units = (2, []) ∷ (6, 7 ∷ 8 ∷ []) ∷ []

count-bitstream_example :
    (obu_count (18 ∷ 0 ∷ 50 ∷ 2 ∷ 7 ∷ 8 ∷ []) ≡ 2)
    × (obu_count_rtp (18 ∷ 0 ∷ 50 ∷ 2 ∷ 7 ∷ 8 ∷ []) ≡ tally goes_by_rtp units)
count-bitstream_example = count-bitstream units (ground arith) (omega arith)
