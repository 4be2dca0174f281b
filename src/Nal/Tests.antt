-- ===== src/Nal/Tests.antt =====
-- A NAL unit of five bytes in packets of four, and the header of a fragment.
use re.Base.{◌≡◌, arith, true, some, [], ◌∷◌, drop, Bytes}
use re.Machine.{machine}
use re.Mbuf.{set_pos}
use re.Mbuf.Valid.{contents}
use re.Mbuf.Read.{Holds}
use re.Mbuf.Tests.{hello, hello-IsValid}
use re.Nal.{FuHeader, fu_hdr_encode, fu_hdr_decode, nal_send}
use re.Nal.Headers.{fu_hdr_encode_fits, fu_hdr_decode-fu_hdr_encode}
use re.Nal.Fragments.{reassembled, AllFit, nal_send-reassembled}

-- The header of a last fragment.
abbrev last_fragment : FuHeader
last_fragment = record { s = 0; e = 1; r = 0; type = 5 }

fu_hdr_decode-fu_hdr_encode_example :
    let r = fu_hdr_decode last_fragment (set_pos (fu_hdr_encode machine last_fragment hello).1 1) in
    (r.0 ≡ 0)
    × (r.1 ≡ record { s = 0; e = 0; r = 0; type = 5 })
    × Holds r.2 (drop 2 (contents hello))
fu_hdr_decode-fu_hdr_encode_example =
    fu_hdr_decode-fu_hdr_encode machine hello last_fragment last_fragment hello-IsValid
      (omega arith) (omega arith) (omega arith) (omega arith)
      (fu_hdr_encode_fits machine hello last_fragment hello-IsValid (omega arith))

abbrev five : Bytes
five = 1 ∷ 2 ∷ 3 ∷ 4 ∷ 5 ∷ []

nal_send-reassembled_example :
    let sent = (nal_send (λ k. 0) true true true 0x65 five 4).1 in
    (reassembled sent ≡ some (0x65, five, true)) × AllFit 4 sent
nal_send-reassembled_example =
    nal_send-reassembled (λ k. 0) true 0x65 five 4 (omega arith) (omega arith) (omega arith)
      (omega arith)
