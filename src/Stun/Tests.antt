-- ===== src/Stun/Tests.antt =====
-- A binding request, and a method that its type hides.
use re.Base.{Bytes, some, ◌≡◌, refl, arith, replicate, drop}
use re.Machine.{machine}
use re.Mbuf.{Mbuf, set_pos}
use re.Mbuf.Valid.{IsValid, contents}
use re.Mbuf.Outcome.{Wrote-fits}
use re.Mbuf.Read.{Holds}
use re.Stun.Addr.{Sa, addr_encode, addr_decode}
use re.Stun.Addr.RoundTrip.{IsSa, wire_of, addr_encode_lem, addr_decode-addr_encode}
use re.Stun.Types.{stun_type, stun_class, stun_method, stun_type_parts}
use re.Stun.Header.{StunHdr, stun_hdr_encode, stun_hdr_decode}
use re.Stun.Header.RoundTrip.{
  IsStunHdr, wire, accepted, Judged, stun_hdr_encode_lem, stun_hdr_decode-stun_hdr_encode,
}

abbrev request : StunHdr
request = record { type = 1; len = 0; cookie = 0x2112a442; tid = replicate 12 7 }

request-IsStunHdr : IsStunHdr request
request-IsStunHdr = record {
  type_lt = omega arith;
  len_lt = omega arith;
  cookie_lt = omega arith;
  tid_length = refl;
}

abbrev empty : Mbuf
empty = record { buf = some (replicate 64 0); size = 64; pos = 0; end = 0 }

empty-IsValid : IsValid empty
empty-IsValid = record {
  block_length = refl;
  pos_le = omega arith;
  end_le = omega arith;
  small = omega arith;
}

request_written : (stun_hdr_encode machine empty request).0 ≡ 0
request_written =
    Wrote-fits empty (wire request) _
      (stun_hdr_encode_lem machine empty request empty-IsValid request-IsStunHdr (omega arith))
      (omega arith)

stun_hdr_decode-stun_hdr_encode_example :
    Judged
      (accepted request (drop 20 (contents empty)))
      (stun_hdr_decode machine request (set_pos (stun_hdr_encode machine empty request).1 0))
      request
      (drop 20 (contents empty))
stun_hdr_decode-stun_hdr_encode_example =
    stun_hdr_decode-stun_hdr_encode machine empty request request empty-IsValid request-IsStunHdr
      (omega arith) request_written

-- A request (0) of the method 0x10 is taken for a success response (2).
stun_type_parts_example :
    (stun_method (stun_type 0x10 0) ≡ 0x10) × (stun_class (stun_type 0x10 0) ≡ 2)
stun_type_parts_example = stun_type_parts 0x10 0 (omega arith) (omega arith)

abbrev tid : Bytes
tid = replicate 12 7

abbrev local : Sa
local = Sa.in4 0x7f000001 5060

local-IsSa : IsSa local
local-IsSa = (omega arith, omega arith)

local_written : (addr_encode machine empty local (some tid)).0 ≡ 0
local_written =
    Wrote-fits empty (wire_of local (some tid)) _
      (addr_encode_lem machine empty local (some tid) empty-IsValid local-IsSa) (omega arith)

addr_decode-addr_encode_example :
    let r =
      addr_decode machine
        (set_pos (addr_encode machine empty local (some tid)).1 0)
        Sa.other
        (some tid) in
    (r.0 ≡ 0) × (r.1 ≡ local) × Holds r.2 (drop 8 (contents empty))
addr_decode-addr_encode_example =
    addr_decode-addr_encode machine empty Sa.other local (some tid) empty-IsValid local-IsSa
      local_written
