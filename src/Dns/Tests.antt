-- ===== src/Dns/Tests.antt =====
-- A message with a compressed name, and a header.
use re.Base.{
  ℕ, einval, enomem, ◌≤◌, List, Option, ◌≡◌, ◌≢◌, refl, arith, true, false, none, some, [], ◌∷◌,
  replicate, Bytes, drop,
}
use re.Machine.{machine}
use re.Mbuf.{mem_alloc, Mbuf, set_pos}
use re.Mbuf.Valid.{IsValid, contents}
use re.Mbuf.Read.{Holds}
use re.Mbuf.Outcome.{Wrote-fits}
use re.Rtp.Header.Wire.{get_or-lt}
use re.Dns.Dname.Sound.{AllBytes, dname_decode_accepts}
use re.Dns.Dname.{Result, Walk, begin, dname_decode}
use re.Dns.Dname.Bound.{Safe, Reached, dname_decode_bounds}
use re.Dns.Dname.Names.{dotted, Named, given}
use re.Dns.Dname.Decode.{dname_decode_lem}
use re.Dns.Header.{DnsHdr, dns_hdr_encode, dns_hdr_decode}
use re.Dns.Header.Wire.{IsDnsHdr, wire, dns_hdr_encode_lem}
use re.Dns.Header.RoundTrip.{dns_hdr_decode-dns_hdr_encode}

-- `abc`, and then `xy` with a pointer to it.
abbrev message : Bytes
message = 3 ∷ b'a' ∷ b'b' ∷ b'c' ∷ 0 ∷ 2 ∷ b'x' ∷ b'y' ∷ 0xc0 ∷ 0 ∷ []

abbrev received : Mbuf
received = record { buf = some message; size = 10; pos = 5; end = 10 }

received-IsValid : IsValid received
received-IsValid = record {
  block_length = refl;
  pos_le = omega arith;
  end_le = omega arith;
  small = omega arith;
}

received-Named : Named message 10 0 5 ((b'x' ∷ b'y' ∷ []) ∷ (b'a' ∷ b'b' ∷ b'c' ∷ []) ∷ []) 1 10
received-Named = Named.label 2 refl (omega arith) (omega arith) (omega arith) (
    Named.pointer 0 (omega arith) refl (omega arith) (
      Named.label 3 refl (omega arith) (omega arith) (omega arith) (Named.root (omega arith) refl)))

dname_decode_lem_example :
    dname_decode machine 0 received
    ≡ some (
        given machine (b'x' ∷ b'y' ∷ b'.' ∷ b'a' ∷ b'b' ∷ b'c' ∷ []) (record received { pos = 10 }))
dname_decode_lem_example =
    dname_decode_lem machine 0 received received-IsValid received-Named (omega arith) (omega arith)

received_bytes : AllBytes message
received_bytes i = get_or-lt message 256 i (omega arith) (ground arith)

abbrev text_given : Result
text_given =
    given machine (b'x' ∷ b'y' ∷ b'.' ∷ b'a' ∷ b'b' ∷ b'c' ∷ []) (record received { pos = 10 })

either_way :
    (o a : Option Bytes) (m : Mbuf)
    → (elim o as (λ _. Result) [ none ↦ (enomem, none, m) | some _ ↦ (0, a, m) ]).0 ≢ einval
either_way none a m = omega arith
either_way (some b) a m = omega arith

text_given_ok : text_given.0 ≢ einval
text_given_ok = either_way (mem_alloc machine 7) _ _

dname_decode_accepts_example :
    (ls : List Bytes) × (j : ℕ) × (q : ℕ) × Named message 10 0 5 ls j q
    × (j ≤ 256)
    × (text_given ≡ given machine (dotted ls) (record received { pos = q }))
dname_decode_accepts_example =
    dname_decode_accepts machine 0 received text_given received-IsValid received_bytes
      dname_decode_lem_example text_given_ok

dname_decode_bounds_example :
    (dname_decode machine 0 received ≢ none)
    × ((w : Walk) → Reached machine 0 (begin received) w → Safe w)
dname_decode_bounds_example = dname_decode_bounds machine 0 received received-IsValid

abbrev query : DnsHdr
query = record {
  id = 0x1234;
  qr = false;
  opcode = 0;
  aa = false;
  tc = false;
  rd = true;
  ra = false;
  z = 0;
  rcode = 0;
  nq = 1;
  nans = 0;
  nauth = 0;
  nadd = 0;
}

query-IsDnsHdr : IsDnsHdr query
query-IsDnsHdr = record {
  id_lt = omega arith;
  opcode_lt = omega arith;
  z_lt = omega arith;
  rcode_lt = omega arith;
  nq_lt = omega arith;
  nans_lt = omega arith;
  nauth_lt = omega arith;
  nadd_lt = omega arith;
}

abbrev empty : Mbuf
empty = record { buf = some (replicate 64 0); size = 64; pos = 0; end = 0 }

empty-IsValid : IsValid empty
empty-IsValid = record {
  block_length = refl;
  pos_le = omega arith;
  end_le = omega arith;
  small = omega arith;
}

query_written : (dns_hdr_encode machine empty query).0 ≡ 0
query_written =
    Wrote-fits empty (wire query) _
      (dns_hdr_encode_lem machine empty empty-IsValid query query-IsDnsHdr) (omega arith)

dns_hdr_decode-dns_hdr_encode_example :
    let r = dns_hdr_decode machine query (set_pos (dns_hdr_encode machine empty query).1 0) in
    (r.0 ≡ 0) × (r.1 ≡ query) × Holds r.2 (drop 12 (contents empty))
dns_hdr_decode-dns_hdr_encode_example =
    dns_hdr_decode-dns_hdr_encode machine empty query query empty-IsValid query-IsDnsHdr
      query_written
