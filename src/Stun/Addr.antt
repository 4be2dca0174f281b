-- ===== src/Stun/Addr.antt =====
-- src/stun/addr.c. Of a `struct sa` there is the address, with its family, and the port; a
-- transaction ID is `none` where it is NULL, and the address is then not masked.
pub mod RoundTrip
use re.Base.{
  ℕ, ◌/◌, ◌%◌, ◌^◌, if◌then◌else◌, ◌==◌, ltb, bit_xor, Option, none, some, [], ◌∷◌, ◌++◌, take,
  Bytes, ebadmsg,
}
use re.Platform.{Platform}
use re.Mbuf.{Mbuf, ◌|=◌, get_left, write_mem, read_mem}
use re.Mbuf.Words.{write_u8, write_u16, write_u32, read_u8, read_u16, read_u32}

-- An IPv4 address is a number, an IPv6 address its 16 bytes; other families carry neither.
pub data Sa : Type 0 where
  in4 : ℕ → ℕ → Sa
  in6 : Bytes → ℕ → Sa
  other : Sa

abbrev pub eafnosupport : ℕ
eafnosupport = 97

abbrev pub stun_magic_cookie : ℕ
stun_magic_cookie = 0x2112a442

abbrev pub xor_bytes : Bytes → Bytes → Bytes
xor_bytes [] ks = []
xor_bytes (b ∷ bs) [] = b ∷ bs
xor_bytes (b ∷ bs) (k ∷ ks) = bit_xor b k ∷ xor_bytes bs ks

pub in6_xor_tid : Bytes → Bytes → Bytes
in6_xor_tid addr6 tid = xor_bytes addr6 (0x21 ∷ 0x12 ∷ 0xa4 ∷ 0x42 ∷ take 12 tid)

-- The masks for a port, an IPv4 address and an IPv6 address.
abbrev pub mask_port : Option Bytes → ℕ → ℕ
mask_port none port = port
mask_port (some tid) port = bit_xor port (stun_magic_cookie / 2 ^ 16)

abbrev pub mask_in4 : Option Bytes → ℕ → ℕ
mask_in4 none addr = addr
mask_in4 (some tid) addr = bit_xor addr stun_magic_cookie

pub mask_in6 : Option Bytes → Bytes → Bytes
unfolding in6_xor_tid
mask_in6 none addr = addr
mask_in6 (some tid) addr = in6_xor_tid addr tid

module _ (p : Platform) where
  pub addr_encode : Mbuf → Sa → Option Bytes → ℕ × Mbuf
  unfolding mask_in6
  addr_encode mb (Sa.in4 addr port) tid =
      write_u8 p mb 0
      |= (λ m. write_u8 p m 1)
      |= (λ m. write_u16 p m (p.hton 2 (mask_port tid port)))
      |= (λ m. write_u32 p m (p.hton 4 (mask_in4 tid addr)))
  addr_encode mb (Sa.in6 addr port) tid =
      write_u8 p mb 0
      |= (λ m. write_u8 p m 2)
      |= (λ m. write_u16 p m (p.hton 2 (mask_port tid port)))
      |= (λ m. write_mem p m (mask_in6 tid addr))
  addr_encode mb Sa.other tid = (eafnosupport, mb)

  -- The branches of the family.
  pub decode_in4 : Sa → ℕ → Option Bytes → Mbuf → ℕ × Sa × Mbuf
  decode_in4 sa port tid mb =
      if ltb (get_left mb) 4
      then (ebadmsg, sa, mb)
      else (let (v, m) = read_u32 p mb in (0, Sa.in4 (mask_in4 tid (p.ntoh 4 v)) port, m))

  pub decode_in6 : Sa → ℕ → Option Bytes → Mbuf → ℕ × Sa × Mbuf
  unfolding mask_in6
  decode_in6 sa port tid mb =
      if ltb (get_left mb) 16
      then (ebadmsg, sa, mb)
      else (let (err, bs, m) = read_mem mb 16 in (0, Sa.in6 (mask_in6 tid bs) port, m))

  pub addr_decode : Mbuf → Sa → Option Bytes → ℕ × Sa × Mbuf
  unfolding decode_in4 decode_in6
  addr_decode mb sa tid =
      if ltb (get_left mb) 4
      then (ebadmsg, sa, mb)
      else (let (zero', m1) = read_u8 mb in
          let (family, m2) = read_u8 m1 in
          let (port', m3) = read_u16 p m2 in
          let port = mask_port tid (p.ntoh 2 port') in
          if family == 1
          then decode_in4 sa port tid m3
          else if family == 2
          then decode_in6 sa port tid m3
          else (eafnosupport, sa, m3))
