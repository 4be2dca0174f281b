-- ===== src/Stun/Addr/RoundTrip.antt =====
-- stun_addr_decode on what stun_addr_encode wrote.
use re.Base.{
  ℕ, ◌+◌, ◌/◌, ◌<◌, ◌^◌, ◌≡◌, refl, ◌∙◌, arith, false, ltb, le→ltb, bit_xor_twice, bit_xor-lt,
  Option, none, some, [], ◌∷◌, ◌++◌, drop, take, length, length-append, Bytes, be_bytes,
}
use re.Platform.{Platform}
use re.Mbuf.{Mbuf, set_pos, get_left, read_mem}
use re.Mbuf.Valid.{IsValid, contents}
use re.Mbuf.Write.{Wrote, write_mem_lem, Wrote-|=}
use re.Mbuf.Read.{Holds, ahead, ahead-Holds, get_left_lem, read_mem-append}
use re.Mbuf.RoundTrip.{set_pos-Holds, Wrote-done}
use re.Mbuf.Words.{
  write_u8_lem, then_u16, then_u32, read_u8, read_u8-Holds, read_u16, read_u16-Holds,
  read_u32-Holds,
}
use re.Stun.Addr.{
  Sa, stun_magic_cookie, xor_bytes, in6_xor_tid, mask_port, mask_in4, mask_in6, addr_encode,
  addr_decode, decode_in4, decode_in6,
}

-- The address and the port have the values that their types allow.
abbrev pub IsSa : Sa → Type 0
IsSa (Sa.in4 addr port) = (addr < 2 ^ 32) × (port < 2 ^ 16)
IsSa (Sa.in6 addr port) = (length addr ≡ 16) × (port < 2 ^ 16)
IsSa Sa.other = ⊥

abbrev pub wire_of : Sa → Option Bytes → Bytes
wire_of (Sa.in4 addr port) tid =
    0 ∷ 1 ∷ (be_bytes 2 (mask_port tid port) ++ be_bytes 4 (mask_in4 tid addr))
wire_of (Sa.in6 addr port) tid = 0 ∷ 2 ∷ (be_bytes 2 (mask_port tid port) ++ mask_in6 tid addr)
wire_of Sa.other tid = []

xor_bytes_twice : (bs ks : Bytes) → xor_bytes (xor_bytes bs ks) ks ≡ bs
xor_bytes_twice [] ks = refl
xor_bytes_twice (b ∷ bs) [] = refl
xor_bytes_twice (b ∷ bs) (k ∷ ks) = λ i. bit_xor_twice b k i ∷ xor_bytes_twice bs ks i

length-xor_bytes : (bs ks : Bytes) → length (xor_bytes bs ks) ≡ length bs
length-xor_bytes [] ks = refl
length-xor_bytes (b ∷ bs) [] = refl
length-xor_bytes (b ∷ bs) (k ∷ ks) = omega (arith, length-xor_bytes bs ks)

mask_port_twice : (tid : Option Bytes) (port : ℕ) → mask_port tid (mask_port tid port) ≡ port
mask_port_twice none port = refl
mask_port_twice (some tid) port = bit_xor_twice port (stun_magic_cookie / 2 ^ 16)

mask_port-lt : (tid : Option Bytes) (port : ℕ) → port < 2 ^ 16 → mask_port tid port < 2 ^ 16
mask_port-lt none port h = h
mask_port-lt (some tid) port h = bit_xor-lt 16 port (stun_magic_cookie / 2 ^ 16) h (omega arith)

mask_in4_twice : (tid : Option Bytes) (addr : ℕ) → mask_in4 tid (mask_in4 tid addr) ≡ addr
mask_in4_twice none addr = refl
mask_in4_twice (some tid) addr = bit_xor_twice addr stun_magic_cookie

mask_in4-lt : (tid : Option Bytes) (addr : ℕ) → addr < 2 ^ 32 → mask_in4 tid addr < 2 ^ 32
mask_in4-lt none addr h = h
mask_in4-lt (some tid) addr h = bit_xor-lt 32 addr stun_magic_cookie h (omega arith)

mask_in6_twice : (tid : Option Bytes) (addr : Bytes) → mask_in6 tid (mask_in6 tid addr) ≡ addr
unfolding mask_in6 in6_xor_tid
mask_in6_twice none addr = refl
mask_in6_twice (some tid) addr = xor_bytes_twice addr (0x21 ∷ 0x12 ∷ 0xa4 ∷ 0x42 ∷ take 12 tid)

length-mask_in6 : (tid : Option Bytes) (addr : Bytes) → length (mask_in6 tid addr) ≡ length addr
unfolding mask_in6 in6_xor_tid
length-mask_in6 none addr = refl
length-mask_in6 (some tid) addr = length-xor_bytes addr (0x21 ∷ 0x12 ∷ 0xa4 ∷ 0x42 ∷ take 12 tid)

module _ (p : Platform) where
  pub addr_encode_lem :
      (mb : Mbuf) (sa : Sa) (tid : Option Bytes)
      → IsValid mb
      → IsSa sa
      → Wrote mb (wire_of sa tid) (addr_encode p mb sa tid)
  unfolding addr_encode
  addr_encode_lem mb (Sa.in4 addr port) tid v (ha, hp) =
      let w1 = write_u8_lem p 0 mb v in
      let w2 = Wrote-|= mb _ (1 ∷ []) _ _ v w1 (λ m vm. write_u8_lem p 1 m vm) in
      let w3 = then_u16 p (mask_port tid port) mb _ _ v w2 (mask_port-lt tid port hp) in
      then_u32 p (mask_in4 tid addr) mb _ _ v w3 (mask_in4-lt tid addr ha)
  addr_encode_lem mb (Sa.in6 addr port) tid v (ha, hp) =
      let w1 = write_u8_lem p 0 mb v in
      let w2 = Wrote-|= mb _ (2 ∷ []) _ _ v w1 (λ m vm. write_u8_lem p 2 m vm) in
      let w3 = then_u16 p (mask_port tid port) mb _ _ v w2 (mask_port-lt tid port hp) in
      Wrote-|= mb _ (mask_in6 tid addr) _ _ v w3 (λ m vm.
        write_mem_lem p m (mask_in6 tid addr) vm (omega (arith, length-mask_in6 tid addr, ha)))
  addr_encode_lem mb Sa.other tid v h = absurd h

  addr_decode_lem :
      (mb : Mbuf) (sa0 sa : Sa) (tid : Option Bytes) (rest : Bytes)
      → IsSa sa
      → Holds mb (wire_of sa tid ++ rest)
      → ((addr_decode p mb sa0 tid).0 ≡ 0)
        × ((addr_decode p mb sa0 tid).1 ≡ sa)
        × Holds (addr_decode p mb sa0 tid).2 rest
  unfolding addr_decode decode_in4 decode_in6
  addr_decode_lem mb sa0 (Sa.in4 addr port) tid rest (ha, hp) h =
      let port_lt = mask_port-lt tid port hp in
      let addr_lt = mask_in4-lt tid addr ha in
      let room : ltb (get_left mb) 4 ≡ false = le→ltb _ _ (omega (arith, get_left_lem h)) in
      let (e0, h1) = read_u8-Holds 0 _ h in
      let (e1, h2) = read_u8-Holds 1 _ h1 in
      let (e2, h3) = read_u16-Holds p (mask_port tid port) _ h2 port_lt in
      let room' : ltb (get_left (read_u16 p (read_u8 (read_u8 mb).1).1).1) 4 ≡ false =
        le→ltb _ _ (omega (arith, get_left_lem h3)) in
      let (e3, h4) = read_u32-Holds p (mask_in4 tid addr) rest h3 addr_lt in
      rw (room, e1, e2, room', e3, mask_port_twice tid port, mask_in4_twice tid addr)
        (refl, refl, h4)
  addr_decode_lem mb sa0 (Sa.in6 addr port) tid rest (ha, hp) h =
      let port_lt = mask_port-lt tid port hp in
      let masked = mask_in6 tid addr in
      let size : length masked ≡ 16 = length-mask_in6 tid addr ∙ ha in
      let room : ltb (get_left mb) 4 ≡ false = le→ltb _ _ (omega (arith, get_left_lem h)) in
      let (e0, h1) = read_u8-Holds 0 _ h in
      let (e1, h2) = read_u8-Holds 2 _ h1 in
      let (e2, h3) = read_u16-Holds p (mask_port tid port) (masked ++ rest) h2 port_lt in
      let m = (read_u16 p (read_u8 (read_u8 mb).1).1).1 in
      let room' : ltb (get_left m) 16 ≡ false =
        le→ltb _ _ (omega (arith, get_left_lem h3, length-append masked rest, size)) in
      let got : read_mem m 16 ≡ (0, masked, ahead m 16) =
        rw size at (read_mem-append masked rest h3) in
      let h4 : Holds (ahead m 16) rest = rw size at (ahead-Holds masked rest h3) in
      rw (room, e1, e2, room', got, mask_port_twice tid port, mask_in6_twice tid addr)
        (refl, refl, h4)
  addr_decode_lem mb sa0 Sa.other tid rest v h = absurd v

  -- For a well-formed buffer and an IPv4 or IPv6 address with its port, with a transaction ID or
  -- without: where stun_addr_encode succeeds and the position is set back, stun_addr_decode with
  -- the same transaction ID succeeds, gives the same address and port, and leaves what stood
  -- behind to read.
  pub addr_decode-addr_encode :
      (mb : Mbuf) (sa0 sa : Sa) (tid : Option Bytes)
      → IsValid mb
      → IsSa sa
      → (addr_encode p mb sa tid).0 ≡ 0
      → let r = addr_decode p (set_pos (addr_encode p mb sa tid).1 mb.pos) sa0 tid in
        (r.0 ≡ 0) × (r.1 ≡ sa) × Holds r.2 (drop (mb.pos + length (wire_of sa tid)) (contents mb))
  addr_decode-addr_encode mb sa0 sa tid v h e =
      let w = addr_encode_lem mb sa tid v h in
      addr_decode_lem _ sa0 sa tid _ h
        (set_pos-Holds mb _ (wire_of sa tid) v w.0 (Wrote-done mb (wire_of sa tid) _ w e))
