-- ===== src/Mbuf/Words.antt =====
-- Numbers of 1, 2, 4 and 8 bytes (mbuf_write_u8 to mbuf_read_u64), in the byte order of the host,
-- and with htons and ntohs (htonl, ntohl) in network byte order. An `intptr_t` has 8 bytes.
use re.Base.{
  ℕ, ◌+◌, ◌-◌, ◌^◌, ◌<◌, ◌≤◌, ◌≡◌, ◌≢◌, refl, true, false, ltb, slice, arith, get_or, Bytes,
  if◌then◌else◌, ◌==◌, ◌++◌, [], ◌∷◌, be_bytes, length-be_bytes,
}
use re.Platform.{Platform}
use re.Mbuf.{Mbuf, ◌|=◌, block, add_size, get_left, write_mem, read_mem}
use re.Mbuf.Valid.{IsValid}
use re.Mbuf.Outcome.{write_mem_fails}
use re.Mbuf.Write.{Wrote, write_mem_lem, Wrote-|=}
use re.Mbuf.Read.{Holds, ahead, ahead-Holds, read_mem-append, read_mem-IsValid, read_mem_short}

-- `v` is a `uint8_t`: its memory is the byte itself.
pub read_u8 : Mbuf → ℕ × Mbuf
read_u8 mb = let (err, bs, mb') = read_mem mb 1 in (if err == 0 then get_or bs 0 0 else 0, mb')

module _ (p : Platform) where
  pub write_u8 : Mbuf → ℕ → ℕ × Mbuf
  write_u8 mb v = write_mem p mb (v ∷ [])

  pub write_u16 : Mbuf → ℕ → ℕ × Mbuf
  write_u16 mb v = write_mem p mb (p.bytes_of 2 v)

  pub write_u32 : Mbuf → ℕ → ℕ × Mbuf
  write_u32 mb v = write_mem p mb (p.bytes_of 4 v)

  pub write_u64 : Mbuf → ℕ → ℕ × Mbuf
  write_u64 mb v = write_mem p mb (p.bytes_of 8 v)

  pub write_ptr : Mbuf → ℕ → ℕ × Mbuf
  write_ptr mb v = write_mem p mb (p.bytes_of 8 v)

  read_word : ℕ → Mbuf → ℕ × Mbuf
  read_word w mb =
      let (err, bs, mb') = read_mem mb w in (if err == 0 then p.value_of bs else 0, mb')

  pub read_u16 : Mbuf → ℕ × Mbuf
  unfolding read_word
  read_u16 = read_word 2

  pub read_u32 : Mbuf → ℕ × Mbuf
  unfolding read_word
  read_u32 = read_word 4

  pub read_u64 : Mbuf → ℕ × Mbuf
  unfolding read_word
  read_u64 = read_word 8

  pub read_ptr : Mbuf → ℕ × Mbuf
  unfolding read_word
  read_ptr = read_word 8

  pub write_u8_lem : (v : ℕ) (mb : Mbuf) → IsValid mb → Wrote mb (v ∷ []) (write_u8 mb v)
  unfolding write_u8
  write_u8_lem v mb h = write_mem_lem p mb (v ∷ []) h (omega arith)

  pub write_u8_fails :
      (v : ℕ) (mb : Mbuf) → IsValid mb → (write_u8 mb v).0 ≢ 0 → (write_u8 mb v).1 ≡ mb
  unfolding write_u8
  write_u8_fails v mb h = write_mem_fails p mb (v ∷ []) h (omega arith)

  write_be_lem :
      (w v : ℕ) (mb : Mbuf)
      → IsValid mb
      → w < 2 ^ 63
      → v < 256 ^ w
      → Wrote mb (be_bytes w v) (write_mem p mb (p.bytes_of w (p.hton w v)))
  write_be_lem w v mb h hw hv =
      rw (p.bytes_of-hton w v hv) (write_mem_lem p mb (be_bytes w v) h (rw length-be_bytes hw))

  pub write_u16_lem :
      (v : ℕ) (mb : Mbuf)
      → IsValid mb
      → v < 2 ^ 16
      → Wrote mb (be_bytes 2 v) (write_u16 mb (p.hton 2 v))
  unfolding write_u16
  write_u16_lem v mb h hv = write_be_lem 2 v mb h (omega arith) hv

  pub write_u32_lem :
      (v : ℕ) (mb : Mbuf)
      → IsValid mb
      → v < 2 ^ 32
      → Wrote mb (be_bytes 4 v) (write_u32 mb (p.hton 4 v))
  unfolding write_u32
  write_u32_lem v mb h hv = write_be_lem 4 v mb h (omega arith) hv

  -- A number in the order of the host.
  pub write_u32_host_lem :
      (v : ℕ) (mb : Mbuf) → IsValid mb → Wrote mb (p.bytes_of 4 v) (write_u32 mb v)
  unfolding write_u32
  write_u32_host_lem v mb h =
      write_mem_lem p mb (p.bytes_of 4 v) h (omega (arith, p.length-bytes_of 4 v))

  pub read_u32_host-Holds :
      {mb : Mbuf} (v : ℕ) (ys : Bytes)
      → Holds mb (p.bytes_of 4 v ++ ys)
      → v < 2 ^ 32
      → ((read_u32 mb).0 ≡ v) × Holds (read_u32 mb).1 ys
  unfolding read_u32
  read_u32_host-Holds {mb} v ys h hv =
      let four = p.length-bytes_of 4 v in
      let got : read_mem mb 4 ≡ (0, p.bytes_of 4 v, ahead mb 4) =
        rw four at (read_mem-append (p.bytes_of 4 v) ys h) in
      let after : Holds (ahead mb 4) ys = rw four at (ahead-Holds (p.bytes_of 4 v) ys h) in
      rw got (p.value_of-bytes_of 4 v hv, after)

  pub read_u16-append :
      {mb : Mbuf} (v : ℕ) (ys : Bytes)
      → Holds mb (be_bytes 2 v ++ ys)
      → read_u16 mb ≡ (p.value_of (be_bytes 2 v), ahead mb 2)
  unfolding read_u16
  read_u16-append v ys h = rw (read_mem-append (be_bytes 2 v) ys h)

  pub read_u32-append :
      {mb : Mbuf} (v : ℕ) (ys : Bytes)
      → Holds mb (be_bytes 4 v ++ ys)
      → read_u32 mb ≡ (p.value_of (be_bytes 4 v), ahead mb 4)
  unfolding read_u32
  read_u32-append v ys h = rw (read_mem-append (be_bytes 4 v) ys h)

pub read_u8-cons :
    {mb : Mbuf} (b : ℕ) (ys : Bytes) → Holds mb (b ∷ ys) → read_u8 mb ≡ (b, ahead mb 1)
unfolding read_u8
read_u8-cons b ys h = rw (read_mem-append (b ∷ []) ys h)

pub read_u8-Holds :
    {mb : Mbuf} (b : ℕ) (ys : Bytes)
    → Holds mb (b ∷ ys)
    → ((read_u8 mb).0 ≡ b) × Holds (read_u8 mb).1 ys
read_u8-Holds b ys h = rw (read_u8-cons b ys h) (refl, ahead-Holds (b ∷ []) ys h)

pub read_u8-nil : {mb : Mbuf} → Holds mb [] → read_u8 mb ≡ (0, mb)
unfolding read_u8
read_u8-nil h = rw (read_mem_short 1 h (omega arith))

pub read_u8-IsValid : (mb : Mbuf) → IsValid mb → IsValid (read_u8 mb).1
unfolding read_u8
read_u8-IsValid mb v = read_mem-IsValid mb 1 v

module _ (p : Platform) where
  pub read_u16-IsValid : (mb : Mbuf) → IsValid mb → IsValid (read_u16 p mb).1
  unfolding read_u16
  read_u16-IsValid mb v = read_mem-IsValid mb 2 v

  pub read_u32-IsValid : (mb : Mbuf) → IsValid mb → IsValid (read_u32 p mb).1
  unfolding read_u32
  read_u32-IsValid mb v = read_mem-IsValid mb 4 v

  -- Reading moves the position at most.
  pub read_u16_frame :
      (m : Mbuf)
      → ((read_u16 p m).1.buf ≡ m.buf)
        × ((read_u16 p m).1.size ≡ m.size)
        × ((read_u16 p m).1.end ≡ m.end)
  unfolding read_u16 read_mem
  read_u16_frame m = ground arith

  -- Reading at a place of the block, where the bytes there are known.
  pub read_u16_at :
      (v : ℕ) (m : Mbuf)
      → slice m.pos 2 (block m.buf) ≡ be_bytes 2 v
      → m.pos + 2 ≤ m.end
      → m.end < 2 ^ 63
      → read_u16 p m ≡ (p.value_of (be_bytes 2 v), record m { pos = m.pos + 2 })
  unfolding read_u16 read_mem get_left
  read_u16_at v m h k small =
      let more : ltb m.pos m.end ≡ true = ground arith in
      let fits : ltb (m.end - m.pos) 2 ≡ false = ground arith in
      let moved : add_size m.pos 2 ≡ m.pos + 2 = omega arith in rw (more, fits, h, moved) refl

  -- One more number behind what was written.
  pub then_u16 :
      (v : ℕ) (mb : Mbuf) (a : Bytes) (r : ℕ × Mbuf)
      → IsValid mb
      → Wrote mb a r
      → v < 2 ^ 16
      → Wrote mb (a ++ be_bytes 2 v) (r |= λ m. write_u16 p m (p.hton 2 v))
  then_u16 v mb a r h w hv =
      Wrote-|= mb a (be_bytes 2 v) r _ h w (λ m vm. write_u16_lem p v m vm hv)

  pub then_u32 :
      (v : ℕ) (mb : Mbuf) (a : Bytes) (r : ℕ × Mbuf)
      → IsValid mb
      → Wrote mb a r
      → v < 2 ^ 32
      → Wrote mb (a ++ be_bytes 4 v) (r |= λ m. write_u32 p m (p.hton 4 v))
  then_u32 v mb a r h w hv =
      Wrote-|= mb a (be_bytes 4 v) r _ h w (λ m vm. write_u32_lem p v m vm hv)

  -- The value of the number read, and what is left.
  pub read_u16-Holds :
      {mb : Mbuf} (v : ℕ) (ys : Bytes)
      → Holds mb (be_bytes 2 v ++ ys)
      → v < 2 ^ 16
      → (p.ntoh 2 (read_u16 p mb).0 ≡ v) × Holds (read_u16 p mb).1 ys
  read_u16-Holds v ys h hv =
      rw (read_u16-append p v ys h) (p.ntoh-value_of 2 v hv, ahead-Holds (be_bytes 2 v) ys h)

  pub read_u32-Holds :
      {mb : Mbuf} (v : ℕ) (ys : Bytes)
      → Holds mb (be_bytes 4 v ++ ys)
      → v < 2 ^ 32
      → (p.ntoh 4 (read_u32 p mb).0 ≡ v) × Holds (read_u32 p mb).1 ys
  read_u32-Holds v ys h hv =
      rw (read_u32-append p v ys h) (p.ntoh-value_of 4 v hv, ahead-Holds (be_bytes 4 v) ys h)
