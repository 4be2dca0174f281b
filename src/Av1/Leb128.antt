-- ===== src/Av1/Leb128.antt =====
-- av1_leb128_encode and av1_leb128_decode of src/av1/obu.c.
pub mod RoundTrip
pub mod Safe
use re.Base.{
  ℕ, zero, suc, ◌+◌, ◌*◌, ◌/◌, ◌%◌, ◌^◌, if◌then◌else◌, ◌==◌, ltb, bit_and, bit_or, ebadmsg,
}
use re.Platform.{Platform}
use re.Mbuf.{Mbuf, ◌|=◌, get_left}
use re.Mbuf.Words.{write_u8, read_u8}

module _ (p : Platform) where
  -- The loop, for at most `n` rounds before the last byte; 9 rounds use up 63 of 64 bits.
  pub leb128_rounds : ℕ → ℕ → ℕ × Mbuf → ℕ × Mbuf
  leb128_rounds zero value r = r |= λ m. write_u8 p m (value % 256)
  leb128_rounds (suc n) value r =
      let rest =
        leb128_rounds n (value / 2 ^ 7)
          (r |= λ m. write_u8 p m (bit_or 0x80 (bit_and value 0x7f))) in
      if ltb value 0x80 then (r |= λ m. write_u8 p m (value % 256)) else rest

  pub leb128_encode : Mbuf → ℕ → ℕ × Mbuf
  leb128_encode mb value = leb128_rounds 9 value (0, mb)

-- The rounds `i` to `i + n - 1`: the error, the number (which counts only without an error), and the
-- buffer.
pub leb128_read : ℕ → ℕ → ℕ → Mbuf → ℕ × ℕ × Mbuf
leb128_read zero i ret mb = (0, ret, mb)
leb128_read (suc n) i ret mb =
    let (byte, m) = read_u8 mb in
    let ret' = bit_or ret (bit_and byte 0x7f * 2 ^ (i * 7)) in
    let rest = leb128_read n (i + 1) ret' m in
    if ltb (get_left mb) 1
    then (ebadmsg, ret, mb)
    else if bit_and byte 0x80 == 0
    then (0, ret', m)
    else rest

pub leb128_decode : Mbuf → ℕ × ℕ × Mbuf
leb128_decode mb = leb128_read 8 0 0 mb
