-- ===== src/Av1/Obu.antt =====
-- The functions of src/av1/obu.c on OBU headers, and the two counts of the units in a bitstream.
pub mod Wire
pub mod Safe
pub mod Count
use re.Base.{
  ℕ, zero, suc, ◌+◌, ◌*◌, ◌/◌, ◌%◌, ◌^◌, Bool, true, false, not, ◌||◌, if◌then◌else◌, ◌==◌, ltb,
  to_int, bit_and, bit_or, Option, none, some, length, Bytes, ℤ, ebadmsg, enotsup,
}
use re.Platform.{Platform}
use re.Mbuf.{Mbuf, ◌|=◌, write_mem, get_left, advance}
use re.Mbuf.Words.{write_u8, read_u8}
use re.Av1.Leb128.{leb128_encode, leb128_decode}

-- `struct av1_obu_hdr`
pub record ObuHdr : Type 0 where
  pub obu_type : ℕ
  pub x : Bool
  pub s : Bool
  pub size : ℕ

abbrev pub zero_hdr : ObuHdr
zero_hdr = record { obu_type = 0; x = false; s = false; size = 0 }

-- The bit `(val >> k) & 1` as a `bool`.
abbrev pub flag_at : ℕ → ℕ → Bool
flag_at val k = bit_and (val / 2 ^ k) 1 == 1

-- The byte `val` of av1_obu_encode.
pub obu_byte : ℕ → Bool → ℕ
obu_byte type has_size = bit_or (bit_and type 0xf * 2 ^ 3) (to_int has_size * 2)

module _ (p : Platform) where
  -- if (payload && len) err |= mbuf_write_mem(mb, payload, len)
  pub write_payload : Option Bytes → ℕ × Mbuf → ℕ × Mbuf
  write_payload none r = r
  write_payload (some payload) r =
      if length payload == 0 then r else (r |= λ m. write_mem p m payload)

  -- av1_obu_encode; a payload that is not NULL has `len` bytes.
  pub obu_encode : Mbuf → ℕ → Bool → ℕ → Option Bytes → ℕ × Mbuf
  obu_encode mb type has_size len payload =
      let w1 = write_u8 p mb (obu_byte type has_size) in
      let w2 = if has_size then (w1 |= λ m. leb128_encode p m len) else w1 in
      write_payload payload w2

-- The part behind the call of av1_leb128_decode.
pub check_size : ObuHdr → ℕ × ℕ × Mbuf → ℕ × ObuHdr × Mbuf
check_size hdr (err, size, mb) =
    if not (err == 0)
    then (err, hdr, mb)
    else if ltb (get_left mb) size
    then (ebadmsg, hdr, mb)
    else (0, record hdr { size = size }, mb)

-- The part behind the header byte.
pub obu_fields : ℕ → Mbuf → ℕ × ObuHdr × Mbuf
obu_fields val mb =
    let hdr = record zero_hdr {
      obu_type = bit_and (val / 2 ^ 3) 0xf;
      x = flag_at val 2;
      s = flag_at val 1;
    } in
    if flag_at val 7
    then (ebadmsg, hdr, mb)
    else if hdr.x
    then (enotsup, hdr, mb)
    else if hdr.s
    then check_size hdr (leb128_decode mb)
    else (0, record hdr { size = get_left mb }, mb)

pub obu_decode : ObuHdr → Mbuf → ℕ × ObuHdr × Mbuf
obu_decode hdr mb =
    if ltb (get_left mb) 1
    then (ebadmsg, hdr, mb)
    else (let (val, m) = read_u8 mb in obu_fields val m)

-- obu_allowed_rtp
pub allowed_rtp : ℕ → Bool
allowed_rtp type = type == 1 || type == 3 || type == 5 || type == 6 || type == 7 || type == 4

-- `wrap` of the two counts.
abbrev pub wrap : Bytes → Mbuf
wrap buf = record { buf = some buf; size = length buf; pos = 0; end = length buf }

-- The loop that counts the units of which `counts` holds, for at most `fuel` rounds; each round reads
-- one byte at least. `count` has 32 bits.
pub count_loop : (ℕ → Bool) → ℕ → ℕ → Mbuf → ℕ
count_loop counts zero count mb = count
count_loop counts (suc fuel) count mb =
    let (err, hdr, m) = obu_decode zero_hdr mb in
    let rest =
      count_loop counts fuel ((count + to_int (counts hdr.obu_type)) % 2 ^ 32)
        (advance m (ℤ.pos hdr.size)) in
    if ltb 1 (get_left mb) then (if err == 0 then rest else 0) else count

pub obu_count : Bytes → ℕ
obu_count buf = count_loop (λ t. true) (length buf) 0 (wrap buf)

pub obu_count_rtp : Bytes → ℕ
obu_count_rtp buf = count_loop allowed_rtp (length buf) 0 (wrap buf)
