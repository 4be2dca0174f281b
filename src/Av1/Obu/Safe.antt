-- ===== src/Av1/Obu/Safe.antt =====
-- Decoding a header on any bytes.
use re.Base.{ℕ, ◌/◌, ◌^◌, ◌≤◌, ◌≢◌, ◌⊎◌, arith, bit_and}
use re.Mbuf.{Mbuf, get_left}
use re.Mbuf.Valid.{IsValid}
use re.Mbuf.Words.{read_u8, read_u8-IsValid}
use re.Av1.Leb128.{leb128_decode}
use re.Av1.Leb128.Safe.{leb128_decode-IsValid}
use re.Av1.Obu.{ObuHdr, flag_at, check_size, obu_fields, obu_decode}

-- The buffer is well formed, and without an error the payload lies inside it.
abbrev pub Inside : ℕ × ObuHdr × Mbuf → Type 0
Inside r = IsValid r.2 × ((r.0 ≢ 0) ⊎ (r.1.size ≤ get_left r.2))

check_size-Inside : (hdr : ObuHdr) (r : ℕ × ℕ × Mbuf) → IsValid r.2 → Inside (check_size hdr r)
unfolding check_size
check_size-Inside hdr (err, size, mb) v = ground (arith, v)

obu_fields-Inside : (val : ℕ) (m : Mbuf) → IsValid m → Inside (obu_fields val m)
unfolding obu_fields
obu_fields-Inside val m v =
    let d = leb128_decode-IsValid m v in
    let hdr : ObuHdr = record {
      obu_type = bit_and (val / 2 ^ 3) 0xf;
      x = flag_at val 2;
      s = flag_at val 1;
      size = 0;
    } in
    ground (arith, v, check_size-Inside hdr (leb128_decode m) d)

-- Whatever bytes a well-formed buffer holds, av1_obu_decode leaves it well formed and either
-- reports an error or gives a size that does not reach past the end of the buffer.
pub obu_decode-Inside : (hdr : ObuHdr) (mb : Mbuf) → IsValid mb → Inside (obu_decode hdr mb)
unfolding obu_decode
obu_decode-Inside hdr mb v =
    let r = read_u8 mb in ground (arith, v, obu_fields-Inside r.0 r.1 (read_u8-IsValid mb v))
