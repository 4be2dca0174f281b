-- ===== src/Av1/Leb128/Safe.antt =====
-- av1_leb128_decode on any bytes.
use re.Base.{ℕ, zero, suc, ◌+◌, ◌*◌, ◌^◌, arith, bit_and, bit_or}
use re.Mbuf.{Mbuf}
use re.Mbuf.Valid.{IsValid}
use re.Mbuf.Words.{read_u8, read_u8-IsValid}
use re.Av1.Leb128.{leb128_read, leb128_decode}

leb128_read-IsValid : (n i ret : ℕ) (m : Mbuf) → IsValid m → IsValid (leb128_read n i ret m).2
unfolding leb128_read
leb128_read-IsValid zero i ret m v = v
leb128_read-IsValid (suc n) i ret m v =
    let r = read_u8 m in
    let v1 : IsValid r.1 = read_u8-IsValid m v in
    ground (
      arith,
      v,
      v1,
      leb128_read-IsValid n (i + 1) (bit_or ret (bit_and r.0 0x7f * 2 ^ (i * 7))) r.1 v1,
    )

pub leb128_decode-IsValid : (m : Mbuf) → IsValid m → IsValid (leb128_decode m).2
unfolding leb128_decode
leb128_decode-IsValid m v = leb128_read-IsValid 8 0 0 m v
