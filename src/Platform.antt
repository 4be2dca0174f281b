-- ===== src/Platform.antt =====
-- What the library takes from the machine and the C library, none of it under src/: the allocator,
-- the layout of an unsigned integer in memory, and the byte order functions.
use re.Base.{ℕ, ◌^◌, ◌<◌, min, ◌≡◌, Option, some, length, take, get_or, Bytes, be_bytes}

pub record Platform : Type 0 where
  -- malloc(n) and realloc(b, n): the new block with its contents, or `none` for NULL. A fresh block
  -- holds any bytes.
  pub malloc : ℕ → Option Bytes
  pub realloc : Bytes → ℕ → Option Bytes
  -- The bytes of an unsigned integer of `w` bytes in memory, and the integer that `w` bytes give.
  pub bytes_of : ℕ → ℕ → Bytes
  pub value_of : Bytes → ℕ
  -- htons and htonl are `hton 2` and `hton 4`; ntohs and ntohl are `ntoh 2` and `ntoh 4`.
  pub hton : ℕ → ℕ → ℕ
  pub ntoh : ℕ → ℕ → ℕ
  pub malloc_length : (n : ℕ) (b : Bytes) → malloc n ≡ some b → length b ≡ n
  pub realloc_length : (b : Bytes) (n : ℕ) (c : Bytes) → realloc b n ≡ some c → length c ≡ n
  pub realloc_keeps :
      (b : Bytes) (n : ℕ) (c : Bytes)
      → realloc b n ≡ some c
      → take (min (length b) n) c ≡ take (min (length b) n) b
  pub length-bytes_of : (w v : ℕ) → length (bytes_of w v) ≡ w
  pub bytes_of-byte : (w v i : ℕ) → get_or (bytes_of w v) i 0 < 2 ^ 8
  pub value_of-bytes_of : (w v : ℕ) → v < 256 ^ w → value_of (bytes_of w v) ≡ v
  pub bytes_of-hton : (w v : ℕ) → v < 256 ^ w → bytes_of w (hton w v) ≡ be_bytes w v
  pub ntoh-value_of : (w v : ℕ) → v < 256 ^ w → ntoh w (value_of (be_bytes w v)) ≡ v
