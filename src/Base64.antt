-- ===== src/Base64.antt =====
-- src/base64/b64.c. Characters are their codes. `*olen` is returned as the function leaves it, and
-- the bytes written are returned as a list, however many they are.
pub mod Values
pub mod RoundTrip
pub mod Length
pub mod Tests
use Prim.Native.Char.{code}
use Prim.Native.String.{String}
use re.Base.{
  ℕ, ◌+◌, ◌-◌, ◌*◌, ◌/◌, ◌%◌, ◌^◌, ltb, leb, ◌==◌, ◌&&◌, ◌||◌, if◌then◌else◌, bit_and, bit_or, [],
  ◌∷◌, ◌++◌, length, get_or, Bytes, eoverflow,
}

abbrev codes : String → Bytes
codes String.[] = []
codes (String.◌∷◌ c s) = code c ∷ codes s

abbrev pub b64_table : Bytes
b64_table = codes "ABCDEFGHIJKLMNOPQRSTUVWXYZabcdefghijklmnopqrstuvwxyz0123456789+/"

abbrev pub b64url_table : Bytes
b64url_table = codes "ABCDEFGHIJKLMNOPQRSTUVWXYZabcdefghijklmnopqrstuvwxyz0123456789-_"

-- table[v >> k & 0x3f]
pub sextet : Bytes → ℕ → ℕ → ℕ
sextet table v k = get_or table (bit_and (v / 2 ^ k) 0x3f) 0

-- The loop of base64_encode: three bytes a round, the last round padded with `=`.
pub encode_loop : Bytes → Bytes
unfolding sextet
encode_loop [] = []
encode_loop (a ∷ []) =
    let v = a * 2 ^ 16 in sextet b64_table v 18 ∷ sextet b64_table v 12 ∷ b'=' ∷ b'=' ∷ []
encode_loop (a ∷ b ∷ []) =
    let v = bit_or (a * 2 ^ 16) (b * 2 ^ 8) in
    sextet b64_table v 18 ∷ sextet b64_table v 12 ∷ sextet b64_table v 6 ∷ b'=' ∷ []
encode_loop (a ∷ b ∷ c ∷ s) =
    let v = bit_or (bit_or (a * 2 ^ 16) (b * 2 ^ 8)) c in
    sextet b64_table v 18
    ∷ sextet b64_table v 12
    ∷ sextet b64_table v 6
    ∷ sextet b64_table v 0
    ∷ encode_loop s

-- The loop of base64url_encode, which writes no padding.
pub url_loop : Bytes → Bytes
unfolding sextet
url_loop [] = []
url_loop (a ∷ []) = let v = a * 2 ^ 16 in sextet b64url_table v 18 ∷ sextet b64url_table v 12 ∷ []
url_loop (a ∷ b ∷ []) =
    let v = bit_or (a * 2 ^ 16) (b * 2 ^ 8) in
    sextet b64url_table v 18 ∷ sextet b64url_table v 12 ∷ sextet b64url_table v 6 ∷ []
url_loop (a ∷ b ∷ c ∷ s) =
    let v = bit_or (bit_or (a * 2 ^ 16) (b * 2 ^ 8)) c in
    sextet b64url_table v 18
    ∷ sextet b64url_table v 12
    ∷ sextet b64url_table v 6
    ∷ sextet b64url_table v 0
    ∷ url_loop s

-- The error, the characters written, and `*olen`.
pub encode : Bytes → ℕ → ℕ × Bytes × ℕ
encode s olen =
    if ltb olen (4 * ((length s + 2) / 3))
    then (eoverflow, [], olen)
    else (let out = encode_loop s in (0, out, length out))

pub url_encode : Bytes → ℕ → ℕ × Bytes × ℕ
url_encode s olen =
    if ltb olen (4 * ((length s + 2) / 3))
    then (eoverflow, [], olen)
    else (let out = url_loop s in (0, out, length out))

pub b64val : ℕ → ℕ
b64val c =
    if leb b'A' c && leb c b'Z'
    then c - b'A' + 0
    else if leb b'a' c && leb c b'z'
    then c - b'a' + 26
    else if leb b'0' c && leb c b'9'
    then c - b'0' + 52
    else if c == b'+' || c == b'-'
    then 62
    else if c == b'/' || c == b'_'
    then 63
    else if c == b'='
    then 2 ^ 24
    else 0

-- The three bytes of a round, from `v`.
pub unpack : ℕ → Bytes
unpack v =
    (v / 2 ^ 16 % 256)
    ∷ ((if bit_and v (2 ^ 30) == 0 then bit_and (v / 2 ^ 8) 0xff ∷ [] else [])
        ++ (if bit_and v (2 ^ 24) == 0 then bit_and (v / 2 ^ 0) 0xff ∷ [] else []))

-- `v` of a round, from the values of its four characters; the shifts are of 32 bits.
pub pack : ℕ → ℕ → ℕ → ℕ → ℕ
pack a b c d =
    bit_or (bit_or (bit_or (a * 2 ^ 18 % 2 ^ 32) (b * 2 ^ 12 % 2 ^ 32)) (c * 2 ^ 6 % 2 ^ 32)) d

-- The loop of base64_decode: a character that is missing in the last round counts as `=`, and a
-- single character left over is ignored.
pub decode_loop : Bytes → Bytes
unfolding b64val
decode_loop [] = []
decode_loop (a ∷ []) = []
decode_loop (a ∷ b ∷ []) = unpack (pack (b64val a) (b64val b) (2 ^ 24) (2 ^ 24))
decode_loop (a ∷ b ∷ c ∷ []) = unpack (pack (b64val a) (b64val b) (b64val c) (2 ^ 24))
decode_loop (a ∷ b ∷ c ∷ d ∷ s) =
    unpack (pack (b64val a) (b64val b) (b64val c) (b64val d)) ++ decode_loop s

pub decode : Bytes → ℕ → ℕ × Bytes × ℕ
decode s olen =
    if ltb olen (3 * (length s / 4))
    then (eoverflow, [], olen)
    else (let out = decode_loop s in (0, out, length out))
