-- ===== src/Base64/Tests.antt =====
-- The theorems about Base64 applied to short inputs of every length modulo three.
use re.Base.{◌<◌, ◌≡◌, arith, [], ◌∷◌, length}
use re.Base64.{encode, url_encode, decode}
use re.Base64.RoundTrip.{decode-encode, decode-url_encode}
use re.Base64.Length.{decode_overrun}

decode-encode_example :
    ((encode (77 ∷ 97 ∷ 110 ∷ 255 ∷ []) 8).0 ≡ 0)
    × (length (encode (77 ∷ 97 ∷ 110 ∷ 255 ∷ []) 8).1 ≡ 8)
    × (decode (encode (77 ∷ 97 ∷ 110 ∷ 255 ∷ []) 8).1 6 ≡ (0, 77 ∷ 97 ∷ 110 ∷ 255 ∷ [], 4))
decode-encode_example =
    decode-encode (77 ∷ 97 ∷ 110 ∷ 255 ∷ []) 8 6 (ground arith) (omega arith) (omega arith)

decode-url_encode_example :
    ((url_encode (0 ∷ 255 ∷ []) 4).0 ≡ 0)
    × (length (url_encode (0 ∷ 255 ∷ []) 4).1 ≡ 3)
    × (decode (url_encode (0 ∷ 255 ∷ []) 4).1 3 ≡ (0, 0 ∷ 255 ∷ [], 2))
decode-url_encode_example =
    decode-url_encode (0 ∷ 255 ∷ []) 4 3 (ground arith) (omega arith) (omega arith)

decode_overrun_example :
    (decode (url_encode (77 ∷ 97 ∷ 110 ∷ 33 ∷ []) 8).1 3 ≡ (0, 77 ∷ 97 ∷ 110 ∷ 33 ∷ [], 4))
    × (3 < 4)
decode_overrun_example = decode_overrun (77 ∷ 97 ∷ 110 ∷ 33 ∷ []) (ground arith) (omega arith)
