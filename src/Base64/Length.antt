-- ===== src/Base64/Length.antt =====
-- How many bytes base64_decode writes.
use re.Base.{◌+◌, ◌*◌, ◌/◌, ◌%◌, ◌<◌, ◌≡◌, refl, arith, length, Bytes, false, ltb, le→ltb}
use re.Base64.{url_loop, url_encode, decode}
use re.Base64.RoundTrip.{AllBytes, decode_loop-url_loop, length-url_loop}

-- For input bytes below 256 whose number n is not a multiple of three: base64_decode of their URL
-- encoding succeeds with a destination of 3 * (n / 3) bytes, rounded down, and yet writes all n
-- bytes, which is more than the destination holds.
pub decode_overrun :
    (s : Bytes)
    → AllBytes s
    → 0 < length s % 3
    → let text = (url_encode s (4 * ((length s + 2) / 3))).1 in
      let olen = 3 * (length s / 3) in (decode text olen ≡ (0, s, length s)) × (olen < length s)
unfolding decode url_encode
decode_overrun s h lt =
    let n = 4 * ((length s + 2) / 3) in
    let fits : ltb n n ≡ false = le→ltb _ _ (omega arith) in
    let passes : ltb (3 * (length s / 3)) (3 * (length (url_loop s) / 4)) ≡ false =
      le→ltb _ _ (omega (arith, length-url_loop s)) in
    rw (fits, passes, decode_loop-url_loop s h) (refl, omega arith)
