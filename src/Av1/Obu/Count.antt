-- ===== src/Av1/Obu/Count.antt =====
-- The counts of a bitstream that is made of whole units.
use re.Base.{
  ℕ, zero, suc, ◌+◌, ◌*◌, ◌%◌, ◌^◌, ◌≤◌, ◌<◌, ◌≡◌, refl, ◌∙◌, arith, Bool, true, false, not, ◌||◌,
  ◌==◌, leb, ltb, to_int, List, [], ◌∷◌, ◌++◌, inl, inr, Bool-cases, take_all, length, Bytes,
  length-append, le→ltb, lt→ltb,
}
use re.Mbuf.{Mbuf, get_left}
use re.Mbuf.Read.{Holds, get_left_lem, skip-Holds}
use re.Av1.Leb128.RoundTrip.{leb_bytes}
use re.Av1.Obu.{zero_hdr, count_loop, obu_count, obu_count_rtp, allowed_rtp, wrap}
use re.Av1.Obu.Wire.{obu_bytes, obu_decode_lem}

-- A unit: its type and its payload.
abbrev pub Obu : Type 0
Obu = ℕ × Bytes

abbrev pub bitstream : List Obu → Bytes
bitstream [] = []
bitstream (u ∷ us) = obu_bytes u.0 u.1 ++ bitstream us

abbrev pub AllObus : List Obu → Type 0
AllObus [] = Unit
AllObus (u ∷ us) = (u.0 < 16) × (length u.1 < 2 ^ 56) × AllObus us

abbrev pub tally : (ℕ → Bool) → List Obu → ℕ
tally counts [] = 0
tally counts (u ∷ us) = to_int (counts u.0) + tally counts us

one-le-leb_bytes : (n value : ℕ) → 1 ≤ length (leb_bytes n value)
one-le-leb_bytes zero value = omega arith
one-le-leb_bytes (suc n) value = elim (Bool-cases (ltb value 128)) [
  | inl lt ↦ rw lt (omega arith)
  | inr ge ↦ rw ge (omega arith)
]

length-bitstream : (us : List Obu) → 2 * length us ≤ length (bitstream us)
length-bitstream [] = omega arith
length-bitstream (u ∷ us) =
    let two : 2 ≤ length (obu_bytes u.0 u.1) =
      omega
        (arith, length-append (leb_bytes 9 (length u.1)) u.1, one-le-leb_bytes 9 (length u.1)) in
    omega (arith, length-append (obu_bytes u.0 u.1) (bitstream us), length-bitstream us)

count_loop_lem :
    (counts : ℕ → Bool) (fuel count : ℕ) (us : List Obu) (m : Mbuf)
    → AllObus us
    → length us ≤ fuel
    → Holds m (bitstream us)
    → count < 2 ^ 32
    → count_loop counts fuel count m ≡ (count + tally counts us) % 2 ^ 32
unfolding count_loop
count_loop_lem counts zero count [] m a h holds lt = omega arith
count_loop_lem counts zero count (u ∷ us) m a h holds lt = absurd (omega arith)
count_loop_lem counts (suc fuel) count [] m a h holds lt =
    let done : ltb 1 (get_left m) ≡ false = le→ltb _ _ (omega (arith, get_left_lem holds)) in
    rw done (omega arith)
count_loop_lem counts (suc fuel) count (u ∷ us) m (ht, hp, a) h holds lt =
    let (e, hdr_eq, left) = obu_decode_lem zero_hdr u.0 u.1 (bitstream us) m ht hp holds in
    let more : ltb 1 (get_left m) ≡ true =
      lt→ltb _ _ (omega (arith, get_left_lem holds, length-bitstream (u ∷ us))) in
    let next = skip-Holds u.1 (bitstream us) left in
    let count' = (count + to_int (counts u.0)) % 2 ^ 32 in
    rw (more, e, hdr_eq)
      (count_loop_lem counts fuel count' us _ a (omega arith) next (omega arith) ∙ omega arith)

wrap-Holds : (buf : Bytes) → length buf < 2 ^ 63 → Holds (wrap buf) buf
wrap-Holds buf h = record {
  valid = record { block_length = refl; pos_le = omega arith; end_le = omega arith; small = h };
  left = take_all (length buf) buf (omega arith);
}

all_units : (us : List Obu) → tally (λ t. true) us ≡ length us
all_units [] = refl
all_units (u ∷ us) = omega (arith, all_units us)

-- All types of units but the reserved ones, temporal delimiters (2), tile lists (8) and padding (15).
abbrev pub goes_by_rtp : ℕ → Bool
goes_by_rtp type = not (type == 0 || type == 2 || leb 8 type)

allowed_rtp_lem : (type : ℕ) → allowed_rtp type ≡ goes_by_rtp type
unfolding allowed_rtp
allowed_rtp_lem type = ground arith

same_tally : (us : List Obu) → tally allowed_rtp us ≡ tally goes_by_rtp us
same_tally [] = refl
same_tally (u ∷ us) = rw (allowed_rtp_lem u.0, same_tally us) refl

-- For a bitstream of fewer than 2^63 bytes that is made of whole units with size fields, of types
-- below 16 and with payloads of fewer than 2^56 bytes: av1_obu_count gives their number modulo
-- 2^32, and av1_obu_count_rtp, modulo 2^32 too, the number of those that are of no reserved type
-- and are no temporal delimiter, tile list or padding.
pub count-bitstream :
    (us : List Obu)
    → AllObus us
    → length (bitstream us) < 2 ^ 63
    → (obu_count (bitstream us) ≡ length us % 2 ^ 32)
      × (obu_count_rtp (bitstream us) ≡ tally goes_by_rtp us % 2 ^ 32)
unfolding obu_count obu_count_rtp
count-bitstream us a h =
    let fuel : length us ≤ length (bitstream us) = omega (arith, length-bitstream us) in
    let holds = wrap-Holds (bitstream us) h in
    let n = length (bitstream us) in
    (
      omega (arith, count_loop_lem (λ t. true) n 0 us _ a fuel holds (omega arith), all_units us),
      omega (arith, count_loop_lem allowed_rtp n 0 us _ a fuel holds (omega arith), same_tally us),
    )
