-- ===== src/Rtp/Header/Wire.antt =====
-- The bytes of an RTP header, and what rtp_hdr_encode writes.
use re.Base.{
  ℕ, zero, suc, ◌+◌, ◌*◌, ◌^◌, ◌<◌, ◌≡◌, sym, subst, arith, Bool, true, false, to_int, bit_and,
  bit_or, List, [], ◌∷◌, ◌++◌, append_assoc, append-nil, length, get_or, Bytes, be_bytes,
  bit_or_shifted, bit_and_low,
}
use re.Platform.{Platform}
use re.Mbuf.{Mbuf, write_mem}
use re.Mbuf.Valid.{IsValid}
use re.Mbuf.Words.{write_u16_lem, write_u32_lem}
use re.Mbuf.Write.{Wrote, write_mem_lem, Wrote-|=}
use re.Rtp.Header.{RtpHeader, first_byte, second_byte, write_csrc, hdr_encode}

-- The CSRC list, and the whole header in the order of RFC 3550 section 5.1.
abbrev pub csrc_bytes : ℕ → ℕ → List ℕ → Bytes
csrc_bytes zero i csrc = []
csrc_bytes (suc n) i csrc = be_bytes 4 (get_or csrc i 0) ++ csrc_bytes n (i + 1) csrc

-- Version 2, padding, extension and CSRC count; marker and payload type.
abbrev pub first_flags : RtpHeader → ℕ
first_flags hdr = 2 * 64 + to_int hdr.pad * 32 + to_int hdr.ext * 16 + hdr.cc

abbrev pub second_flags : RtpHeader → ℕ
second_flags hdr = to_int hdr.m * 128 + hdr.pt

abbrev pub wire : RtpHeader → Bytes
wire hdr =
    first_flags hdr
    ∷ second_flags hdr
    ∷ (be_bytes 2 hdr.seq
        ++ (be_bytes 4 hdr.ts ++ (be_bytes 4 hdr.ssrc ++ csrc_bytes hdr.cc 0 hdr.csrc)))

abbrev pub AllBelow : ℕ → List ℕ → Type 0
AllBelow n [] = Unit
AllBelow n (x ∷ xs) = (x < n) × AllBelow n xs

-- The fields have the values that their types allow, and the CSRC count fits its four bits.
pub record IsHeader (hdr : RtpHeader) : Type 0 where
  pub version : hdr.ver ≡ 2
  pub cc_lt : hdr.cc < 16
  pub pt_lt : hdr.pt < 128
  pub seq_lt : hdr.seq < 2 ^ 16
  pub ts_lt : hdr.ts < 2 ^ 32
  pub ssrc_lt : hdr.ssrc < 2 ^ 32
  pub csrc_length : length hdr.csrc ≡ 16
  pub csrc_lt : AllBelow (2 ^ 32) hdr.csrc

pub get_or-lt : (xs : List ℕ) (n i : ℕ) → 0 < n → AllBelow n xs → get_or xs i 0 < n
get_or-lt [] n i h a = h
get_or-lt (x ∷ xs) n zero h a = a.0
get_or-lt (x ∷ xs) n (suc i) h a = get_or-lt xs n i h a.1

packed :
    (pad ext : Bool) (cc : ℕ)
    → cc < 16
    → bit_or (bit_or (bit_or 128 (to_int pad * 32)) (to_int ext * 16)) cc
      ≡ 128 + to_int pad * 32 + to_int ext * 16 + cc
packed true true cc h = bit_or_shifted 4 11 cc h
packed true false cc h = bit_or_shifted 4 10 cc h
packed false true cc h = bit_or_shifted 4 9 cc h
packed false false cc h = bit_or_shifted 4 8 cc h

pub first_byte_lem : (hdr : RtpHeader) → IsHeader hdr → first_byte hdr ≡ first_flags hdr
unfolding first_byte
first_byte_lem hdr h =
    let low : bit_and hdr.cc 15 ≡ hdr.cc = omega (arith, bit_and_low 4 hdr.cc) in
    rw (h.version, low) (packed hdr.pad hdr.ext hdr.cc h.cc_lt)

pub second_byte_lem : (hdr : RtpHeader) → IsHeader hdr → second_byte hdr ≡ second_flags hdr
unfolding second_byte
second_byte_lem hdr h =
    let low : bit_and hdr.pt 127 ≡ hdr.pt = omega (arith, bit_and_low 7 hdr.pt) in
    rw low (bit_or_shifted 7 (to_int hdr.m) hdr.pt h.pt_lt)

module _ (p : Platform) (mb : Mbuf) (v : IsValid mb) where
  write_csrc_lem :
      (n i : ℕ) (csrc : List ℕ) (a : Bytes) (r : ℕ × Mbuf)
      → AllBelow (2 ^ 32) csrc
      → Wrote mb a r
      → Wrote mb (a ++ csrc_bytes n i csrc) (write_csrc p n i csrc r)
  unfolding write_csrc
  write_csrc_lem zero i csrc a r h w = subst (λ t. Wrote mb t r) (sym (append-nil a)) w
  write_csrc_lem (suc n) i csrc a r h w =
      let x = get_or csrc i 0 in
      let step =
        Wrote-|= mb a (be_bytes 4 x) r _ v w
          (λ m vm. write_u32_lem p x m vm (get_or-lt csrc (2 ^ 32) i (omega arith) h)) in
      subst (λ t. Wrote mb t (write_csrc p (suc n) i csrc r))
        (append_assoc a (be_bytes 4 x) (csrc_bytes n (i + 1) csrc))
        (write_csrc_lem n (i + 1) csrc (a ++ be_bytes 4 x) _ h step)

  -- On a well-formed buffer and for a header of version 2 whose fields fit their widths, with at
  -- most 15 contributing sources, rtp_hdr_encode either succeeds and writes at the position a byte
  -- of 128, 32 with padding, 16 with an extension and the count of contributing sources, a byte of
  -- 128 with the marker and the payload type, and then the sequence number, timestamp, source and
  -- contributing sources in network byte order, or fails, which happens only where the block had
  -- to grow; the buffer stays well formed.
  pub hdr_encode_lem : (hdr : RtpHeader) → IsHeader hdr → Wrote mb (wire hdr) (hdr_encode p mb hdr)
  unfolding hdr_encode
  hdr_encode_lem hdr h =
      let two : Bytes = first_flags hdr ∷ second_flags hdr ∷ [] in
      let coded : Bytes = first_byte hdr ∷ second_byte hdr ∷ [] in
      let same : coded ≡ two = λ i. first_byte_lem hdr h i ∷ second_byte_lem hdr h i ∷ [] in
      let w1 =
        subst (λ t. Wrote mb t (write_mem p mb coded)) same
          (write_mem_lem p mb coded v (omega arith)) in
      let w2 =
        Wrote-|= mb two (be_bytes 2 hdr.seq) _ _ v w1
          (λ m vm. write_u16_lem p hdr.seq m vm h.seq_lt) in
      let w3 =
        Wrote-|= mb _ (be_bytes 4 hdr.ts) _ _ v w2 (λ m vm. write_u32_lem p hdr.ts m vm h.ts_lt) in
      let w4 =
        Wrote-|= mb _ (be_bytes 4 hdr.ssrc) _ _ v w3
          (λ m vm. write_u32_lem p hdr.ssrc m vm h.ssrc_lt) in
      write_csrc_lem hdr.cc 0 hdr.csrc _ _ h.csrc_lt w4
