-- ===== src/Rtp/Header/RoundTrip.antt =====
-- rtp_decode on what rtp_hdr_encode wrote.
use re.Base.{
  ℕ, zero, suc, ◌+◌, ◌<◌, ◌≤◌, ◌≡◌, refl, sym, ap, ◌∙◌, subst, arith, Bool, true, false, List, [],
  ◌∷◌, ◌++◌, length, take, drop, get_or, blit, Bytes, replicate, length-blit,
}
use re.Platform.{Platform}
use re.Mbuf.{Mbuf, set_pos}
use re.Mbuf.Valid.{IsValid, contents}
use re.Mbuf.Read.{Holds}
use re.Mbuf.RoundTrip.{set_pos-Holds, Wrote-done}
use re.Rtp.Header.{RtpHeader, hdr_encode, hdr_decode, decode, check_version, zero_header}
use re.Rtp.Header.Wire.{wire, IsHeader, hdr_encode_lem}
use re.Rtp.Header.Decode.{stored, extension, with_extension, hdr_decode_lem}

-- The header received is the one sent: its CSRC list up to the count, and no extension.
pub record Received (sent got : RtpHeader) : Type 0 where
  pub ver_eq : got.ver ≡ sent.ver
  pub pad_eq : got.pad ≡ sent.pad
  pub ext_eq : got.ext ≡ sent.ext
  pub cc_eq : got.cc ≡ sent.cc
  pub m_eq : got.m ≡ sent.m
  pub pt_eq : got.pt ≡ sent.pt
  pub seq_eq : got.seq ≡ sent.seq
  pub ts_eq : got.ts ≡ sent.ts
  pub ssrc_eq : got.ssrc ≡ sent.ssrc
  pub csrc_eq : take sent.cc got.csrc ≡ take sent.cc sent.csrc

-- One more element agrees after one more store.
take-store :
    (i : ℕ) (xs cs : List ℕ)
    → i < length xs
    → length xs ≡ length cs
    → take i xs ≡ take i cs
    → take (suc i) (blit xs i (get_or cs i 0 ∷ [])) ≡ take (suc i) cs
take-store i [] cs h e t = absurd (omega arith)
take-store i (x ∷ xs) [] h e t = absurd (omega arith)
take-store zero (x ∷ xs) (c ∷ cs) h e t = refl
take-store (suc i) (x ∷ xs) (c ∷ cs) h e t =
    let ih = take-store i xs cs (omega arith) (omega arith) cc in ground (arith, ih)

take-stored :
    (n i j : ℕ) (xs cs : List ℕ)
    → i + n ≡ j
    → j ≤ length xs
    → length xs ≡ length cs
    → take i xs ≡ take i cs
    → take j (stored n i xs cs) ≡ take j cs
take-stored zero i j xs cs e h l t =
    let e' : i ≡ j = omega arith in subst (λ k. take k xs ≡ take k cs) e' t
take-stored (suc n) i j xs cs e h l t =
    let xs' = blit xs i (get_or cs i 0 ∷ []) in
    let same : length xs' ≡ length xs = length-blit xs i (get_or cs i 0 ∷ []) in
    let next : i + 1 ≡ suc i = omega arith in
    take-stored n (i + 1) j xs' cs (omega arith) (omega arith) (omega arith)
      (subst (λ k. take k xs' ≡ take k cs) (sym next) (take-store i xs cs (omega arith) l t))

no_extension : (ext : Bool) (hdr : RtpHeader) → ext ≡ false → with_extension ext 0 0 hdr ≡ hdr
no_extension true hdr h = cc
no_extension false hdr h = refl

extension-nil : (ext : Bool) → ext ≡ false → extension ext 0 0 [] ≡ []
extension-nil true h = cc
extension-nil false h = refl

check_version_lem :
    (r : ℕ × RtpHeader × Mbuf) → r.0 ≡ 0 → r.1.ver ≡ 2 → check_version r ≡ (0, r.1, r.2)
unfolding check_version
check_version_lem (err, hdr, mb) e h = rw (e, h)

Received-stored :
    (sent : RtpHeader)
    → IsHeader sent
    → Received sent
        (record sent { csrc = stored sent.cc 0 (replicate 16 0) sent.csrc; x_type = 0; x_len = 0 })
Received-stored sent v = record {
  ver_eq = refl;
  pad_eq = refl;
  ext_eq = refl;
  cc_eq = refl;
  m_eq = refl;
  pt_eq = refl;
  seq_eq = refl;
  ts_eq = refl;
  ssrc_eq = refl;
  csrc_eq =
      let zeros : List ℕ = replicate 16 0 in
      take-stored sent.cc 0 sent.cc zeros sent.csrc (omega arith) (omega (arith, v.cc_lt))
        (omega (arith, v.csrc_length)) refl;
}

module _ (p : Platform) where
  decode_sent :
      (sent : RtpHeader) (rest : Bytes) (m : Mbuf)
      → IsHeader sent
      → sent.ext ≡ false
      → Holds m (wire sent ++ rest)
      → ((decode p m).0 ≡ 0) × Received sent (decode p m).1 × Holds (decode p m).2 rest
  unfolding decode
  decode_sent sent rest m v no_ext h =
      let h' =
        subst (λ t. Holds m (wire sent ++ (t ++ rest))) (sym (extension-nil sent.ext no_ext)) h in
      let (e, got, left) =
        hdr_decode_lem p zero_header sent 0 0 [] rest m v (omega arith) (omega arith) refl h' in
      let got' = got ∙ no_extension sent.ext _ no_ext in
      let ok =
        check_version_lem (hdr_decode p zero_header m) e (ap (λ q. q.ver) got' ∙ v.version) in
      rw ok (refl, subst (Received sent) (sym got') (Received-stored sent v), left)

  -- For a well-formed buffer and a header of version 2 whose fields fit their widths, with at most
  -- 15 contributing sources and no extension: where rtp_hdr_encode succeeds and the position is
  -- set back, rtp_decode succeeds, every field and the list of contributing sources up to its
  -- count are those that were sent, and what stood behind the header is left to read.
  pub decode-hdr_encode :
      (mb : Mbuf) (hdr : RtpHeader)
      → IsValid mb
      → IsHeader hdr
      → hdr.ext ≡ false
      → (hdr_encode p mb hdr).0 ≡ 0
      → let r = decode p (set_pos (hdr_encode p mb hdr).1 mb.pos) in
        (r.0 ≡ 0) × Received hdr r.1 × Holds r.2 (drop (mb.pos + length (wire hdr)) (contents mb))
  decode-hdr_encode mb hdr v h no_ext e =
      let w = hdr_encode_lem p mb v hdr h in
      decode_sent hdr _ _ h no_ext
        (set_pos-Holds mb _ (wire hdr) v w.0 (Wrote-done mb (wire hdr) _ w e))
