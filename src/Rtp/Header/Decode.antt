-- ===== src/Rtp/Header/Decode.antt =====
-- rtp_hdr_decode on the bytes of a header.
use re.Base.{
  ℕ, zero, suc, ◌+◌, ◌*◌, ◌^◌, ◌<◌, ◌≡◌, refl, sym, ap, ◌∙◌, subst, arith, Bool, true, false, List,
  [], ◌∷◌, ◌++◌, append_assoc, length, get_or, blit, if◌then◌else◌, Bytes, be_bytes, ltb, le→ltb,
  length-append,
}
use re.Platform.{Platform}
use re.Mbuf.{Mbuf, get_left}
use re.Mbuf.Words.{read_u16-append, read_u32-append}
use re.Mbuf.Read.{Holds, ahead, ahead-Holds, skip-Holds, get_left_lem, read_mem-append}
use re.Rtp.Header.{RtpHeader, read_csrc, read_extension, read_tail, read_fields, hdr_decode}
use re.Rtp.Header.Flags.{unpacked, flags_lem}
use re.Rtp.Header.Wire.{first_flags, second_flags, wire, csrc_bytes, AllBelow, IsHeader, get_or-lt}

-- The CSRC array after `n` stores from index `i` on.
abbrev pub stored : ℕ → ℕ → List ℕ → List ℕ → List ℕ
stored zero i csrc cs = csrc
stored (suc n) i csrc cs = stored n (i + 1) (blit csrc i (get_or cs i 0 ∷ [])) cs

-- The fixed part of the header.
wire_start : RtpHeader → Bytes
wire_start hdr =
    first_flags hdr
    ∷ second_flags hdr
    ∷ (be_bytes 2 hdr.seq ++ (be_bytes 4 hdr.ts ++ be_bytes 4 hdr.ssrc))

-- The header extension: its type, its length in words, and its words.
abbrev pub extension : Bool → ℕ → ℕ → Bytes → Bytes
extension true t l x = be_bytes 2 t ++ (be_bytes 2 l ++ x)
extension false t l x = []

abbrev pub with_extension : Bool → ℕ → ℕ → RtpHeader → RtpHeader
with_extension true t l hdr = record hdr { x_type = t; x_len = l }
with_extension false t l hdr = hdr

-- Success with this header, and `rest` left to read.
abbrev pub Decoded : ℕ × RtpHeader × Mbuf → RtpHeader → Bytes → Type 0
Decoded r hdr rest = (r.0 ≡ 0) × (r.1 ≡ hdr) × Holds r.2 rest

length-csrc_bytes : (n i : ℕ) (cs : List ℕ) → length (csrc_bytes n i cs) ≡ n * 4
length-csrc_bytes zero i cs = refl
length-csrc_bytes (suc n) i cs = omega (arith, length-csrc_bytes n (i + 1) cs)

module _ (p : Platform) where
  read_csrc_lem :
      (n i : ℕ) (csrc cs : List ℕ) (rest : Bytes) (m : Mbuf)
      → AllBelow (2 ^ 32) cs
      → Holds m (csrc_bytes n i cs ++ rest)
      → ((read_csrc p n i csrc m).0 ≡ stored n i csrc cs) × Holds (read_csrc p n i csrc m).1 rest
  unfolding read_csrc
  read_csrc_lem zero i csrc cs rest m a h = (refl, h)
  read_csrc_lem (suc n) i csrc cs rest m a h =
      let v = get_or cs i 0 in
      let tail = csrc_bytes n (i + 1) cs ++ rest in
      let h1 : Holds m (be_bytes 4 v ++ tail) = h in
      let lt : v < 2 ^ 32 = get_or-lt cs (2 ^ 32) i (omega arith) a in
      let next = λ (r : ℕ × Mbuf). read_csrc p n (i + 1) (blit csrc i (p.ntoh 4 r.0 ∷ [])) r.1 in
      subst (λ r. ((next r).0 ≡ stored (suc n) i csrc cs) × Holds (next r).1 rest)
        (sym (read_u32-append p v tail h1))
        (rw (p.ntoh-value_of 4 v lt) (
          read_csrc_lem n (i + 1) (blit csrc i (v ∷ [])) cs rest (ahead m 4) a
            (ahead-Holds (be_bytes 4 v) tail h1)))

  read_extension_lem :
      (hdr : RtpHeader) (t l : ℕ) (x rest : Bytes) (m : Mbuf)
      → t < 2 ^ 16
      → l < 2 ^ 16
      → length x ≡ l * 4
      → Holds m (extension true t l x ++ rest)
      → Decoded (read_extension p hdr m) (record hdr { x_type = t; x_len = l }) rest
  unfolding read_extension
  read_extension_lem hdr t l x rest m ht hl hx h =
      let tail = be_bytes 2 l ++ (x ++ rest) in
      let h0 : Holds m (be_bytes 2 t ++ tail) = h in
      let h1 = ahead-Holds (be_bytes 2 t) tail h0 in
      let h2 = ahead-Holds (be_bytes 2 l) (x ++ rest) h1 in
      let room : ltb (get_left m) 4 ≡ false = le→ltb _ _ (omega (arith, get_left_lem h0)) in
      let fits : ltb (get_left (ahead (ahead m 2) 2)) (l * 4) ≡ false =
        le→ltb _ _ (omega (arith, get_left_lem h2, length-append x rest)) in
      rw
        (
          room,
          read_u16-append p t tail h0,
          read_u16-append p l (x ++ rest) h1,
          p.ntoh-value_of 2 t ht,
          p.ntoh-value_of 2 l hl,
          fits,
          ← hx,
        )
        (refl, refl, skip-Holds x rest h2)

  extension_lem :
      (ext : Bool) (hdr : RtpHeader) (t l : ℕ) (x rest : Bytes) (m : Mbuf)
      → t < 2 ^ 16
      → l < 2 ^ 16
      → length x ≡ l * 4
      → Holds m (extension ext t l x ++ rest)
      → Decoded
          (if ext then read_extension p hdr m else (0, hdr, m))
          (with_extension ext t l hdr)
          rest
  extension_lem true hdr t l x rest m ht hl hx h = read_extension_lem hdr t l x rest m ht hl hx h
  extension_lem false hdr t l x rest m ht hl hx h = (refl, refl, h)

  read_tail_lem :
      (hdr : RtpHeader) (cs : List ℕ) (t l : ℕ) (x rest : Bytes) (m : Mbuf)
      → AllBelow (2 ^ 32) cs
      → t < 2 ^ 16
      → l < 2 ^ 16
      → length x ≡ l * 4
      → Holds m (csrc_bytes hdr.cc 0 cs ++ (extension hdr.ext t l x ++ rest))
      → Decoded
          (read_tail p hdr m)
          (with_extension hdr.ext t l (record hdr { csrc = stored hdr.cc 0 hdr.csrc cs }))
          rest
  unfolding read_tail
  read_tail_lem hdr cs t l x rest m a ht hl hx h =
      let tail = extension hdr.ext t l x ++ rest in
      let fits : ltb (get_left m) (hdr.cc * 4) ≡ false = le→ltb _ _ (
        omega (
          arith,
          get_left_lem h,
          length-append (csrc_bytes hdr.cc 0 cs) tail,
          length-csrc_bytes hdr.cc 0 cs,
        )) in
      let (copied, h1) = read_csrc_lem hdr.cc 0 hdr.csrc cs tail m a h in
      let d =
        extension_lem hdr.ext (record hdr { csrc = (read_csrc p hdr.cc 0 hdr.csrc m).0 }) t l x rest
          _ ht hl hx h1 in
      rw fits
        (d.0, d.1 ∙ ap (λ c. with_extension hdr.ext t l (record hdr { csrc = c })) copied, d.2)

  -- Where the bytes left to read are a header of version 2 whose fields fit their widths, with at
  -- most 15 contributing sources, then, if its extension bit is set, an extension of a 16-bit type
  -- with `l` words, `l` below 2^16, then any payload: rtp_hdr_decode succeeds with the header's
  -- fields, the contributing sources stored over the first entries of the caller's array, and the
  -- type and length of the extension if there is one, and leaves exactly the payload to read.
  pub hdr_decode_lem :
      (hdr0 hdr : RtpHeader) (t l : ℕ) (x rest : Bytes) (m : Mbuf)
      → IsHeader hdr
      → t < 2 ^ 16
      → l < 2 ^ 16
      → length x ≡ l * 4
      → Holds m (wire hdr ++ (extension hdr.ext t l x ++ rest))
      → Decoded
          (hdr_decode p hdr0 m)
          (with_extension hdr.ext t l (record hdr {
            csrc = stored hdr.cc 0 hdr0.csrc hdr.csrc;
            x_type = hdr0.x_type;
            x_len = hdr0.x_len;
          }))
          rest
  unfolding hdr_decode read_fields wire_start unpacked
  hdr_decode_lem hdr0 hdr t l x rest m v ht hl hx h =
      let two = first_flags hdr ∷ second_flags hdr ∷ [] in
      let after = csrc_bytes hdr.cc 0 hdr.csrc ++ (extension hdr.ext t l x ++ rest) in
      let h' : Holds m
          (two ++ (be_bytes 2 hdr.seq ++ (be_bytes 4 hdr.ts ++ (be_bytes 4 hdr.ssrc ++ after)))) =
        subst (Holds m)
          (append_assoc (wire_start hdr) (csrc_bytes hdr.cc 0 hdr.csrc)
            (extension hdr.ext t l x ++ rest))
          h in
      let h1 = ahead-Holds two _ h' in
      let h2 = ahead-Holds (be_bytes 2 hdr.seq) _ h1 in
      let h3 = ahead-Holds (be_bytes 4 hdr.ts) _ h2 in
      let h4 = ahead-Holds (be_bytes 4 hdr.ssrc) _ h3 in
      let room : ltb (get_left m) 12 ≡ false = le→ltb _ _ (omega (arith, get_left_lem h')) in
      let sent = record hdr { csrc = hdr0.csrc; x_type = hdr0.x_type; x_len = hdr0.x_len } in
      let d = read_tail_lem sent hdr.csrc t l x rest _ v.csrc_lt ht hl hx h4 in
      rw
        (
          room,
          read_mem-append two _ h',
          read_u16-append p hdr.seq _ h1,
          read_u32-append p hdr.ts _ h2,
          read_u32-append p hdr.ssrc _ h3,
          p.ntoh-value_of 2 hdr.seq v.seq_lt,
          p.ntoh-value_of 4 hdr.ts v.ts_lt,
          p.ntoh-value_of 4 hdr.ssrc v.ssrc_lt,
        )
        (subst
          (λ q.
            Decoded (read_tail p q (ahead (ahead (ahead (ahead m 2) 2) 4) 4))
              (with_extension hdr.ext t l
                (record sent { csrc = stored hdr.cc 0 hdr0.csrc hdr.csrc }))
              rest)
          (sym (flags_lem hdr0 hdr v)) d)
