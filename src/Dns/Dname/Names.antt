-- ===== src/Dns/Dname/Names.antt =====
-- What dns_dname_decode makes of a name: labels, then a NUL or a pointer to the rest of the name.
use re.Base.{
  ℕ, zero, suc, ◌+◌, ◌-◌, ◌*◌, ◌/◌, ◌≤◌, ◌<◌, ◌^◌, ◌%◌, min, ◌≡◌, refl, ap, subst, arith, true,
  false, if◌then◌else◌, ◌==◌, ltb, lt→ltb, bit_and, bit_and_low, bit_and_digit, none, some, List,
  replicate, take, take_all, Bool-cases, inl, inr, [], ◌∷◌, ◌++◌, length, slice, get_or, be_bytes,
  Bytes, enomem, length-append,
}
use re.Platform.{Platform}
use re.Mbuf.{Mbuf, block, get_left, add_size, mem_alloc}
use re.Mbuf.Read.{get_left_fits}
use re.Mbuf.Words.{read_u16_at}
use re.Dns.Dname.{
  Walk, Round, Result, copy_label, finish, jump, round, comp_mask, comp_loop, buf_size, offset_mask,
  str_ncpy, c_string,
}
use re.Dns.Dname.Bound.{Safe}

-- At `i` stand the labels `ls`, reached through `j` pointers; the name ends at `q`. A pointer is
-- relative to `start`, and `stop` is where the message ends.
pub data Named (b : Bytes) (stop start : ℕ) : ℕ → List Bytes → ℕ → ℕ → Type 0 where
  root : {i : ℕ} → i < stop → get_or b i 0 ≡ 0 → Named b stop start i [] 0 (i + 1)
  label :
      {i j q : ℕ} {ls : List Bytes} (len : ℕ)
      → get_or b i 0 ≡ len
      → 0 < len
      → len < 192
      → i + 1 + len ≤ stop
      → Named b stop start (i + 1 + len) ls j q
      → Named b stop start i (slice (i + 1) len b ∷ ls) j q
  pointer :
      {i j q : ℕ} {ls : List Bytes} (offset : ℕ)
      → offset < 2 ^ 14
      → slice i 2 b ≡ be_bytes 2 (0xc000 + offset)
      → i + 2 ≤ stop
      → Named b stop start ((offset + start) % 2 ^ 64) ls j q
      → Named b stop start i ls (suc j) (i + 2)

-- The labels with dots between them.
abbrev pub dotted_rest : List Bytes → Bytes
dotted_rest [] = []
dotted_rest (l ∷ ls) = b'.' ∷ (l ++ dotted_rest ls)

abbrev pub dotted : List Bytes → Bytes
dotted [] = []
dotted (l ∷ ls) = l ++ dotted_rest ls

-- The bytes of a text and the NUL behind it, or zeros from its first zero byte on.
abbrev pub terminated : Bytes → Bytes
terminated [] = 0 ∷ []
terminated (b ∷ bs) = if b == 0 then 0 ∷ 0 ∷ replicate (length bs) 0 else b ∷ terminated bs

-- Success with these bytes in a block of `n`, or ENOMEM.
abbrev pub handed : Platform → ℕ → Bytes → Mbuf → Result
handed p n str m = elim (mem_alloc p n) [ none ↦ (enomem, none, m) | some _ ↦ (0, some str, m) ]

-- Success with the text as a C string, or ENOMEM.
abbrev pub given : Platform → Bytes → Mbuf → Result
given p text m = handed p (length (text ++ (0 ∷ []))) (terminated text) m

c_string_short : (text : Bytes) → length (c_string (text ++ (0 ∷ []))) ≤ length text
c_string_short [] = omega arith
c_string_short (b ∷ bs) = elim (Bool-cases (b == 0)) [
  | inl z ↦ rw z (omega arith)
  | inr nz ↦ rw nz (omega (arith, c_string_short bs))
]

c_string_padded :
    (text : Bytes)
    → c_string (text ++ (0 ∷ []))
        ++ replicate (suc (length text) - length (c_string (text ++ (0 ∷ [])))) 0
      ≡ terminated text
c_string_padded [] = refl
c_string_padded (b ∷ bs) =
    let n = length (c_string (bs ++ (0 ∷ []))) in
    let all : suc (suc (length bs)) - 0 ≡ suc (suc (length bs)) = omega arith in
    let rest : suc (suc (length bs)) - suc n ≡ suc (length bs) - n = omega arith in
    elim (Bool-cases (b == 0)) [
      | inl z ↦ rw (z, all) refl
      | inr nz ↦ rw (nz, rest) (ap (λ t. b ∷ t) (c_string_padded bs))
    ]

str_ncpy_lem :
    (text : Bytes) → str_ncpy (text ++ (0 ∷ [])) (length (text ++ (0 ∷ []))) ≡ terminated text
unfolding str_ncpy
str_ncpy_lem text =
    let n : length (text ++ (0 ∷ [])) ≡ suc (length text) =
      omega (arith, length-append text (0 ∷ [])) in
    let s = c_string (text ++ (0 ∷ [])) in
    let short : take (suc (length text) - 1) s ≡ s =
      take_all (suc (length text) - 1) s (omega (arith, c_string_short text)) in
    rw (n, short) (c_string_padded text)

pub given_lem :
    (p : Platform) (text : Bytes) (m : Mbuf)
    → handed p
        (length (text ++ (0 ∷ [])))
        (str_ncpy (text ++ (0 ∷ [])) (length (text ++ (0 ∷ []))))
        m
      ≡ given p text m
given_lem p text m = ap (λ t. handed p (length (text ++ (0 ∷ []))) t m) (str_ncpy_lem text)

-- The labels copied behind `buf` one by one.
abbrev pub joined : Bytes → List Bytes → Bytes
joined buf [] = buf
joined buf (l ∷ ls) = joined ((buf ++ (if ltb 0 (length buf) then b'.' ∷ [] else [])) ++ l) ls

halved : (n m : ℕ) → bit_and n (m * 2) ≡ bit_and (n / 2) m * 2
halved n m =
    let e : m * 2 / 2 ≡ m = omega arith in
    let d : bit_and n (m * 2) ≡ bit_and (n / 2) m * 2 + min (n % 2) (m * 2 % 2) =
      subst (λ t. bit_and n (m * 2) ≡ bit_and (n / 2) t * 2 + min (n % 2) (m * 2 % 2)) e
        (bit_and_digit n (m * 2)) in
    omega (arith, d)

pub bit_and_top : (n : ℕ) → n < 256 → bit_and n 192 ≡ n / 64 * 64
bit_and_top n h =
    let e1 : bit_and n 192 ≡ bit_and (n / 2) 96 * 2 = halved n 96 in
    let e2 : bit_and (n / 2) 96 ≡ bit_and (n / 2 / 2) 48 * 2 = halved (n / 2) 48 in
    let e3 : bit_and (n / 2 / 2) 48 ≡ bit_and (n / 2 / 2 / 2) 24 * 2 = halved (n / 2 / 2) 24 in
    let e4 : bit_and (n / 2 / 2 / 2) 24 ≡ bit_and (n / 2 / 2 / 2 / 2) 12 * 2 =
      halved (n / 2 / 2 / 2) 12 in
    let e5 : bit_and (n / 2 / 2 / 2 / 2) 12 ≡ bit_and (n / 2 / 2 / 2 / 2 / 2) 6 * 2 =
      halved (n / 2 / 2 / 2 / 2) 6 in
    let e6 : bit_and (n / 2 / 2 / 2 / 2 / 2) 6 ≡ bit_and (n / 2 / 2 / 2 / 2 / 2 / 2) 3 * 2 =
      halved (n / 2 / 2 / 2 / 2 / 2) 3 in
    omega (arith, bit_and_low 2 (n / 2 / 2 / 2 / 2 / 2 / 2))

get_or-slice : (b : Bytes) (i x : ℕ) (xs : Bytes) → slice i 2 b ≡ x ∷ xs → get_or b i 0 ≡ x
get_or-slice [] zero x xs h = cc
get_or-slice [] (suc i) x xs h = cc
get_or-slice (y ∷ b) zero x xs h = ground (arith, h)
get_or-slice (y ∷ b) (suc i) x xs h = get_or-slice b i x xs h

pub length-joined : (buf : Bytes) (ls : List Bytes) → length buf ≤ length (joined buf ls)
length-joined buf [] = omega arith
length-joined buf (l ∷ ls) =
    let sep : Bytes = if ltb 0 (length buf) then b'.' ∷ [] else [] in
    omega (
      arith,
      length-joined ((buf ++ sep) ++ l) ls,
      length-append (buf ++ sep) l,
      length-append buf sep,
    )

-- The branch that a first byte takes.
is_pointer :
    (offset : ℕ) → offset < 2 ^ 14 → bit_and ((0xc000 + offset) / 256 % 256) comp_mask ≡ comp_mask
is_pointer offset h = omega (arith, bit_and_top ((0xc000 + offset) / 256 % 256))

is_label : (len : ℕ) → len < 192 → (bit_and len comp_mask == comp_mask) ≡ false
is_label len h = ground (arith, bit_and_top len)

module _ (p : Platform) (start : ℕ) where
  pub round-root :
      (w : Walk)
      → Safe w
      → w.mb.pos < w.mb.end
      → get_or (block w.mb.buf) w.mb.pos 0 ≡ 0
      → round p start w ≡ Round.done (finish p start w (record w.mb { pos = w.mb.pos + 1 }))
  unfolding round
  round-root w v h z =
      let moved : add_size w.mb.pos 1 ≡ w.mb.pos + 1 = omega (arith, v.end_le, v.small) in
      rw (lt→ltb _ _ h, z, moved) refl

  pub round-label :
      (w : Walk) (len : ℕ)
      → Safe w
      → get_or (block w.mb.buf) w.mb.pos 0 ≡ len
      → 0 < len
      → len < 192
      → w.mb.pos + 1 + len ≤ w.mb.end
      → length w.buf + len + 2 ≤ 256
      → round p start w ≡ Round.again (copy_label w (record w.mb { pos = w.mb.pos + 1 }) len)
  unfolding round
  round-label w len v z h0 h1 h2 h3 =
      let m = record w.mb { pos = w.mb.pos + 1 } in
      let more : ltb w.mb.pos w.mb.end ≡ true = ground arith in
      let moved : add_size w.mb.pos 1 ≡ w.mb.pos + 1 = omega (arith, v.end_le, v.small) in
      let byte : len % 2 ^ 8 ≡ len = omega arith in
      let some_len : (len == 0) ≡ false = ground arith in
      let whole : ltb (get_left m) len ≡ false = get_left_fits m len h2 in
      let fits : ltb buf_size ((len + length w.buf + 2) % 2 ^ 32) ≡ false = ground arith in
      rw (more, z, byte, moved, some_len, is_label len h1, whole, fits) refl

  -- The walk behind a pointer.
  abbrev pub jumped : Walk → ℕ → Walk
  jumped w offset = record w {
    mb = record w.mb { pos = (offset + start) % 2 ^ 64 };
    loopc = w.loopc + 1;
    comp = true;
    pos = if w.comp then w.pos else w.mb.pos + 2;
  }

  pub jump_lem :
      (w : Walk) (offset : ℕ)
      → Safe w
      → offset < 2 ^ 14
      → slice w.mb.pos 2 (block w.mb.buf) ≡ be_bytes 2 (0xc000 + offset)
      → w.mb.pos + 2 ≤ w.mb.end
      → w.loopc < 256
      → jump p start w (record w.mb { pos = w.mb.pos + 1 }) ≡ Round.again (jumped w offset)
  unfolding jump
  jump_lem w offset v ho hs h2 hl =
      let few : ltb comp_loop w.loopc ≡ false = ground arith in
      let back : (w.mb.pos + 1 + 2 ^ 64 - 1) % 2 ^ 64 ≡ w.mb.pos =
        omega (arith, v.end_le, v.small) in
      let here : record w.mb { pos = (w.mb.pos + 1 + 2 ^ 64 - 1) % 2 ^ 64 } ≡ w.mb =
        ap (λ t. record w.mb { pos = t }) back in
      let two = get_left_fits w.mb 2 h2 in
      let read = read_u16_at p (0xc000 + offset) w.mb hs h2 (omega (arith, v.end_le, v.small)) in
      let value = p.ntoh-value_of 2 (0xc000 + offset) (omega arith) in
      let low : bit_and (0xc000 + offset) offset_mask ≡ offset =
        omega (arith, bit_and_low 14 (0xc000 + offset)) in
      rw (few, here, two, read, value, low) refl

  pub round-pointer :
      (w : Walk) (offset : ℕ)
      → Safe w
      → offset < 2 ^ 14
      → slice w.mb.pos 2 (block w.mb.buf) ≡ be_bytes 2 (0xc000 + offset)
      → w.mb.pos + 2 ≤ w.mb.end
      → w.loopc < 256
      → round p start w ≡ Round.again (jumped w offset)
  unfolding round
  round-pointer w offset v ho hs h2 hl =
      let first = (0xc000 + offset) / 256 % 256 in
      let more : ltb w.mb.pos w.mb.end ≡ true = ground arith in
      let moved : add_size w.mb.pos 1 ≡ w.mb.pos + 1 = omega (arith, v.end_le, v.small) in
      let z : get_or (block w.mb.buf) w.mb.pos 0 ≡ first =
        get_or-slice (block w.mb.buf) w.mb.pos first (be_bytes 1 (0xc000 + offset)) hs in
      let byte : first % 2 ^ 8 ≡ first = omega arith in
      let some_len : (first == 0) ≡ false = ground arith in
      let ptr : (bit_and first comp_mask == comp_mask) ≡ true =
        ground (arith, is_pointer offset ho) in
      rw (more, z, byte, moved, some_len, ptr, jump_lem w offset v ho hs h2 hl) refl
