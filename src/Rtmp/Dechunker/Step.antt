-- ===== src/Rtmp/Dechunker/Step.antt =====
-- What one call of rtmp_dechunker_receive makes of a chunk.
use re.Base.{
  ℕ, ◌+◌, ◌-◌, ◌^◌, ◌<◌, ◌≤◌, ◌≡◌, ◌≢◌, refl, ap, sym, ◌∙◌, inl, inr, arith, ltb, leb, min, true,
  false, ◌==◌, Bool-cases, none, some, [], ◌++◌, length, take, blit, splice, splice_end, take-blit,
  length-blit, Bytes, be_bytes, length-append, le→ltb,
}
use re.Platform.{Platform}
use re.Mbuf.{Mbuf, block, add_size, alloc, get_left, get_space}
use re.Mbuf.Write.{block-map-blit}
use re.Mbuf.Read.{Holds, ahead-Holds, get_left_lem, read_mem-append}
use re.Mbuf.Words.{read_u32-Holds}
use re.Mbuf.Alloc.{alloc_lem, get_space_lem}
use re.Rtmp.Header.{RtmpHeader, ts_ext}
use re.Rtmp.Header.Wire.{extension}
use re.Rtmp.Dechunker.{
  Chunk, filled, update_header, begin_message, read_ext, start_again, read_part, continue_message,
  complete,
}

-- The first bytes of a message of `total` bytes are there, and more are to come.
pub record Partial (buf : Mbuf) (total : ℕ) (sofar : Bytes) : Type 0 where
  pub size_eq : buf.size ≡ total
  pub block_length : length (block buf.buf) ≡ total
  pub pos_eq : buf.pos ≡ length sofar
  pub end_eq : buf.end ≡ length sofar
  pub le : length sofar ≤ total
  pub taken : take (length sofar) (block buf.buf) ≡ sofar
  pub small : total < 2 ^ 32

pub filled-Partial :
    (buf : Mbuf) (total i j : ℕ) (sofar part : Bytes)
    → Partial buf total sofar
    → i ≡ length sofar
    → j ≡ length sofar + length part
    → j ≤ total
    → Partial (filled buf i part j j) total (sofar ++ part)
filled-Partial buf total i j sofar part h hi hj le =
    let n = length-append sofar part in
    record {
      size_eq = h.size_eq;
      block_length =
          ap length (block-map-blit buf.buf i part)
          ∙ length-blit (block buf.buf) i part
          ∙ h.block_length;
      pos_eq = omega (arith, n);
      end_eq = omega (arith, n);
      le = omega (arith, n);
      taken =
          ap (take (length (sofar ++ part)))
            (block-map-blit buf.buf i part ∙ ap (λ k. blit (block buf.buf) k part) hi)
          ∙ take-blit (block buf.buf) part (length sofar) (length sofar) (length (sofar ++ part))
              (omega (arith, h.block_length)) (omega arith) (omega (arith, n))
          ∙ ap (λ t. splice t (length sofar) part) h.taken
          ∙ splice_end sofar part;
      small = h.small;
    }

-- All of a message: the buffer that the handler gets.
pub record Whole (buf : Mbuf) (payload : Bytes) : Type 0 where
  pub start : buf.pos ≡ 0
  pub all : Holds buf payload

pub complete-part :
    (hdr : RtmpHeader) (buf : Mbuf) (total : ℕ) (sofar : Bytes)
    → Partial buf total sofar
    → length sofar < total
    → complete (record { hdr = hdr; mb = some buf }) ≡ (record { hdr = hdr; mb = some buf }, none)
unfolding complete
complete-part hdr buf total sofar h lt =
    let more : leb buf.size buf.pos ≡ false = ground (arith, h.size_eq, h.pos_eq) in rw more refl

pub complete-Whole :
    (hdr : RtmpHeader) (buf : Mbuf) (payload : Bytes)
    → Partial buf (length payload) payload
    → (complete (record { hdr = hdr; mb = some buf })
        ≡ (record { hdr = hdr; mb = none }, some (hdr, record buf { pos = 0 })))
      × Whole (record buf { pos = 0 }) payload
unfolding complete
complete-Whole hdr buf payload h =
    let done : leb buf.size buf.pos ≡ true = ground (arith, h.size_eq, h.pos_eq) in
    (
      rw done refl,
      record {
        start = refl;
        all = record {
          valid = record {
            block_length = h.block_length ∙ sym h.size_eq;
            pos_le = omega arith;
            end_le = omega (arith, h.end_eq, h.size_eq);
            small = omega (arith, h.size_eq, h.small);
          };
          left = ap (λ n. take n (block buf.buf)) h.end_eq ∙ h.taken;
        };
      },
    )

-- The chunk that a call leaves: `sofar` of the message has come, and `rest` is left to read.
abbrev pub Filled : RtmpHeader → ℕ → Bytes → Bytes → ℕ × Chunk × Mbuf → Type 0
Filled hdr total sofar rest r =
    (r.0 ≡ 0)
    × ((b : Mbuf) × (r.1 ≡ record { hdr = hdr; mb = some b }) × Partial b total sofar)
    × Holds r.2 rest

module _ (p : Platform) where
  update_header-zero : (old hdr : RtmpHeader) → hdr.format ≡ 0 → update_header old hdr ≡ hdr
  unfolding update_header
  update_header-zero old hdr h =
      let zero_format : (hdr.format == 0) ≡ true = ground arith in rw zero_format refl

  pub begin_message_lem :
      (max_sz : ℕ) (hdr : RtmpHeader) (chunk : Chunk) (part rest : Bytes) (buf m : Mbuf)
      → hdr.format ≡ 0
      → hdr.length ≢ 0
      → length part ≡ min hdr.length max_sz
      → alloc p hdr.length ≡ some buf
      → Holds m (part ++ rest)
      → Filled hdr hdr.length part rest (begin_message p max_sz hdr chunk m)
  unfolding begin_message
  begin_message_lem max_sz hdr chunk part rest buf m hf ne hp ha held =
      let a = alloc_lem p hdr.length buf ne ha in
      let one_format : (hdr.format == 1) ≡ false = ground arith in
      let two_format : (hdr.format == 2) ≡ false = ground arith in
      let room : ltb (get_left m) (length part) ≡ false =
        le→ltb _ _ (omega (arith, get_left_lem held, length-append part rest)) in
      let empty : Partial buf hdr.length [] = record {
        size_eq = a.size_eq;
        block_length = a.length_eq;
        pos_eq = a.pos_eq;
        end_eq = a.end_eq;
        le = omega arith;
        taken = refl;
        small = a.small;
      } in
      rw
        (
          update_header-zero chunk.hdr hdr hf,
          sym hp,
          room,
          ha,
          update_header-zero chunk.hdr hdr hf,
          sym hp,
          read_mem-append part rest held,
          one_format,
          two_format,
        )
        (
          refl,
          (
            _,
            refl,
            filled-Partial buf hdr.length 0 (length part) [] part empty refl (omega arith)
                (omega arith),
          ),
          ahead-Holds part rest held,
        )

  read_ext_lem :
      (hdr : RtmpHeader) (buf m : Mbuf) (rest : Bytes)
      → hdr.format ≡ 0
      → hdr.timestamp < 2 ^ 32
      → Holds m (extension (ts_ext hdr.timestamp) ++ rest)
      → let c : Chunk = record {
        hdr = record hdr { ext_ts = leb 0xffffff hdr.timestamp };
        mb = some buf;
      } in
        let r = read_ext p c m in (r.0 ≡ 0) × (r.1 ≡ c) × Holds r.2 rest
  unfolding read_ext
  read_ext_lem hdr buf m rest hf lt held = elim (Bool-cases (leb 0xffffff hdr.timestamp)) [
    | inl big ↦
        let nz : (hdr.timestamp == 0) ≡ false = ground arith in
        let h0 : Holds m (be_bytes 4 hdr.timestamp ++ rest) = rw (big, nz) at held in
        let (e, after) = read_u32-Holds p hdr.timestamp rest h0 lt in
        let room : ltb (get_left m) 4 ≡ false = le→ltb _ _ (omega (arith, get_left_lem h0)) in
        let zero_format : (hdr.format == 0) ≡ true = ground arith in
        rw (big, room, e, zero_format) (refl, refl, after)
    | inr low ↦ let h0 : Holds m rest = rw low at held in rw low (refl, refl, h0)
  ]

  read_part_lem :
      (max_sz total : ℕ) (hdr : RtmpHeader) (buf m : Mbuf) (sofar part rest : Bytes)
      → Partial buf total sofar
      → length part ≡ min (total - length sofar) max_sz
      → Holds m (part ++ rest)
      → Filled hdr total
          (sofar ++ part)
          rest
          (read_part p max_sz (record { hdr = hdr; mb = some buf }) m)
  unfolding read_part
  read_part_lem max_sz total hdr buf m sofar part rest h hp held =
      let space : min (get_space buf) max_sz ≡ length part = ground (
        arith,
        get_space_lem buf (omega (arith, h.size_eq, h.pos_eq, h.le)),
        h.size_eq,
        h.pos_eq,
        h.le,
      ) in
      let room : ltb (get_left m) (length part) ≡ false =
        le→ltb _ _ (omega (arith, get_left_lem held, length-append part rest)) in
      let p1 : add_size buf.pos (length part) ≡ length sofar + length part =
        omega (arith, h.pos_eq, h.small) in
      let p2 : add_size buf.end (length part) ≡ length sofar + length part =
        omega (arith, h.end_eq, h.small) in
      rw (space, room, read_mem-append part rest held, p1, p2)
        (
          refl,
          (
            _,
            refl,
            filled-Partial buf total buf.pos (length sofar + length part) sofar part h h.pos_eq refl
                (omega (arith, h.le)),
          ),
          ahead-Holds part rest held,
        )

  pub continue_message_lem :
      (max_sz total : ℕ) (hdr : RtmpHeader) (buf m : Mbuf) (sofar part rest : Bytes)
      → hdr.format ≡ 0
      → hdr.timestamp < 2 ^ 32
      → Partial buf total sofar
      → length part ≡ min (total - length sofar) max_sz
      → Holds m (extension (ts_ext hdr.timestamp) ++ (part ++ rest))
      → let known : RtmpHeader = record hdr { ext_ts = leb 0xffffff hdr.timestamp } in
        Filled known total
          (sofar ++ part)
          rest
          (continue_message p max_sz (record { hdr = known; mb = some buf }) m)
  unfolding continue_message start_again
  continue_message_lem max_sz total hdr buf m sofar part rest hf lt h hp held =
      let (e, same, after) = read_ext_lem hdr buf m (part ++ rest) hf lt held in
      rw (e, same) (read_part_lem max_sz total _ buf _ sofar part rest h hp after)
