-- ===== src/Rtmp/Dechunker/Message.antt =====
-- The chunks that rtmp_chunker cuts a message into are put together again.
use re.Base.{
  ℕ, zero, suc, ◌+◌, ◌-◌, ◌≤◌, ◌≡◌, ◌≢◌, refl, ap, subst, ◌∙◌, inl, inr, arith, leb, min, true,
  false, not, if◌then◌else◌, ◌==◌, Bool-cases, Option, none, some, List, [], ◌∷◌, ◌++◌, length,
  take, drop, Bytes, append_assoc, take-drop, drop_all, take_all, length-take, length-drop,
  length-append,
}
use re.Platform.{Platform}
use re.Mbuf.{Mbuf, alloc}
use re.Mbuf.Read.{Holds}
use re.Rtmp.Header.{RtmpHeader}
use re.Rtmp.Header.Wire.{IsRtmpHeader, header_wire, extended}
use re.Rtmp.Header.RoundTrip.{decoded}
use re.Rtmp.Chunker.Wire.{more_wire, message_wire}
use re.Rtmp.Dechunker.{Chunk, Dechunker, Message, finish_chunk, dechunker_receive}
use re.Rtmp.Dechunker.Step.{Whole, Filled}
use re.Rtmp.Dechunker.Streams.{CanOpen}
use re.Rtmp.Dechunker.Receive.{Waiting, finish_part, finish-Whole, receive_first, receive_more}

collect :
    ℕ × Option Message × Dechunker × Mbuf
    → ℕ × List Message × Dechunker × Mbuf
    → ℕ × List Message × Dechunker × Mbuf
collect (err, none, rd, m) after = if not (err == 0) then (err, [], rd, m) else after
collect (err, some x, rd, m) after =
    if not (err == 0) then (err, x ∷ [], rd, m) else (after.0, x ∷ after.1, after.2, after.3)

-- A call for each of `n` chunks, up to the first error: the error, the messages, the dechunker and
-- what is left.
pub receives : Platform → (Message → ℕ) → ℕ → Dechunker → Mbuf → ℕ × List Message × Dechunker × Mbuf
unfolding collect
receives p chunkh zero rd m = (0, [], rd, m)
receives p chunkh (suc n) rd m =
    let s = dechunker_receive p chunkh rd m in collect s (receives p chunkh n s.2 s.3)

-- After these calls the message has come, and nothing else of the input is gone.
abbrev pub Arrived : RtmpHeader → Bytes → Bytes → ℕ × List Message × Dechunker × Mbuf → Type 0
Arrived hdr payload rest r =
    (r.0 ≡ 0) × ((b : Mbuf) × (r.1 ≡ (decoded hdr, b) ∷ []) × Whole b payload) × Holds r.3 rest

module _ (p : Platform) (chunkh : Message → ℕ) (fine : (x : Message) → chunkh x ≡ 0)
    (h : RtmpHeader) where
  -- A message of format 0, and the header of its later chunks.
  abbrev first : RtmpHeader
  first = record h { format = 0 }

  abbrev more : RtmpHeader
  more = record (extended p first) { format = 3 }

  receives_quiet :
      (k : ℕ) (rd : Dechunker) (m : Mbuf) (s : ℕ × Option Message × Dechunker × Mbuf)
      → dechunker_receive p chunkh rd m ≡ s
      → s.0 ≡ 0
      → s.1 ≡ none
      → receives p chunkh (suc k) rd m ≡ receives p chunkh k s.2 s.3
  unfolding receives collect
  receives_quiet k rd m s e ok quiet =
      ap (λ t. collect t (receives p chunkh k t.2 t.3)) (e ∙ λ i. (ok i, quiet i, s.2, s.3))

  receives_last :
      (rd : Dechunker) (m : Mbuf) (x : Message) (s : ℕ × Option Message × Dechunker × Mbuf)
      → dechunker_receive p chunkh rd m ≡ s
      → s.0 ≡ 0
      → s.1 ≡ some x
      → receives p chunkh 1 rd m ≡ (0, x ∷ [], s.2, s.3)
  unfolding receives collect
  receives_last rd m x s e ok got =
      ap (λ t. collect t (receives p chunkh 0 t.2 t.3)) (e ∙ λ i. (ok i, got i, s.2, s.3))

  Arrived-last :
      (rd : Dechunker) (m : Mbuf) (l : List Chunk) (payload rest : Bytes) (r : ℕ × Chunk × Mbuf)
      → dechunker_receive p chunkh rd m ≡ finish_chunk chunkh rd l h.chunk_id r
      → Filled (decoded first) (length payload) payload rest r
      → Arrived first payload rest (receives p chunkh 1 rd m)
  Arrived-last rd m l payload rest r e filled =
      let (ok, (b, got, whole), left) =
        finish-Whole p chunkh rd l (decoded first) payload rest r fine filled in
      rw (receives_last rd m (decoded first, b) _ e ok got) (refl, (b, refl, whole), left)

  more_wire-nil : (n q : ℕ) (hdr : RtmpHeader) → more_wire p n q hdr [] ≡ []
  more_wire-nil zero q hdr = refl
  more_wire-nil (suc n) q hdr = refl

  -- The last chunk takes all that is left of the message.
  all_here :
      (n q : ℕ) (payload sofar left rest : Bytes) (r : ℕ × Chunk × Mbuf)
      → h.length ≡ length payload
      → sofar ++ left ≡ payload
      → leb (length left) q ≡ true
      → let c = min (length left) q in
        Filled
          (decoded first)
          h.length
          (sofar ++ take c left)
          (more_wire p n q more (drop c left) ++ rest)
          r
        → Filled (decoded first) (length payload) payload rest r
  all_here n q payload sofar left rest r hl split last filled =
      let whole : length left ≤ min (length left) q = ground arith in
      let part = take_all (min (length left) q) left whole in
      let none_left = drop_all (min (length left) q) left whole in
      let same_part : sofar ++ take (min (length left) q) left ≡ payload =
        ap (λ t. sofar ++ t) part ∙ split in
      let same_rest : more_wire p n q more (drop (min (length left) q) left) ++ rest ≡ rest =
        ap (λ t. more_wire p n q more t ++ rest) none_left
        ∙ ap (λ t. t ++ rest) (more_wire-nil n q more) in
      subst (λ z. Filled (decoded first) z payload rest r) hl
        (subst (λ z. Filled (decoded first) h.length z rest r) same_part
          (subst
            (λ z. Filled (decoded first) h.length (sofar ++ take (min (length left) q) left) z r)
            same_rest filled))

  more_lem :
      (n q : ℕ) (rd : Dechunker) (m : Mbuf) (payload sofar left rest : Bytes)
      → IsRtmpHeader first
      → h.length ≡ length payload
      → sofar ++ left ≡ payload
      → length left ≢ 0
      → length left ≤ n
      → rd.chunk_sz ≡ q
      → q ≢ 0
      → Waiting p rd (decoded first) h.length sofar
      → Holds m (more_wire p n q more left ++ rest)
      → (k : ℕ) × (k ≤ length left) × Arrived first payload rest (receives p chunkh k rd m)
  more_lem zero q rd m payload sofar left rest v hl split ne fuel hq pos w held =
      absurd (omega arith)
  more_lem (suc n) q rd m payload sofar left rest v hl split ne fuel hq pos w held =
      let c = min (length left) q in
      let part = take c left in
      let tail = drop c left in
      let nonempty : (length left == 0) ≡ false = ground arith in
      let h0 : Holds m (header_wire p more ++ (part ++ (more_wire p n q more tail ++ rest))) =
        rw
          (
            nonempty,
            append_assoc (header_wire p more ++ part) (more_wire p n q more tail) rest,
            append_assoc (header_wire p more) part (more_wire p n q more tail ++ rest),
          )
          at held in
      let whole_length : length sofar + length left ≡ length payload =
        omega (arith, ap length split, length-append sofar left) in
      let (r, filled, e) =
        receive_more p chunkh h rd m sofar part _ v w (omega (arith, length-take c left)) h0 in
      elim (Bool-cases (leb (length left) q)) [
        | inl last ↦ (
          1,
          omega arith,
          Arrived-last rd m rd.chunkl payload rest r e
              (all_here n q payload sofar left rest r hl split last filled),
        )
        | inr middle ↦
            let (ok, quiet, w', same, after) =
              finish_part p chunkh rd rd.chunkl _ (decoded first) h.length (sofar ++ part) _ r
                w.found (ground (arith, length-append sofar part, length-take c left)) filled in
            let s = finish_chunk chunkh rd rd.chunkl h.chunk_id r in
            let tail_length : length tail ≡ length left - q = ground (arith, length-drop c left) in
            let (k, le, arrived) =
              more_lem n q s.2 s.3 payload (sofar ++ part) tail rest v hl
                (append_assoc sofar part tail ∙ ap (λ t. sofar ++ t) (take-drop c left) ∙ split)
                (ground (arith, tail_length)) (ground (arith, tail_length)) (omega (arith, same))
                pos w' after in
            (suc k, ground (arith, tail_length), rw (receives_quiet k rd m s e ok quiet) arrived)
      ]

  -- What rtmp_chunker makes of a message comes out of the dechunker as the message.
  pub message_received :
      (rd : Dechunker) (m buf : Mbuf) (payload rest : Bytes)
      → IsRtmpHeader first
      → h.length ≡ length payload
      → length payload ≢ 0
      → rd.chunk_sz ≢ 0
      → CanOpen p rd.chunkl h.chunk_id
      → alloc p h.length ≡ some buf
      → Holds m (message_wire p first payload rd.chunk_sz ++ rest)
      → (k : ℕ) × (k ≤ length payload) × Arrived first payload rest (receives p chunkh k rd m)
  message_received rd m buf payload rest v hl ne pos can ha held =
      let c = min (length payload) rd.chunk_sz in
      let part = take c payload in
      let tail = drop c payload in
      let n = length payload in
      let h0 : Holds m
          (header_wire p first ++ (part ++ (more_wire p n rd.chunk_sz more tail ++ rest))) =
        rw
          (
            append_assoc (header_wire p first ++ part) (more_wire p n rd.chunk_sz more tail) rest,
            append_assoc (header_wire p first) part (more_wire p n rd.chunk_sz more tail ++ rest),
          )
          at held in
      let (l, chunk, r, found, filled, e) =
        receive_first p chunkh h rd m buf part _ v can (omega (arith, hl))
          (omega (arith, hl, length-take c payload)) ha h0 in
      elim (Bool-cases (leb n rd.chunk_sz)) [
        | inl last ↦ (
          1,
          omega arith,
          Arrived-last rd m l payload rest r e
              (all_here n rd.chunk_sz payload [] payload rest r hl refl last filled),
        )
        | inr middle ↦
            let (ok, quiet, w', same, after) =
              finish_part p chunkh rd l chunk (decoded first) h.length part _ r found
                (ground (arith, hl, length-take c payload)) filled in
            let s = finish_chunk chunkh rd l h.chunk_id r in
            let tail_length : length tail ≡ n - rd.chunk_sz =
              ground (arith, length-drop c payload) in
            let (k, le, arrived) =
              more_lem n rd.chunk_sz s.2 s.3 payload part tail rest v hl (take-drop c payload)
                (ground (arith, tail_length)) (ground (arith, tail_length)) same pos w' after in
            (suc k, ground (arith, tail_length), rw (receives_quiet k rd m s e ok quiet) arrived)
      ]
