-- ===== src/Rtmp/Dechunker.antt =====
-- src/rtmp/dechunk.c but for its debug output: messages put together from chunks. The list of chunk
-- streams is a list of values in the order of the `struct list`, looked up by chunk ID; a pointer
-- into it stands for the first entry with that ID. The handler of messages is a function that
-- gives its error; the message that it is called with is a result.
pub mod Step
pub mod Streams
pub mod Receive
pub mod Message
pub mod Empty
use re.Base.{
  ℕ, ◌+◌, ◌%◌, ◌^◌, ◌||◌, min, Bool, true, false, not, if◌then◌else◌, ◌==◌, leb, ltb, Option, none,
  some, List, [], ◌∷◌, ◌++◌, length, blit, Bytes, einval, enomem, eoverflow,
}
use mathlib.Core.Option
use re.Platform.{Platform}
use re.Mbuf.{Mbuf, add_size, alloc, mem_alloc, get_left, get_space, read_mem}
use re.Mbuf.Words.{read_u32}
use re.Rtmp.Header.{RtmpHeader, header_decode, enodata}

abbrev pub enoent : ℕ
enoent = 2

abbrev pub max_chunks : ℕ
max_chunks = 64

-- `struct rtmp_chunk`
pub record Chunk : Type 0 where
  pub hdr : RtmpHeader
  pub mb : Option Mbuf

pub record Dechunker : Type 0 where
  pub chunkl : List Chunk
  pub chunk_sz : ℕ

-- A message, as the handler gets it.
abbrev pub Message : Type 0
Message = RtmpHeader × Mbuf

pub find_chunk : List Chunk → ℕ → Option Chunk
find_chunk [] chunk_id = none
find_chunk (c ∷ cs) chunk_id = if chunk_id == c.hdr.chunk_id then some c else find_chunk cs chunk_id

-- What an assignment through the pointer that find_chunk gives leaves.
pub put_back : List Chunk → ℕ → Chunk → List Chunk
put_back [] chunk_id c' = []
put_back (c ∷ cs) chunk_id c' =
    if chunk_id == c.hdr.chunk_id then c' ∷ cs else c ∷ put_back cs chunk_id c'

-- The copy of the header fields that each of the formats 0 to 2 brings.
pub update_header : RtmpHeader → RtmpHeader → RtmpHeader
update_header old hdr =
    if hdr.format == 0
    then hdr
    else if hdr.format == 1
    then record old {
      timestamp_delta = hdr.timestamp_delta;
      length = hdr.length;
      type_id = hdr.type_id;
    }
    else record old { timestamp_delta = hdr.timestamp_delta }

-- The block of `mb` takes `bs` at `at`, and the message grows to `n` bytes.
abbrev pub filled : Mbuf → ℕ → Bytes → ℕ → ℕ → Mbuf
filled mb at bs pos end = record mb {
  buf = Option.map (λ b. blit b at bs) mb.buf;
  pos = pos;
  end = end;
}

-- A message that is complete leaves its chunk stream.
pub complete : Chunk → Chunk × Option Message
complete chunk = elim chunk.mb [
  | none ↦ (chunk, none)
  | some buf ↦
      if leb buf.size buf.pos
      then (record chunk { mb = none }, some (chunk.hdr, record buf { pos = 0 }))
      else (chunk, none)
]

-- A chunk that has been read goes back into its list, and a complete message to the handler.
pub hand_over :
    (Message → ℕ)
    → Dechunker
    → List Chunk
    → ℕ
    → Mbuf
    → Chunk × Option Message
    → ℕ × Option Message × Dechunker × Mbuf
unfolding put_back
hand_over chunkh rd l id mb (c, msg) =
    (elim msg [ none ↦ 0 | some x ↦ chunkh x ], msg, record rd { chunkl = put_back l id c }, mb)

pub finish_chunk :
    (Message → ℕ)
    → Dechunker
    → List Chunk
    → ℕ
    → ℕ × Chunk × Mbuf
    → ℕ × Option Message × Dechunker × Mbuf
unfolding complete put_back hand_over
finish_chunk chunkh rd l id (err, c, mb) =
    if not (err == 0)
    then (err, none, record rd { chunkl = put_back l id c }, mb)
    else hand_over chunkh rd l id mb (complete c)

module _ (p : Platform) where
  -- sizeof(struct rtmp_dechunker) is 48.
  pub dechunker_alloc : ℕ → ℕ × Option Dechunker
  dechunker_alloc chunk_sz = if chunk_sz == 0 then (einval, none) else elim (mem_alloc p 48) [
    | none ↦ (enomem, none)
    | some _ ↦ (0, some (record { chunkl = []; chunk_sz = chunk_sz }))
  ]

  -- The formats 0 to 2: a new message begins.
  pub begin_message : ℕ → RtmpHeader → Chunk → Mbuf → ℕ × Chunk × Mbuf
  begin_message max_sz hdr chunk mb =
      let h1 = update_header chunk.hdr hdr in
      let chunk_sz = min h1.length max_sz in
      if ltb (get_left mb) chunk_sz
      then (enodata, record chunk { hdr = h1 }, mb)
      else elim (alloc p h1.length) [
        | none ↦ (enomem, record { hdr = h1; mb = none }, mb)
        | some buf ↦
            (let (err, bs, mb') = read_mem mb chunk_sz in
              if not (err == 0)
              then (err, record { hdr = h1; mb = some buf }, mb')
              else (let h2 = record h1 { format = hdr.format; ext_ts = hdr.ext_ts } in
                  let h3 =
                    if hdr.format == 1 || hdr.format == 2
                    then record h2 { timestamp = (h2.timestamp + hdr.timestamp_delta) % 2 ^ 32 }
                    else h2 in
                  (0, record { hdr = h3; mb = some (filled buf 0 bs chunk_sz chunk_sz) }, mb')))
      ]

  -- Format 3, behind the extended timestamp: the next part of a message, or the first of one that
  -- has the header of the one before.
  pub start_again : Chunk → ℕ × Chunk
  start_again chunk = elim chunk.mb [
    | some buf ↦ (0, chunk)
    | none ↦ elim (alloc p chunk.hdr.length) [
      | none ↦ (enomem, chunk)
      | some buf ↦
          (let h1 =
              if chunk.hdr.format == 0
              then record chunk.hdr { timestamp_delta = chunk.hdr.timestamp }
              else chunk.hdr in
            (
              0,
              record {
                hdr = record h1 { timestamp = (h1.timestamp + h1.timestamp_delta) % 2 ^ 32 };
                mb = some buf;
              },
            ))
    ]
  ]

  pub read_part : ℕ → Chunk → Mbuf → ℕ × Chunk × Mbuf
  read_part max_sz chunk mb = elim chunk.mb [
    | none ↦ (0, chunk, mb)
    | some buf ↦
        (let chunk_sz = min (get_space buf) max_sz in
          if ltb (get_left mb) chunk_sz
          then (enodata, chunk, mb)
          else (let (err, bs, mb') = read_mem mb chunk_sz in
              if not (err == 0) then (err, chunk, mb') else (
                0,
                record chunk {
                  mb = some (
                      filled buf buf.pos bs (add_size buf.pos chunk_sz)
                        (add_size buf.end chunk_sz));
                },
                mb',
              )))
  ]

  -- The extended timestamp of a chunk of format 3.
  pub read_ext : Chunk → Mbuf → ℕ × Chunk × Mbuf
  read_ext chunk mb =
      if not chunk.hdr.ext_ts
      then (0, chunk, mb)
      else if ltb (get_left mb) 4
      then (enodata, chunk, mb)
      else (let (v, mb') = read_u32 p mb in
          let ts = p.ntoh 4 v in
          let h1 =
            if chunk.hdr.format == 0
            then record chunk.hdr { timestamp = ts }
            else record chunk.hdr { timestamp_delta = ts } in
          (0, record chunk { hdr = h1 }, mb'))

  pub continue_message : ℕ → Chunk → Mbuf → ℕ × Chunk × Mbuf
  unfolding read_ext start_again read_part
  continue_message max_sz chunk mb =
      let (err, c1, m1) = read_ext chunk mb in
      if not (err == 0)
      then (err, c1, m1)
      else (let (err', c2) = start_again c1 in
          if not (err' == 0) then (err', c2, m1) else read_part max_sz c2 m1)

  -- create_chunk: sizeof(struct rtmp_chunk) is 80.
  pub create_chunk : List Chunk → RtmpHeader → Option (List Chunk)
  create_chunk chunkl hdr =
      Option.map (λ _. chunkl ++ record { hdr = hdr; mb = none } ∷ []) (mem_alloc p 80)

  -- The stream of a chunk, and the list with it.
  pub open_chunk : List Chunk → RtmpHeader → ℕ × Option Chunk × List Chunk
  unfolding find_chunk create_chunk
  open_chunk chunkl hdr = elim (find_chunk chunkl hdr.chunk_id) [
    | some c ↦ (0, some c, chunkl)
    | none ↦
        if hdr.format == 0
        then if ltb max_chunks (length chunkl)
          then (eoverflow, none, chunkl)
          else elim (create_chunk chunkl hdr) [
            | none ↦ (enomem, none, chunkl)
            | some l ↦ (0, some (record { hdr = hdr; mb = none }), l)
          ]
        else (enoent, none, chunkl)
  ]

  -- The rest of dechunker_receive behind the search for the chunk stream: one of its chunks.
  pub receive_chunk : ℕ → RtmpHeader → Chunk → Mbuf → ℕ × Chunk × Mbuf
  unfolding begin_message continue_message
  receive_chunk max_sz hdr chunk mb =
      if leb hdr.format 2
      then begin_message max_sz hdr chunk mb
      else continue_message max_sz chunk mb

  pub receive_found :
      (Message → ℕ)
      → Dechunker
      → RtmpHeader
      → Mbuf
      → ℕ × Option Chunk × List Chunk
      → ℕ × Option Message × Dechunker × Mbuf
  unfolding receive_chunk finish_chunk
  receive_found chunkh rd hdr mb (err, none, l) = (err, none, rd, mb)
  receive_found chunkh rd hdr mb (err, some chunk, l) =
      finish_chunk chunkh rd l hdr.chunk_id (receive_chunk rd.chunk_sz hdr chunk mb)

  pub receive_header :
      (Message → ℕ) → Dechunker → ℕ × RtmpHeader × Mbuf → ℕ × Option Message × Dechunker × Mbuf
  unfolding open_chunk receive_found
  receive_header chunkh rd (err, hdr, mb) =
      if not (err == 0)
      then (err, none, rd, mb)
      else receive_found chunkh rd hdr mb (open_chunk rd.chunkl hdr)

  -- The error, the message handed to the handler, the dechunker and the buffer.
  pub dechunker_receive : (Message → ℕ) → Dechunker → Mbuf → ℕ × Option Message × Dechunker × Mbuf
  unfolding receive_header
  dechunker_receive chunkh rd mb = receive_header chunkh rd (header_decode p mb)

pub set_chunksize : Dechunker → ℕ → Dechunker
set_chunksize rd chunk_sz = if chunk_sz == 0 then rd else record rd { chunk_sz = chunk_sz }
