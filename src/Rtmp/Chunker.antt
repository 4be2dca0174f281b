-- ===== src/Rtmp/Chunker.antt =====
-- src/rtmp/chunk.c: a message cut into chunks. The bytes behind `payload` and its length are a list
-- here, and the connection is the function that sends a buffer, whose error is the result.
pub mod Wire
pub mod Sent
use re.Base.{
  ℕ, zero, suc, ◌+◌, ◌-◌, ◌%◌, ◌^◌, ◌||◌, min, Bool, true, false, not, if◌then◌else◌, ◌==◌, bit_or,
  Option, none, some, length, take, drop, Bytes, einval, enomem,
}
use re.Platform.{Platform}
use re.Mbuf.{Mbuf, ◌|=◌, alloc, write_mem}
use re.Rtmp.Header.{RtmpHeader, header_encode}

module _ (p : Platform) where
  -- A header with the next bytes behind it: the error, the header, and the buffer.
  pub put_chunk : RtmpHeader → Bytes → Mbuf → ℕ × RtmpHeader × Mbuf
  put_chunk hdr part mb =
      let (err, hdr', m) = header_encode p mb hdr in
      let (err', m') = (err, m) |= (λ m. write_mem p m part) in (err', hdr', m')

  -- The loop over the rest of the payload, which is given as many rounds as there are bytes.
  pub chunk_loop : ℕ → ℕ → RtmpHeader → Bytes → Mbuf → ℕ × Mbuf
  unfolding put_chunk
  chunk_loop zero max_chunk_sz hdr payload mb = (0, mb)
  chunk_loop (suc n) max_chunk_sz hdr payload mb =
      if length payload == 0
      then (0, mb)
      else (let chunk_sz = min (length payload) max_chunk_sz in
          let (err, hdr', m) = put_chunk hdr (take chunk_sz payload) mb in
          let rest = chunk_loop n max_chunk_sz hdr' (drop chunk_sz payload) m in
          if not (err == 0) then (err, m) else rest)

  -- The buffer of all chunks, before it is sent.
  pub chunks : RtmpHeader → Bytes → ℕ → Mbuf → ℕ × Mbuf
  unfolding put_chunk chunk_loop
  chunks hdr payload max_chunk_sz mb =
      let chunk_sz = min (length payload) max_chunk_sz in
      let (err, hdr', m) = put_chunk hdr (take chunk_sz payload) mb in
      if not (err == 0)
      then (err, m)
      else chunk_loop (length payload) max_chunk_sz (record hdr' { format = 3 })
          (drop chunk_sz payload) m

  -- The header of a message, from the arguments of rtmp_chunker.
  abbrev pub message_header : ℕ → ℕ → ℕ → ℕ → ℕ → ℕ → Bytes → RtmpHeader
  message_header format chunk_id timestamp timestamp_delta type_id stream_id payload = record {
    format = format % 2 ^ 2;
    chunk_id = chunk_id;
    timestamp = timestamp;
    timestamp_delta = timestamp_delta;
    timestamp_ext = 0;
    length = length payload % 2 ^ 32;
    type_id = type_id;
    stream_id = stream_id;
    ext_ts = false;
  }

  -- The rest of rtmp_chunker behind the allocation.
  pub send_chunks : RtmpHeader → Bytes → ℕ → (Mbuf → ℕ) → Mbuf → ℕ × Option Mbuf
  unfolding chunks
  send_chunks hdr payload max_chunk_sz tcp_send mb =
      let (err, m) = chunks hdr payload max_chunk_sz mb in
      if not (err == 0)
      then (err, none)
      else (let out : Mbuf = record m { pos = 0 } in (tcp_send out, some out))

  -- The error, and the buffer handed to the connection where it comes to that.
  pub rtmp_chunker : ℕ → ℕ → ℕ → ℕ → ℕ → ℕ → Bytes → ℕ → (Mbuf → ℕ) → ℕ × Option Mbuf
  unfolding send_chunks
  rtmp_chunker format chunk_id timestamp timestamp_delta type_id stream_id payload max_chunk_sz
        tcp_send =
      if length payload == 0 || max_chunk_sz == 0
      then (einval, none)
      else elim (alloc p ((length payload + 256) % 2 ^ 64)) [
        | none ↦ (enomem, none)
        | some mb ↦
            send_chunks
              (message_header format chunk_id timestamp timestamp_delta type_id stream_id payload)
              payload max_chunk_sz tcp_send mb
      ]
