-- ===== src/Rtmp/Chunker/Wire.antt =====
-- The bytes of a message in chunks, and that rtmp_chunker writes them.
use re.Base.{
  ℕ, zero, suc, ◌^◌, ◌<◌, ◌≡◌, refl, ap, inl, inr, arith, min, not, if◌then◌else◌, ◌==◌,
  bit_or_eq_zero, Bool-cases, [], ◌++◌, length, take, drop, Bytes, length-take, length-drop,
}
use re.Platform.{Platform}
use re.Mbuf.{Mbuf}
use re.Mbuf.Valid.{IsValid}
use re.Mbuf.Write.{Wrote, Wrote-|=, Wrote-then, write_mem_lem}
use re.Mbuf.Outcome.{Wrote-nil}
use re.Rtmp.Header.{RtmpHeader}
use re.Rtmp.Header.Wire.{IsRtmpHeader, extended, ext_of, header_wire, header_encode_lem, ext_of-lt}
use re.Rtmp.Chunker.{put_chunk, chunk_loop, chunks}

module _ (p : Platform) where
  -- The chunks behind the first one, each with the header `hdr`.
  abbrev pub more_wire : ℕ → ℕ → RtmpHeader → Bytes → Bytes
  more_wire zero max_chunk_sz hdr payload = []
  more_wire (suc n) max_chunk_sz hdr payload =
      if length payload == 0
      then []
      else (let chunk_sz = min (length payload) max_chunk_sz in
          (header_wire p hdr ++ take chunk_sz payload)
          ++ more_wire n max_chunk_sz hdr (drop chunk_sz payload))

  abbrev pub message_wire : RtmpHeader → Bytes → ℕ → Bytes
  message_wire hdr payload max_chunk_sz =
      let chunk_sz = min (length payload) max_chunk_sz in
      (header_wire p hdr ++ take chunk_sz payload)
      ++ more_wire (length payload) max_chunk_sz (record (extended p hdr) { format = 3 })
          (drop chunk_sz payload)

  put_chunk_lem :
      (hdr : RtmpHeader) (part : Bytes) (mb : Mbuf)
      → IsValid mb
      → IsRtmpHeader hdr
      → length part < 2 ^ 63
      → let r = put_chunk p hdr part mb in
        Wrote mb (header_wire p hdr ++ part) (r.0, r.2) × ((r.0 ≡ 0) → r.1 ≡ extended p hdr)
  unfolding put_chunk
  put_chunk_lem hdr part mb v h lt =
      let (w, e) = header_encode_lem p hdr mb v h in
      (
        Wrote-|= mb _ part _ _ v w (λ m vm. write_mem_lem p m part vm lt),
        λ ok. e (bit_or_eq_zero _ _ ok).0,
      )

  -- A step of the chunker, behind which comes `w` where nothing has failed.
  then_rest :
      (hdr : RtmpHeader) (part more : Bytes) (mb : Mbuf) (w : RtmpHeader → Mbuf → ℕ × Mbuf)
      → IsValid mb
      → IsRtmpHeader hdr
      → length part < 2 ^ 63
      → ((m : Mbuf) → IsValid m → Wrote m more (w (extended p hdr) m))
      → let r = put_chunk p hdr part mb in
        Wrote mb
          ((header_wire p hdr ++ part) ++ more)
          (if not (r.0 == 0) then (r.0, r.2) else w r.1 r.2)
  then_rest hdr part more mb w v h lt f =
      let r = put_chunk p hdr part mb in
      let (wrote, e) = put_chunk_lem hdr part mb v h lt in
      let both = Wrote-then mb _ more (r.0, r.2) (w (extended p hdr)) v wrote f in
      elim (Bool-cases (r.0 == 0)) [
        | inl ok ↦ rw (ok, e (ground arith)) (rw ok at both)
        | inr failed ↦ rw failed (rw failed at both)
      ]

  chunk_loop_lem :
      (n max_chunk_sz : ℕ) (hdr : RtmpHeader) (payload : Bytes) (mb : Mbuf)
      → IsValid mb
      → IsRtmpHeader hdr
      → hdr.format ≡ 3
      → length payload < 2 ^ 63
      → Wrote mb (more_wire n max_chunk_sz hdr payload) (chunk_loop p n max_chunk_sz hdr payload mb)
  unfolding chunk_loop
  chunk_loop_lem zero max_chunk_sz hdr payload mb v h three lt = Wrote-nil mb v
  chunk_loop_lem (suc n) max_chunk_sz hdr payload mb v h three lt =
      elim (Bool-cases (length payload == 0)) [
        | inl done ↦ rw done (Wrote-nil mb v)
        | inr more ↦
            let c = min (length payload) max_chunk_sz in
            let kept : ext_of p hdr ≡ hdr.timestamp_ext = ground arith in
            let same : extended p hdr ≡ hdr = ap (λ x. record hdr { timestamp_ext = x }) kept in
            rw more (
              then_rest hdr (take c payload) _ mb
                (λ hdr' m. chunk_loop p n max_chunk_sz hdr' (drop c payload) m) v h
                (omega (arith, length-take c payload))
                (λ m vm. rw same (
                  chunk_loop_lem n max_chunk_sz hdr (drop c payload) m vm h three
                    (omega (arith, length-drop c payload)))))
      ]

  pub IsRtmpHeader-continued :
      (hdr : RtmpHeader) → IsRtmpHeader hdr → IsRtmpHeader (record (extended p hdr) { format = 3 })
  IsRtmpHeader-continued hdr h = record {
    format_lt = omega arith;
    id_ge = h.id_ge;
    id_lt = h.id_lt;
    timestamp_lt = h.timestamp_lt;
    delta_lt = h.delta_lt;
    ext_lt = ext_of-lt p hdr h;
    length_lt = h.length_lt;
    type_lt = h.type_lt;
    stream_lt = h.stream_lt;
  }

  pub chunks_lem :
      (hdr : RtmpHeader) (payload : Bytes) (max_chunk_sz : ℕ) (mb : Mbuf)
      → IsValid mb
      → IsRtmpHeader hdr
      → length payload < 2 ^ 63
      → Wrote mb (message_wire hdr payload max_chunk_sz) (chunks p hdr payload max_chunk_sz mb)
  unfolding chunks
  chunks_lem hdr payload max_chunk_sz mb v h lt =
      let c = min (length payload) max_chunk_sz in
      then_rest hdr (take c payload) _ mb
        (λ hdr' m.
          chunk_loop p (length payload) max_chunk_sz (record hdr' { format = 3 }) (drop c payload)
            m)
        v h (omega (arith, length-take c payload))
        (λ m vm.
          chunk_loop_lem (length payload) max_chunk_sz _ (drop c payload) m vm
            (IsRtmpHeader-continued hdr h) refl (omega (arith, length-drop c payload)))
