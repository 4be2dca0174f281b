-- ===== src/Rtmp/Chunker/Sent.antt =====
-- What rtmp_chunker hands to the connection.
use re.Base.{
  ℕ, ◌+◌, ◌%◌, ◌^◌, ◌||◌, ◌<◌, ◌≤◌, ◌≡◌, ◌≢◌, refl, ap, sym, subst, ◌∙◌, inl, inr, arith, false,
  ◌==◌, Bool-cases, Option-cases, none, some, [], ◌++◌, length, take, drop, drop-nil, append-nil,
  Bytes,
}
use re.Platform.{Platform}
use re.Mbuf.{Mbuf, block, alloc}
use re.Mbuf.Valid.{IsValid, contents}
use re.Mbuf.Write.{Wrote}
use re.Mbuf.Read.{Holds}
use re.Mbuf.RoundTrip.{set_pos-Holds, Wrote-done}
use re.Mbuf.Outcome.{Wrote-fits}
use re.Mbuf.Alloc.{Allocated, alloc_lem}
use re.Rtmp.Header.{RtmpHeader}
use re.Rtmp.Header.Wire.{IsRtmpHeader}
use re.Rtmp.Chunker.{chunks, message_header, send_chunks, rtmp_chunker}
use re.Rtmp.Chunker.Wire.{message_wire, chunks_lem}

Allocated-IsValid : (n : ℕ) (mb : Mbuf) → Allocated n mb → IsValid mb
Allocated-IsValid n mb a = record {
  block_length = a.length_eq ∙ sym a.size_eq;
  pos_le = omega (arith, a.pos_eq, a.end_eq);
  end_le = omega (arith, a.end_eq);
  small = omega (arith, a.size_eq, a.small);
}

-- What is written to a fresh buffer is all that it holds.
fresh-Holds :
    (n : ℕ) (mb : Mbuf) (src : Bytes) (r : ℕ × Mbuf)
    → Allocated n mb
    → Wrote mb src r
    → r.0 ≡ 0
    → Holds (record r.1 { pos = 0 }) src
fresh-Holds n mb src r a w ok =
    let held = set_pos-Holds mb r.1 src (Allocated-IsValid n mb a) w.0 (Wrote-done mb src r w ok) in
    let nothing : contents mb ≡ [] = ap (λ k. take k (block mb.buf)) a.end_eq in
    let all : src ++ drop (mb.pos + length src) (contents mb) ≡ src =
      ap (λ t. src ++ drop (mb.pos + length src) t) nothing
      ∙ ap (λ t. src ++ t) (drop-nil (mb.pos + length src))
      ∙ append-nil src in
    subst (λ k. Holds (record r.1 { pos = k }) src) a.pos_eq
      (subst (Holds (record r.1 { pos = mb.pos })) all held)

module _ (p : Platform) where
  send_chunks_lem :
      (hdr : RtmpHeader) (payload : Bytes) (max_chunk_sz n : ℕ) (tcp_send : Mbuf → ℕ)
      (mb out : Mbuf)
      → Allocated n mb
      → IsRtmpHeader hdr
      → length payload < 2 ^ 63
      → (send_chunks p hdr payload max_chunk_sz tcp_send mb).1 ≡ some out
      → Holds out (message_wire p hdr payload max_chunk_sz)
  unfolding send_chunks
  send_chunks_lem hdr payload max_chunk_sz n tcp_send mb out a v lt sent =
      let r = chunks p hdr payload max_chunk_sz mb in
      elim (Bool-cases (r.0 == 0)) [
        | inr failed ↦ absurd (let h : none ≡ some out = rw failed at sent in cc)
        | inl ok ↦
            let h : some (record r.1 { pos = 0 }) ≡ some out = rw ok at sent in
            let same : record r.1 { pos = 0 } ≡ out = cc in
            subst (λ o. Holds o (message_wire p hdr payload max_chunk_sz)) same
              (fresh-Holds n mb (message_wire p hdr payload max_chunk_sz) r a
                (chunks_lem p hdr payload max_chunk_sz mb (Allocated-IsValid n mb a) v lt)
                (ground arith))
      ]

  -- The buffer handed to the connection holds the chunks and nothing else.
  pub sent_lem :
      (id ts delta type stream : ℕ) (payload : Bytes) (max_chunk_sz : ℕ) (tcp_send : Mbuf → ℕ)
      (out : Mbuf)
      → let hdr = message_header p 0 id ts delta type stream payload in
        IsRtmpHeader hdr
        → length payload < 2 ^ 24
        → (rtmp_chunker p 0 id ts delta type stream payload max_chunk_sz tcp_send).1 ≡ some out
        → Holds out (message_wire p hdr payload max_chunk_sz)
          × (length payload ≢ 0)
          × (max_chunk_sz ≢ 0)
  unfolding rtmp_chunker
  sent_lem id ts delta type stream payload max_chunk_sz tcp_send out v lt sent =
      let hdr = message_header p 0 id ts delta type stream payload in
      elim (Bool-cases (length payload == 0 || max_chunk_sz == 0)) [
        | inl none_given ↦ absurd (let h : none ≡ some out = rw none_given at sent in cc)
        | inr given ↦ elim (Option-cases (alloc p ((length payload + 256) % 2 ^ 64))) [
          | inl refused ↦ absurd (let h : none ≡ some out = rw (given, refused) at sent in cc)
          | inr (mb, there) ↦
              let h : (send_chunks p hdr payload max_chunk_sz tcp_send mb).1 ≡ some out =
                rw (given, there) at sent in
              (
                send_chunks_lem hdr payload max_chunk_sz _ tcp_send mb out
                    (alloc_lem p _ mb (omega arith) there) v (omega arith) h,
                ground arith,
                ground arith,
              )
        ]
      ]

  -- The chunks are sent where the buffer made for them is big enough.
  pub rtmp_chunker-sends :
      (id ts delta type stream : ℕ) (payload : Bytes) (max_chunk_sz : ℕ) (tcp_send : Mbuf → ℕ)
      (mb : Mbuf)
      → let hdr = message_header p 0 id ts delta type stream payload in
        IsRtmpHeader hdr
        → length payload < 2 ^ 24
        → length payload ≢ 0
        → max_chunk_sz ≢ 0
        → alloc p (length payload + 256) ≡ some mb
        → length (message_wire p hdr payload max_chunk_sz) ≤ length payload + 256
        → (out : Mbuf) × (rtmp_chunker p 0 id ts delta type stream payload max_chunk_sz tcp_send
            ≡ (tcp_send out, some out))
  unfolding rtmp_chunker send_chunks
  rtmp_chunker-sends id ts delta type stream payload max_chunk_sz tcp_send mb v lt ne pos ha fits =
      let hdr = message_header p 0 id ts delta type stream payload in
      let given : (length payload == 0 || max_chunk_sz == 0) ≡ false = ground arith in
      let size : (length payload + 256) % 2 ^ 64 ≡ length payload + 256 = omega arith in
      let a = alloc_lem p (length payload + 256) mb (omega arith) ha in
      let w = chunks_lem p hdr payload max_chunk_sz mb (Allocated-IsValid _ mb a) v (omega arith) in
      let ok = Wrote-fits mb _ _ w (omega (arith, a.pos_eq, a.size_eq)) in
      (
        record (chunks p hdr payload max_chunk_sz mb).1 { pos = 0 },
        rw (rtmp_chunker, given, size, ha, send_chunks, ok) refl,
      )
