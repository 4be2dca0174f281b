-- ===== src/Telev/Link.antt =====
-- The queue that telev_send fills, and what telev_recv makes of the packets of a digit, however
-- many of them arrive.
use re.Base.{
  ℕ, ◌%◌, ◌^◌, ◌<◌, ◌≤◌, ◌≡◌, ◌≢◌, refl, sym, ap, ◌∙◌, ◌⊎◌, inl, inr, arith, Bool, true, false, leb,
  ◌==◌, if◌then◌else◌, Option, none, some, List, [], ◌∷◌, ◌++◌, length, drop, Bytes, Bool-cases,
  splice, splice_end, drop_append_le, length-take,
}
use re.Platform.{Platform}
use re.Mbuf.{Mbuf, block}
use re.Mbuf.Valid.{IsValid, contents}
use re.Mbuf.Write.{Appended}
use re.Mbuf.Words.{write_u8, write_u8_lem, write_u8_fails}
use re.Mbuf.Read.{Holds}
use re.Telev.{Telev, TelevFmt, accept, same_event, telev_send, telev_recv}
use re.Telev.Payload.{payload, payload_decode_lem}
use re.Telev.Sender.{Packet}

-- The packets stand at the positions of the buffers, whatever follows them there.
pub data Carries : List Mbuf → List Packet → Type 0 where
  none_left : Carries [] []
  carried :
      {m : Mbuf} {ms : List Mbuf} {event : ℕ} {end : Bool} {dur : ℕ} {ks : List Packet}
      → (rest : Bytes) → dur < 2 ^ 16
      → Holds m (payload event end dur ++ rest)
      → Carries ms ks
      → Carries (m ∷ ms) ((event, end, dur) ∷ ks)

-- What a call reports: its error, and the event with its end where it gives one.
abbrev pub Report : Type 0
Report = ℕ × Option (ℕ × Bool)

-- EALREADY, 114 on Linux, and no event.
abbrev pub known : Report
known = (114, none)

-- A call of telev_recv for each buffer.
pub recvs : Platform → Telev → List Mbuf → List Report × Telev
recvs p tel [] = ([], tel)
recvs p tel (m ∷ ms) =
    let r = telev_recv p tel m in let (rs, last) = recvs p r.2 ms in ((r.0, r.1) ∷ rs, last)

abbrev fmt_of : Packet → TelevFmt
fmt_of (event, end, dur) = record { event = event; end = end; vol = 10; dur = dur }

-- The same, of packets.
hears : Telev → List Packet → List Report × Telev
hears tel [] = ([], tel)
hears tel (k ∷ ks) =
    let r = accept tel (fmt_of k) in let (rs, last) = hears r.2 ks in ((r.0, r.1) ∷ rs, last)

telev_recv-accept :
    (p : Platform) (tel : Telev) (m : Mbuf) (event : ℕ) (end : Bool) (dur : ℕ) (rest : Bytes)
    → dur < 2 ^ 16
    → Holds m (payload event end dur ++ rest)
    → let r = telev_recv p tel m in
      let a = accept tel (fmt_of (event, end, dur)) in (r.0 ≡ a.0) × (r.1 ≡ a.1) × (r.2 ≡ a.2)
unfolding telev_recv
telev_recv-accept p tel m event end dur rest lt h =
    let (e0, e1, h') = payload_decode_lem p m event end dur rest lt h in
    rw (telev_recv, e1) (refl, refl, refl)

recvs-hears :
    {ms : List Mbuf} {ks : List Packet} (p : Platform) (tel : Telev)
    → Carries ms ks
    → recvs p tel ms ≡ hears tel ks
unfolding recvs hears
recvs-hears p tel Carries.none_left = refl
recvs-hears p tel (Carries.carried {m} {ms} {event} {end} {dur} rest lt h c) =
    let (err, out, after) = telev_recv-accept p tel m event end dur rest lt h in
    rw (err, out, after, recvs-hears p (accept tel (fmt_of (event, end, dur))).2 c) refl

accept-first :
    (tel : Telev) (event d : ℕ)
    → same_event event tel.rx_event ≡ false
    → accept tel (fmt_of (event, false, d))
      ≡ (0, some (event, false), record tel { rx_event = some event; rx_end = false })
unfolding accept
accept-first tel event d h = rw h refl

accept-again :
    (tel : Telev) (event d : ℕ)
    → same_event event tel.rx_event ≡ true
    → accept tel (fmt_of (event, false, d)) ≡ (114, none, tel)
unfolding accept
accept-again tel event d h = rw h refl

accept-over :
    (tel : Telev) (event d : ℕ)
    → tel.rx_end ≡ true
    → accept tel (fmt_of (event, true, d)) ≡ (114, none, tel)
unfolding accept
accept-over tel event d h = simp h refl

accept_end :
    (tel : Telev) (event d : ℕ)
    → tel.rx_end ≡ false
    → accept tel (fmt_of (event, true, d))
      ≡ (0, some (event, true), record tel { rx_event = none; rx_end = true })
unfolding accept
accept_end tel event d h = simp h refl

-- Packets of one event that differ in how long it has lasted.
abbrev pub said : ℕ → Bool → List ℕ → List Packet
said event end [] = []
said event end (d ∷ ds) = (event, end, d) ∷ said event end ds

-- A report for each of the repetitions.
abbrev pub ignored : List ℕ → List Report
ignored [] = []
ignored (d ∷ ds) = known ∷ ignored ds

hears-repeated :
    (tel : Telev) (event : ℕ) (ds : List ℕ) (ks : List Packet)
    → same_event event tel.rx_event ≡ true
    → hears tel (said event false ds ++ ks) ≡ (ignored ds ++ (hears tel ks).0, (hears tel ks).1)
unfolding hears
hears-repeated tel event [] ks h = refl
hears-repeated tel event (d ∷ ds) ks h =
    rw (accept-again tel event d h, hears-repeated tel event ds ks h) refl

hears-over :
    (tel : Telev) (event : ℕ) (ds : List ℕ)
    → tel.rx_end ≡ true
    → hears tel (said event true ds) ≡ (ignored ds, tel)
unfolding hears
hears-over tel event [] h = refl
hears-over tel event (d ∷ ds) h = rw (accept-over tel event d h, hears-over tel event ds h) refl

hears_end :
    (tel : Telev) (event d : ℕ) (ds : List ℕ)
    → tel.rx_end ≡ false
    → hears tel (said event true (d ∷ ds))
      ≡ ((0, some (event, true)) ∷ ignored ds, record tel { rx_event = none; rx_end = true })
unfolding hears
hears_end tel event d ds h =
    let ready : Telev = record tel { rx_event = none; rx_end = true } in
    rw (accept_end tel event d h, hears-over ready event ds refl) refl

other_event : (o : Option ℕ) (event : ℕ) → o ≢ some event → same_event event o ≡ false
other_event none event h = refl
other_event (some x) event h = elim (Bool-cases (event == x)) [
  | inl is ↦ let e : x ≡ event = ground (arith, is) in absurd (h (ap some e))
  | inr off ↦ off
]

-- The event at its first packet and its end at the first packet of it.
abbrev pub reports : ℕ → List ℕ → List ℕ → List Report
reports event ds ds' =
    (0, some (event, false)) ∷ (ignored ds ++ (0, some (event, true)) ∷ ignored ds')

digit_hears :
    (tel : Telev) (event d d' : ℕ) (ds ds' : List ℕ)
    → same_event event tel.rx_event ≡ false
    → hears tel (said event false (d ∷ ds) ++ said event true (d' ∷ ds'))
      ≡ (reports event ds ds', record tel { rx_event = none; rx_end = true })
unfolding hears
digit_hears tel event d d' ds ds' h =
    let begun : Telev = record tel { rx_event = some event; rx_end = false } in
    let same : (event == event) ≡ true = ground arith in
    let ended = hears_end begun event d' ds' refl in
    rw (accept-first tel event d h, hears-repeated begun event ds (said event true (d' ∷ ds')) same)
      (λ i. ((0, some (event, false)) ∷ (ignored ds ++ (ended i).0), (ended i).1))

-- Where at least one packet of an event other than the last one and then at least one packet of
-- its end arrive, each in a buffer of its own, telev_recv reports the event at its first packet
-- and its end at the first packet of it, and every repetition is EALREADY without an event;
-- afterwards the receiver is ready for the same event again.
pub digit_heard :
    {ms : List Mbuf} (p : Platform) (tel : Telev) (event d d' : ℕ) (ds ds' : List ℕ)
    → tel.rx_event ≢ some event
    → Carries ms (said event false (d ∷ ds) ++ said event true (d' ∷ ds'))
    → recvs p tel ms ≡ (reports event ds ds', record tel { rx_event = none; rx_end = true })
digit_heard p tel event d d' ds ds' h c =
    recvs-hears p tel c ∙ digit_hears tel event d d' ds ds' (other_event tel.rx_event event h)

append-Holds :
    (mb m : Mbuf) (q : Bytes) (b : ℕ)
    → Holds mb q
    → IsValid m
    → Appended (record mb { pos = mb.end }) (b ∷ []) m
    → Holds (record m { pos = mb.pos }) (q ++ b ∷ [])
append-Holds mb m q b h v w =
    let n : length (contents mb) ≡ mb.end =
      omega (arith, length-take mb.end (block mb.buf), h.valid.block_length, h.valid.end_le) in
    record {
      valid = record {
        block_length = v.block_length;
        pos_le = omega (arith, w.pos_eq, v.pos_le, h.valid.pos_le);
        end_le = v.end_le;
        small = v.small;
      };
      left =
          ap (drop mb.pos) (
            w.contents_eq
            ∙ ap (λ k. splice (contents mb) k (b ∷ [])) (sym n)
            ∙ splice_end (contents mb) (b ∷ []))
          ∙ drop_append_le mb.pos (contents mb) (b ∷ []) (omega (arith, h.valid.pos_le))
          ∙ ap (λ c. c ++ b ∷ []) h.left;
    }

-- `b` is written at the end, and the position set back.
queue_result :
    (p : Platform) (mb : Mbuf) (q : Bytes) (b : ℕ)
    → Holds mb q
    → let r = write_u8 p (record mb { pos = mb.end }) b in
      ((r.0 ≡ 0) × Holds (record r.1 { pos = mb.pos }) (q ++ b ∷ []))
      ⊎ ((r.0 ≢ 0) × Holds (record r.1 { pos = mb.pos }) q × (mb.size ≤ mb.end))
queue_result p mb q b h =
    let v : IsValid (record mb { pos = mb.end }) = record {
      block_length = h.valid.block_length;
      pos_le = omega arith;
      end_le = h.valid.end_le;
      small = h.valid.small;
    } in
    let (v', wrote) = write_u8_lem p b (record mb { pos = mb.end }) v in
    elim wrote [
      | inl (e, w) ↦ inl (e, append-Holds mb _ q b h v' w)
      | inr (ne, lt) ↦ inr (ne, rw (write_u8_fails p b _ v ne) h, omega arith)
    ]

-- Where the bytes q wait in the queue, telev_send either succeeds, which needs a queue that ends
-- below 8192, and puts the event, or 0xff for an end, behind them, or fails and leaves q waiting,
-- which happens only where the queue is full or its block has to grow.
pub telev_send_lem :
    (p : Platform) (tel : Telev) (q : Bytes) (event : ℕ) (end : Bool)
    → Holds tel.mb q
    → (((telev_send p tel event end).0 ≡ 0)
        × (tel.mb.end < 8192)
        × Holds (telev_send p tel event end).1.mb (q ++ (if end then 0xff else event % 2 ^ 8) ∷ []))
      ⊎ (((telev_send p tel event end).0 ≢ 0)
          × Holds (telev_send p tel event end).1.mb q
          × ((8192 ≤ tel.mb.end) ⊎ (tel.mb.size ≤ tel.mb.end)))
unfolding telev_send
telev_send_lem p tel q event end h = elim (Bool-cases (leb 8192 tel.mb.end)) [
  | inl full ↦ rw full (inr (omega arith, h, inl (ground arith)))
  | inr room ↦ rw room (elim (queue_result p tel.mb q (if end then 0xff else event % 2 ^ 8) h) [
    | inl (e, held) ↦ inl (e, ground arith, held)
    | inr (ne, held, le) ↦ inr (ne, held, inr le)
  ])
]
