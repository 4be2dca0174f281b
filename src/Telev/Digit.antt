-- ===== src/Telev/Digit.antt =====
-- Twelve calls of telev_poll send a digit: nine packets of it and three of its end.
use re.Base.{
  ℕ, ◌+◌, ◌*◌, ◌%◌, ◌^◌, zero, suc, ◌<◌, ◌≤◌, ◌≡◌, inl, inr, refl, sym, ap, arith, ltb, true, false,
  some, List, [], ◌∷◌, ◌++◌, length, Bytes, subst,
}
use re.Platform.{Platform}
use re.Mbuf.{Mbuf}
use re.Mbuf.Valid.{IsValid}
use re.Mbuf.Write.{Appended}
use re.Mbuf.Read.{Holds}
use re.Telev.{State, Telev, telev_poll}
use re.Telev.Payload.{payload, Encoded}
use re.Telev.Sender.{Sender, Packet, packet, next, without_end, Sends, sender, Polled, poll_lem}

-- The packets of a run of the automaton.
data Emits (pdur : ℕ) : Sender → List Packet → Sender → Type 0 where
  done : {s : Sender} → Emits pdur s [] s
  emit :
      {s t : Sender} {k : Packet} {ks : List Packet}
      → packet pdur s ≡ some k
      → Emits pdur (next pdur s) ks t
      → Emits pdur s (k ∷ ks) t

-- One call of telev_poll for each buffer.
pub polls : Platform → Telev → List Mbuf → List (ℕ × Mbuf) × Telev
polls p tel [] = ([], tel)
polls p tel (m ∷ ms) =
    let (err, mark, tel', m') = telev_poll p tel m in
    let (rs, last) = polls p tel' ms in ((err, m') ∷ rs, last)

-- The packets stand in the buffers one by one.
abbrev Delivered : List Packet → List Mbuf → List (ℕ × Mbuf) → Type 0
Delivered [] [] [] = Unit
Delivered ((event, end, dur) ∷ ks) (m ∷ ms) (r ∷ rs) =
    Encoded m (payload (event % 2 ^ 8) end dur) r × Delivered ks ms rs
Delivered [] [] (r ∷ rs) = ⊥
Delivered [] (m ∷ ms) rs = ⊥
Delivered (k ∷ ks) [] rs = ⊥
Delivered (k ∷ ks) (m ∷ ms) [] = ⊥

abbrev AllValid : List Mbuf → Type 0
AllValid [] = Unit
AllValid (m ∷ ms) = IsValid m × AllValid ms

polls_lem :
    (p : Platform) (tel : Telev) (s t : Sender) (ks : List Packet) (ms : List Mbuf)
    → Emits tel.pdur s ks t
    → Sends tel s
    → AllValid ms
    → length ms ≡ length ks
    → Delivered ks ms (polls p tel ms).0 × Sends (polls p tel ms).1 t
unfolding polls
polls_lem p tel s t [] [] Emits.done h v n = (tt, h)
polls_lem p tel s t [] (m ∷ ms) Emits.done h v n = absurd (omega arith)
polls_lem p tel s t (k ∷ ks) [] (Emits.emit e run) h v n = absurd (omega arith)
polls_lem p tel s t ((event, end, dur) ∷ ks) (m ∷ ms) (Emits.emit e run) h (vm, v) n =
    let (sent, after, same) =
      subst (λ o. Polled tel s m o (telev_poll p tel m)) e (poll_lem p tel s m h vm) in
    let (all, last) =
      polls_lem p (telev_poll p tel m).2 (next tel.pdur s) t ks ms
        (subst (λ d. Emits d (next tel.pdur s) ks t) (sym same) run) after v (omega arith) in
    ((sent, all), last)

module _ (pdur e : ℕ) where
  -- `n` packets of the digit, from the `k`-th on.
  held : ℕ → ℕ → List Packet
  held k zero = []
  held k (suc n) = (e, false, k * pdur % 2 ^ 16) ∷ held (k + 1) n

  digit_packets : List Packet
  digit_packets =
      let over : Packet = (e, true, 9 * pdur % 2 ^ 16) in held 1 9 ++ over ∷ over ∷ over ∷ []

  abbrev sending_at : Bytes → ℕ → ℕ → Sender
  sending_at q k t = record {
    queue = q;
    phase = State.sending;
    event = e;
    dur = k * pdur % 2 ^ 16;
    txc = t;
  }

  next_dur : (k : ℕ) → (k * pdur % 2 ^ 16 + pdur) % 2 ^ 16 ≡ (k + 1) * pdur % 2 ^ 16
  next_dur k =
      let spread : (k + 1) * pdur ≡ k * pdur + pdur = omega arith in rw spread (omega arith)

  held-Emits :
      (n k t : ℕ) (q : Bytes) (ks : List Packet) (last : Sender)
      → t + n ≡ 8
      → Emits pdur (sending_at q (k + n) 8) ks last
      → Emits pdur (sending_at q k t) (held (k + 1) n ++ ks) last
  unfolding held
  held-Emits zero k t q ks last h run =
      let e8 : t ≡ 8 = omega arith in
      let ek : k + 0 ≡ k = omega arith in
      subst (λ x. Emits pdur (sending_at q x t) ks last) ek (rw e8 run)
  held-Emits (suc n) k t q ks last h run =
      let lt : ltb ((t + 1) % 2 ^ 32) 9 ≡ true = ground arith in
      let small : (t + 1) % 2 ^ 32 ≡ t + 1 = omega arith in
      let ek : k + suc n ≡ k + 1 + n = omega arith in
      Emits.emit (ap (λ d. some (e, false, d)) (next_dur k)) (
        rw (lt, small, next_dur k)
          (held-Emits n (k + 1) (t + 1) q ks last (omega arith) (rw⁻¹ ek run)))

  digit_packets-Emits :
      (b d0 d t : ℕ) (rest : Bytes)
      → pdur < 2 ^ 16
      → Emits pdur
          (record { queue = e ∷ b ∷ rest; phase = State.idle; event = d0; dur = d; txc = t })
          digit_packets
          (record {
            queue = without_end (b ∷ rest);
            phase = State.idle;
            event = e;
            dur = 9 * pdur % 2 ^ 16;
            txc = 3;
          })
  unfolding digit_packets held
  digit_packets-Emits b d0 d t rest h =
      let first : pdur ≡ 1 * pdur % 2 ^ 16 = omega arith in
      Emits.emit (ap (λ x. some (e, false, x)) first) (
        subst (λ x. Emits pdur (record (sending_at (b ∷ rest) 1 1) { dur = x }) rest_packets last)
          (sym first) (held-Emits 7 1 1 (b ∷ rest) _ last refl at_eight))
    where
      last : Sender
      last = record {
        queue = without_end (b ∷ rest);
        phase = State.idle;
        event = e;
        dur = 9 * pdur % 2 ^ 16;
        txc = 3;
      }

      over : Packet
      over = (e, true, 9 * pdur % 2 ^ 16)

      rest_packets : List Packet
      rest_packets = held 2 7 ++ (e, false, 9 * pdur % 2 ^ 16) ∷ over ∷ over ∷ over ∷ []

      at_eight :
          Emits pdur
            (sending_at (b ∷ rest) 8 8)
            ((e, false, 9 * pdur % 2 ^ 16) ∷ over ∷ over ∷ over ∷ [])
            last
      at_eight =
          Emits.emit (ap (λ d. some (e, false, d)) (next_dur 8))
            (rw (next_dur 8) (Emits.emit refl (Emits.emit refl (Emits.emit refl Emits.done))))

-- The buffers have room for a packet.
abbrev pub AllRoom : List Mbuf → Type 0
AllRoom [] = Unit
AllRoom (m ∷ ms) = IsValid m × (m.pos + 4 ≤ m.size) × AllRoom ms

-- Each call succeeds, and writes its packet at the position of its buffer.
abbrev pub AllSent : List Packet → List Mbuf → List (ℕ × Mbuf) → Type 0
AllSent [] [] [] = Unit
AllSent ((event, end, dur) ∷ ks) (m ∷ ms) (r ∷ rs) =
    (r.0 ≡ 0) × IsValid r.1 × Appended m (payload (event % 2 ^ 8) end dur) r.1 × AllSent ks ms rs
AllSent [] [] (r ∷ rs) = ⊥
AllSent [] (m ∷ ms) rs = ⊥
AllSent (k ∷ ks) [] rs = ⊥
AllSent (k ∷ ks) (m ∷ ms) [] = ⊥

AllRoom-AllValid : (ms : List Mbuf) → AllRoom ms → AllValid ms
AllRoom-AllValid [] r = tt
AllRoom-AllValid (m ∷ ms) (v, room, r) = (v, AllRoom-AllValid ms r)

Delivered-AllSent :
    (ks : List Packet) (ms : List Mbuf) (rs : List (ℕ × Mbuf))
    → AllRoom ms
    → Delivered ks ms rs
    → AllSent ks ms rs
Delivered-AllSent [] [] [] room d = tt
Delivered-AllSent [] [] (r ∷ rs) room d = absurd d
Delivered-AllSent [] (m ∷ ms) rs room d = absurd d
Delivered-AllSent (k ∷ ks) [] rs room d = absurd d
Delivered-AllSent (k ∷ ks) (m ∷ ms) [] room d = absurd d
Delivered-AllSent ((event, end, dur) ∷ ks) (m ∷ ms) (r ∷ rs) (v, four, room) (inl (e, vr, w), d) =
    (e, vr, w, Delivered-AllSent ks ms rs room d)
Delivered-AllSent ((event, end, dur) ∷ ks) (m ∷ ms) (r ∷ rs) (v, four, room) (inr (ne, p, lt), d) =
    absurd (omega arith)

-- Nine packets of the digit, each a packet time longer, and three of its end.
abbrev pub whole_digit : ℕ → ℕ → List Packet
whole_digit pdur e =
    (e, false, pdur)
    ∷ (e, false, 2 * pdur)
    ∷ (e, false, 3 * pdur)
    ∷ (e, false, 4 * pdur)
    ∷ (e, false, 5 * pdur)
    ∷ (e, false, 6 * pdur)
    ∷ (e, false, 7 * pdur)
    ∷ (e, false, 8 * pdur)
    ∷ (e, false, 9 * pdur)
    ∷ (e, true, 9 * pdur)
    ∷ (e, true, 9 * pdur)
    ∷ (e, true, 9 * pdur)
    ∷ []

digit_packets_lem : (pdur e : ℕ) → 9 * pdur < 2 ^ 16 → digit_packets pdur e ≡ whole_digit pdur e
unfolding digit_packets held
digit_packets_lem pdur e h =
    let at1 : 1 * pdur % 2 ^ 16 ≡ pdur = omega arith in
    let at2 : 2 * pdur % 2 ^ 16 ≡ 2 * pdur = omega arith in
    let at3 : 3 * pdur % 2 ^ 16 ≡ 3 * pdur = omega arith in
    let at4 : 4 * pdur % 2 ^ 16 ≡ 4 * pdur = omega arith in
    let at5 : 5 * pdur % 2 ^ 16 ≡ 5 * pdur = omega arith in
    let at6 : 6 * pdur % 2 ^ 16 ≡ 6 * pdur = omega arith in
    let at7 : 7 * pdur % 2 ^ 16 ≡ 7 * pdur = omega arith in
    let at8 : 8 * pdur % 2 ^ 16 ≡ 8 * pdur = omega arith in
    let at9 : 9 * pdur % 2 ^ 16 ≡ 9 * pdur = omega arith in
    λ i.
      (e, false, at1 i)
      ∷ (e, false, at2 i)
      ∷ (e, false, at3 i)
      ∷ (e, false, at4 i)
      ∷ (e, false, at5 i)
      ∷ (e, false, at6 i)
      ∷ (e, false, at7 i)
      ∷ (e, false, at8 i)
      ∷ (e, false, at9 i)
      ∷ (e, true, at9 i)
      ∷ (e, true, at9 i)
      ∷ (e, true, at9 i)
      ∷ []

-- From the idle state, with a digit at the head of the queue and something behind it, where nine
-- packet times and the duration before fit 16 bits, twelve calls of telev_poll with well-formed
-- buffers that have room for four bytes all succeed and write nine packets of the digit, of one to
-- nine packet times, and three of its end, of nine packet times, take the digit and an end behind
-- it off the queue, and come back to the idle state.
pub digit_sent :
    (p : Platform) (tel : Telev) (e b : ℕ) (rest : Bytes) (ms : List Mbuf)
    → tel.state ≡ State.idle
    → Holds tel.mb (e ∷ b ∷ rest)
    → 9 * tel.pdur < 2 ^ 16
    → tel.dur < 2 ^ 16
    → AllRoom ms
    → length ms ≡ 12
    → AllSent (whole_digit tel.pdur e) ms (polls p tel ms).0
      × Holds (polls p tel ms).1.mb (without_end (b ∷ rest))
      × ((polls p tel ms).1.state ≡ State.idle)
unfolding digit_packets held
digit_sent p tel e b rest ms st h pd du v n =
    let sends : Sends tel (sender tel (e ∷ b ∷ rest)) = record {
      queue = h;
      same = refl;
      pdur_lt = omega arith;
      dur_lt = du;
    } in
    let start : Sends tel (record (sender tel (e ∷ b ∷ rest)) { phase = State.idle }) =
      subst (λ x. Sends tel (record (sender tel (e ∷ b ∷ rest)) { phase = x })) st sends in
    let run = digit_packets-Emits tel.pdur e b tel.event tel.dur tel.txc rest (omega arith) in
    let (all, last) = polls_lem p tel _ _ _ ms run start (AllRoom-AllValid ms v) n in
    let sent = Delivered-AllSent (digit_packets tel.pdur e) ms (polls p tel ms).0 v all in
    (
      subst (λ ks. AllSent ks ms (polls p tel ms).0) (digit_packets_lem tel.pdur e pd) sent,
      last.queue,
      ap (λ s. s.phase) last.same,
    )
