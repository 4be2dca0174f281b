-- ===== src/Telev/Sender.antt =====
-- The sender as an automaton with a queue of events: what telev_poll sends, and what it leaves.
use re.Base.{
  ℕ, ◌+◌, ◌%◌, ◌^◌, ◌<◌, ◌≡◌, refl, inl, inr, arith, Bool, true, false, if◌then◌else◌, ◌==◌, ltb,
  Bool-cases, Option, none, some, [], ◌∷◌, Bytes, ℤ, subst,
}
use re.Platform.{Platform}
use re.Mbuf.{Mbuf, get_left, add_signed}
use re.Mbuf.Valid.{IsValid}
use re.Mbuf.Read.{Holds, ahead-Holds, get_left_lem}
use re.Mbuf.Words.{read_u8-cons}
use re.Telev.{
  State, Telev, enoent, payload_encode, poll_idle, take_end, poll_sending, poll_ending, telev_poll,
}
use re.Telev.Payload.{payload, Encoded, payload_encode_lem}

-- The sending half of a `struct telev`: the events to come, and the one being sent.
pub record Sender : Type 0 where
  pub queue : Bytes
  pub phase : State
  pub event : ℕ
  pub dur : ℕ
  pub txc : ℕ

-- A packet: the event, whether it ends, and for how long it has lasted.
abbrev pub Packet : Type 0
Packet = ℕ × Bool × ℕ

-- A digit in the queue is followed by its end, which is taken off with it.
abbrev pub without_end : Bytes → Bytes
without_end [] = []
without_end (b ∷ q) = if b == 0xff then q else b ∷ q

abbrev pub is_nil : Bytes → Bool
is_nil [] = true
is_nil (b ∷ q) = false

abbrev pub packet : ℕ → Sender → Option Packet
packet pdur s = elim s.phase [
  | State.idle ↦ elim s.queue [ [] ↦ none | e ∷ q ↦ some (e, false, pdur) ]
  | State.sending ↦ some (s.event, false, (s.dur + pdur) % 2 ^ 16)
  | State.ending ↦ some (s.event, true, s.dur)
]

abbrev start : ℕ → Sender → Bytes → Sender
start pdur s [] = s
start pdur s (e ∷ q) = record { queue = q; phase = State.sending; event = e; dur = pdur; txc = 1 }

abbrev pub next : ℕ → Sender → Sender
next pdur s = elim s.phase [
  | State.idle ↦ start pdur s s.queue
  | State.sending ↦
      let txc = (s.txc + 1) % 2 ^ 32 in
      let lasting = record s { dur = (s.dur + pdur) % 2 ^ 16; txc = txc } in
      if ltb txc 9
      then lasting
      else if is_nil s.queue
      then lasting
      else record lasting { queue = without_end s.queue; phase = State.ending; txc = 0 }
  | State.ending ↦
      let txc = (s.txc + 1) % 2 ^ 32 in
      if ltb txc 3 then record s { txc = txc } else record s { txc = txc; phase = State.idle }
]

-- The sending half of the program's state, where `q` is queued.
abbrev pub sender : Telev → Bytes → Sender
sender tel q = record {
  queue = q;
  phase = tel.state;
  event = tel.event;
  dur = tel.dur;
  txc = tel.txc;
}

-- The state of the program stands for that of the automaton.
pub record Sends (tel : Telev) (s : Sender) : Type 0 where
  pub queue : Holds tel.mb s.queue
  pub same : sender tel s.queue ≡ s
  pub pdur_lt : tel.pdur < 2 ^ 16
  pub dur_lt : tel.dur < 2 ^ 16

-- What telev_poll returns where a packet is due, and where none is.
abbrev pub Polled : Telev → Sender → Mbuf → Option Packet → ℕ × Option Bool × Telev × Mbuf → Type 0
Polled tel s m none r = r ≡ (enoent, none, tel, m)
Polled tel s m (some (event, end, dur)) r =
    Encoded m (payload (event % 2 ^ 8) end dur) (r.0, r.3)
    × Sends r.2 (next tel.pdur s)
    × (r.2.pdur ≡ tel.pdur)

-- The result of telev_poll, from that of a branch.
abbrev marked : ℕ × Bool × Telev × Mbuf → ℕ × Option Bool × Telev × Mbuf
marked r = (r.0, if r.0 == 0 then some r.1 else none, r.2, r.3)

take_end-Holds :
    (mb : Mbuf) (b : ℕ) (q : Bytes) → Holds mb (b ∷ q) → Holds (take_end mb) (without_end (b ∷ q))
unfolding take_end
take_end-Holds mb b q h =
    let back : add_signed (mb.pos + 1) (ℤ.negsuc 0) ≡ mb.pos =
      omega (arith, h.valid.pos_le, h.valid.end_le, h.valid.small) in
    elim (Bool-cases (b == 0xff)) [
      | inl e ↦ rw (read_u8-cons b q h, e) (ahead-Holds (b ∷ []) q h)
      | inr e ↦ rw (read_u8-cons b q h, e, back) h
    ]

-- The queue that is empty is rewound.
rewound-Holds :
    (mb : Mbuf) (q : Bytes)
    → Holds mb q
    → Holds (if get_left mb == 0 then record mb { pos = 0; end = 0 } else mb) q
rewound-Holds mb [] h =
    let none_left : (get_left mb == 0) ≡ true = ground (arith, get_left_lem h) in
    rw none_left (record {
      valid = record {
        block_length = h.valid.block_length;
        pos_le = omega arith;
        end_le = omega arith;
        small = h.valid.small;
      };
      left = refl;
    })
rewound-Holds mb (b ∷ q) h =
    let some_left : (get_left mb == 0) ≡ false = ground (arith, get_left_lem h) in rw some_left h

module _ (p : Platform) (tel : Telev) (m : Mbuf) (vm : IsValid m) (pdur_lt : tel.pdur < 2 ^ 16)
    (dur_lt : tel.dur < 2 ^ 16) where
  idle_lem :
      (q : Bytes)
      → Holds tel.mb q
      → tel.state ≡ State.idle
      → Polled tel (sender tel q) m (packet tel.pdur (sender tel q)) (marked (poll_idle p tel m))
  unfolding poll_idle
  idle_lem [] h st =
      let none_left : (get_left tel.mb == 0) ≡ true = ground (arith, get_left_lem h) in
      rw (none_left, st) refl
  idle_lem (b ∷ q) h st =
      let some_left : (get_left tel.mb == 0) ≡ false = ground (arith, get_left_lem h) in
      rw (some_left, read_u8-cons b q h, st)
        (
          payload_encode_lem p m b false tel.pdur vm pdur_lt,
          record {
            queue = ahead-Holds (b ∷ []) q h;
            same = refl;
            pdur_lt = pdur_lt;
            dur_lt = pdur_lt;
          },
          refl,
        )

  sending_lem :
      (q : Bytes)
      → Holds tel.mb q
      → tel.state ≡ State.sending
      → Polled tel (sender tel q) m (packet tel.pdur (sender tel q)) (marked (poll_sending p tel m))
  unfolding poll_sending
  sending_lem q h st = elim (Bool-cases (ltb ((tel.txc + 1) % 2 ^ 32) 9)) [
    | inl lt ↦
        rw (st, lt)
          (sent, record { queue = h; same = refl; pdur_lt = pdur_lt; dur_lt = omega arith }, refl)
    | inr ge ↦ after_min ge q h
  ]
    where
      sent :
          Encoded m
            (payload (tel.event % 2 ^ 8) false ((tel.dur + tel.pdur) % 2 ^ 16))
            (payload_encode p m tel.event false ((tel.dur + tel.pdur) % 2 ^ 16))
      sent = payload_encode_lem p m tel.event false _ vm (omega arith)

      after_min :
          ltb ((tel.txc + 1) % 2 ^ 32) 9 ≡ false
          → (q : Bytes) → Holds tel.mb q
          → Polled tel
              (sender tel q)
              m
              (packet tel.pdur (sender tel q))
              (marked (poll_sending p tel m))
      after_min ge [] h =
          let none_left : (get_left tel.mb == 0) ≡ true = ground (arith, get_left_lem h) in
          rw (st, ge, none_left)
            (sent, record { queue = h; same = refl; pdur_lt = pdur_lt; dur_lt = omega arith }, refl)
      after_min ge (b ∷ q) h =
          let some_left : (get_left tel.mb == 0) ≡ false = ground (arith, get_left_lem h) in
          rw (st, ge, some_left)
            (
              sent,
              record {
                queue = take_end-Holds tel.mb b q h;
                same = refl;
                pdur_lt = pdur_lt;
                dur_lt = omega arith;
              },
              refl,
            )

  ending_lem :
      (q : Bytes)
      → Holds tel.mb q
      → tel.state ≡ State.ending
      → Polled tel (sender tel q) m (packet tel.pdur (sender tel q)) (marked (poll_ending p tel m))
  unfolding poll_ending
  ending_lem q h st = elim (Bool-cases (ltb ((tel.txc + 1) % 2 ^ 32) 3)) [
    | inl lt ↦
        rw (st, lt)
          (
            payload_encode_lem p m tel.event true tel.dur vm dur_lt,
            record { queue = h; same = refl; pdur_lt = pdur_lt; dur_lt = dur_lt },
            refl,
          )
    | inr ge ↦
        rw (st, ge)
          (
            payload_encode_lem p m tel.event true tel.dur vm dur_lt,
            record {
              queue = rewound-Holds tel.mb q h;
              same = refl;
              pdur_lt = pdur_lt;
              dur_lt = dur_lt;
            },
            refl,
          )
  ]

  abbrev branch : State → ℕ × Bool × Telev × Mbuf
  branch st = elim st [
    | State.idle ↦ poll_idle p tel m
    | State.sending ↦ poll_sending p tel m
    | State.ending ↦ poll_ending p tel m
  ]

  branch_lem :
      (q : Bytes) (st : State)
      → Holds tel.mb q
      → tel.state ≡ st
      → Polled tel (sender tel q) m (packet tel.pdur (sender tel q)) (marked (branch st))
  branch_lem q State.idle h st = idle_lem q h st
  branch_lem q State.sending h st = sending_lem q h st
  branch_lem q State.ending h st = ending_lem q h st

  poll_state :
      (q : Bytes)
      → Holds tel.mb q
      → Polled tel (sender tel q) m (packet tel.pdur (sender tel q)) (telev_poll p tel m)
  unfolding telev_poll
  poll_state q h = branch_lem q tel.state h refl

-- Where the state of a sender stands for that of an automaton with a queue of events, and the
-- packet buffer is well formed, telev_poll writes the payload of the automaton's next packet, or
-- fails for want of room with the buffer's position restored, and the state after it stands for
-- the automaton's next state either way; where the automaton has no packet to send it gives ENOENT
-- and changes nothing.
pub poll_lem :
    (p : Platform) (tel : Telev) (s : Sender) (m : Mbuf)
    → Sends tel s
    → IsValid m
    → Polled tel s m (packet tel.pdur s) (telev_poll p tel m)
poll_lem p tel s m h vm =
    subst (λ x. Polled tel x m (packet tel.pdur x) (telev_poll p tel m)) h.same
      (poll_state p tel m vm h.pdur_lt h.dur_lt s.queue h.queue)
