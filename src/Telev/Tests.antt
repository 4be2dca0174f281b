-- ===== src/Telev/Tests.antt =====
-- A sender with two digits queued and a receiver, and the theorems applied to them.
use re.Base.{
  ◌<◌, ◌≤◌, ◌≡◌, ◌≢◌, ◌⊎◌, refl, arith, true, false, some, none, List, [], ◌∷◌, ◌++◌, replicate,
  Bytes,
}
use re.Machine.{machine}
use re.Mbuf.{Mbuf}
use re.Mbuf.Valid.{IsValid}
use re.Mbuf.Read.{Holds}
use re.Telev.{State, Telev, telev_poll, telev_send}
use re.Telev.Payload.{payload}
use re.Telev.Sender.{sender, Sends, Polled, poll_lem}
use re.Telev.Digit.{polls, AllSent, AllRoom, whole_digit, digit_sent}
use re.Telev.Link.{Carries, recvs, said, digit_heard, telev_send_lem}

abbrev queued : Mbuf
queued = record { buf = some (1 ∷ 255 ∷ 2 ∷ 0 ∷ []); size = 4; pos = 0; end = 3 }

queued-Holds : Holds queued (1 ∷ 255 ∷ 2 ∷ [])
queued-Holds = record {
  valid = record {
    block_length = refl;
    pos_le = omega arith;
    end_le = omega arith;
    small = omega arith;
  };
  left = refl;
}

abbrev two_digits : Telev
two_digits = record {
  mb = queued;
  ptime = 50;
  pdur = 400;
  state = State.idle;
  event = 0;
  dur = 0;
  txc = 0;
  rx_event = none;
  rx_end = false;
}

abbrev empty : Mbuf
empty = record { buf = some (replicate 8 0); size = 8; pos = 0; end = 0 }

empty-IsValid : IsValid empty
empty-IsValid = record {
  block_length = refl;
  pos_le = omega arith;
  end_le = omega arith;
  small = omega arith;
}

two_digits-Sends : Sends two_digits (sender two_digits (1 ∷ 255 ∷ 2 ∷ []))
two_digits-Sends = record {
  queue = queued-Holds;
  same = refl;
  pdur_lt = omega arith;
  dur_lt = omega arith;
}

poll_lem_example :
    Polled two_digits
      (sender two_digits (1 ∷ 255 ∷ 2 ∷ []))
      empty
      (some (1, false, 400))
      (telev_poll machine two_digits empty)
poll_lem_example =
    poll_lem machine two_digits (sender two_digits (1 ∷ 255 ∷ 2 ∷ [])) empty two_digits-Sends
      empty-IsValid

abbrev twelve : List Mbuf
twelve = replicate 12 empty

twelve-AllRoom : AllRoom twelve
twelve-AllRoom =
    let v = empty-IsValid in
    let r : 4 ≤ 8 = omega arith in
    (
      v,
      r,
      (v, r, (v, r, (v, r, (v, r, (v, r, (v, r, (v, r, (v, r, (v, r, (v, r, (v, r, tt))))))))))),
    )

digit_sent_example :
    AllSent (whole_digit 400 1) twelve (polls machine two_digits twelve).0
    × Holds (polls machine two_digits twelve).1.mb (2 ∷ [])
    × ((polls machine two_digits twelve).1.state ≡ State.idle)
digit_sent_example =
    digit_sent machine two_digits 1 255 (2 ∷ []) twelve refl queued-Holds (omega arith)
      (omega arith) twelve-AllRoom refl

abbrev arrived : Bytes → Mbuf
arrived bs = record { buf = some bs; size = 4; pos = 0; end = 4 }

abbrev start_packet : Mbuf
start_packet = arrived (1 ∷ 0x0a ∷ 1 ∷ 0x90 ∷ [])

abbrev end_packet : Mbuf
end_packet = arrived (1 ∷ 0x8a ∷ 3 ∷ 0x20 ∷ [])

start_packet-Holds : Holds start_packet (payload 1 false 400 ++ [])
start_packet-Holds = record {
  valid = record {
    block_length = refl;
    pos_le = omega arith;
    end_le = omega arith;
    small = omega arith;
  };
  left = refl;
}

end_packet-Holds : Holds end_packet (payload 1 true 800 ++ [])
end_packet-Holds = record {
  valid = record {
    block_length = refl;
    pos_le = omega arith;
    end_le = omega arith;
    small = omega arith;
  };
  left = refl;
}

three_packets-Carries :
    Carries
      (start_packet ∷ start_packet ∷ end_packet ∷ [])
      (said 1 false (400 ∷ 400 ∷ []) ++ said 1 true (800 ∷ []))
three_packets-Carries = Carries.carried [] (omega arith) start_packet-Holds (
    Carries.carried [] (omega arith) start_packet-Holds
      (Carries.carried [] (omega arith) end_packet-Holds Carries.none_left))

not_heard : two_digits.rx_event ≢ some 1
not_heard = ground arith

digit_heard_example : recvs machine two_digits (start_packet ∷ start_packet ∷ end_packet ∷ []) ≡ (
  (0, some (1, false)) ∷ (114, none) ∷ (0, some (1, true)) ∷ [],
  record two_digits { rx_event = none; rx_end = true },
)
digit_heard_example =
    digit_heard machine two_digits 1 400 800 (400 ∷ []) [] not_heard three_packets-Carries

telev_send_lem_example :
    (((telev_send machine two_digits 7 false).0 ≡ 0)
      × (3 < 8192)
      × Holds (telev_send machine two_digits 7 false).1.mb (1 ∷ 255 ∷ 2 ∷ 7 ∷ []))
    ⊎ (((telev_send machine two_digits 7 false).0 ≢ 0)
        × Holds (telev_send machine two_digits 7 false).1.mb (1 ∷ 255 ∷ 2 ∷ [])
        × ((8192 ≤ 3) ⊎ (4 ≤ 3)))
telev_send_lem_example = telev_send_lem machine two_digits (1 ∷ 255 ∷ 2 ∷ []) 7 false queued-Holds
