-- ===== src/Telev.antt =====
-- src/telev/telev.c: telephone events, DTMF among them, as RTP payloads. A `struct telev *` is a
-- Telev; a function that changes it returns the new one behind its results. `rx_event` is `none`
-- for -1, and a pointer for a result is `none` where the result is left as it was.
pub mod Payload
pub mod Sender
pub mod Digit
pub mod Link
pub mod Tests
use re.Base.{
  ℕ, ◌+◌, ◌-◌, ◌*◌, ◌/◌, ◌%◌, ◌^◌, Bool, true, false, not, ◌&&◌, if◌then◌else◌, ◌==◌, leb, ltb,
  bit_and, bit_or, Option, none, some, [], ◌∷◌, ℤ, Bytes, get_or, einval, enomem, eoverflow,
}
use re.Platform.{Platform}
use re.Mbuf.{Mbuf, ◌|=◌, add_signed, get_left, alloc, mem_alloc}
use re.Mbuf.Words.{read_u8, write_u8, read_u16, write_u16}

abbrev pub enoent : ℕ
enoent = 2

abbrev pub ealready : ℕ
ealready = 114

abbrev pub txc_digit_min : ℕ
txc_digit_min = 9

abbrev pub txc_end : ℕ
txc_end = 3

abbrev pub event_end : ℕ
event_end = 0xff

abbrev pub payload_size : ℕ
payload_size = 4

abbrev pub volume : ℕ
volume = 10

abbrev pub queue_size : ℕ
queue_size = 8192

pub data State : Type 0 where
  idle : State
  sending : State
  ending : State

pub record TelevFmt : Type 0 where
  pub event : ℕ
  pub end : Bool
  pub vol : ℕ
  pub dur : ℕ

pub record Telev : Type 0 where
  pub mb : Mbuf
  pub ptime : ℕ
  pub pdur : ℕ
  pub state : State
  pub event : ℕ
  pub dur : ℕ
  pub txc : ℕ
  pub rx_event : Option ℕ
  pub rx_end : Bool

abbrev same_event : ℕ → Option ℕ → Bool
same_event e none = false
same_event e (some x) = e == x

pub payload_decode : Platform → Mbuf → ℕ × Option TelevFmt × Mbuf
payload_decode p mb =
    if ltb (get_left mb) payload_size
    then (enoent, none, mb)
    else (let (event, m1) = read_u8 mb in
        let (b, m2) = read_u8 m1 in
        let (dur, m3) = read_u16 p m2 in
        (
          0,
          some (record {
            event = event;
            end = bit_and b 0x80 == 0x80;
            vol = bit_and b 0x3f;
            dur = p.ntoh 2 dur;
          }),
          m3,
        ))

-- The part of telev_recv behind the call of payload_decode: the event with its end.
pub accept : Telev → TelevFmt → ℕ × Option (ℕ × Bool) × Telev
accept tel fmt =
    if fmt.end
    then if tel.rx_end
      then (ealready, none, tel)
      else (0, some (fmt.event, true), record tel { rx_event = none; rx_end = true })
    else if same_event fmt.event tel.rx_event
    then (ealready, none, tel)
    else (0, some (fmt.event, false), record tel { rx_event = some fmt.event; rx_end = false })

pub telev_recv : Platform → Telev → Mbuf → ℕ × Option (ℕ × Bool) × Telev × Mbuf
unfolding payload_decode accept
telev_recv p tel mb =
    let (err, fmt, m) = payload_decode p mb in
    elim fmt [
      | none ↦ (err, none, tel, m)
      | some f ↦ (let (err', out, tel') = accept tel f in (err', out, tel', m))
    ]

pub telev_is_empty : Telev → Bool
telev_is_empty tel = elim tel.state [
  | State.idle ↦ get_left tel.mb == 0
  | State.sending ↦ false
  | State.ending ↦ false
]

-- The product is a `uint32_t`, and `pdur` a `uint16_t`.
pub telev_set_srate : Telev → ℕ → ℕ × Telev
telev_set_srate tel srate =
    if srate == 0
    then (einval, tel)
    else (0, record tel { pdur = tel.ptime * srate % 2 ^ 32 / 1000 % 2 ^ 16 })

-- The digit of a code, and the code of a digit; `none` for -1.
pub telev_digit2code : ℕ → Option ℕ
telev_digit2code digit =
    if leb b'0' digit && leb digit b'9'
    then some (digit - b'0')
    else if digit == b'*'
    then some 10
    else if digit == b'#'
    then some 11
    else if leb b'a' digit && leb digit b'd'
    then some (digit - b'a' + 12)
    else if leb b'A' digit && leb digit b'D'
    then some (digit - b'A' + 12)
    else none

abbrev digits : Bytes
digits =
    b'0' ∷ b'1' ∷ b'2' ∷ b'3' ∷ b'4' ∷ b'5' ∷ b'6' ∷ b'7' ∷ b'8' ∷ b'9' ∷ b'*' ∷ b'#' ∷ b'A' ∷ b'B'
    ∷ b'C' ∷ b'D' ∷ []

pub telev_code2digit : ℤ → Option ℕ
telev_code2digit (ℤ.pos code) = if leb 16 code then none else some (get_or digits code 0)
telev_code2digit (ℤ.negsuc n) = none

-- What becomes of the queue after the last packet of a digit: its end is taken off.
take_end : Mbuf → Mbuf
take_end mb =
    let (next, m) = read_u8 mb in
    if next == event_end then m else record m { pos = add_signed m.pos (ℤ.negsuc 0) }

module _ (p : Platform) where
  -- The conversion of `event` to a `uint8_t` keeps its low 8 bits.
  pub payload_encode : Mbuf → ℕ → Bool → ℕ → ℕ × Mbuf
  payload_encode mb event end dur =
      let (err, m) =
        write_u8 p mb (event % 2 ^ 8)
        |= (λ m. write_u8 p m (bit_or (if end then 0x80 else 0x00) (bit_and volume 0x3f)))
        |= (λ m. write_u16 p m (p.hton 2 dur)) in
      if err == 0 then (0, m) else (err, record m { pos = mb.pos })

  -- sizeof(struct telev) is 40.
  pub telev_alloc : ℕ → ℕ × Option Telev
  telev_alloc ptime = if ptime == 0 then (einval, none) else elim (mem_alloc p 40) [
    | none ↦ (enomem, none)
    | some _ ↦ elim (alloc p 16) [
      | none ↦ (enomem, none)
      | some mb ↦ (
        0,
        some (record {
          mb = mb;
          ptime = ptime;
          pdur = ptime * 8 % 2 ^ 16;
          state = State.idle;
          event = 0;
          dur = 0;
          txc = 0;
          rx_event = none;
          rx_end = false;
        }),
      )
    ]
  ]

  pub telev_send : Telev → ℕ → Bool → ℕ × Telev
  telev_send tel event end =
      if leb queue_size tel.mb.end
      then (eoverflow, tel)
      else (let mb = tel.mb in
          let (err, m) =
            write_u8 p (record mb { pos = mb.end }) (if end then event_end else event % 2 ^ 8) in
          (err, record tel { mb = record m { pos = mb.pos } }))

  -- The branches of telev_poll: the error, the marker where it is set, and the states after it.
  poll_idle : Telev → Mbuf → ℕ × Bool × Telev × Mbuf
  poll_idle tel mb =
      if get_left tel.mb == 0
      then (enoent, false, tel, mb)
      else (let (event, m) = read_u8 tel.mb in
          let (err, out) = payload_encode mb event false tel.pdur in
          (
            err,
            true,
            record tel { mb = m; event = event; dur = tel.pdur; state = State.sending; txc = 1 },
            out,
          ))

  poll_sending : Telev → Mbuf → ℕ × Bool × Telev × Mbuf
  unfolding take_end
  poll_sending tel mb =
      let dur = (tel.dur + tel.pdur) % 2 ^ 16 in
      let txc = (tel.txc + 1) % 2 ^ 32 in
      let (err, out) = payload_encode mb tel.event false dur in
      let tel' = record tel { dur = dur; txc = txc } in
      if ltb txc txc_digit_min
      then (err, false, tel', out)
      else if get_left tel.mb == 0
      then (err, false, tel', out)
      else (err, false, record tel' { mb = take_end tel.mb; state = State.ending; txc = 0 }, out)

  poll_ending : Telev → Mbuf → ℕ × Bool × Telev × Mbuf
  poll_ending tel mb =
      let (err, out) = payload_encode mb tel.event true tel.dur in
      let txc = (tel.txc + 1) % 2 ^ 32 in
      if ltb txc txc_end
      then (err, false, record tel { txc = txc }, out)
      else (let queue =
            if get_left tel.mb == 0 then record tel.mb { pos = 0; end = 0 } else tel.mb in
          (err, false, record tel { txc = txc; mb = queue; state = State.idle }, out))

  pub telev_poll : Telev → Mbuf → ℕ × Option Bool × Telev × Mbuf
  unfolding poll_idle poll_sending poll_ending
  telev_poll tel mb =
      let r : ℕ × Bool × Telev × Mbuf = elim tel.state [
        | State.idle ↦ poll_idle tel mb
        | State.sending ↦ poll_sending tel mb
        | State.ending ↦ poll_ending tel mb
      ] in
      (r.0, if r.0 == 0 then some r.1 else none, r.2, r.3)
