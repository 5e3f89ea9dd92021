-- ===== src/Sersetup/Modem.antt =====
-- net/sersetup.c: the dialogue with a modem, the event loop, and the interrupt of the game that starts
-- before the connection does. A tick has what a poll finds: the bytes that ReadByte gives, or the
-- packets that GetPacket gives, and the clock.
pub mod Answer
pub mod Connect
mod Tests
use vanilla_utilities.Base.{
  ℕ, zero, suc, ◌==◌, leb, length, if◌then◌else◌, Bool, true, false, not, ◌||◌, ◌&&◌, List, [], ◌∷◌,
  ◌++◌, Option, none, some,
}
use vanilla_utilities.Serarb.{Packet, Arb, poll_arbitrate_players}

-- `!strncmp(buf, expected, strlen(expected))`.
pub has_prefix : List ℕ → List ℕ → Bool
has_prefix [] text = true
has_prefix (c ∷ prefix) [] = false
has_prefix (c ∷ prefix) (d ∷ text) = c == d && has_prefix prefix text

-- `modemresp`, with the first `buf_len` bytes of the buffer.
pub record Response : Type 0 where
  pub expected : List ℕ
  pub buf : List ℕ
  pub complete : Bool

-- A byte of the loop; 80 bytes with the NUL are the buffer.
pub take_byte : ℕ → Response → Response
take_byte c m =
    if c == 10 || length m.buf == 79
    then record m { complete = has_prefix m.expected m.buf; buf = [] }
    else if leb 32 c
    then record m { buf = m.buf ++ c ∷ [] }
    else m

-- PollModemResponse: its result, and the bytes that it does not read.
pub poll_modem_response : List ℕ → Response → Bool × List ℕ × Response
poll_modem_response [] m = (m.complete, [], m)
poll_modem_response (c ∷ bytes) m =
    let next = poll_modem_response bytes (take_byte c m) in
    if m.complete then (true, c ∷ bytes, m) else next

pub data Poll : Type 0 where
  modem_response arbitrate_players : Poll

pub data Callback : Type 0 where
  connected arbitration_complete ring_detected : Callback

-- The static variables; `none` is NULL. `written` is what WriteBuffer was given, `unread` what waits
-- in the input queue.
pub record Setup : Type 0 where
  pub poll_func : Option Poll
  pub callback : Option Callback
  pub modemresp : Response
  pub arb : Arb
  pub in_game : Bool
  pub consoleplayer : ℕ
  pub force_player1 : Bool
  pub force_player2 : Bool
  pub unread : List ℕ
  pub written : List (List ℕ)

pub record Tick : Type 0 where
  pub bytes : List ℕ
  pub packets : List Packet
  pub now : ℕ

pub call_on_success : Poll → Option Callback → Setup → Setup
call_on_success poll_func callback s = record s { poll_func = some poll_func; callback = callback }

pub modem_command : List ℕ → Setup → Setup
modem_command text s = record s { written = s.written ++ text ∷ (13 ∷ []) ∷ [] }

pub on_modem_response : List ℕ → Option Callback → Setup → Setup
on_modem_response text and_then s =
    call_on_success modem_response and_then
      (record s { modemresp = record { expected = text; buf = []; complete = false } })

abbrev pub connect_text : List ℕ
connect_text = b'C' ∷ b'O' ∷ b'N' ∷ b'N' ∷ b'E' ∷ b'C' ∷ b'T' ∷ []

-- Connected, ArbitrationComplete and RingDetected. StartArbitratePlayers has set `arb` up.
pub call : Arb → Callback → Setup → Setup
call started connected s =
    call_on_success arbitrate_players (some arbitration_complete) (record s { arb = started })
call started arbitration_complete s = record s { in_game = true }
call started ring_detected s =
    on_modem_response connect_text (some connected) (modem_command (b'A' ∷ b'T' ∷ b'A' ∷ []) s)

-- What PollEventLoop comes to: a call of NULL, the Error about equal IDs, or the state.
pub data Outcome : Type 0 where
  null_call equal_ids : Outcome
  polled : Setup → Outcome

-- PollEventLoop behind `poll_func`, with its result.
pub after_poll : Arb → Bool → Setup → Setup
after_poll started done s = if not done then s else elim s.callback [
  | none ↦ record s { poll_func = none }
  | some f ↦ call started f (record s { poll_func = none })
]

pub poll_modem : Arb → Tick → Setup → Setup
poll_modem started t s =
    let (done, unread, m) = poll_modem_response (s.unread ++ t.bytes) s.modemresp in
    after_poll started done (record s { modemresp = m; unread = unread })

-- What is sent in answer is left out here; see Serarb.
pub poll_players : Arb → ℕ → Tick → Setup → Outcome
poll_players started per_sec t s = elim (poll_arbitrate_players per_sec t.now t.packets s.arb) [
  | none ↦ equal_ids
  | some r ↦ polled (after_poll started r.0 (record s { arb = r.2 }))
]

pub poll_event_loop : Arb → ℕ → Tick → Setup → Outcome
poll_event_loop started per_sec t s = elim s.poll_func [
  | none ↦ null_call
  | some f ↦ elim f [
    | modem_response ↦ polled (poll_modem started t s)
    | arbitrate_players ↦ poll_players started per_sec t s
  ]
]

-- ISRCallback: no packet, before the game has begun, or what NetCallback does.
pub data Interrupt : Type 0 where
  no_packet : Outcome → Interrupt
  net_callback : Setup → Interrupt

pub isr_callback : Arb → ℕ → Tick → Setup → Interrupt
isr_callback started per_sec t s =
    if s.in_game then net_callback s else no_packet (poll_event_loop started per_sec t s)

-- SetBackgroundPlayer.
pub set_background_player : ℕ → Setup → Setup
set_background_player fallback s =
    let t : Setup =
      (if not s.force_player1 && not s.force_player2
        then if fallback == 1
          then record s { force_player1 = true }
          else record s { force_player2 = true }
        else s) in
    record t { consoleplayer = if t.force_player1 then 0 else 1 }

-- Dial and Answer with `-bg`, behind the modem's first OK, when EventLoop has ended.
pub dial_background : List ℕ → Setup → Setup
dial_background dial_no s = set_background_player 2 (
    on_modem_response connect_text (some connected)
      (modem_command ((b'A' ∷ b'T' ∷ b'D' ∷ b'T' ∷ []) ++ dial_no) s))

pub answer_background : Setup → Setup
answer_background s =
    set_background_player 1
      (on_modem_response (b'R' ∷ b'I' ∷ b'N' ∷ b'G' ∷ []) (some ring_detected) s)

-- EventLoop: the ticks that are left and the state, or that they run out before it ends.
pub data Loop : Type 0 where
  ended : List Tick → Setup → Loop
  failed : Outcome → Loop
  waiting : Setup → Loop

pub event_loop : Arb → ℕ → List Tick → Setup → Loop
event_loop started per_sec [] s = elim s.poll_func [ none ↦ ended [] s | some f ↦ waiting s ]
event_loop started per_sec (t ∷ ticks) s = elim s.poll_func [
  | none ↦ ended (t ∷ ticks) s
  | some f ↦ elim (poll_event_loop started per_sec t s) [
    | null_call ↦ failed null_call
    | equal_ids ↦ failed equal_ids
    | polled u ↦ event_loop started per_sec ticks u
  ]
]
