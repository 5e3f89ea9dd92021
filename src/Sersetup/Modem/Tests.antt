-- ===== src/Sersetup/Modem/Tests.antt =====
-- A call in the background.
use vanilla_utilities.Base.{ℕ, ◌≡◌, ◌++◌, refl, inl, arith, true, false, List, [], ◌∷◌, none, some}
use vanilla_utilities.Serarb.{Arb, init_arbitration}
use vanilla_utilities.Sersetup.Modem.{
  has_prefix, take_byte, poll_modem_response, Setup, Tick, call, call_on_success, modem_command,
  on_modem_response, connect_text, polled, after_poll, poll_modem, poll_event_loop, no_packet,
  isr_callback, set_background_player, dial_background,
}
use vanilla_utilities.Sersetup.Modem.Answer.{
  AreLines, ArePrinted, lines_bytes, behind_answer, response, poll_modem_response-lines,
}
use vanilla_utilities.Sersetup.Modem.Connect.{Run, stop, wait, IsHandled, isr_callback-background}

-- The modem repeats the command, and gives its speed behind CONNECT.
abbrev answers : List (List ℕ)
answers = (b'A' ∷ b'T' ∷ []) ∷ (connect_text ++ b' ' ∷ b'9' ∷ []) ∷ (b'I' ∷ b'D' ∷ []) ∷ []

answers-AreLines : AreLines answers
unfolding AreLines ArePrinted
answers-AreLines = (
  (omega arith, (omega arith, tt)),
  omega arith,
  (
    (
      omega arith,
      (
        omega arith,
        (
          omega arith,
          (
            omega arith,
            (omega arith, (omega arith, (omega arith, (omega arith, (omega arith, tt))))),
          ),
        ),
      ),
    ),
    omega arith,
    ((omega arith, (omega arith, tt)), omega arith, tt),
  ),
)

poll_modem_response-lines_example :
    poll_modem_response (lines_bytes answers ++ (7 ∷ [])) (response connect_text false)
    ≡ (elim (behind_answer connect_text answers) [
      | none ↦ poll_modem_response (7 ∷ []) (response connect_text false)
      | some rest ↦ (true, lines_bytes rest ++ (7 ∷ []), response connect_text true)
    ])
poll_modem_response-lines_example =
    poll_modem_response-lines connect_text (7 ∷ []) answers answers-AreLines

abbrev arb : Arb
arb = init_arbitration false true 0 0 1

abbrev start : Setup
start = record {
  poll_func = none;
  callback = none;
  modemresp = response [] false;
  arb = arb;
  in_game = false;
  consoleplayer = 0;
  force_player1 = false;
  force_player2 = false;
  unread = [];
  written = [];
}

-- CONNECT comes in two pieces.
abbrev tick : List ℕ → Tick
tick bytes = record { bytes = bytes; packets = []; now = 0 }

abbrev ticks : List Tick
ticks = tick (b'C' ∷ b'O' ∷ b'N' ∷ b'N' ∷ []) ∷ tick (b'E' ∷ b'C' ∷ b'T' ∷ 13 ∷ 10 ∷ []) ∷ []

abbrev dialled : Setup
dialled = dial_background (b'5' ∷ []) start

abbrev once : Setup
once = poll_modem arb (tick (b'C' ∷ b'O' ∷ b'N' ∷ b'N' ∷ [])) dialled

abbrev twice : Setup
twice = poll_modem arb (tick (b'E' ∷ b'C' ∷ b'T' ∷ 13 ∷ 10 ∷ [])) once

first_turn :
    isr_callback arb 18 (tick (b'C' ∷ b'O' ∷ b'N' ∷ b'N' ∷ [])) dialled ≡ no_packet (polled once)
unfolding isr_callback poll_event_loop poll_modem poll_modem_response take_byte has_prefix
    after_poll call call_on_success modem_command on_modem_response set_background_player
    dial_background
first_turn = refl

second_turn :
    isr_callback arb 18 (tick (b'E' ∷ b'C' ∷ b'T' ∷ 13 ∷ 10 ∷ [])) once ≡ no_packet (polled twice)
unfolding isr_callback poll_event_loop poll_modem poll_modem_response take_byte has_prefix
    after_poll call call_on_success modem_command on_modem_response set_background_player
    dial_background
second_turn = refl

connected-Run : Run arb 18 dialled ticks twice
connected-Run = wait _ first_turn (wait _ second_turn stop)

isr_callback-background_example : IsHandled twice (isr_callback arb 18 (tick []) twice)
isr_callback-background_example =
    isr_callback-background arb 18 (b'5' ∷ []) start twice ticks (tick []) refl (inl connected-Run)
