-- ===== src/Sersetup/Modem/Connect.antt =====
-- The way from the modem to the game in net/sersetup.c, where the game was started first.
use vanilla_utilities.Base.{
  ℕ, ◌≤◌, ◌≡◌, ◌≢◌, refl, ap, subst, ◌∙◌, arith, leb, Bool, true, false, ◌⊎◌, Bool-cases,
  Option-cases, inl, inr, List, [], ◌∷◌, ◌++◌, Option, none, some,
}
use vanilla_utilities.Serarb.{Packet, Arb, process_packets, send_if_due, poll_arbitrate_players}
use vanilla_utilities.Sersetup.Modem.{
  Response, take_byte, poll_modem_response, modem_response, arbitrate_players, connected,
  arbitration_complete, ring_detected, Setup, Tick, call, call_on_success, modem_command,
  on_modem_response, connect_text, equal_ids, polled, after_poll, poll_modem, poll_players,
  poll_event_loop, Interrupt, no_packet, net_callback, isr_callback, set_background_player,
  dial_background, answer_background,
}

-- The phases: a ring is awaited, or CONNECT, or the players are arbitrated, or the game is on.
pub data Phase (s : Setup) : Type 0 where
  ringing :
      s.poll_func ≡ some modem_response
      → s.callback ≡ some ring_detected
      → s.in_game ≡ false
      → Phase s
  connecting :
      s.poll_func ≡ some modem_response
      → s.callback ≡ some connected
      → s.modemresp.expected ≡ connect_text
      → s.in_game ≡ false
      → Phase s
  arbitrating :
      s.poll_func ≡ some arbitrate_players
      → s.callback ≡ some arbitration_complete
      → s.in_game ≡ false
      → Phase s
  playing : s.in_game ≡ true → 2 ≤ s.arb.localstage → Phase s

-- An interrupt calls no NULL, and gives Doom a packet only where the game is on.
pub data IsHandled (s : Setup) : Interrupt → Type 0 where
  -- The Error about equal IDs.
  ends : s.in_game ≡ false → IsHandled s (no_packet equal_ids)
  waits : {t : Setup} → s.in_game ≡ false → Phase t → IsHandled s (no_packet (polled t))
  plays : s.in_game ≡ true → 2 ≤ s.arb.localstage → IsHandled s (net_callback s)

poll_modem-ringing :
    (started : Arb) (t : Tick) (s : Setup)
    → s.poll_func ≡ some modem_response
    → s.callback ≡ some ring_detected
    → s.in_game ≡ false
    → Phase (poll_modem started t s)
unfolding poll_modem after_poll call on_modem_response call_on_success modem_command
poll_modem-ringing started t s p c g =
    elim (Bool-cases (poll_modem_response (s.unread ++ t.bytes) s.modemresp).0) [
      | inl done ↦ rw (done, c) (connecting refl refl refl g)
      | inr more ↦ rw more (ringing p c g)
    ]

take_byte-expected : (c : ℕ) (m : Response) → (take_byte c m).expected ≡ m.expected
unfolding take_byte
take_byte-expected c m = ground arith

expected_kept :
    (bytes expected buf : List ℕ) (complete : Bool)
    → (poll_modem_response bytes
        (record { expected = expected; buf = buf; complete = complete })).2.expected
      ≡ expected
unfolding poll_modem_response
expected_kept [] expected buf complete = refl
expected_kept (c ∷ bytes) expected buf true = refl
expected_kept (c ∷ bytes) expected buf false =
    let m : Response = record { expected = expected; buf = buf; complete = false } in
    let n = take_byte c m in
    expected_kept bytes n.expected n.buf n.complete ∙ take_byte-expected c m

poll_modem-connecting :
    (started : Arb) (t : Tick) (s : Setup)
    → s.poll_func ≡ some modem_response
    → s.callback ≡ some connected
    → s.modemresp.expected ≡ connect_text
    → s.in_game ≡ false
    → Phase (poll_modem started t s)
unfolding poll_modem after_poll call call_on_success
poll_modem-connecting started t s p c e g =
    elim (Bool-cases (poll_modem_response (s.unread ++ t.bytes) s.modemresp).0) [
      | inl done ↦ rw (done, c) (arbitrating refl refl g)
      | inr more ↦ rw more (
          connecting p c
            (expected_kept (s.unread ++ t.bytes) s.modemresp.expected s.modemresp.buf
                s.modemresp.complete
              ∙ e)
            g)
    ]

not_done : (per_sec now : ℕ) (b : Arb) → (send_if_due per_sec now b).0 ≢ true
unfolding send_if_due
not_done per_sec now b = ground arith

-- Arbitration is done at stage 2.
poll_players-done :
    (per_sec now : ℕ) (packets : List Packet) (a : Arb) (r : Bool × Option Packet × Arb)
    → poll_arbitrate_players per_sec now packets a ≡ some r
    → r.0 ≡ true
    → 2 ≤ r.2.localstage
unfolding poll_arbitrate_players send_if_due
poll_players-done per_sec now packets a r h d = elim (Bool-cases (leb 2 a.localstage)) [
  | inl stage ↦
      let e : some (true, none, a) ≡ some r = rw stage at h in
      let e' : (true, none, a) ≡ r = cc in rw (← e') (ground arith)
  | inr early ↦ elim (Option-cases (process_packets packets a)) [
    | inl bad ↦ let e : none ≡ some r = rw (early, bad) at h in cc
    | inr (b, q) ↦
        let e : some (send_if_due per_sec now b) ≡ some r = rw (early, q) at h in
        let e' : send_if_due per_sec now b ≡ r = cc in
        absurd (not_done per_sec now b (ap (λ (x : Bool × Option Packet × Arb). x.0) e' ∙ d))
  ]
]

poll_players-arbitrating :
    (started : Arb) (per_sec : ℕ) (t : Tick) (s : Setup)
    → s.poll_func ≡ some arbitrate_players
    → s.callback ≡ some arbitration_complete
    → s.in_game ≡ false
    → IsHandled s (no_packet (poll_players started per_sec t s))
unfolding poll_players after_poll call
poll_players-arbitrating started per_sec t s p c g =
    elim (Option-cases (poll_arbitrate_players per_sec t.now t.packets s.arb)) [
      | inl bad ↦ rw (poll_players, bad) (ends g)
      | inr (r, e) ↦ elim (Bool-cases r.0) [
        | inl done ↦
            rw (poll_players, e, done, c)
              (waits g (playing refl (poll_players-done per_sec t.now t.packets s.arb r e done)))
        | inr more ↦ rw (poll_players, e, more) (waits g (arbitrating p c g))
      ]
    ]

module _ (started : Arb) (per_sec : ℕ) (t : Tick) (s : Setup) where
  isr_off :
      s.in_game ≡ false
      → isr_callback started per_sec t s ≡ no_packet (poll_event_loop started per_sec t s)
  unfolding isr_callback
  isr_off g = rw g refl

  isr_on : s.in_game ≡ true → isr_callback started per_sec t s ≡ net_callback s
  unfolding isr_callback
  isr_on g = rw g refl

  modem_turn :
      s.poll_func ≡ some modem_response
      → poll_event_loop started per_sec t s ≡ polled (poll_modem started t s)
  unfolding poll_event_loop
  modem_turn p = rw p refl

  players_turn :
      s.poll_func ≡ some arbitrate_players
      → poll_event_loop started per_sec t s ≡ poll_players started per_sec t s
  unfolding poll_event_loop
  players_turn p = rw p refl

  -- One interrupt, in any phase.
  isr_callback-IsHandled : Phase s → IsHandled s (isr_callback started per_sec t s)
  isr_callback-IsHandled (ringing p c g) =
      rw (isr_off g, modem_turn p) (waits g (poll_modem-ringing started t s p c g))
  isr_callback-IsHandled (connecting p c e g) =
      rw (isr_off g, modem_turn p) (waits g (poll_modem-connecting started t s p c e g))
  isr_callback-IsHandled (arbitrating p c g) =
      rw (isr_off g, players_turn p) (poll_players-arbitrating started per_sec t s p c g)
  isr_callback-IsHandled (playing g stage) = rw (isr_on g) (plays g stage)

-- The interrupts of a run, one behind the other; it ends with an Error.
pub data Run (started : Arb) (per_sec : ℕ) : Setup → List Tick → Setup → Type 0 where
  stop : {s : Setup} → Run started per_sec s [] s
  wait :
      {s t u : Setup} (k : Tick) {ticks : List Tick}
      → isr_callback started per_sec k s ≡ no_packet (polled t)
      → Run started per_sec t ticks u
      → Run started per_sec s (k ∷ ticks) u
  play :
      {s u : Setup} (k : Tick) {ticks : List Tick}
      → isr_callback started per_sec k s ≡ net_callback s
      → Run started per_sec s ticks u
      → Run started per_sec s (k ∷ ticks) u

handled-Phase : {s t : Setup} → IsHandled s (no_packet (polled t)) → Phase t
handled-Phase (waits g v) = v

Run-Phase :
    {started : Arb} {per_sec : ℕ} {s u : Setup} {ticks : List Tick}
    → Run started per_sec s ticks u
    → Phase s
    → Phase u
Run-Phase stop v = v
Run-Phase {started} {per_sec} {s} (wait k e r) v =
    let h = subst (IsHandled s) e (isr_callback-IsHandled started per_sec k s v) in
    Run-Phase r (handled-Phase h)
Run-Phase (play k e r) v = Run-Phase r v

background-Phase : (fallback : ℕ) (s : Setup) → Phase s → Phase (set_background_player fallback s)
unfolding set_background_player
background-Phase fallback s (ringing p c g) =
    ringing (ground (arith, p)) (ground (arith, c)) (ground (arith, g))
background-Phase fallback s (connecting p c e g) =
    connecting (ground (arith, p)) (ground (arith, c)) (ground (arith, e)) (ground (arith, g))
background-Phase fallback s (arbitrating p c g) =
    arbitrating (ground (arith, p)) (ground (arith, c)) (ground (arith, g))
background-Phase fallback s (playing g stage) = playing (ground (arith, g)) (ground (arith, stage))

dial_background-Phase :
    (dial_no : List ℕ) (s : Setup) → s.in_game ≡ false → Phase (dial_background dial_no s)
unfolding dial_background on_modem_response call_on_success modem_command
dial_background-Phase dial_no s g = background-Phase 2 _ (connecting refl refl refl g)

answer_background-Phase : (s : Setup) → s.in_game ≡ false → Phase (answer_background s)
unfolding answer_background on_modem_response call_on_success
answer_background-Phase s g = background-Phase 1 _ (ringing refl refl g)

-- Dial or Answer has returned in background mode, before which the game was not on, and interrupts
-- have come that each gave no packet or called NetCallback. Then the next interrupt calls no
-- function that is NULL. It calls NetCallback only when the players are arbitrated, at stage 2;
-- else it gives no packet and one of the phases ring, CONNECT, arbitration and game holds
-- afterwards, unless it ends with the Error about equal IDs.
pub isr_callback-background :
    (started : Arb) (per_sec : ℕ) (dial_no : List ℕ) (s u : Setup) (ticks : List Tick) (t : Tick)
    → s.in_game ≡ false
    → Run started per_sec (dial_background dial_no s) ticks u
      ⊎ Run started per_sec (answer_background s) ticks u
    → IsHandled u (isr_callback started per_sec t u)
isr_callback-background started per_sec dial_no s u ticks t g (inl r) =
    isr_callback-IsHandled started per_sec t u (Run-Phase r (dial_background-Phase dial_no s g))
isr_callback-background started per_sec dial_no s u ticks t g (inr r) =
    isr_callback-IsHandled started per_sec t u (Run-Phase r (answer_background-Phase s g))
