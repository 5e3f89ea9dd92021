-- ===== src/Serarb/Link/Hearing.antt =====
-- A machine that hears of one other machine only, through a poll.
use vanilla_utilities.Base.{
  ℕ, zero, suc, ◌+◌, ◌<◌, ◌≡◌, refl, arith, leb, get_or, Bool, true, false, Bool-cases, inl, inr,
  List, [], ◌∷◌, ◌++◌, Option, none, some, ◌^◌, ◌-◌, ◌%◌,
}
use vanilla_utilities.Serarb.{
  Packet, id_packet, play_packet, other_packet, Arb, player_of, process_packet, process_packets,
  make_packet, send_if_due, poll_arbitrate_players,
}
use vanilla_utilities.Base.Words.{same_bytes}
use vanilla_utilities.Serarb.Link.{arrived, log_with}

-- A packet that machine `id` may have sent, or a text that cannot be read.
abbrev pub FromId : List ℕ → Packet → Type 0
FromId id (id_packet other stage) = other ≡ id
FromId id (play_packet player stage) = true ≡ false
FromId id other_packet = Unit {0}

abbrev pub AllFrom : List ℕ → List Packet → Type 0
AllFrom id [] = Unit {0}
AllFrom id (p ∷ packets) = FromId id p × AllFrom id packets

AllFrom-at :
    (id : List ℕ) (sent : List Packet) (i : ℕ)
    → AllFrom id sent
    → FromId id (get_or sent i other_packet)
AllFrom-at id [] i h = tt
AllFrom-at id (p ∷ sent) zero h = h.0
AllFrom-at id (p ∷ sent) (suc i) h = AllFrom-at id sent i h.1

pub AllFrom-arrived :
    (id : List ℕ) (places : List ℕ) (sent : List Packet)
    → AllFrom id sent
    → AllFrom id (arrived places sent)
unfolding arrived
AllFrom-arrived id [] sent h = tt
AllFrom-arrived id (i ∷ places) sent h = (AllFrom-at id sent i h, AllFrom-arrived id places sent h)

AllFrom-append :
    (id : List ℕ) (sent : List Packet) (p : Packet)
    → AllFrom id sent
    → FromId id p
    → AllFrom id (sent ++ p ∷ [])
AllFrom-append id [] p h f = (f, tt)
AllFrom-append id (q ∷ sent) p h f = (h.0, AllFrom-append id sent p h.1 f)

-- A machine with ID `x` that has heard of no other than `y`.
pub record Hears (x y : List ℕ) (a : Arb) : Type 0 where
  pub own : a.localid ≡ x
  pub protocol : a.new_protocol ≡ true
  pub player : 0 < a.localstage → a.consoleplayer ≡ player_of x y

process_packet-Hears :
    (x y : List ℕ) (p : Packet) (a : Arb)
    → same_bytes x y ≡ false
    → FromId y p
    → Hears x y a
    → (b : Arb) × (process_packet p a ≡ some b) × Hears x y b
unfolding process_packet
process_packet-Hears x y (id_packet z stage) a ne f g =
    rw (f, g.own, ne) (_, refl, record { own = refl; protocol = refl; player = λ h. refl })
process_packet-Hears x y (play_packet player stage) a ne f g = absurd (ground arith)
process_packet-Hears x y other_packet a ne f g = (a, refl, g)

process_packets-Hears :
    (x y : List ℕ) (packets : List Packet) (a : Arb)
    → same_bytes x y ≡ false
    → AllFrom y packets
    → Hears x y a
    → (b : Arb) × (process_packets packets a ≡ some b) × Hears x y b
unfolding process_packets
process_packets-Hears x y [] a ne f g = (a, refl, g)
process_packets-Hears x y (p ∷ packets) a ne f g =
    let (b, e, g') = process_packet-Hears x y p a ne f.0 g in
    rw (process_packets, e) (process_packets-Hears x y packets b ne f.1 g')

-- What a poll gives: no Error, a packet with our ID if any, and the state.
pub record Polls (x y : List ℕ) (r : Option (Bool × Option Packet × Arb)) : Type 0 where
  pub done : Bool
  pub sent : Option Packet
  pub state : Arb
  pub result : r ≡ some (done, sent, state)
  pub hears : Hears x y state
  pub logged : (log : List Packet) → AllFrom x log → AllFrom x (log_with log sent)

send_if_due-Polls :
    (x y : List ℕ) (per_sec now : ℕ) (a : Arb)
    → Hears x y a
    → Polls x y (some (send_if_due per_sec now a))
unfolding send_if_due make_packet
send_if_due-Polls x y per_sec now a g =
    elim (Bool-cases (leb per_sec ((now + 2 ^ 32 - a.last_send_time) % 2 ^ 32))) [
      | inl due ↦ rw due (record {
        done = false;
        sent = some (make_packet a);
        state = record a { last_send_time = now };
        result = refl;
        hears = record { own = g.own; protocol = g.protocol; player = g.player };
        logged = λ log h.
            rw g.protocol (AllFrom-append x log (id_packet a.localid a.localstage) h g.own);
      })
      | inr early ↦ rw early (record {
        done = false;
        sent = none;
        state = a;
        result = refl;
        hears = g;
        logged = λ log h. h;
      })
    ]

pub poll-Polls :
    (x y : List ℕ) (per_sec now : ℕ) (packets : List Packet) (a : Arb)
    → same_bytes x y ≡ false
    → AllFrom y packets
    → Hears x y a
    → Polls x y (poll_arbitrate_players per_sec now packets a)
unfolding poll_arbitrate_players
poll-Polls x y per_sec now packets a ne f g = elim (Bool-cases (leb 2 a.localstage)) [
  | inl over ↦ rw over (record {
    done = true;
    sent = none;
    state = a;
    result = refl;
    hears = g;
    logged = λ log h. h;
  })
  | inr open_stage ↦
      let (b, e, g') = process_packets-Hears x y packets a ne f g in
      rw (open_stage, e) (send_if_due-Polls x y per_sec now b g')
]
