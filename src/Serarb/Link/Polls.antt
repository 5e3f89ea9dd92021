-- ===== src/Serarb/Link/Polls.antt =====
-- What a poll does that hears nothing, or one packet of the other machine.
use vanilla_utilities.Base.{
  ℕ, suc, ◌+◌, ◌-◌, ◌%◌, ◌^◌, ◌<◌, ◌≤◌, ◌≡◌, refl, ap, arith, leb, length, get_or, Bool, true,
  false, List, [], ◌∷◌, ◌++◌, Option, none, some, Bool-cases, inl, inr,
}
use vanilla_utilities.Base.Words.{same_bytes}
use vanilla_utilities.Serarb.{
  Packet, id_packet, other_packet, Arb, process_packet, process_packets, make_packet, send_if_due,
  poll_arbitrate_players,
}
use vanilla_utilities.Serarb.Link.Hearing.{Hears}

make_packet-Hears :
    (x y : List ℕ) (a : Arb) → Hears x y a → make_packet a ≡ id_packet x a.localstage
unfolding make_packet
make_packet-Hears x y a g = rw (g.protocol, g.own) refl

-- A poll that hears nothing, where a packet is due.
pub poll_arbitrate_players_due :
    (x y : List ℕ) (per_sec now : ℕ) (a : Arb)
    → Hears x y a
    → a.localstage < 2
    → per_sec ≤ (now + 2 ^ 32 - a.last_send_time) % 2 ^ 32
    → poll_arbitrate_players per_sec now [] a
      ≡ some (false, some (id_packet x a.localstage), record a { last_send_time = now })
unfolding poll_arbitrate_players process_packets send_if_due
poll_arbitrate_players_due x y per_sec now a g h d =
    let open_stage : leb 2 a.localstage ≡ false = ground arith in
    let due : leb per_sec ((now + 2 ^ 32 - a.last_send_time) % 2 ^ 32) ≡ true = ground arith in
    let sends : Packet → Option (Bool × Option Packet × Arb) =
      λ p. some (false, some p, record a { last_send_time = now }) in
    rw (open_stage, due) (ap sends (make_packet-Hears x y a g))

-- A poll that hears the other machine at stage `k`.
pub record Answers (x y : List ℕ) (k : ℕ) (r : Option (Bool × Option Packet × Arb)) : Type 0 where
  pub state : Arb
  pub result : r ≡ some (false, some (id_packet x (k + 1)), state)
  pub stage : state.localstage ≡ k + 1
  pub hears : Hears x y state

pub poll-Answers :
    (x y : List ℕ) (per_sec now k : ℕ) (a : Arb)
    → same_bytes x y ≡ false
    → Hears x y a
    → a.localstage < 2
    → per_sec ≤ now
    → now < 2 ^ 32
    → Answers x y k (poll_arbitrate_players per_sec now (id_packet y k ∷ []) a)
unfolding poll_arbitrate_players process_packets process_packet send_if_due make_packet
poll-Answers x y per_sec now k a ne g h d l =
    let open_stage : leb 2 a.localstage ≡ false = ground arith in
    let due : leb per_sec ((now + 2 ^ 32 - 0) % 2 ^ 32) ≡ true = ground arith in
    rw (open_stage, g.own, ne, due)
      (record {
        state = _;
        result = refl;
        stage = refl;
        hears = record { own = refl; protocol = refl; player = λ h. refl };
      })

-- A poll that hears the other machine late leaves stage 2 or a later one.
pub poll_arbitrate_players_late :
    (x y : List ℕ) (per_sec now k : ℕ) (a : Arb)
    → same_bytes x y ≡ false
    → Hears x y a
    → 1 ≤ k
    → per_sec ≤ now
    → now < 2 ^ 32
    → (done : Bool) × (sent : Option Packet) × (b : Arb) × (poll_arbitrate_players per_sec now
          (id_packet y k ∷ [])
          a
        ≡ some (done, sent, b))
      × (2 ≤ b.localstage)
poll_arbitrate_players_late x y per_sec now k a ne g h d l =
    elim (Bool-cases (leb 2 a.localstage)) [
      | inl over ↦ (true, none, a, unfold poll_arbitrate_players in (rw over refl), ground arith)
      | inr open_stage ↦
          let v = poll-Answers x y per_sec now k a ne g (ground arith) d l in
          (_, _, _, v.result, omega (arith, v.stage))
    ]

pub get_or-last :
    (xs : List Packet) (p : Packet) → get_or (xs ++ p ∷ []) (length xs) other_packet ≡ p
get_or-last [] p = refl
get_or-last (x ∷ xs) p = get_or-last xs p

pub get_or-next :
    (xs : List Packet) (p q : Packet)
    → get_or ((xs ++ p ∷ []) ++ q ∷ []) (suc (length xs)) other_packet ≡ q
get_or-next [] p q = refl
get_or-next (x ∷ xs) p q = get_or-next xs p q
