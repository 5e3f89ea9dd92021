-- ===== src/Serarb/Link/Settle.antt =====
-- Two machines whose last packets arrive finish the arbitration.
use vanilla_utilities.Base.{
  ℕ, suc, ◌+◌, ◌-◌, ◌%◌, ◌^◌, ◌<◌, ◌≤◌, ◌≡◌, refl, subst, ◌∙◌, arith, length, Bool, true, false,
  List, [], ◌∷◌, ◌++◌, Option, none, some, Option-cases, inl, inr,
}
use vanilla_utilities.Base.Words.{same_bytes, same_bytes-sym}
use vanilla_utilities.Serarb.{Packet, id_packet, Arb, poll_arbitrate_players}
use vanilla_utilities.Serarb.Link.{
  Link, Event, left_polls, right_polls, arrived, log_with, step, run, start_link,
}
use vanilla_utilities.Serarb.Link.Hearing.{Hears}
use vanilla_utilities.Serarb.Link.Agree.{
  Agrees, run-Agrees, start_link-Agrees, run-distinct_players,
}
use vanilla_utilities.Serarb.Link.Polls.{
  poll_arbitrate_players_due, poll-Answers, poll_arbitrate_players_late, get_or-last, get_or-next,
}

-- Four polls in turn, each of which hears what the other machine sent last.
abbrev pub last_words : ℕ → ℕ → ℕ → ℕ → Link → List Event
last_words t0 t1 t2 t3 l =
    left_polls t0 []
    ∷ right_polls t1 (length l.from_left ∷ [])
    ∷ left_polls t2 (length l.from_right ∷ [])
    ∷ right_polls t3 (suc (length l.from_left) ∷ [])
    ∷ []

left_step :
    (per_sec now : ℕ) (places : List ℕ) (l : Link) (done : Bool) (sent : Option Packet) (a : Arb)
    → poll_arbitrate_players per_sec now (arrived places l.from_right) l.left ≡ some (done, sent, a)
    → step per_sec (left_polls now places) l
      ≡ some (record l { left = a; from_left = log_with l.from_left sent })
unfolding step
left_step per_sec now places l done sent a h = rw (step, h) refl

right_step :
    (per_sec now : ℕ) (places : List ℕ) (l : Link) (done : Bool) (sent : Option Packet) (a : Arb)
    → poll_arbitrate_players per_sec now (arrived places l.from_left) l.right ≡ some (done, sent, a)
    → step per_sec (right_polls now places) l
      ≡ some (record l { right = a; from_right = log_with l.from_right sent })
unfolding step
right_step per_sec now places l done sent a h = rw (step, h) refl

run-step :
    (per_sec : ℕ) (e : Event) (events : List Event) (l m : Link)
    → step per_sec e l ≡ some m
    → run per_sec (e ∷ events) l ≡ run per_sec events m
unfolding run
run-step per_sec e events l m h = rw (run, h) refl

run-four :
    (per_sec : ℕ) (e0 e1 e2 e3 : Event) (l l1 l2 l3 l4 : Link)
    → step per_sec e0 l ≡ some l1
    → step per_sec e1 l1 ≡ some l2
    → step per_sec e2 l2 ≡ some l3
    → step per_sec e3 l3 ≡ some l4
    → run per_sec (e0 ∷ e1 ∷ e2 ∷ e3 ∷ []) l ≡ some l4
unfolding run
run-four per_sec e0 e1 e2 e3 l l1 l2 l3 l4 h0 h1 h2 h3 =
    run-step per_sec e0 (e1 ∷ e2 ∷ e3 ∷ []) l l1 h0
    ∙ run-step per_sec e1 (e2 ∷ e3 ∷ []) l1 l2 h1
    ∙ run-step per_sec e2 (e3 ∷ []) l2 l3 h2
    ∙ run-step per_sec e3 [] l3 l4 h3

run-append :
    (per_sec : ℕ) (events more : List Event) (l m : Link)
    → run per_sec events l ≡ some m
    → run per_sec (events ++ more) l ≡ run per_sec more m
unfolding run
run-append per_sec [] more l m h = let same : l ≡ m = cc in rw same refl
run-append per_sec (e ∷ events) more l m h = elim (Option-cases (step per_sec e l)) [
  | inl error ↦ let bad : none ≡ some m = rw (run, error) at h in cc
  | inr (k, s) ↦ rw (run, s) (run-append per_sec events more k m (rw (run, s) at h))
]

-- Both machines are past stage 1.
abbrev pub Done : Link → Type 0
Done l = (2 ≤ l.left.localstage) × (2 ≤ l.right.localstage)

run-last_words :
    (x y : List ℕ) (per_sec t0 t1 t2 t3 : ℕ) (l : Link)
    → same_bytes x y ≡ false
    → Agrees x y l
    → l.left.localstage < 2
    → l.right.localstage < 2
    → per_sec ≤ (t0 + 2 ^ 32 - l.left.last_send_time) % 2 ^ 32
    → per_sec ≤ t1
    → per_sec ≤ t2
    → per_sec ≤ t3
    → t1 < 2 ^ 32
    → t2 < 2 ^ 32
    → t3 < 2 ^ 32
    → (m : Link) × (run per_sec (last_words t0 t1 t2 t3 l) l ≡ some m) × Done m
unfolding run arrived
run-last_words x y per_sec t0 t1 t2 t3 l ne g sl sr d0 d1 d2 d3 b1 b2 b3 =
    let en : same_bytes y x ≡ false = same_bytes-sym y x ∙ ne in
    let s = l.left.localstage in
    let p = id_packet x s in
    let a : Arb = record (l.left) { last_send_time = t0 } in
    let l1 : Link = record l { left = a; from_left = l.from_left ++ p ∷ [] } in
    let e0 : step per_sec (left_polls t0 []) l ≡ some l1 =
      left_step per_sec t0 [] l false (some p) a
        (poll_arbitrate_players_due x y per_sec t0 l.left g.left_hears sl d0) in
    let v1 = poll-Answers y x per_sec t1 s l.right en g.right_hears sr d1 b1 in
    let l2 : Link = record l1 {
      right = v1.state;
      from_right = l.from_right ++ id_packet y (s + 1) ∷ [];
    } in
    let e1 : step per_sec (right_polls t1 (length l.from_left ∷ [])) l1 ≡ some l2 =
      right_step per_sec t1 (length l.from_left ∷ []) l1 false (some (id_packet y (s + 1))) v1.state
        (rw (get_or-last l.from_left p) v1.result) in
    let ga : Hears x y a = record {
      own = g.left_hears.own;
      protocol = g.left_hears.protocol;
      player = g.left_hears.player;
    } in
    let v2 = poll-Answers x y per_sec t2 (s + 1) a ne ga sl d2 b2 in
    let q = id_packet x (s + 1 + 1) in
    let l3 : Link = record l2 { left = v2.state; from_left = l1.from_left ++ q ∷ [] } in
    let e2 : step per_sec (left_polls t2 (length l.from_right ∷ [])) l2 ≡ some l3 =
      left_step per_sec t2 (length l.from_right ∷ []) l2 false (some q) v2.state
        (rw (get_or-last l.from_right (id_packet y (s + 1))) v2.result) in
    let (done, sent, b, r, late) =
      poll_arbitrate_players_late y x per_sec t3 (s + 1 + 1) v1.state en v1.hears (omega arith) d3
        b3 in
    let l4 : Link = record l3 { right = b; from_right = log_with l3.from_right sent } in
    let e3 : step per_sec (right_polls t3 (suc (length l.from_left) ∷ [])) l3 ≡ some l4 =
      right_step per_sec t3 (suc (length l.from_left) ∷ []) l3 done sent b
        (rw (get_or-next l.from_left p q) r) in
    (l4, run-four per_sec _ _ _ _ l l1 l2 l3 l4 e0 e1 e2 e3, (omega (arith, v2.stage), late))

-- Two machines start the new protocol with different IDs, over a link that may lose, repeat and
-- reorder packets and make some unreadable, but never makes one that reads as another. At some
-- time neither has reached stage 2. If from then on four polls in turn follow, the first of them
-- late enough to send, and each other one at a clock of a second or more that hears what the other
-- machine sent last, then both have reached stage 2, and one is player 0 and the other player 1.
pub run-settles :
    (per_sec t0 t1 t2 t3 : ℕ) (events : List Event) (a b : Arb) (l : Link)
    → a.localstage ≡ 0
    → b.localstage ≡ 0
    → a.new_protocol ≡ true
    → b.new_protocol ≡ true
    → same_bytes a.localid b.localid ≡ false
    → run per_sec events (start_link a b) ≡ some l
    → l.left.localstage < 2
    → l.right.localstage < 2
    → per_sec ≤ (t0 + 2 ^ 32 - l.left.last_send_time) % 2 ^ 32
    → per_sec ≤ t1
    → per_sec ≤ t2
    → per_sec ≤ t3
    → t1 < 2 ^ 32
    → t2 < 2 ^ 32
    → t3 < 2 ^ 32
    → (m : Link) × (run per_sec (events ++ last_words t0 t1 t2 t3 l) (start_link a b) ≡ some m)
      × Done m
      × (m.left.consoleplayer + m.right.consoleplayer ≡ 1)
run-settles per_sec t0 t1 t2 t3 events a b l za zb pa pb ne r sl sr d0 d1 d2 d3 b1 b2 b3 =
    let x = a.localid in
    let y = b.localid in
    let (l', e, g') =
      run-Agrees x y per_sec events (start_link a b) ne (same_bytes-sym y x ∙ ne)
        (start_link-Agrees a b za zb pa pb) in
    let same : l' ≡ l = cc in
    let g = subst (Agrees x y) same g' in
    let (m, q, d) = run-last_words x y per_sec t0 t1 t2 t3 l ne g sl sr d0 d1 d2 d3 b1 b2 b3 in
    let all = run-append per_sec events (last_words t0 t1 t2 t3 l) (start_link a b) l r ∙ q in
    (
      m,
      all,
      d,
      run-distinct_players per_sec (events ++ last_words t0 t1 t2 t3 l) a b m za zb pa pb ne all d.0
          d.1,
    )
