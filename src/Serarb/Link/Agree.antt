-- ===== src/Serarb/Link/Agree.antt =====
-- Whatever the link does, no machine fails, and both settle on different players.
use vanilla_utilities.Base.{
  ℕ, ◌+◌, ◌≤◌, ◌≡◌, refl, subst, ◌∙◌, arith, true, false, List, [], ◌∷◌, some,
}
use vanilla_utilities.Serarb.{Arb}
use vanilla_utilities.Base.Words.{same_bytes, same_bytes-sym}
use vanilla_utilities.Serarb.Order.{player_of-differ}
use vanilla_utilities.Serarb.Link.{
  Link, Event, left_polls, right_polls, arrived, step, run, start_link,
}
use vanilla_utilities.Serarb.Link.Hearing.{AllFrom, AllFrom-arrived, Hears, poll-Polls}

pub record Agrees (x y : List ℕ) (l : Link) : Type 0 where
  pub left_hears : Hears x y l.left
  pub right_hears : Hears y x l.right
  pub left_log : AllFrom x l.from_left
  pub right_log : AllFrom y l.from_right

step-Agrees :
    (x y : List ℕ) (per_sec : ℕ) (e : Event) (l : Link)
    → same_bytes x y ≡ false
    → same_bytes y x ≡ false
    → Agrees x y l
    → (m : Link) × (step per_sec e l ≡ some m) × Agrees x y m
unfolding step
step-Agrees x y per_sec (left_polls now places) l ne en v =
    let p =
      poll-Polls x y per_sec now (arrived places l.from_right) l.left ne
        (AllFrom-arrived y places l.from_right v.right_log) v.left_hears in
    rw (step, p.result)
      (
        _,
        refl,
        record {
          left_hears = p.hears;
          right_hears = v.right_hears;
          left_log = p.logged l.from_left v.left_log;
          right_log = v.right_log;
        },
      )
step-Agrees x y per_sec (right_polls now places) l ne en v =
    let p =
      poll-Polls y x per_sec now (arrived places l.from_left) l.right en
        (AllFrom-arrived x places l.from_left v.left_log) v.right_hears in
    rw (step, p.result)
      (
        _,
        refl,
        record {
          left_hears = v.left_hears;
          right_hears = p.hears;
          left_log = v.left_log;
          right_log = p.logged l.from_right v.right_log;
        },
      )

pub run-Agrees :
    (x y : List ℕ) (per_sec : ℕ) (events : List Event) (l : Link)
    → same_bytes x y ≡ false
    → same_bytes y x ≡ false
    → Agrees x y l
    → (m : Link) × (run per_sec events l ≡ some m) × Agrees x y m
unfolding run
run-Agrees x y per_sec [] l ne en v = (l, refl, v)
run-Agrees x y per_sec (e ∷ events) l ne en v =
    let (m, q, w) = step-Agrees x y per_sec e l ne en v in
    rw (run, q) (run-Agrees x y per_sec events m ne en w)

pub start_link-Agrees :
    (a b : Arb)
    → a.localstage ≡ 0
    → b.localstage ≡ 0
    → a.new_protocol ≡ true
    → b.new_protocol ≡ true
    → Agrees a.localid b.localid (start_link a b)
start_link-Agrees a b za zb pa pb = record {
  left_hears = record { own = refl; protocol = pa; player = λ h. absurd (omega arith) };
  right_hears = record { own = refl; protocol = pb; player = λ h. absurd (omega arith) };
  left_log = tt;
  right_log = tt;
}

-- Two machines start the new protocol with different IDs, over a link that may lose, repeat,
-- reorder packets or make them unreadable: neither ever ends with the Error about equal IDs.
run-succeeds :
    (per_sec : ℕ) (events : List Event) (a b : Arb)
    → a.localstage ≡ 0
    → b.localstage ≡ 0
    → a.new_protocol ≡ true
    → b.new_protocol ≡ true
    → same_bytes a.localid b.localid ≡ false
    → (m : Link) × (run per_sec events (start_link a b) ≡ some m)
run-succeeds per_sec events a b za zb pa pb ne =
    let (m, e, v) =
      run-Agrees a.localid b.localid per_sec events (start_link a b) ne
        (same_bytes-sym b.localid a.localid ∙ ne) (start_link-Agrees a b za zb pa pb) in
    (m, e)

-- Two machines start the new protocol with different IDs, over a link that may lose, repeat and
-- reorder packets and make some unreadable, but never makes one that reads as another. Whenever
-- both have reached stage 2, where arbitration ends, one is player 0 and the other player 1.
pub run-distinct_players :
    (per_sec : ℕ) (events : List Event) (a b : Arb) (m : Link)
    → a.localstage ≡ 0
    → b.localstage ≡ 0
    → a.new_protocol ≡ true
    → b.new_protocol ≡ true
    → same_bytes a.localid b.localid ≡ false
    → run per_sec events (start_link a b) ≡ some m
    → 2 ≤ m.left.localstage
    → 2 ≤ m.right.localstage
    → m.left.consoleplayer + m.right.consoleplayer ≡ 1
run-distinct_players per_sec events a b m za zb pa pb ne r hl hr =
    let (m', e, v) =
      run-Agrees a.localid b.localid per_sec events (start_link a b) ne
        (same_bytes-sym b.localid a.localid ∙ ne) (start_link-Agrees a b za zb pa pb) in
    let same : m' ≡ m = cc in
    let w = subst (Agrees a.localid b.localid) same v in
    rw (w.left_hears.player (omega arith), w.right_hears.player (omega arith))
      (player_of-differ a.localid b.localid ne)
