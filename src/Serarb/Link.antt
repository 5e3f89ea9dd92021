-- ===== src/Serarb/Link.antt =====
-- Two machines that arbitrate over a link which may lose, repeat and reorder packets, and make some
-- of them unreadable. It does not alter a packet so that another one is read.
pub mod Hearing
pub mod Agree
pub mod Polls
pub mod Settle
use vanilla_utilities.Base.{ℕ, get_or, List, [], ◌∷◌, ◌++◌, Option, none, some}
use vanilla_utilities.Serarb.{Packet, other_packet, Arb, poll_arbitrate_players}

-- The machines, and what each has sent so far.
pub record Link : Type 0 where
  pub left : Arb
  pub right : Arb
  pub from_left : List Packet
  pub from_right : List Packet

-- A machine polls at time `now`, and finds the packets with the given places among all that the other
-- has ever sent. A place out of range is a text that is neither of the two kinds
-- that ProcessPackets reads.
pub data Event : Type 0 where
  left_polls right_polls : ℕ → List ℕ → Event

unfoldable pub arrived : List ℕ → List Packet → List Packet
arrived [] sent = []
arrived (i ∷ places) sent = get_or sent i other_packet ∷ arrived places sent

abbrev pub log_with : List Packet → Option Packet → List Packet
log_with sent none = sent
log_with sent (some p) = sent ++ p ∷ []

unfoldable pub step : ℕ → Event → Link → Option Link
step per_sec (left_polls now places) l =
    elim (poll_arbitrate_players per_sec now (arrived places l.from_right) l.left) [
      | none ↦ none
      | some (done, sent, a) ↦ some (record l { left = a; from_left = log_with l.from_left sent })
    ]
step per_sec (right_polls now places) l =
    elim (poll_arbitrate_players per_sec now (arrived places l.from_left) l.right) [
      | none ↦ none
      | some (done, sent, a) ↦
          some (record l { right = a; from_right = log_with l.from_right sent })
    ]

unfoldable pub run : ℕ → List Event → Link → Option Link
run per_sec [] l = some l
run per_sec (e ∷ events) l = elim (step per_sec e l) [ none ↦ none | some m ↦ run per_sec events m ]

abbrev pub start_link : Arb → Arb → Link
start_link a b = record { left = a; right = b; from_left = []; from_right = [] }
