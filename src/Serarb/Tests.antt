-- ===== src/Serarb/Tests.antt =====
-- Two machines that hear each other.
use vanilla_utilities.Base.{◌++◌, ◌≡◌, ◌+◌, refl, arith, List, [], ◌∷◌, some, true, false}
use vanilla_utilities.Base.Words.{same_bytes, memcmp_above}
use vanilla_utilities.Serarb.{
  id_packet, Arb, player_of, six_digits, init_arbitration, make_local_id, process_packet,
  process_packets, make_packet, send_if_due, poll_arbitrate_players,
}
use vanilla_utilities.Serarb.Link.{
  Link, Event, left_polls, right_polls, start_link, arrived, step, run,
}
use vanilla_utilities.Serarb.Link.Agree.{run-distinct_players}
use vanilla_utilities.Serarb.Link.Settle.{Done, last_words, run-settles}

abbrev one : Arb
one = record {
  consoleplayer = 0;
  localid = six_digits 5;
  last_send_time = 0;
  localstage = 0;
  new_protocol = true;
}

abbrev two : Arb
two = record one { localid = six_digits 9 }

-- The forced players: `-player1` here, `-player2` there.
forced :
    init_arbitration false true 3 4 0
    ≡ record one { consoleplayer = 1; localid = six_digits 999999 }
unfolding init_arbitration make_local_id
forced = refl

abbrev talk : List Event
talk =
    left_polls 100 []
    ∷ right_polls 100 (0 ∷ [])
    ∷ left_polls 200 (0 ∷ [])
    ∷ right_polls 200 (7 ∷ 1 ∷ [])
    ∷ []

abbrev settled : Link
settled = record {
  left = record one { localstage = 2; last_send_time = 200 };
  right = record two { localstage = 3; last_send_time = 200; consoleplayer = 1 };
  from_left = id_packet (six_digits 5) 0 ∷ id_packet (six_digits 5) 2 ∷ [];
  from_right = id_packet (six_digits 9) 1 ∷ id_packet (six_digits 9) 3 ∷ [];
}

ids_differ : same_bytes (six_digits 5) (six_digits 9) ≡ false
unfolding same_bytes
ids_differ = refl

talk-settled : run 18 talk (start_link one two) ≡ some settled
unfolding run step arrived poll_arbitrate_players process_packets process_packet send_if_due
    make_packet player_of memcmp_above same_bytes
talk-settled = refl

run-distinct_players_example : settled.left.consoleplayer + settled.right.consoleplayer ≡ 1
run-distinct_players_example =
    run-distinct_players 18 talk one two settled refl refl refl refl ids_differ talk-settled
      (omega arith) (omega arith)

-- The first packet is lost.
abbrev lost : List Event
lost = left_polls 100 [] ∷ []

abbrev unheard : Link
unheard = record (start_link one two) {
  left = record one { last_send_time = 100 };
  from_left = id_packet (six_digits 5) 0 ∷ [];
}

lost-unheard : run 18 lost (start_link one two) ≡ some unheard
unfolding run step arrived poll_arbitrate_players process_packets send_if_due make_packet
lost-unheard = refl

run-settles_example :
    (m : Link) × (run 18 (lost ++ last_words 200 210 220 300 unheard) (start_link one two) ≡ some m)
    × Done m
    × (m.left.consoleplayer + m.right.consoleplayer ≡ 1)
run-settles_example =
    run-settles 18 200 210 220 300 lost one two unheard refl refl refl refl ids_differ lost-unheard
      (omega arith) (omega arith) (omega arith) (omega arith) (omega arith) (omega arith)
      (omega arith) (omega arith) (omega arith)
