-- ===== src/Ipxsetup/Tests.antt =====
-- Games of two and three machines.
use vanilla_utilities.Base.{
  ℕ, ◌+◌, ◌<◌, ◌≡◌, ◌≢◌, refl, arith, List, [], ◌∷◌, ◌++◌, false, some, count_if,
}
use vanilla_utilities.Base.Words.{same_bytes, memcmp_above}
use vanilla_utilities.Ipxnet.{Packet, short_swap, ipx_send_packet}
use vanilla_utilities.Ipxsetup.{
  SetupData, Peer, Ipx, minus_one, find_node, node_for_address, payload_size, old_protocol,
  read_setup, clashes, adjust_dup, process_setup_packet, process_setup_packets, sizeof_setupdata,
  header_length,
}
use vanilla_utilities.Ipxsetup.Table.{Learnt, process_setup_packet-Learnt}
use vanilla_utilities.Ipxsetup.Player.{
  is_auto_below, claims, is_claimed, skip_loop, determine_console_player,
}
use vanilla_utilities.Ipxsetup.Player.Nth.{NthFree, determine_console_player-NthFree}
use vanilla_utilities.Ipxsetup.Player.Differ.{auto, determine_console_player-differ}
use vanilla_utilities.Ipxsetup.Search.{
  Search, Round, ready, settled_count, found_all, own_setup, setup_bytes, send_if_due,
  count_players, finish_with, finish, game_nodes, search_loop, start_search, broadcast_addr,
  look_for_nodes,
}
use vanilla_utilities.Ipxsetup.Search.Told.{IsSetup}
use vanilla_utilities.Ipxsetup.Search.Agree.{Found, look_for_nodes-Found}

abbrev setup : ℕ → SetupData
setup plnumwanted = record {
  gameid = 0;
  drone = 0;
  nodesfound = 2;
  nodeswanted = 2;
  dupwanted = 1;
  plnumwanted = plnumwanted;
}

abbrev low : List ℕ
low = 0 ∷ 0 ∷ 0 ∷ 0 ∷ 2 ∷ 0 ∷ 0 ∷ 0 ∷ 0 ∷ 1 ∷ []

abbrev high : List ℕ
high = 0 ∷ 0 ∷ 0 ∷ 0 ∷ 2 ∷ 0 ∷ 0 ∷ 0 ∷ 0 ∷ 9 ∷ []

abbrev left : Peer
left = record { addr = low; setup = setup minus_one }

abbrev right : Peer
right = record { addr = high; setup = setup minus_one }

-- The second player, by its flag.
abbrev second : Peer
second = record { addr = low; setup = setup 2 }

third_is_last : determine_console_player 3 minus_one (right ∷ left ∷ second ∷ []) ≡ some 2
unfolding determine_console_player skip_loop is_auto_below is_claimed claims memcmp_above
third_is_last = refl

determine_console_player-NthFree_example :
    (player : ℕ) × (determine_console_player 3 minus_one (right ∷ left ∷ second ∷ []) ≡ some player)
    × (player < 3)
    × NthFree
        (right ∷ left ∷ second ∷ [])
        0
        (count_if (is_auto_below high) (right ∷ left ∷ second ∷ []))
        player
determine_console_player-NthFree_example =
    determine_console_player-NthFree 3 right (left ∷ second ∷ []) refl (omega arith)

left_is_first : determine_console_player 2 minus_one (left ∷ right ∷ []) ≡ some 0
unfolding determine_console_player skip_loop is_auto_below is_claimed claims memcmp_above
left_is_first = refl

addresses_differ : same_bytes low high ≡ false
unfolding same_bytes
addresses_differ = refl

determine_console_player-differ_example :
    determine_console_player 2 minus_one (right ∷ left ∷ []) ≢ some 0
determine_console_player-differ_example =
    determine_console_player-differ 2 left right (right ∷ []) (left ∷ []) 0 (λ f. omega arith)
      (omega arith) (omega arith) addresses_differ (auto refl refl) (auto refl refl) (λ e. refl)
      left_is_first

-- What the other machine broadcasts.
abbrev told : Packet
told = record {
  packet_length = short_swap (sizeof_setupdata + header_length);
  src = high;
  time = 0xffffffff;
  payload = setup_bytes (setup minus_one) ++ 0 ∷ [];
}

setup-IsSetup : IsSetup (setup minus_one)
setup-IsSetup = record {
  gameid_fits = omega arith;
  drone_fits = omega arith;
  found_fits = omega arith;
  wanted_fits = omega arith;
  dup_fits = omega arith;
  player_fits = omega arith;
}

abbrev idle : Ipx
idle = record {
  nodes = [];
  numnetnodes = 2;
  force_player = minus_one;
  doomnet_dup = 1;
  ipx_localtime = 0;
  remotenode = 0;
  datalength = 0;
  bytes = [];
  rx_unknown_src = 0;
}

told_is_learnt :
    process_setup_packet told (record idle { nodes = left ∷ [] })
    ≡ some (record idle { nodes = left ∷ right ∷ [] })
unfolding process_setup_packet node_for_address find_node clashes read_setup adjust_dup old_protocol
    payload_size short_swap setup_bytes same_bytes
told_is_learnt = refl

process_setup_packet-Learnt_example : Learnt told (left ∷ []) (left ∷ right ∷ [])
process_setup_packet-Learnt_example =
    process_setup_packet-Learnt told (record idle { nodes = left ∷ [] })
      (record idle { nodes = left ∷ right ∷ [] }) refl (tt, tt) (omega arith) told_is_learnt

abbrev rounds : List Round
rounds =
    record { now = 50; packets = [] }
    ∷ record { now = 70; packets = told ∷ [] }
    ∷ record { now = 80; packets = [] }
    ∷ []

-- Our machine has the lower address.
abbrev end_state : Search
end_state = record {
  last_time = 70;
  ipx = record idle { nodes = left ∷ right ∷ []; ipx_localtime = 0xffffffff };
  sent =
      ipx_send_packet 0xffffffff broadcast_addr
        (setup_bytes (record (setup minus_one) { nodesfound = 1 })) 12
      ∷ ipx_send_packet 0xffffffff broadcast_addr (setup_bytes (setup minus_one)) 12
      ∷ [];
}

search_ends : look_for_nodes 18 low rounds idle ≡ ready 0 2 end_state
unfolding look_for_nodes search_loop start_search process_setup_packets process_setup_packet
    node_for_address find_node clashes read_setup adjust_dup old_protocol payload_size short_swap
    setup_bytes same_bytes found_all settled_count send_if_due own_setup finish finish_with
    count_players game_nodes determine_console_player skip_loop is_auto_below is_claimed claims
    memcmp_above
search_ends = refl

look_for_nodes-Found_example : Found idle 0 2 end_state
look_for_nodes-Found_example =
    look_for_nodes-Found 18 low rounds idle end_state 0 2 (omega arith) (omega arith) search_ends
