-- ===== src/Ipxsetup/Search.antt =====
-- LookForNodes of net/ipxsetup.c. A round of its loop is given what `clock()` returns and the packets
-- that the network has until then.
pub mod Agree
pub mod Told
use vanilla_utilities.Base.{
  ℕ, zero, suc, ◌+◌, ◌-◌, ◌%◌, ◌^◌, ltb, leb, ◌==◌, length, get_or, set, take, replicate,
  if◌then◌else◌, Bool, true, false, not, ◌&&◌, ◌||◌, List, [], ◌∷◌, ◌++◌, Option, none, some,
}
use vanilla_utilities.Base.Words.{bytes16, lt16}
use vanilla_utilities.Ipxnet.{Packet, Sent, ipx_send_packet}
use vanilla_utilities.Ipxsetup.{
  SetupData, Peer, Ipx, minus_one, no_peer, sizeof_setupdata, process_setup_packets,
}
use vanilla_utilities.Ipxsetup.Player.{determine_console_player}

abbrev pub max_players : ℕ
max_players = 16

-- `broadcast_addr`.
abbrev pub broadcast_addr : List ℕ
broadcast_addr = 0 ∷ 0 ∷ 0 ∷ 0 ∷ 255 ∷ 255 ∷ 255 ∷ 255 ∷ 255 ∷ 255 ∷ []

-- `setupdata_t` in memory.
unfoldable pub setup_bytes : SetupData → List ℕ
setup_bytes d =
    bytes16 d.gameid
    ++ bytes16 d.drone
    ++ bytes16 d.nodesfound
    ++ bytes16 d.nodeswanted
    ++ bytes16 d.dupwanted
    ++ bytes16 d.plnumwanted

-- The variables of LookForNodes, and what it has sent.
pub record Search : Type 0 where
  pub last_time : ℕ
  pub ipx : Ipx
  pub sent : List Sent

-- How many nodes from the first on have found all that they want.
unfoldable pub settled_count : List Peer → ℕ
settled_count [] = 0
settled_count (n ∷ nodes) =
    if n.setup.nodesfound == n.setup.nodeswanted then suc (settled_count nodes) else 0

unfoldable pub found_all : Ipx → Bool
found_all s = settled_count s.nodes == (get_or s.nodes 0 no_peer).setup.nodeswanted

-- Our own entry, as it is broadcast.
unfoldable pub own_setup : Ipx → SetupData
own_setup s = record ((get_or s.nodes 0 no_peer).setup) {
  nodesfound = length s.nodes % 2 ^ 16;
  plnumwanted = s.force_player;
  dupwanted = s.doomnet_dup;
}

unfoldable pub send_if_due : ℕ → ℕ → Search → Search
send_if_due per_sec now v =
    if leb per_sec ((now + 2 ^ 32 - v.last_time) % 2 ^ 32)
    then record v {
      last_time = now;
      ipx = record (v.ipx) {
        nodes =
            set v.ipx.nodes 0 (record (get_or v.ipx.nodes 0 no_peer) { setup = own_setup v.ipx });
      };
      sent =
          v.sent
          ++ ipx_send_packet v.ipx.ipx_localtime broadcast_addr (setup_bytes (own_setup v.ipx))
              sizeof_setupdata
            ∷ [];
    }
    else v

-- The first `numnetnodes` entries of the tables, which are zero behind the nodes that are found.
unfoldable pub game_nodes : Ipx → List Peer
game_nodes s = take s.numnetnodes (s.nodes ++ replicate s.numnetnodes no_peer)

-- The loop over the nodes that counts the players; `none` is the Error about too many.
unfoldable pub count_players : List Peer → ℕ → Option ℕ
count_players [] total = some total
count_players (n ∷ nodes) total =
    if not (n.setup.drone == 0)
    then count_players nodes total
    else elim (ltb max_players (total + 1)) [
      | true ↦ none
      | false ↦ count_players nodes (total + 1)
    ]

-- Whether LookForNodes still searches, has ended with an Error, or is done: `consoleplayer`,
-- `numplayers` and the variables.
pub data Outcome : Type 0 where
  searching : Search → Outcome
  failed : Outcome
  ready : ℕ → ℕ → Search → Outcome

unfoldable pub finish_with : Option ℕ → Option ℕ → Search → Outcome
finish_with none player v = failed
finish_with (some total) none v = failed
finish_with (some total) (some player) v = if total == 0 then failed else ready player total v

-- LookForNodes behind its loop.
unfoldable pub finish : Search → Outcome
finish v =
    finish_with (count_players (game_nodes v.ipx) 0)
      (determine_console_player (v.ipx.numnetnodes + 1) v.ipx.force_player (game_nodes v.ipx)) v

pub record Round : Type 0 where
  pub now : ℕ
  pub packets : List Packet

unfoldable pub search_loop : ℕ → List Round → Search → Outcome
search_loop per_sec [] v = searching v
search_loop per_sec (r ∷ rounds) v = elim (process_setup_packets r.packets v.ipx) [
  | none ↦ failed
  | some s ↦
      let next = search_loop per_sec rounds (send_if_due per_sec r.now (record v { ipx = s })) in
      if found_all s then finish (record v { ipx = s }) else next
]

-- The tables and variables at the start; `nodesetup` is zero.
unfoldable pub start_search : List ℕ → Ipx → Search
start_search localaddr s = record {
  last_time = 0;
  ipx = record s {
    ipx_localtime = 0xffffffff;
    nodes =
        record {
          addr = localaddr;
          setup = record {
            gameid = 0;
            drone = 0;
            nodesfound = 1;
            nodeswanted = s.numnetnodes;
            dupwanted = 0;
            plnumwanted = 0;
          };
        }
        ∷ [];
  };
  sent = [];
}

unfoldable pub look_for_nodes : ℕ → List ℕ → List Round → Ipx → Outcome
look_for_nodes per_sec localaddr rounds s =
    if not (s.force_player == minus_one)
      && (lt16 s.force_player 1 || lt16 s.numnetnodes s.force_player)
    then failed
    else search_loop per_sec rounds (start_search localaddr s)
