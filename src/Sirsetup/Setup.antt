-- ===== src/Sirsetup/Setup.antt =====
-- net/sirsetup.c: the search for the other nodes. Setup packets carry a `struct setup_data`, which is
-- laid out byte for byte, low byte first.
pub mod Signature
use vanilla_utilities.Base.{
  ℕ, zero, suc, ◌+◌, ◌-◌, ◌*◌, ◌/◌, ◌%◌, ◌^◌, ltb, leb, ◌==◌, length, get_or, set, take, drop,
  if◌then◌else◌, Bool, true, false, not, ◌&&◌, ◌||◌, List, [], ◌∷◌, ◌++◌, Option, none, some,
}
use vanilla_utilities.Base.Words.{word16, word32, bytes16, bytes32, lt16, lt32, same_bytes}
use vanilla_utilities.Serport.{Port}
use vanilla_utilities.Sirsetup.{
  Sir, SetupData, Doomcom, no_setup, no_node, max_net_nodes, send_packet, get_packet,
}

abbrev pub setup_signature : List ℕ
setup_signature =
    0xb2 ∷ 0x88 ∷ 0x2e ∷ 0x28 ∷ 0xb1 ∷ 0xc4 ∷ 0xaa ∷ 0xdb ∷ 0x9e ∷ 0xc2 ∷ 0x24 ∷ 0xec ∷ 0x2c ∷ 0x1f
    ∷ 0x6c ∷ 0xa2 ∷ []

abbrev pub setup_size : ℕ
setup_size = 28

-- A `struct setup_data` over a packet's bytes, and its bytes.
pub setup_of : List ℕ → SetupData
setup_of bytes = record {
  signature = take 16 bytes;
  station_id = word32 bytes 16;
  wanted = word16 bytes 20;
  found = word16 bytes 22;
  dup = word16 bytes 24;
  player = word16 bytes 26;
}

pub bytes_of : SetupData → List ℕ
bytes_of d =
    d.signature
    ++ (bytes32 d.station_id
        ++ (bytes16 d.wanted ++ (bytes16 d.found ++ (bytes16 d.dup ++ bytes16 d.player))))

-- NodeForStationID: `k` rounds left, from node `i`; `none` is -1.
pub station_loop : ℕ → ℕ → ℕ → List SetupData → Option ℕ
station_loop zero i station_id nodes = none
station_loop (suc k) i station_id nodes =
    let rest = station_loop k (i + 1) station_id nodes in
    if station_id == (get_or nodes i no_setup).station_id then some i else rest

pub node_for_station_id : ℕ → Sir → Option ℕ
node_for_station_id station_id s = station_loop (s.doomcom.numnodes - 1) 1 station_id s.node_data

-- The call `memcmp(setup->setup_signature, SETUP_SIGNATURE, sizeof(SETUP_SIGNATURE) != 0)`: its
-- third argument is the truth value of an inequation, which is 1.
abbrev pub compared_bytes : ℕ
compared_bytes = if not (length setup_signature == 0) then 1 else 0

pub signature_differs : SetupData → Bool
signature_differs d =
    not (same_bytes (take compared_bytes d.signature) (take compared_bytes setup_signature))

-- The asserts on a new node's packet.
pub setup_in_range : SetupData → Bool
setup_in_range d =
    not (lt16 d.wanted 1)
    && not (lt16 d.dup 1)
    && not (lt16 d.wanted d.found)
    && lt16 d.wanted max_net_nodes
    && not (lt16 d.player 0xffff)
    && lt16 d.player d.wanted

-- What a new node's packet changes of our own `node_data[0]`.
pub adjust_own : ℕ → SetupData → SetupData → SetupData
adjust_own doomnet_dup d own = record own {
  wanted = if lt16 own.wanted d.wanted then d.wanted else own.wanted;
  dup = if lt16 doomnet_dup d.dup then d.dup else own.dup;
}

abbrev pub own_of : Sir → SetupData
own_of s = get_or s.node_data 0 no_setup

-- A new node: `none` is an assert or Error that ends the program. The table has room for 16 nodes.
pub new_node : ℕ → SetupData → Sir → Option Sir
new_node doomnet_dup d s =
    let own = own_of s in
    let n = s.doomcom.numnodes in
    if not (setup_in_range d)
    then none
    else if not (own.player == no_node) && own.player == d.player
    then none
    else some (record s {
      doomcom = record (s.doomcom) { numnodes = n + 1 };
      node_data = set (set s.node_data 0 (adjust_own doomnet_dup d own)) n d;
    })

pub update_node : ℕ → Option ℕ → SetupData → Sir → Option Sir
update_node doomnet_dup none d s = new_node doomnet_dup d s
update_node doomnet_dup (some n) d s = some (record s { node_data = set s.node_data n d })

-- ProcessSetupPacket, on the packet in `doomcom.data`.
pub process_setup_packet : ℕ → Sir → Option Sir
process_setup_packet doomnet_dup s =
    let d = setup_of s.doomcom.bytes in
    if ltb (length s.doomcom.bytes) setup_size || signature_differs d
    then some s
    else if (own_of s).station_id == d.station_id
    then none
    else update_node doomnet_dup (node_for_station_id d.station_id s) d s

-- AllNodesReady: `k` rounds left, from node `i`.
pub ready_loop : ℕ → ℕ → List SetupData → Bool
ready_loop zero i nodes = true
ready_loop (suc k) i nodes =
    (get_or nodes i no_setup).found == (get_or nodes i no_setup).wanted
    && ready_loop k (i + 1) nodes

pub all_nodes_ready : Sir → Bool
all_nodes_ready s = ready_loop s.doomcom.numnodes 0 s.node_data

-- SendSetupPacket.
pub send_setup_packet : Port → Sir → Port × Sir
send_setup_packet p s =
    let own : SetupData = record (own_of s) { found = s.doomcom.numnodes } in
    send_packet max_net_nodes (bytes_of own) p (record s { node_data = set s.node_data 0 own })

-- AssignPlayerNumbers, the nodes that asked for a number: `k` rounds left, from node `i`.
pub wanted_loop : ℕ → ℕ → Sir → Sir
wanted_loop zero i s = s
wanted_loop (suc k) i s =
    let player = (get_or s.node_data i no_setup).player in
    wanted_loop k (i + 1)
      (if player == no_node then s else record s { player_to_node = set s.player_to_node player i })

-- Which unassigned node has the lowest station ID? `k` rounds left, from node `j`.
pub best_loop : ℕ → ℕ → Option ℕ → List SetupData → Option ℕ
best_loop zero j best nodes = best
best_loop (suc k) j best nodes =
    let n = get_or nodes j no_setup in
    let lower : Bool = elim best [
      | none ↦ true
      | some b ↦ lt32 n.station_id (get_or nodes b no_setup).station_id
    ] in
    best_loop k (j + 1) (if n.player == no_node && lower then some j else best) nodes

-- Player `i` is the best node; `none` is the assert.
pub assign_best : ℕ → Option ℕ → Sir → Option Sir
assign_best i none s = none
assign_best i (some best) s = some (record s {
  player_to_node = set s.player_to_node i best;
  node_data = set s.node_data best (record (get_or s.node_data best no_setup) { player = i });
})

-- The other nodes get the numbers that are left: `k` rounds left, from player `i`.
pub rest_loop : ℕ → ℕ → Sir → Option Sir
rest_loop zero i s = some s
rest_loop (suc k) i s =
    if not (get_or s.player_to_node i no_node == no_node)
    then rest_loop k (i + 1) s
    else (elim (assign_best i (best_loop s.doomcom.numnodes 0 none s.node_data) s) [
      | none ↦ none
      | some t ↦ rest_loop k (i + 1) t
    ])

-- The first loop, which clears the map: `k` rounds left, from player `i`.
pub clear_loop : ℕ → ℕ → List ℕ → List ℕ
clear_loop zero i players = players
clear_loop (suc k) i players = clear_loop k (i + 1) (set players i no_node)

pub assign_player_numbers : Sir → Option Sir
assign_player_numbers s =
    let n = s.doomcom.numnodes in
    rest_loop n 0 (wanted_loop n 0 (record s { player_to_node = clear_loop n 0 s.player_to_node }))
