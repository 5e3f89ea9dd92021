-- ===== src/Metanet/Discover.antt =====
-- net/metanet.c: the discovery protocol (SendDiscover, HandleDiscover, CheckReady) and NodeQuit.
pub mod Inv
pub mod Quit
use vanilla_utilities.Base.{
  ℕ, zero, suc, ◌+◌, ◌-◌, ◌%◌, ◌==◌, ltb, length, get_or, set, if◌then◌else◌, Bool, true, false,
  not, ◌&&◌, ◌||◌, List, [], ◌∷◌, Option, none, some, bit_or, min,
}
use vanilla_utilities.Metanet.Addr.{
  Addr, zero_addr, addr_driver, addr_node, make_address, append_next_hop, path_length, same_prefix,
}
use vanilla_utilities.Metanet.State.{
  Meta, Node, Driver, Discover, too_many_hops, increment, driver_at, put_driver, node_at,
  net_send_packet, has_flag, got_discover, ready, launched, has_quit, meta_magic, packet_discover,
  discover_size,
}
use vanilla_utilities.Metanet.Table.{max_net_nodes, node_for_addr, node_or_add_node}

-- SendDiscover, the loop over a driver's nodes: `k` rounds left, from node `node`.
pub neighbor_loop : ℕ → ℕ → ℕ → Discover → Discover
neighbor_loop zero node driver dsc = dsc
neighbor_loop (suc k) node driver dsc = neighbor_loop k (node + 1) driver (
    if ltb dsc.num_neighbors max_net_nodes
    then record dsc {
      num_neighbors = dsc.num_neighbors + 1;
      neighbors = set dsc.neighbors dsc.num_neighbors (make_address driver node);
    }
    else dsc)

-- The loop over the drivers but `skip`: `k` rounds left, from driver `driver`.
pub neighbors_loop : ℕ → ℕ → ℕ → Meta → Discover → Discover
neighbors_loop zero driver skip s dsc = dsc
neighbors_loop (suc k) driver skip s dsc =
    neighbors_loop k (driver + 1) skip s (
      if driver == skip
      then dsc
      else neighbor_loop ((driver_at s driver).numnodes - 1) 1 driver dsc)

pub send_discover : Node → Meta → Meta
send_discover node s =
    let i = addr_driver node.first_hop in
    let d = driver_at s i in
    let self = node_at s 0 in
    let dsc : Discover = record (d.frame.discover) {
      status = self.flags;
      num_neighbors = 0;
      station_id = self.station_id;
    } in
    net_send_packet i (
      put_driver s i (record d {
        datalength = discover_size;
        remotenode = addr_node node.first_hop;
        frame = record (d.frame) {
          magic = bit_or meta_magic packet_discover;
          src = zero_addr;
          dest = node.addr;
          discover = neighbors_loop (length s.drivers) 0 i s dsc;
        };
      }))

-- One round of HandleDiscover's loop, behind AppendNextHop.
pub add_neighbor : ℕ → Option Addr → Meta → Meta
add_neighbor first_hop none s = increment too_many_hops s
add_neighbor first_hop (some addr) s = (node_or_add_node first_hop addr s).1

-- The loop over the neighbors: `k` rounds left, from index `i`.
pub add_neighbors : ℕ → ℕ → ℕ → Addr → List ℕ → Meta → Meta
add_neighbors zero i first_hop src neighbors s = s
add_neighbors (suc k) i first_hop src neighbors s =
    add_neighbors k (i + 1) first_hop src neighbors
      (add_neighbor first_hop (append_next_hop src (get_or neighbors i 0)) s)

-- `i < dsc->num_neighbors && i < MAXNETNODES`, where `num_neighbors` is a 16-bit int.
pub neighbor_count : Discover → ℕ
neighbor_count dsc = if ltb dsc.num_neighbors 0x8000 then min dsc.num_neighbors max_net_nodes else 0

-- What HandleDiscover notes of the sender: `flags` is a byte.
abbrev pub discovered : Discover → Node → Node
discovered dsc n = record n {
  flags = bit_or dsc.status got_discover % 256;
  station_id = dsc.station_id;
}

pub put_node : ℕ → Node → Meta → Meta
put_node i n s = record s { nodes = set s.nodes i n }

-- HandleDiscover behind NodeOrAddNode, whose result is the first argument.
pub discover_from : Option ℕ → ℕ → Addr → Discover → Meta → Meta
discover_from none first_hop src dsc s = s
discover_from (some i) first_hop src dsc s =
    if has_flag (node_at s 0).flags launched && not (has_flag dsc.status launched)
    then send_discover (node_at s i) s
    else add_neighbors (neighbor_count dsc) 0 first_hop src dsc.neighbors
        (put_node i (discovered dsc (node_at s i)) s)

pub handle_discover : ℕ → Addr → Discover → Meta → Meta
handle_discover first_hop src dsc s =
    let (i, t) = node_or_add_node first_hop src s in discover_from i first_hop src dsc t

-- The loop of NodeQuit over the table, for the node `n` that has quit. The first test compares
-- `first_hop` with the quitting node's own, not with that of the entry at hand.
pub quit_loop : ℕ → Node → List Node → List Node
quit_loop first_hop n [] = []
quit_loop first_hop n (m ∷ nodes) =
    (if first_hop == n.first_hop && same_prefix (path_length n.addr) 0 n.addr m.addr
      then record m { flags = bit_or m.flags has_quit }
      else m)
    ∷ quit_loop first_hop n nodes

pub quit_node : Option ℕ → ℕ → Meta → Meta
quit_node none first_hop s = s
quit_node (some i) first_hop s = record s { nodes = quit_loop first_hop (node_at s i) s.nodes }

pub node_quit : ℕ → Addr → Meta → Meta
node_quit first_hop src s = quit_node (node_for_addr first_hop src s) first_hop s

-- CheckReady's inner loop: is there a later discovered node with this station ID (an Error)?
pub clashes : ℕ → List Node → Bool
clashes station_id [] = false
clashes station_id (m ∷ nodes) =
    has_flag m.flags got_discover && station_id == m.station_id || clashes station_id nodes

-- CheckReady's loop: `none` is the Error, and otherwise `got_all_discovers`.
pub ready_loop : Bool → List Node → Option Bool
ready_loop got_all [] = some got_all
ready_loop got_all (n ∷ nodes) =
    let got = has_flag n.flags got_discover in
    let rest = ready_loop (if got then got_all else false) nodes in
    if got && clashes n.station_id nodes then none else rest

-- CheckReady behind its loop, whose result is the first argument: the result and the new state, or
-- `none` where it ends the program.
pub mark_ready : Option Bool → Meta → Option (Bool × Meta)
mark_ready none s = none
mark_ready (some false) s = some (false, s)
mark_ready (some true) s =
    some (true, put_node 0 (record (node_at s 0) { flags = bit_or (node_at s 0).flags ready }) s)

pub check_ready : Meta → Option (Bool × Meta)
check_ready s = mark_ready (ready_loop true s.nodes) s
