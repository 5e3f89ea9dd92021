-- ===== src/Metanet/Table.antt =====
-- net/metanet.c: the node table (NodeForAddr, NodeOrAddNode, InitNodes).
pub mod Inv
use vanilla_utilities.Base.{
  ℕ, zero, suc, ◌+◌, ◌-◌, ◌*◌, ◌^◌, ◌%◌, ◌==◌, ltb, leb, length, set, if◌then◌else◌, Bool, ◌&&◌,
  List, [], ◌∷◌, ◌++◌, Option, none, some, bit_or,
}
use vanilla_utilities.Metanet.Addr.{Addr, same_addr, make_address}
use vanilla_utilities.Metanet.State.{
  Meta, Node, node_limit, empty_node, increment, driver_at, got_discover, is_forwarder,
}

abbrev pub max_net_nodes : ℕ
max_net_nodes = 16

-- The loop of NodeForAddr, from index `i`.
pub node_for_addr_from : ℕ → ℕ → Addr → List Node → Option ℕ
node_for_addr_from i first_hop addr [] = none
node_for_addr_from i first_hop addr (n ∷ nodes) =
    if first_hop == n.first_hop && same_addr n.addr addr
    then some i
    else node_for_addr_from (i + 1) first_hop addr nodes

-- NodeForAddr; `none` is -1.
pub node_for_addr : ℕ → Addr → Meta → Option ℕ
node_for_addr first_hop addr s = node_for_addr_from 0 first_hop addr s.nodes

-- NodeOrAddNode behind NodeForAddr, whose result is the first argument: the index of the node, or
-- `none` for NULL. A new entry has been zero till now.
pub found_or_added : Option ℕ → ℕ → Addr → Meta → Option ℕ × Meta
found_or_added (some i) first_hop addr s = (some i, s)
found_or_added none first_hop addr s =
    if leb max_net_nodes (length s.nodes) then (none, increment node_limit s) else (
      some (length s.nodes),
      record s { nodes = s.nodes ++ record empty_node { first_hop = first_hop; addr = addr } ∷ [] },
    )

pub node_or_add_node : ℕ → Addr → Meta → Option ℕ × Meta
node_or_add_node first_hop addr s = found_or_added (node_for_addr first_hop addr s) first_hop addr s

-- InitNodes, the loop over the nodes of a driver: `k` rounds left, from node `node`.
pub init_node_loop : ℕ → ℕ → ℕ → List Node → List Node
init_node_loop zero node driver nodes = nodes
init_node_loop (suc k) node driver nodes = init_node_loop k (node + 1) driver (
    if ltb (length nodes) max_net_nodes
    then nodes ++ record empty_node { first_hop = make_address driver node } ∷ []
    else nodes)

-- The loop over the drivers: `k` rounds left, from driver `driver`.
pub init_driver_loop : ℕ → ℕ → Meta → List Node → List Node
init_driver_loop zero driver s nodes = nodes
init_driver_loop (suc k) driver s nodes =
    init_driver_loop k (driver + 1) s
      (init_node_loop ((driver_at s driver).numnodes - 1) 1 driver nodes)

-- InitNodes, with the two results of `rand()`; `uint32_t` keeps 32 bits.
pub init_nodes : ℕ → ℕ → Meta → Meta
init_nodes rand0 rand1 s =
    let self : Node = record empty_node {
      station_id = bit_or (rand0 * 2 ^ 16) rand1 % 2 ^ 32;
      flags = if s.forwarder then bit_or got_discover is_forwarder else got_discover;
    } in
    record s { nodes = init_driver_loop (length s.drivers) 0 s (self ∷ []) }
