-- ===== src/Metanet/Launch.antt =====
-- net/metanet.c above the packets: the calls from Doom (NetCallback), the discovery phase, the order
-- of the nodes and the players, the forwarder's loop and the quit packets.
-- The environment is an argument: `rand()`, `clock()`, and what the drivers receive meanwhile.
pub mod Order
use vanilla_utilities.Base.{
  ℕ, zero, suc, ◌+◌, ◌-◌, ◌%◌, ◌^◌, ◌==◌, ltb, leb, length, get_or, set, take, if◌then◌else◌, Bool,
  true, false, not, ◌&&◌, ◌||◌, List, [], ◌∷◌, ◌++◌, Option, none, some, bit_or,
}
use vanilla_utilities.Aggr.{Aggr, init_aggregation, flush_pending_packets, aggregated_send_packet}
use vanilla_utilities.Metanet.Addr.{zero_addr, broadcast, addr_driver, addr_node}
use vanilla_utilities.Metanet.State.{
  Meta, Node, Driver, Arrival, Doomcom, tx_packets, tx_broadcasts, bad_send, increment, driver_at,
  put_driver, node_at, net_send_packet, no_driver, empty_node, has_flag, is_forwarder, has_quit,
  launched, meta_magic, packet_data, packet_quit, header_size,
}
use vanilla_utilities.Metanet.Forward.{send_broadcast, node_loop}
use vanilla_utilities.Metanet.Table.{max_net_nodes, init_nodes}
use vanilla_utilities.Metanet.Discover.{send_discover, put_node, check_ready}
use vanilla_utilities.Metanet.Receive.{packet_loop}

-- SendFromBuffer, to one node.
pub send_to : Node → List ℕ → Meta → Meta
send_to node bytes s =
    let i = addr_driver node.first_hop in
    let d = driver_at s i in
    increment tx_packets (
      net_send_packet i (
        put_driver s i (record d {
          remotenode = addr_node node.first_hop;
          datalength = header_size + length bytes;
          frame = record (d.frame) {
            magic = bit_or meta_magic packet_data;
            src = zero_addr;
            dest = node.addr;
            bytes = bytes;
          };
        })))

pub send_from_buffer : ℕ → List ℕ → Meta → Meta
send_from_buffer dest bytes s =
    if dest == max_net_nodes
    then increment tx_broadcasts (send_broadcast none zero_addr bytes s)
    else send_to (node_at s dest) bytes s

-- SendPacket. `remotenode` is a short: it is negative from 0x8000 on.
pub send_packet : Aggr → Meta → Aggr × Meta
send_packet a s =
    let dc = s.doomcom in
    if leb 0x8000 dc.remotenode || leb (length s.nodes) dc.remotenode
    then (a, increment bad_send s)
    else aggregated_send_packet send_from_buffer dc.remotenode (take dc.datalength dc.bytes) a s

-- GetPacket, with the fuel of its loop.
pub get_packet : ℕ → Aggr → Meta → Option (Aggr × Meta)
get_packet fuel a s =
    let (b, t) = flush_pending_packets send_from_buffer a s in
    elim (packet_loop fuel t) [ none ↦ none | some u ↦ some (b, u) ]

pub data Command : Type 0 where
  cmd_send cmd_get : Command

pub net_callback : ℕ → Command → Aggr → Meta → Option (Aggr × Meta)
net_callback fuel cmd_send a s = some (send_packet a s)
net_callback fuel cmd_get a s = get_packet fuel a s

-- `memcpy` of `nodes[i]` and `nodes[p]` through `tmp`.
pub swap_nodes : ℕ → ℕ → List Node → List Node
swap_nodes i p nodes = set (set nodes p (get_or nodes i empty_node)) i (get_or nodes p empty_node)

-- RearrangeNodes' loop: `k` rounds at most, at indices `i` and `p`.
pub rearrange_loop : ℕ → ℕ → ℕ → List Node → List Node
rearrange_loop zero i p nodes = nodes
rearrange_loop (suc k) i p nodes =
    let far = has_flag (get_or nodes i empty_node).flags is_forwarder in
    let next =
      rearrange_loop k (i + 1) (if far then p - 1 else p)
        (if far then swap_nodes i p nodes else nodes) in
    if ltb i p then next else nodes

pub rearrange_nodes : Meta → Meta
rearrange_nodes s = record s {
  nodes = rearrange_loop (length s.nodes) 1 (length s.nodes - 1) s.nodes;
}

-- AssignPlayerNumbers behind SortNodes: `order` holds the indices of the nodes by station ID.
pub assign_loop : List ℕ → ℕ → List Node → ℕ × List Node
assign_loop [] num_players nodes = (num_players, nodes)
assign_loop (i ∷ order) num_players nodes =
    let n = get_or nodes i empty_node in
    let far = has_flag n.flags is_forwarder in
    assign_loop order (if far then num_players else num_players + 1)
      (if far then nodes else set nodes i (record n { player_num = num_players }))

pub assign_player_numbers : List ℕ → Meta → Meta
assign_player_numbers order s =
    let (num_players, nodes) = assign_loop order 0 s.nodes in
    record s {
      nodes = nodes;
      doomcom = record (s.doomcom) {
        consoleplayer = (get_or nodes 0 empty_node).player_num;
        numnodes = num_players;
        numplayers = num_players;
        ticdup = 1;
        extratics = 0;
      };
    }

-- What happens until `clock()` is read once more: the packets that come in, driver by driver.
pub record Tick : Type 0 where
  pub now : ℕ
  pub arrivals : List (List Arrival)

pub deliver : List (List Arrival) → List Driver → List Driver
deliver [] ds = ds
deliver (l ∷ ls) [] = []
deliver (l ∷ ls) (d ∷ ds) = record d { inbox = d.inbox ++ l } ∷ deliver ls ds

pub arrive : Tick → Meta → Meta
arrive tick s = record s { drivers = deliver tick.arrivals s.drivers }

-- DiscoverNodes' loop over the nodes: `k` rounds left, from node `i`.
pub send_discovers : ℕ → ℕ → Meta → Meta
send_discovers zero i s = s
send_discovers (suc k) i s = send_discovers k (i + 1) (send_discover (node_at s i) s)

-- The variables of DiscoverNodes. `clock_t` has 32 bits.
pub record Discovery : Type 0 where
  pub last_send : ℕ
  pub ready_start : ℕ
  pub aggr : Aggr
  pub meta : Meta

pub send_if_due : ℕ → ℕ → Discovery → Discovery
send_if_due per_sec now v =
    if v.last_send == 0 || ltb per_sec ((now + 2 ^ 32 - v.last_send) % 2 ^ 32)
    then record v { last_send = now; meta = send_discovers (length v.meta.nodes - 1) 1 v.meta }
    else v

-- `ready_start == 0 && CheckReady()`; `none` is CheckReady's Error.
pub start_if_ready : ℕ → ℕ → Discovery → Option Discovery
start_if_ready per_sec now v =
    if v.ready_start == 0
    then (elim (check_ready v.meta) [
      | none ↦ none
      | some (is_ready, s) ↦ some (record v {
        meta = s;
        ready_start = if is_ready then (now + per_sec) % 2 ^ 32 else v.ready_start;
      })
    ])
    else some v

-- One round of DiscoverNodes' loop.
pub discover_round : ℕ → ℕ → Tick → Discovery → Option Discovery
discover_round fuel per_sec tick v = elim (get_packet fuel v.aggr (arrive tick v.meta)) [
  | none ↦ none
  | some (a, s) ↦
      start_if_ready per_sec tick.now
        (send_if_due per_sec tick.now (record v { aggr = a; meta = s }))
]

-- The loop ends with the first round that is late enough.
pub discover_loop : ℕ → ℕ → List Tick → Discovery → Option Discovery
discover_loop fuel per_sec [] v = none
discover_loop fuel per_sec (tick ∷ ticks) v = elim (discover_round fuel per_sec tick v) [
  | none ↦ none
  | some w ↦
      if w.ready_start == 0 || ltb tick.now w.ready_start
      then discover_loop fuel per_sec ticks w
      else some (record w {
        meta =
            put_node 0
              (record (node_at w.meta 0) { flags = bit_or (node_at w.meta 0).flags launched })
              w.meta;
      })
]

pub discover_nodes : ℕ → ℕ → ℕ → ℕ → List Tick → Aggr → Meta → Option Discovery
discover_nodes fuel per_sec rand0 rand1 ticks a s =
    discover_loop fuel per_sec ticks
      (record { last_send = 0; ready_start = 0; aggr = a; meta = init_nodes rand0 rand1 s })

-- AllPlayersQuit, over the nodes behind our own.
pub all_quit : List Node → Bool
all_quit [] = true
all_quit (n ∷ nodes) = has_flag n.flags (bit_or is_forwarder has_quit) && all_quit nodes

pub all_players_quit : Meta → Bool
all_players_quit s = elim (s.nodes) [ [] ↦ true | n ∷ nodes ↦ all_quit nodes ]

-- RunForwarder: `none` where it still runs at the end of the ticks.
pub run_forwarder : ℕ → List Tick → Aggr → Meta → Option (Aggr × Meta)
run_forwarder fuel [] a s = if all_players_quit s then some (a, s) else none
run_forwarder fuel (tick ∷ ticks) a s =
    if all_players_quit s then some (a, s) else (elim (get_packet fuel a (arrive tick s)) [
      | none ↦ none
      | some (b, t) ↦ run_forwarder fuel ticks b t
    ])

-- SendQuit: `k` rounds left, from driver `i`.
pub quit_drivers : ℕ → ℕ → Meta → Meta
quit_drivers zero i s = s
quit_drivers (suc k) i s =
    let d = driver_at s i in
    let out : Driver = record d {
      datalength = header_size;
      frame = record (d.frame) {
        magic = bit_or meta_magic packet_quit;
        src = zero_addr;
        dest = broadcast;
      };
    } in
    quit_drivers k (i + 1) (node_loop (d.numnodes - 1) 1 i (put_driver s i out))

pub send_quit : Meta → Meta
send_quit s = quit_drivers (length s.drivers) 0 s
