-- ===== src/Metanet/Tests.antt =====
-- Runs of the forwarding driver at concrete inputs: a forwarder between two drivers.
use vanilla_utilities.Base.{
  count_if, ℕ, ◌≡◌, ◌↔◌, refl, true, List, [], ◌∷◌, none, some, length, map, arith,
}
use vanilla_utilities.Metanet.Addr.{
  zero_addr, addr_driver, addr_node, make_address, same_addr, prepend_previous_hop,
}
use vanilla_utilities.Metanet.State.{
  Meta, Driver, Node, Frame, Arrival, Discover, Doomcom, Sent, empty_frame, no_driver, empty_node,
  empty_discover, driver_at, node_at, has_flag, is_forwarder,
}
use vanilla_utilities.Metanet.Forward.{send_broadcast, forward_packet, bad_next_hop}
use vanilla_utilities.Metanet.Forward.Unicast.{forward_packet_reply}
use vanilla_utilities.Metanet.Forward.Flood.{plain, flood, data_packet, send_broadcast-flood}
use vanilla_utilities.Metanet.Table.{node_for_addr, node_or_add_node}
use vanilla_utilities.Metanet.Table.Inv.{
  IsTable, node_for_addr_iff, node_or_add_node-IsTable, route,
}
use vanilla_utilities.Metanet.Discover.{handle_discover, node_quit}
use vanilla_utilities.Metanet.Discover.Inv.{Kept, handle_discover-Kept}
use vanilla_utilities.Metanet.Discover.Quit.{AllQuit, node_quit_neighbor}
use vanilla_utilities.Metanet.Receive.{packet_loop}
use vanilla_utilities.Metanet.Receive.Progress.{Returns, packet_loop-Returns}
use vanilla_utilities.Metanet.Launch.{rearrange_nodes}
use vanilla_utilities.Metanet.Launch.Order.{rearrange_nodes-same}

abbrev dc : Doomcom
dc = record {
  numnodes = 3;
  remotenode = 0;
  datalength = 0;
  bytes = [];
  consoleplayer = 0;
  numplayers = 3;
  ticdup = 1;
  extratics = 0;
}

abbrev node_of : ℕ → ℕ → Node
node_of first_hop flags = record empty_node { first_hop = first_hop; flags = flags }

-- A packet that node 1 of driver 0 sends to node 1 of driver 1, and the reply to it.
abbrev request : Frame
request = record empty_frame {
  magic = 0x01C26440;
  dest = record zero_addr { hop0 = 33 };
  bytes = 7 ∷ 8 ∷ [];
}

abbrev answer : Frame
answer = record empty_frame { magic = 0x01C26440; dest = record zero_addr { hop0 = 1 } }

abbrev driver_with : ℕ → Frame → List Arrival → Driver
driver_with numnodes frame inbox = record no_driver {
  numnodes = numnodes;
  remotenode = 1;
  datalength = 14;
  frame = frame;
  inbox = inbox;
}

-- A forwarder with two nodes behind driver 0 and one behind driver 1, which also forwards.
abbrev meta_with : Frame → List Arrival → List Arrival → Meta
meta_with frame inbox0 inbox1 = record {
  doomcom = dc;
  drivers = driver_with 3 frame inbox0 ∷ driver_with 2 answer inbox1 ∷ [];
  nodes = node_of 0 1 ∷ node_of 1 8 ∷ node_of 2 1 ∷ node_of 33 8 ∷ [];
  forwarder = true;
  counts = [];
  sent = [];
}

abbrev hub : Meta
hub = meta_with request [] []

abbrev busy : Meta
busy =
    meta_with empty_frame (record { node = 1; size = 14; frame = request } ∷ [])
      (record { node = 1; size = 14; frame = record request { dest = zero_addr } } ∷ [])

hub-IsTable : IsTable hub.nodes
unfolding same_addr
hub-IsTable = record {
  own = omega arith;
  few = omega arith;
  distinct = ((refl, (refl, (refl, tt))), ((refl, (refl, tt)), ((refl, tt), (tt, tt))));
}

node_or_add_node-IsTable_example : IsTable (node_or_add_node 34 zero_addr hub).1.nodes
node_or_add_node-IsTable_example = node_or_add_node-IsTable 34 zero_addr hub hub-IsTable

node_for_addr_iff_example :
    (node_for_addr 33 zero_addr hub ≡ some 3)
    ↔ (route (node_at hub 3) ≡ record { first_hop = 33; addr = zero_addr })
node_for_addr_iff_example = node_for_addr_iff 33 zero_addr 3 hub hub-IsTable (omega arith)

forward_packet_reply_example :
    (out reply : Sent) × ((forward_packet 0 hub).sent ≡ out ∷ [])
    × ((forward_packet 1 hub).sent ≡ reply ∷ [])
    × (out.driver ≡ 1)
    × (out.frame.src ≡ record zero_addr { hop0 = 1 })
    × (reply.driver ≡ 0)
    × (reply.node ≡ 1)
    × (reply.frame.dest ≡ zero_addr)
unfolding bad_next_hop prepend_previous_hop make_address addr_driver addr_node
forward_packet_reply_example =
    forward_packet_reply 0 1 1 hub hub (record zero_addr { hop0 = 1 })
      (record zero_addr { hop0 = 33 }) (omega arith) (omega arith) (omega arith) (omega arith) refl
      refl (omega arith) (omega arith) (omega arith) refl refl refl refl

send_broadcast-flood_example :
    map plain (send_broadcast none zero_addr (7 ∷ []) hub).sent
    ≡ flood 2 0 none (data_packet zero_addr (7 ∷ [])) (λ j. (driver_at hub j).numnodes)
send_broadcast-flood_example = send_broadcast-flood none zero_addr (7 ∷ []) hub

-- The neighbour at driver 1 has a neighbour of its own.
abbrev news : Discover
news = record empty_discover { status = 9; num_neighbors = 1; station_id = 5; neighbors = 34 ∷ [] }

handle_discover-Kept_example : Kept hub (handle_discover 33 zero_addr news hub)
handle_discover-Kept_example = handle_discover-Kept 33 zero_addr news hub hub-IsTable

found_neighbor : node_for_addr 33 zero_addr hub ≡ some 3
found_neighbor = (node_for_addr_iff 33 zero_addr 3 hub hub-IsTable (omega arith)).1 refl

node_quit_neighbor_example : AllQuit (node_quit 33 zero_addr hub).nodes
node_quit_neighbor_example =
    node_quit_neighbor 33 3 hub hub-IsTable
      (omega arith, (omega arith, (omega arith, (omega arith, tt)))) found_neighbor

packet_loop-Returns_example : Returns busy (packet_loop 3 busy)
packet_loop-Returns_example = packet_loop-Returns 3 busy (omega arith) hub-IsTable

rearrange_nodes-same_example :
    let t = rearrange_nodes hub in
    (length t.nodes ≡ 4)
    × (count_if (λ n. has_flag n.flags is_forwarder) t.nodes ≡ 2)
    × (node_at t 0 ≡ node_at hub 0)
unfolding has_flag
rearrange_nodes-same_example =
    rearrange_nodes-same (λ n. has_flag n.flags is_forwarder) hub (omega arith)
