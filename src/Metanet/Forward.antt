-- ===== src/Metanet/Forward.antt =====
-- net/metanet.c: SendBroadcast, ForwardBroadcast and ForwardPacket.
-- A received packet is taken to be at least a header long.
pub mod Unicast
pub mod Flood
pub mod Quiet
use vanilla_utilities.Base.{
  ℕ, zero, suc, ◌+◌, ◌-◌, ◌==◌, ltb, leb, length, take, if◌then◌else◌, Bool, true, false, ◌||◌,
  List, Option, none, some, bit_or,
}
use vanilla_utilities.Metanet.Addr.{
  Addr, broadcast, addr_driver, addr_node, make_address, prepend_previous_hop, drop_hop,
}
use vanilla_utilities.Metanet.State.{
  Meta, Driver, Frame, Counter, rx_broadcasts, too_many_hops, invalid_dest, forwarded, meta_magic,
  packet_data, header_size, driver_at, put_driver, increment, net_send_packet,
}

-- The comparison `dest == src` of two drivers, where `none` is NULL.
abbrev pub is_source : Option ℕ → ℕ → Bool
is_source none driver = false
is_source (some i) driver = i == driver

pub write_broadcast : Addr → List ℕ → Driver → Driver
write_broadcast src bytes d = record d {
  datalength = length bytes + header_size;
  frame = record (d.frame) {
    magic = bit_or meta_magic packet_data;
    src = src;
    dest = broadcast;
    bytes = bytes;
  };
}

-- `dest->remotenode = dnode; NetSendPacket(dest);`
pub send_to_node : ℕ → ℕ → Meta → Meta
send_to_node driver node s =
    net_send_packet driver (put_driver s driver (record (driver_at s driver) { remotenode = node }))

-- The inner loop: `k` rounds left, from node `node`.
pub node_loop : ℕ → ℕ → ℕ → Meta → Meta
node_loop zero node driver s = s
node_loop (suc k) node driver s = node_loop k (node + 1) driver (send_to_node driver node s)

-- One round of the outer loop.
pub broadcast_on : Option ℕ → Addr → List ℕ → ℕ → Meta → Meta
broadcast_on src addr bytes driver s =
    if is_source src driver
    then s
    else node_loop ((driver_at s driver).numnodes - 1) 1 driver
        (put_driver s driver (write_broadcast addr bytes (driver_at s driver)))

pub driver_loop : ℕ → ℕ → Option ℕ → Addr → List ℕ → Meta → Meta
driver_loop zero driver src addr bytes s = s
driver_loop (suc k) driver src addr bytes s =
    driver_loop k (driver + 1) src addr bytes (broadcast_on src addr bytes driver s)

pub send_broadcast : Option ℕ → Addr → List ℕ → Meta → Meta
send_broadcast src addr bytes s = driver_loop (length s.drivers) 0 src addr bytes s

-- ForwardBroadcast behind PrependPreviousHop, whose result is the second argument.
pub broadcast_from : ℕ → Option Addr → Meta → Meta
broadcast_from i none s = increment too_many_hops s
broadcast_from i (some addr) s =
    let d = driver_at s i in
    send_broadcast (some i) addr (take (d.datalength - header_size) d.frame.bytes) s

pub forward_broadcast : ℕ → Meta → Meta
forward_broadcast i s =
    let t = increment rx_broadcasts s in
    let d = driver_at t i in
    if ltb (length t.drivers) 2
    then t
    else broadcast_from i (prepend_previous_hop (make_address i d.remotenode) d.frame.src) t

-- The test that makes ForwardPacket count `invalid_dest`.
unfoldable pub bad_next_hop : ℕ → ℕ → ℕ → Meta → Bool
bad_next_hop i driver node s =
    leb (length s.drivers) driver
    || driver == i
    || node == 0
    || leb (driver_at s driver).numnodes node

-- The end of ForwardPacket: the packet goes on to a node of another driver.
pub pass_on : ℕ → ℕ → ℕ → Meta → Meta
pass_on i driver node s =
    let d = driver_at s i in
    let t =
      put_driver s i (record d { frame = record (d.frame) { dest = drop_hop d.frame.dest } }) in
    let p = driver_at t i in
    let out : Driver = record (driver_at t driver) {
      datalength = p.datalength;
      remotenode = node;
      frame = record (p.frame) { bytes = take (p.datalength - header_size) p.frame.bytes };
    } in
    increment forwarded (net_send_packet driver (put_driver t driver out))

-- ForwardPacket behind PrependPreviousHop, whose result is the second argument: `hdr->src` is
-- written before the destination is looked at.
pub route_packet : ℕ → Option Addr → Meta → Meta
route_packet i none s = increment too_many_hops s
route_packet i (some addr) s =
    let d = driver_at s i in
    let t = put_driver s i (record d { frame = record (d.frame) { src = addr } }) in
    let driver = addr_driver d.frame.dest.hop0 in
    let node = addr_node d.frame.dest.hop0 in
    if bad_next_hop i driver node t then increment invalid_dest t else pass_on i driver node t

pub forward_packet : ℕ → Meta → Meta
forward_packet i s =
    let d = driver_at s i in
    route_packet i (prepend_previous_hop (make_address i d.remotenode) d.frame.src) s
