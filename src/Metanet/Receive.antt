-- ===== src/Metanet/Receive.antt =====
-- net/metanet.c: GetAndForward, HandlePacket and the loop of GetPacket.
pub mod Progress
use vanilla_utilities.Base.{
  ℕ, zero, suc, ◌+◌, ◌-◌, ◌==◌, length, take, if◌then◌else◌, Bool, true, false, not, List, [], ◌∷◌,
  Option, none, some, bit_and,
}
use vanilla_utilities.Metanet.Addr.{broadcast, same_addr, make_address}
use vanilla_utilities.Metanet.State.{
  Meta, Arrival, Counter, rx_packets, wrong_magic, unknown_type, unknown_src, setup_packets,
  increment, driver_at, receive, receive_none, no_node, meta_magic, meta_magic_mask, meta_type_mask,
  ncmd_mask, ncmd_setup, packet_data, packet_discover, packet_quit, header_size,
}
use vanilla_utilities.Metanet.Forward.{forward_broadcast, forward_packet}
use vanilla_utilities.Metanet.Table.{node_for_addr}
use vanilla_utilities.Metanet.Discover.{handle_discover, node_quit}

-- One round of GetAndForward's loop, on the packet in driver `i`: is it to be delivered here?
pub sort_packet : ℕ → Meta → Bool × Meta
sort_packet i s =
    let frame = (driver_at s i).frame in
    if bit_and frame.magic ncmd_mask == ncmd_setup
    then (false, increment setup_packets s)
    else if not (bit_and frame.magic meta_magic_mask == meta_magic)
    then (false, increment wrong_magic s)
    else if frame.dest.hop0 == 0
    then (true, s)
    else if same_addr frame.dest broadcast
    then (true, forward_broadcast i s)
    else (false, forward_packet i s)

-- GetAndForward's loop over the packets that the driver holds.
pub forward_loop : ℕ → List Arrival → Meta → Bool × Meta
forward_loop i [] s = (false, receive_none i s)
forward_loop i (a ∷ rest) s =
    let (here, t) = sort_packet i (receive i a rest s) in
    let next = forward_loop i rest t in if here then (true, t) else next

pub get_and_forward : ℕ → Meta → Bool × Meta
get_and_forward i s = forward_loop i (driver_at s i).inbox s

-- HandlePacket on a data packet, behind NodeForAddr, whose result is the first argument.
pub handle_data : Option ℕ → ℕ → Meta → Bool × Meta
handle_data none i s = (
  false,
  increment unknown_src (record s { doomcom = record (s.doomcom) { remotenode = no_node } }),
)
handle_data (some n) i s =
    let d = driver_at s i in
    (
      true,
      increment rx_packets (record s {
        doomcom = record (s.doomcom) {
          remotenode = n;
          datalength = d.datalength - header_size;
          bytes = take (d.datalength - header_size) d.frame.bytes;
        };
      }),
    )

-- HandlePacket on the packet in driver `i`: was it data for Doom?
pub handle_packet : ℕ → ℕ → Meta → Bool × Meta
handle_packet first_hop i s =
    let frame = (driver_at s i).frame in
    let kind = bit_and frame.magic meta_type_mask in
    if kind == packet_data
    then handle_data (node_for_addr first_hop frame.src s) i s
    else if kind == packet_discover
    then (false, handle_discover first_hop frame.src frame.discover s)
    else if kind == packet_quit
    then (false, node_quit first_hop frame.src s)
    else (false, increment unknown_type s)

-- GetPacket's inner loop: the first driver with a packet for us; `k` rounds left, from driver `i`.
pub poll_drivers : ℕ → ℕ → Meta → Option ℕ × Meta
poll_drivers zero i s = (none, s)
poll_drivers (suc k) i s =
    let (got, t) = get_and_forward i s in
    let next = poll_drivers k (i + 1) t in if got then (some i, t) else next

-- The rest of a round of GetPacket's outer loop; `next` is what follows it.
pub handle_poll : (Meta → Option Meta) → Option ℕ × Meta → Option Meta
handle_poll next (none, s) =
    some (record s { doomcom = record (s.doomcom) { remotenode = no_node } })
handle_poll next (some i, s) =
    let (done, t) = handle_packet (make_address i (driver_at s i).remotenode) i s in
    let more = next t in if done then some t else more

-- GetPacket's outer loop on fuel; `none` means that the fuel ran out.
pub packet_loop : ℕ → Meta → Option Meta
packet_loop zero s = none
packet_loop (suc fuel) s = handle_poll (packet_loop fuel) (poll_drivers (length s.drivers) 0 s)
