-- ===== src/Metanet/State.antt =====
-- net/metanet.c: the static variables, the drivers below (net/doomnet.c) and the packets between.
-- A driver is another program behind an interrupt: what it will deliver is a list of arrivals, and
-- what it is given to send is appended to a log.
pub mod Laws
use vanilla_utilities.Base.{
  ℕ, replicate, ◌==◌, length, get_or, set, take, not, Bool, true, false, List, [], ◌∷◌, ◌++◌,
  bit_and,
}
use vanilla_utilities.Metanet.Addr.{Addr, zero_addr}

abbrev pub meta_magic : ℕ
meta_magic = 0x01C26440

abbrev pub meta_magic_mask : ℕ
meta_magic_mask = 0x0FFFFFF0

-- `~META_MAGIC_MASK` and `~NCMD_CHECKSUM` in 32 bits.
abbrev pub meta_type_mask : ℕ
meta_type_mask = 0xF000000F

abbrev pub ncmd_mask : ℕ
ncmd_mask = 0xF0000000

abbrev pub ncmd_setup : ℕ
ncmd_setup = 0x20000000

abbrev pub packet_data : ℕ
packet_data = 0

abbrev pub packet_discover : ℕ
packet_discover = 1

abbrev pub packet_quit : ℕ
packet_quit = 3

abbrev pub got_discover : ℕ
got_discover = 0x01

abbrev pub ready : ℕ
ready = 0x02

abbrev pub launched : ℕ
launched = 0x04

abbrev pub is_forwarder : ℕ
is_forwarder = 0x08

abbrev pub has_quit : ℕ
has_quit = 0x10

-- `(flags & mask) != 0`.
unfoldable pub has_flag : ℕ → ℕ → Bool
has_flag flags mask = not (bit_and flags mask == 0)

-- sizeof(struct meta_header) and sizeof(struct meta_discover_msg).
abbrev pub header_size : ℕ
header_size = 12

abbrev pub discover_size : ℕ
discover_size = 36

-- The fields of `struct meta_discover_msg` behind the header. `neighbors` has 16 entries.
pub record Discover : Type 0 where
  pub status : ℕ
  pub num_neighbors : ℕ
  pub station_id : ℕ
  pub neighbors : List ℕ

-- A buffer `doomcom_t.data`: the header, and what follows it in the two views that the program
-- has of it. `bytes` is the payload of a data packet; no packet is read in a view other than the
-- one that it was written in.
pub record Frame : Type 0 where
  pub magic : ℕ
  pub src : Addr
  pub dest : Addr
  pub discover : Discover
  pub bytes : List ℕ

-- What a driver delivers: the node that it came from, its length and contents.
pub record Arrival : Type 0 where
  pub node : ℕ
  pub size : ℕ
  pub frame : Frame

-- A `doomcom_t` of a driver below, and the packets that it holds for us.
pub record Driver : Type 0 where
  pub numnodes : ℕ
  pub consoleplayer : ℕ
  pub remotenode : ℕ
  pub datalength : ℕ
  pub frame : Frame
  pub inbox : List Arrival

-- One NetSendPacket: the driver's index, and its `remotenode`, `datalength` and `data`.
pub record Sent : Type 0 where
  pub driver : ℕ
  pub node : ℕ
  pub size : ℕ
  pub frame : Frame

-- `struct node_data`.
pub record Node : Type 0 where
  pub first_hop : ℕ
  pub addr : Addr
  pub flags : ℕ
  pub station_id : ℕ
  pub player_num : ℕ

-- The counters of net/pktstats.h; an increment is appended to `counts`.
pub data Counter : Type 0 where
  rx_packets tx_packets rx_broadcasts tx_broadcasts wrong_magic too_many_hops : Counter
  invalid_dest node_limit bad_send unknown_type forwarded unknown_src setup_packets : Counter

-- Our own `doomcom_t`. `remotenode` is a 16-bit word, 0xffff for -1.
pub record Doomcom : Type 0 where
  pub numnodes : ℕ
  pub remotenode : ℕ
  pub datalength : ℕ
  pub bytes : List ℕ
  pub consoleplayer : ℕ
  pub numplayers : ℕ
  pub ticdup : ℕ
  pub extratics : ℕ

-- The static variables. `nodes` is the first `num_nodes` entries of the array, `drivers` the first
-- `num_drivers`; the entries behind are zero. `sent` is what the drivers were given to send.
pub record Meta : Type 0 where
  pub doomcom : Doomcom
  pub drivers : List Driver
  pub nodes : List Node
  pub forwarder : Bool
  pub counts : List Counter
  pub sent : List Sent

abbrev pub no_node : ℕ
no_node = 0xffff

abbrev pub empty_discover : Discover
empty_discover = record {
  status = 0;
  num_neighbors = 0;
  station_id = 0;
  neighbors = replicate 16 0;
}

abbrev pub empty_frame : Frame
empty_frame = record {
  magic = 0;
  src = zero_addr;
  dest = zero_addr;
  discover = empty_discover;
  bytes = [];
}

-- What stands for a driver or node out of range; the program reads none.
abbrev pub no_driver : Driver
no_driver = record {
  numnodes = 0;
  consoleplayer = 0;
  remotenode = 0;
  datalength = 0;
  frame = empty_frame;
  inbox = [];
}

abbrev pub empty_node : Node
empty_node = record { first_hop = 0; addr = zero_addr; flags = 0; station_id = 0; player_num = 0 }

abbrev pub driver_at : Meta → ℕ → Driver
driver_at s i = get_or s.drivers i no_driver

abbrev pub put_driver : Meta → ℕ → Driver → Meta
put_driver s i d = record s { drivers = set s.drivers i d }

abbrev pub node_at : Meta → ℕ → Node
node_at s i = get_or s.nodes i empty_node

-- INCREMENT_COUNTER.
abbrev pub increment : Counter → Meta → Meta
increment c s = record s { counts = s.counts ++ c ∷ [] }

-- NetSendPacket.
unfoldable pub net_send_packet : ℕ → Meta → Meta
net_send_packet i s =
    let d = driver_at s i in
    record s {
      sent =
          s.sent
          ++ record { driver = i; node = d.remotenode; size = d.datalength; frame = d.frame } ∷ [];
    }

-- NetGetPacket when the driver has the packet `a`, and when it has none.
unfoldable pub receive : ℕ → Arrival → List Arrival → Meta → Meta
receive i a rest s = put_driver s i (record (driver_at s i) {
  remotenode = a.node;
  datalength = a.size;
  frame = a.frame;
  inbox = rest;
})

unfoldable pub receive_none : ℕ → Meta → Meta
receive_none i s = put_driver s i (record (driver_at s i) { remotenode = no_node; inbox = [] })
