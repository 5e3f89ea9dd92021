-- ===== src/Ipxsetup.antt =====
-- net/ipxsetup.c: the nodes that are found on the network, their player numbers, and the packets of
-- the game. Words of 16 bits are unsigned here: -1 is 0xffff. The packets come from Ipxnet, or from
-- net/udpipx.c, which has the same interface.
pub mod Table
pub mod Player
pub mod Search
mod Tests
use vanilla_utilities.Base.{
  ℕ, zero, suc, ◌+◌, ◌-◌, ◌%◌, ◌^◌, ltb, leb, ◌==◌, length, get_or, set, take, count_if,
  if◌then◌else◌, Bool, true, false, not, ◌&&◌, ◌||◌, List, [], ◌∷◌, ◌++◌, Option, none, some,
}
use vanilla_utilities.Base.Words.{word16, lt16, memcmp_above, same_bytes}
use vanilla_utilities.Ipxnet.{Packet, Sent, short_swap, ipx_send_packet}

abbrev pub minus_one : ℕ
minus_one = 0xffff

-- `setupdata_t`.
pub record SetupData : Type 0 where
  pub gameid : ℕ
  pub drone : ℕ
  pub nodesfound : ℕ
  pub nodeswanted : ℕ
  pub dupwanted : ℕ
  pub plnumwanted : ℕ

-- `nodeaddr[i]` and `nodesetup[i]`.
pub record Peer : Type 0 where
  pub addr : List ℕ
  pub setup : SetupData

abbrev pub no_peer : Peer
no_peer = record {
  addr = [];
  setup = record {
    gameid = 0;
    drone = 0;
    nodesfound = 0;
    nodeswanted = 0;
    dupwanted = 0;
    plnumwanted = 0;
  };
}

-- The variables. The nodes are the first `doomcom.numnodes` entries of the two tables.
pub record Ipx : Type 0 where
  pub nodes : List Peer
  pub numnetnodes : ℕ
  pub force_player : ℕ
  pub doomnet_dup : ℕ
  pub ipx_localtime : ℕ
  pub remotenode : ℕ
  pub datalength : ℕ
  pub bytes : List ℕ
  pub rx_unknown_src : ℕ

abbrev pub header_length : ℕ
header_length = 38

abbrev pub sizeof_setupdata : ℕ
sizeof_setupdata = 12

-- NodeForAddress, from index `i`; -1 is `none`.
pub find_node : List ℕ → ℕ → List Peer → Option ℕ
find_node addr i [] = none
find_node addr i (n ∷ nodes) =
    if same_bytes addr n.addr then some i else find_node addr (i + 1) nodes

pub node_for_address : List ℕ → List Peer → Option ℕ
node_for_address addr nodes = find_node addr 0 nodes

-- The payload's size by the packet's header.
unfoldable pub payload_size : Packet → ℕ
payload_size p = (short_swap p.packet_length + 2 ^ 16 - header_length) % 2 ^ 16

-- `(ShortSwap(…) - 38) < sizeof(setupdata_t)`: the comparison is between unsigned words.
pub old_protocol : Packet → Bool
old_protocol p = ltb (payload_size p) sizeof_setupdata

-- `setup`, behind the two assignments for the old protocol.
pub read_setup : Packet → SetupData
read_setup p = record {
  gameid = word16 p.payload 0;
  drone = word16 p.payload 2;
  nodesfound = word16 p.payload 4;
  nodeswanted = word16 p.payload 6;
  dupwanted = if old_protocol p then 1 else word16 p.payload 8;
  plnumwanted = if old_protocol p then minus_one else word16 p.payload 10;
}

-- The two Errors about a new node's player number.
pub clashes : Ipx → Packet → Bool
clashes s p =
    not (s.force_player == minus_one)
    && (old_protocol p || s.force_player == (read_setup p).plnumwanted)

pub adjust_dup : SetupData → ℕ → ℕ
adjust_dup d dup = if lt16 dup d.dupwanted then d.dupwanted else dup

-- The entries of each of the tables.
abbrev pub max_net_nodes : ℕ
max_net_nodes = 16

-- ProcessSetupPacket; `none` is an Error, or a write behind the 16 entries of the tables, which the
-- code does not test for and which is not followed further.
pub process_setup_packet : Packet → Ipx → Option Ipx
process_setup_packet p s =
    if not (p.time == 0xffffffff) then some s else elim (node_for_address p.src s.nodes) [
      | some n ↦ some (record s {
        nodes = set s.nodes n (record (get_or s.nodes n no_peer) { setup = read_setup p });
      })
      | none ↦
          if leb max_net_nodes (length s.nodes) || clashes s p
          then none
          else some (record s {
            nodes = s.nodes ++ record { addr = p.src; setup = read_setup p } ∷ [];
            doomnet_dup = adjust_dup (read_setup p) s.doomnet_dup;
          })
    ]

pub process_setup_packets : List Packet → Ipx → Option Ipx
process_setup_packets [] s = some s
process_setup_packets (p ∷ packets) s = elim (process_setup_packet p s) [
  | none ↦ none
  | some t ↦ process_setup_packets packets t
]

-- SendPacket: a node that is not in the game gets nothing.
pub send_packet : Ipx → Option Sent
send_packet s =
    if lt16 s.remotenode 1 || not (lt16 s.remotenode s.numnetnodes)
    then none
    else some (
        ipx_send_packet s.ipx_localtime (get_or s.nodes s.remotenode no_peer).addr s.bytes
          s.datalength)

-- GetPacket, on what IPXGetPacket returns. The packet is released on every path.
pub get_packet : Option Packet → Ipx → Ipx
get_packet none s = record s { remotenode = minus_one }
get_packet (some p) s =
    if p.time == 0xffffffff
    then record s { remotenode = minus_one }
    else elim (node_for_address p.src s.nodes) [
      | none ↦ record s { remotenode = minus_one; rx_unknown_src = s.rx_unknown_src + 1 }
      | some i ↦ record s {
        remotenode = i;
        datalength = payload_size p;
        bytes = take (payload_size p) p.payload;
      }
    ]

pub data Command : Type 0 where
  cmd_send cmd_get : Command

-- NetCallback: what is sent, if anything, and the new state.
pub net_callback : Command → Option Packet → Ipx → Option Sent × Ipx
net_callback cmd_send arrived s =
    let t : Ipx = record s { ipx_localtime = (s.ipx_localtime + 1) % 2 ^ 32 } in (send_packet t, t)
net_callback cmd_get arrived s = (none, get_packet arrived s)
