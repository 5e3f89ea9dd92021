-- ===== src/Nodemap.antt =====
-- adapters/nodemap.c: which node is which player. The driver below is a list of what NetGetPacket finds
-- and a log of what NetSendPacket is given.
pub mod Maps
pub mod Counted
pub mod Ends
pub mod Launch
mod Tests
use vanilla_utilities.Base.{
  ℕ, zero, suc, ◌+◌, ◌-◌, ◌^◌, ◌%◌, ◌==◌, ltb, length, get_or, set, take, replicate, if◌then◌else◌,
  Bool, true, false, ◌&&◌, List, [], ◌∷◌, ◌++◌, Option, none, some, bit_or,
}
use vanilla_utilities.Base.Words.{same_bytes}

abbrev pub magic_string : List ℕ
magic_string = b'V' ∷ b'~' ∷ b'U' ∷ b'T' ∷ b'i' ∷ b'L' ∷ b'S' ∷ b'!' ∷ []

abbrev pub max_net_nodes : ℕ
max_net_nodes = 16

abbrev pub max_players : ℕ
max_players = 16

-- `doomcom_t`, with the bytes of `data` that `datalength` covers, and what was sent: node and bytes.
pub record Doomcom : Type 0 where
  pub consoleplayer : ℕ
  pub numnodes : ℕ
  pub remotenode : ℕ
  pub bytes : List ℕ
  pub sent : List (ℕ × List ℕ)

-- `struct discover_packet`.
pub discover_packet : ℕ → ℕ → List ℕ
discover_packet is_reply player = magic_string ++ (is_reply ∷ player ∷ [])

abbrev pub is_reply_of : List ℕ → ℕ
is_reply_of bytes = get_or bytes 8 0

abbrev pub player_of : List ℕ → ℕ
player_of bytes = get_or bytes 9 0

pub has_magic_string : List ℕ → Bool
has_magic_string bytes = same_bytes (take 8 bytes) magic_string

-- `player` is a byte.
pub send_discover : ℕ → ℕ → Doomcom → Doomcom
send_discover node is_reply c =
    let packet = discover_packet is_reply (c.consoleplayer % 2 ^ 8) in
    record c { remotenode = node; bytes = packet; sent = c.sent ++ (node, packet) ∷ [] }

-- SendDiscoverToAll's loop, with `k` rounds left from node `i`.
pub discover_loop : ℕ → ℕ → Doomcom → Doomcom
discover_loop zero i c = c
discover_loop (suc k) i c = discover_loop k (i + 1) (send_discover i 0 c)

pub send_discover_to_all : Doomcom → Doomcom
send_discover_to_all c = discover_loop (c.numnodes - 1) 1 c

pub check_late_discover : Doomcom → Bool × Doomcom
check_late_discover c =
    if length c.bytes == 10 && has_magic_string c.bytes && is_reply_of c.bytes == 0
    then (true, send_discover c.remotenode 1 c)
    else (false, c)

-- An `int` has 16 bits; its sign is extended where it meets the `uint32_t`.
pub widen : ℕ → ℕ
widen x = if ltb x (2 ^ 15) then x else x + (2 ^ 32 - 2 ^ 16)

-- `1 << node`.
pub node_bit : ℕ → ℕ
node_bit node = widen (2 ^ node % 2 ^ 16)

-- `(1 << numnodes) - 1`.
pub all_nodes : ℕ → ℕ
all_nodes numnodes = widen ((2 ^ numnodes + (2 ^ 16 - 1)) % 2 ^ 16)

pub record Discovery : Type 0 where
  pub doomcom : Doomcom
  pub nodetoplayer : List ℕ
  pub playertonode : List ℕ
  pub got_nodes : ℕ
  pub last_send : ℕ

-- A round of DiscoverPlayers' loop: the clock, and the node and bytes that NetGetPacket finds.
pub record Round : Type 0 where
  pub now : ℕ
  pub arrival : Option (ℕ × List ℕ)

-- The state before the loop.
pub start_discovery : Doomcom → List ℕ → List ℕ → Discovery
start_discovery c nodetoplayer playertonode = record {
  doomcom = c;
  nodetoplayer = set nodetoplayer 0 c.consoleplayer;
  playertonode = set playertonode c.consoleplayer 0;
  got_nodes = 1;
  last_send = 0;
}

-- `clock_t` has 32 bits.
pub send_if_due : ℕ → ℕ → Discovery → Discovery
send_if_due clocks_per_sec now d =
    if ltb clocks_per_sec ((now + 2 ^ 32 - d.last_send) % 2 ^ 32)
    then record d { doomcom = send_discover_to_all d.doomcom; last_send = now }
    else d

pub is_discover : List ℕ → Bool
is_discover bytes =
    length bytes == 10 && has_magic_string bytes && ltb (player_of bytes) max_players

-- NetGetPacket and what the round does with the packet.
pub take_packet : Option (ℕ × List ℕ) → Discovery → Discovery
take_packet none d = d
take_packet (some (node, bytes)) d =
    let t : Discovery = record d {
      doomcom = record (d.doomcom) { remotenode = node; bytes = bytes };
    } in
    if is_discover bytes
    then record t {
      nodetoplayer = set t.nodetoplayer node (player_of bytes);
      playertonode = set t.playertonode (player_of bytes) node;
      got_nodes = bit_or t.got_nodes (node_bit node);
    }
    else t

pub is_complete : Discovery → Bool
is_complete d = d.got_nodes == all_nodes d.doomcom.numnodes

-- DiscoverPlayers' loop; `none` where the rounds end before it does.
pub wait_loop : ℕ → List Round → Discovery → Option Discovery
wait_loop clocks_per_sec [] d = if is_complete d then some d else none
wait_loop clocks_per_sec (r ∷ rounds) d =
    let next =
      wait_loop clocks_per_sec rounds
        (take_packet r.arrival (send_if_due clocks_per_sec r.now d)) in
    if is_complete d then some d else next

pub finish : Discovery → Discovery
finish d = record d { doomcom = send_discover_to_all d.doomcom }

pub discover_players : ℕ → List Round → Doomcom → List ℕ → List ℕ → Option Discovery
discover_players clocks_per_sec rounds c nodetoplayer playertonode =
    elim (wait_loop clocks_per_sec rounds (start_discovery c nodetoplayer playertonode)) [
      | none ↦ none
      | some d ↦ some (finish d)
    ]
