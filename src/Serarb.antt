-- ===== src/Serarb.antt =====
-- net/serarb.c: two machines at the ends of a link settle which of them is player 1.
-- A packet is what ProcessPackets' two calls of sscanf read in its text. `clock()` is an argument, and
-- so is the list of the packets that GetPacket finds; the packet that is sent is a result.
pub mod Order
pub mod Link
mod Tests
use vanilla_utilities.Base.{
  ℕ, zero, suc, ◌+◌, ◌-◌, ◌*◌, ◌/◌, ◌%◌, ◌^◌, ltb, leb, ◌==◌, if◌then◌else◌, Bool, true, false,
  ◌&&◌, ◌||◌, List, [], ◌∷◌, Option, none, some, bit_or,
}
use vanilla_utilities.Base.Words.{same_bytes, memcmp_above}

-- `ID%6c_%d`, `PLAY%d_%d`, or a text that is neither. The stages in use are not negative.
pub data Packet : Type 0 where
  id_packet : List ℕ → ℕ → Packet
  play_packet : ℕ → ℕ → Packet
  other_packet : Packet

-- `arb`, with the one field of `*arb.doomcom` that is not a packet's.
pub record Arb : Type 0 where
  pub consoleplayer : ℕ
  pub localid : List ℕ
  pub last_send_time : ℕ
  pub localstage : ℕ
  pub new_protocol : Bool

-- The player number that the new protocol gives.
pub player_of : List ℕ → List ℕ → ℕ
player_of localid remoteid = if memcmp_above localid remoteid then 1 else 0

-- One round of ProcessPackets' loop; `none` is the Error about equal IDs.
pub process_packet : Packet → Arb → Option Arb
process_packet (id_packet remoteid remotestage) a =
    if same_bytes a.localid remoteid
    then none
    else some (record a {
      new_protocol = true;
      consoleplayer = player_of a.localid remoteid;
      localstage = remotestage + 1;
      last_send_time = 0;
    })
process_packet (play_packet remoteplayer remotestage) a = some (record a {
  new_protocol = false;
  localstage = (if remoteplayer == a.consoleplayer then 0 else remotestage) + 1;
  last_send_time = 0;
})
process_packet other_packet a = some a

unfoldable pub process_packets : List Packet → Arb → Option Arb
process_packets [] a = some a
process_packets (p ∷ packets) a = elim (process_packet p a) [
  | none ↦ none
  | some b ↦ process_packets packets b
]

-- The text of the packet that PollArbitratePlayers sends.
pub make_packet : Arb → Packet
make_packet a =
    if a.new_protocol
    then id_packet a.localid a.localstage
    else play_packet a.consoleplayer a.localstage

-- PollArbitratePlayers behind ProcessPackets; `clock_t` has 32 bits. The result is whether it is
-- done, what it sends and the new state.
unfoldable pub send_if_due : ℕ → ℕ → Arb → Bool × Option Packet × Arb
send_if_due per_sec now a =
    if leb per_sec ((now + 2 ^ 32 - a.last_send_time) % 2 ^ 32)
    then (false, some (make_packet a), record a { last_send_time = now })
    else (false, none, a)

-- PollArbitratePlayers, on the packets that have come in; they are all taken.
unfoldable pub poll_arbitrate_players :
    ℕ → ℕ → List Packet → Arb → Option (Bool × Option Packet × Arb)
poll_arbitrate_players per_sec now packets a =
    if leb 2 a.localstage then some (true, none, a) else (elim (process_packets packets a) [
      | none ↦ none
      | some b ↦ some (send_if_due per_sec now b)
    ])

-- `sprintf(buf, "%.6ld", id)`, for an id below 1000000.
abbrev pub six_digits : ℕ → List ℕ
six_digits id =
    (48 + id / 100000 % 10)
    ∷ (48 + id / 10000 % 10)
    ∷ (48 + id / 1000 % 10)
    ∷ (48 + id / 100 % 10)
    ∷ (48 + id / 10 % 10)
    ∷ (48 + id % 10)
    ∷ []

-- MakeLocalID, with the two results of `rand()`; `uint32_t` keeps 32 bits.
pub make_local_id : Bool → Bool → ℕ → ℕ → List ℕ
make_local_id force_player1 force_player2 rand0 rand1 =
    if force_player1
    then six_digits 0
    else if force_player2
    then six_digits 999999
    else six_digits (bit_or (rand0 * 2 ^ 16) rand1 % 2 ^ 32 % 1000000)

-- InitArbitration, on the player number that the doomcom has.
pub init_arbitration : Bool → Bool → ℕ → ℕ → ℕ → Arb
init_arbitration force_player1 force_player2 rand0 rand1 consoleplayer = record {
  consoleplayer = if force_player1 then 0 else if force_player2 then 1 else consoleplayer;
  localid = make_local_id force_player1 force_player2 rand0 rand1;
  last_send_time = 0;
  localstage = 0;
  new_protocol = true;
}
