-- ===== src/Sirsetup.antt =====
-- net/sirsetup.c: packets over a half-duplex infrared line. The packet queues, the framing of the
-- bytes, and the token by which the nodes take turns.
-- `clock()` is an argument `now`. The keyboard LEDs (SetDebugLEDs) are left out.
pub mod Setup
pub mod Frame
pub mod Loss
pub mod Receive
pub mod Calls
mod Tests
use vanilla_utilities.Base.{
  ℕ, zero, suc, ◌+◌, ◌-◌, ◌*◌, ◌/◌, ◌%◌, ◌^◌, ltb, leb, ◌==◌, length, get_or, set, drop,
  if◌then◌else◌, Bool, true, false, not, ◌&&◌, ◌||◌, List, [], ◌∷◌, ◌++◌,
}
use vanilla_utilities.Serport.{Port, resume_receive, jump_start}

abbrev pub queue_len : ℕ
queue_len = 8

abbrev pub packet_size : ℕ
packet_size = 512

abbrev pub header_size : ℕ
header_size = 3

abbrev pub broadcast_dest : ℕ
broadcast_dest = 0xff

abbrev pub frame_char : ℕ
frame_char = 0x70

abbrev pub handoff_base : ℕ
handoff_base = 0x10

abbrev pub max_net_nodes : ℕ
max_net_nodes = 16

abbrev pub tx_buffer_len : ℕ
tx_buffer_len = 16

-- `struct packet`: the first `data_len` bytes, and `valid`.
pub record Packet : Type 0 where
  pub bytes : List ℕ
  pub valid : Bool

abbrev pub no_packet : Packet
no_packet = record { bytes = []; valid = false }

pub record Queue : Type 0 where
  pub packets : List Packet
  pub head : ℕ
  pub tail : ℕ

-- `struct setup_data`: words of 32 and 16 bits; a `player` of 0xffff is -1.
pub record SetupData : Type 0 where
  pub signature : List ℕ
  pub station_id : ℕ
  pub wanted : ℕ
  pub found : ℕ
  pub dup : ℕ
  pub player : ℕ

pub data LineState : Type 0 where
  arbitrate transmit waiting : LineState

pub data Counter : Type 0 where
  rx_packets rx_packets_dropped rx_handoffs tx_packets tx_packets_dropped tx_handoffs : Counter

-- `doomcom_t`, as far as the program uses it. `remotenode` is a word, 0xffff for -1.
pub record Doomcom : Type 0 where
  pub remotenode : ℕ
  pub bytes : List ℕ
  pub numnodes : ℕ
  pub numplayers : ℕ
  pub consoleplayer : ℕ

-- The static variables; an increment of a counter is appended to `counts`.
pub record Sir : Type 0 where
  pub inque : Queue
  pub outque : Queue
  pub tx_offset : ℕ
  pub doomcom : Doomcom
  pub node_data : List SetupData
  pub player_to_node : List ℕ
  pub handoff_partner : ℕ
  pub state : LineState
  pub last_handoff_time : ℕ
  pub in_escape : Bool
  pub counts : List Counter

abbrev pub no_node : ℕ
no_node = 0xffff

abbrev pub no_setup : SetupData
no_setup = record { signature = []; station_id = 0; wanted = 0; found = 0; dup = 0; player = 0 }

abbrev pub packet_at : Queue → ℕ → Packet
packet_at q i = get_or q.packets i no_packet

abbrev pub put_packet : Queue → ℕ → Packet → Queue
put_packet q i p = record q { packets = set q.packets i p }

abbrev pub increment : Counter → Sir → Sir
increment c s = record s { counts = s.counts ++ c ∷ [] }

abbrev pub next : ℕ → ℕ
next i = (i + 1) % queue_len

-- HashData: djb2 in 16 bits, and its low byte.
pub hash_loop : ℕ → List ℕ → ℕ
hash_loop acc [] = acc
hash_loop acc (b ∷ bytes) = hash_loop ((acc * 32 + acc + b) % 2 ^ 16) bytes

unfoldable pub hash_data : List ℕ → ℕ
unfolding hash_loop
hash_data bytes = hash_loop 5381 bytes % 2 ^ 8

-- PacketReceived's test of the packet at the head of the queue.
unfoldable pub for_us : ℕ → List ℕ → Bool
unfolding hash_data
for_us consoleplayer bytes =
    ltb header_size (length bytes)
    && hash_data (drop 1 bytes) == get_or bytes 0 0
    && (get_or bytes 1 0 == broadcast_dest || get_or bytes 1 0 == consoleplayer)

pub clear_head : Sir → Sir
clear_head s = record s { inque = put_packet s.inque s.inque.head no_packet }

-- PacketReceived. For three nodes or more it never asks to stop receiving.
pub packet_received : Sir → Bool × Sir
packet_received s =
    let q = s.inque in
    let pkt = packet_at q q.head in
    let full = next q.head == q.tail in
    if for_us s.doomcom.consoleplayer pkt.bytes
    then (if full
        then (ltb 2 s.doomcom.numnodes, clear_head (increment rx_packets_dropped s))
        else (
          true,
          clear_head (
              increment rx_packets (record s {
                inque = record (put_packet q q.head (record pkt { valid = true })) {
                  head = next q.head;
                };
              })),
        ))
    else (true, clear_head s)

pub add_in_byte : ℕ → Sir → Sir
add_in_byte c s =
    let q = s.inque in
    let pkt = packet_at q q.head in
    if ltb (length pkt.bytes) packet_size
    then record s { inque = put_packet q q.head (record pkt { bytes = pkt.bytes ++ c ∷ [] }) }
    else s

-- SerialMoreTXData's loop over the rest of the packet, with `i` bytes in the block: the block from
-- there on, and the bytes behind `tx_offset`.
pub block_loop : List ℕ → ℕ → List ℕ × List ℕ
block_loop [] i = ([], [])
block_loop (c ∷ bytes) i =
    let (plain, plain_rest) = block_loop bytes (i + 1) in
    let (escaped, escaped_rest) = block_loop bytes (i + 2) in
    if leb tx_buffer_len i
    then ([], c ∷ bytes)
    else if not (c == frame_char)
    then (c ∷ plain, plain_rest)
    else if i == tx_buffer_len - 1
    then ([], bytes)
    else (frame_char ∷ frame_char ∷ escaped, escaped_rest)

-- SerialMoreTXData at the end of a packet, with the queue moved on: the end mark or the token.
pub end_packet : Sir → List ℕ × Sir
end_packet s =
    if s.outque.head == s.outque.tail
    then (
      frame_char ∷ (handoff_base + s.handoff_partner) ∷ [],
      increment tx_handoffs
          (record s { state = elim (s.state) [ arbitrate ↦ arbitrate | _ ↦ waiting ] }),
    )
    else (frame_char ∷ 0 ∷ [], s)

abbrev pub is_waiting : LineState → Bool
is_waiting waiting = true
is_waiting _ = false

abbrev pub is_arbitrate : LineState → Bool
is_arbitrate arbitrate = true
is_arbitrate _ = false

pub serial_more_tx_data : Sir → List ℕ × Sir
serial_more_tx_data s =
    let q = s.outque in
    let bytes = (packet_at q q.tail).bytes in
    if is_waiting s.state || q.head == q.tail
    then ([], s)
    else if leb (length bytes) s.tx_offset
    then end_packet (
        increment tx_packets (record s { outque = record q { tail = next q.tail }; tx_offset = 0 }))
    else (let (block, rest) = block_loop (drop s.tx_offset bytes) 0 in
        (block, record s { tx_offset = length bytes - length rest }))

-- ReceivedHandoff: a node with nothing to send sends an empty packet, to pass on the token.
pub add_empty_packet : Sir → Sir
add_empty_packet s =
    let q = s.outque in
    if q.head == q.tail
    then record s {
      outque = record (put_packet q q.head (record (packet_at q q.head) { bytes = [] })) {
        head = next q.head;
      };
    }
    else s

pub received_handoff : ℕ → Port → Sir → Port × Sir
received_handoff now p s =
    let t = increment rx_handoffs s in
    if is_waiting t.state
    then jump_start serial_more_tx_data p
        (add_empty_packet (record t { state = transmit; last_handoff_time = now }))
    else (p, t)

-- The two tests of a byte behind a FRAMECHAR.
pub ends_packet : ℕ → Bool
ends_packet c = c == 0 || leb handoff_base c && ltb c (handoff_base + max_net_nodes)

pub after_escape : ℕ → Sir → Bool × Sir
after_escape c s =
    if c == frame_char
    then (true, add_in_byte frame_char s)
    else if ends_packet c
    then packet_received s
    else (true, s)

pub serial_byte_received : ℕ → ℕ → Port → Sir → Bool × Port × Sir
serial_byte_received now c p s =
    let (success, t) = after_escape c (record s { in_escape = false }) in
    let (q, u) = received_handoff now p t in
    if s.in_escape
    then (if c == handoff_base + t.doomcom.consoleplayer then (success, q, u) else (success, p, t))
    else if c == frame_char
    then (true, p, record s { in_escape = true })
    else (true, p, add_in_byte c s)

-- The packet that SendPacket writes.
pub make_packet : ℕ → List ℕ → Sir → List ℕ
make_packet node bytes s =
    let dest =
      if node == max_net_nodes
      then broadcast_dest
      else (get_or s.node_data node no_setup).player % 2 ^ 8 in
    let src = (get_or s.node_data 0 no_setup).player % 2 ^ 8 in
    hash_data (dest ∷ src ∷ bytes) ∷ dest ∷ src ∷ bytes

-- SendPacket's choice of a place: the head, or the last packet if the queue is full.
pub store_packet : List ℕ → ℕ → ℕ → Port → Sir → Port × Sir
store_packet bytes i head p s =
    let q = s.outque in
    jump_start serial_more_tx_data p (record s {
      outque = record (put_packet q i (record (packet_at q i) { bytes = bytes })) { head = head };
    })

pub send_packet : ℕ → List ℕ → Port → Sir → Port × Sir
send_packet node bytes p s =
    let q = s.outque in
    let last = (q.head + queue_len - 1) % queue_len in
    let t = increment tx_packets_dropped s in
    if not (node == max_net_nodes) && (node == 0 || leb s.doomcom.numnodes node)
    then (p, s)
    else if ltb (packet_size - header_size) (length bytes)
    then (p, s)
    else if next q.head == q.tail
    then (if leb (length bytes + header_size) (length (packet_at q last).bytes)
        then (p, t)
        else store_packet (make_packet node bytes s) last q.head p t)
    else store_packet (make_packet node bytes s) q.head (next q.head) p s

-- GetPacket. The rest of it, behind the two tests, is `take_packet`.
pub take_packet : ℕ → Port → Sir → Port × Sir
take_packet now p s =
    let q = s.inque in
    let bytes = (packet_at q q.tail).bytes in
    let src = get_or bytes 2 0 in
    let node =
      if is_arbitrate s.state
      then 1
      else if ltb src s.doomcom.numplayers
      then get_or s.player_to_node src no_node
      else no_node in
    resume_receive (serial_byte_received now) p (record s {
      doomcom = record (s.doomcom) { bytes = drop header_size bytes; remotenode = node };
      inque = record q { tail = next q.tail };
    })

pub get_packet : ℕ → Port → Sir → Port × Sir
get_packet now p s =
    let q = s.inque in
    if q.head == q.tail || not (packet_at q q.tail).valid
    then (p, record s { doomcom = record (s.doomcom) { remotenode = no_node } })
    else take_packet now p s

-- CheckTimeout; `expiry` is HANDOFF_EXPIRY_TIME. `clock_t` has 32 bits.
pub check_timeout : ℕ → ℕ → Port → Sir → Port × Sir
check_timeout expiry now p s =
    if is_arbitrate s.state || not (s.doomcom.consoleplayer == 0)
    then (p, s)
    else if ltb expiry ((now + 2 ^ 32 - s.last_handoff_time) % 2 ^ 32)
    then jump_start serial_more_tx_data p (record s { last_handoff_time = now; state = transmit })
    else (p, s)
