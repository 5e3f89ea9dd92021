-- ===== src/Udpipx.antt =====
-- net/udpipx.c: the interface of net/ipxnet.h over a server, by the tunnelling protocol of DOSbox.
-- The sockets are not read: what arrives is a list of datagrams, `sendto_fails n` is whether the n-th
-- call of sendto fails, and `beyond` is the memory behind the static `packet`. The calls of RunServer,
-- which works on another socket and on variables of its own, stand in Udpipx/Host.
pub mod Host
pub mod Tunnel
pub mod Deliver
pub mod Network
mod Tests
use vanilla_utilities.Base.{
  ℕ, zero, suc, ◌+◌, ◌*◌, ◌-◌, ◌/◌, ◌%◌, ◌^◌, ltb, ◌==◌, length, take, drop, replicate,
  if◌then◌else◌, Bool, true, false, not, ◌&&◌, ◌||◌, List, [], ◌∷◌, ◌++◌,
}
use vanilla_utilities.Base.Words.{bytes32, word16, word32, same_bytes}
use vanilla_utilities.Dbserver.{Datagram, Sendto, broadcast_addr}
use vanilla_utilities.Ipxnet.{Packet}

-- The static `packet`, field by field as bytes.
pub record Buffer : Type 0 where
  pub check_sum : List ℕ
  pub packet_length : List ℕ
  pub control : List ℕ
  pub dest : List ℕ
  pub dest_socket : List ℕ
  pub src : List ℕ
  pub src_socket : List ℕ
  pub time : List ℕ
  pub payload : List ℕ

abbrev pub payload_max : ℕ
payload_max = 512

pub to_bytes : Buffer → List ℕ
to_bytes b =
    b.check_sum
    ++ (b.packet_length
        ++ (b.control
            ++ (b.dest ++ (b.dest_socket ++ (b.src ++ (b.src_socket ++ (b.time ++ b.payload)))))))

pub of_bytes : List ℕ → Buffer
of_bytes bytes =
    let r2 = drop 2 bytes in
    let r4 = drop 2 r2 in
    let r6 = drop 2 r4 in
    let r16 = drop 10 r6 in
    let r18 = drop 2 r16 in
    let r28 = drop 10 r18 in
    let r30 = drop 2 r28 in
    let r34 = drop 4 r30 in
    record {
      check_sum = take 2 bytes;
      packet_length = take 2 r2;
      control = take 2 r4;
      dest = take 10 r6;
      dest_socket = take 2 r16;
      src = take 10 r18;
      src_socket = take 2 r28;
      time = take 4 r30;
      payload = take payload_max r34;
    }

-- What a caller of IPXGetPacket reads in the packet.
pub packet_of : Buffer → Packet
packet_of b = record {
  packet_length = word16 b.packet_length 0;
  src = b.src;
  time = word32 b.time 0;
  payload = b.payload;
}

-- `htons`, in memory.
abbrev pub net16 : ℕ → List ℕ
net16 w = (w / 2 ^ 8 % 2 ^ 8) ∷ (w % 2 ^ 8) ∷ []

pub data Counter : Type 0 where
  rx_packets rx_wrong_src rx_wrong_dest tx_packets tx_errors : Counter

-- The static variables, and the calls of sendto.
pub record Udp : Type 0 where
  pub local_addr : List ℕ
  pub packet : Buffer
  pub in_game : Bool
  pub server_addr : List ℕ
  pub ipxsocket : ℕ
  pub ipx_localtime : ℕ
  pub sent : List Sendto
  pub counts : List Counter

pub count : Counter → Udp → Udp
count c u = record u { counts = u.counts ++ c ∷ [] }

-- recvfrom writes over the front of the packet.
pub receive : Datagram → Udp → Udp
receive d u = record u { packet = of_bytes (d.bytes ++ drop (length d.bytes) (to_bytes u.packet)) }

-- SameServerAddr compares `sin_port` only.
pub same_server_addr : List ℕ → List ℕ → Bool
same_server_addr a b = same_bytes (take 2 (drop 2 a)) (take 2 (drop 2 b))

pub for_us : Udp → Bool
for_us u = same_bytes u.packet.dest u.local_addr || same_bytes u.packet.dest broadcast_addr

pub is_shutdown : Udp → Bool
is_shutdown u =
    same_bytes u.packet.dest_socket (net16 86)
    && same_bytes u.packet.src_socket (net16 86)
    && not u.in_game

-- IPXGetPacket: NULL, the Error, or the packet, with the datagrams that still wait.
pub data Got : Type 0 where
  no_packet : Udp → Got
  shut_down : Got
  got : List Datagram → Udp → Got

-- A round of the loop of IPXGetPacket with a packet that is for us, and what the others come to.
pub take_packet : List Datagram → Udp → Got → Got
take_packet datagrams u next =
    if same_bytes u.packet.dest_socket (net16 u.ipxsocket)
    then got datagrams u
    else if is_shutdown u
    then shut_down
    else next

-- The counter that a packet increments.
pub counter_of : Udp → List ℕ → Counter
counter_of u from =
    if not (same_server_addr u.server_addr from)
    then rx_wrong_src
    else if not (for_us u)
    then rx_wrong_dest
    else rx_packets

pub ipx_get_packet : List Datagram → Udp → Got
ipx_get_packet [] u = no_packet u
ipx_get_packet (d ∷ datagrams) u =
    let t = receive d u in
    let v = count (counter_of t d.from) t in
    let next = ipx_get_packet datagrams v in
    if same_server_addr t.server_addr d.from && for_us t then take_packet datagrams v next else next

pub ipx_start_game : Udp → Udp
ipx_start_game u = record u { in_game = true }

-- The header that SendRegistration sends.
pub registration : List ℕ
registration =
    (255 ∷ 255 ∷ 0 ∷ 30 ∷ 0 ∷ 255 ∷ []) ++ replicate 10 0 ++ net16 2 ++ replicate 10 0 ++ net16 2

-- CheckRegistrationReply: WSAEWOULDBLOCK, another error, or the reply.
pub data Reply : Type 0 where
  no_reply : Udp → Reply
  receive_error : Reply
  accepted : Udp → Reply

pub check_registration_reply : List Datagram → Bool → Udp → Reply
check_registration_reply [] would_block u = if would_block then no_reply u else receive_error
check_registration_reply (d ∷ datagrams) would_block u =
    let t = receive d u in
    let next = check_registration_reply datagrams would_block t in
    if same_server_addr t.server_addr d.from
      && same_bytes t.packet.src_socket (net16 2)
      && same_bytes t.packet.dest_socket (net16 2)
    then accepted (record t { local_addr = t.packet.dest })
    else next

-- `packet` as IPXSendPacket fills it, and the bytes that it sends of it.
pub fill_packet : List ℕ → List ℕ → Udp → Buffer
fill_packet addr content u = record (u.packet) {
  src = u.local_addr;
  dest = addr;
  packet_length = net16 (length content + 38);
  time = bytes32 u.ipx_localtime;
  payload = content ++ drop (length content) u.packet.payload;
}

pub message_of : List ℕ → ℕ → Buffer → List ℕ
message_of beyond size b = take size (to_bytes b ++ beyond)

module _ (sendto_fails : ℕ → Bool) (beyond : List ℕ) where
  pub send_to_server : List ℕ → Udp → Bool × Udp
  send_to_server msg u = (
    sendto_fails (length u.sent),
    record u { sent = u.sent ++ record { msg = msg; target = u.server_addr } ∷ [] },
  )

  pub ipx_send_packet : List ℕ → List ℕ → Udp → Udp
  ipx_send_packet addr content u =
      if ltb payload_max (length content)
      then u
      else let b = fill_packet addr content u in
        let (failed, t) =
          send_to_server (message_of beyond (length content + 38) b) (record u { packet = b }) in
        count (if failed then tx_errors else tx_packets) t
