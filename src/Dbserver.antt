-- ===== src/Dbserver.antt =====
-- net/dbserver.c: the server of the tunnelling protocol of DOSbox. It keeps a list of the clients that
-- have registered, and passes IPX packets on between them.
-- The sockets are not read. What arrives is a list of datagrams; `sendto_fails n` is whether the n-th
-- call of sendto fails, and `uninit` what the stack has in a local variable.
pub mod Clients
pub mod Broadcast
pub mod Unicast
mod Tests
use vanilla_utilities.Base.{
  ℕ, zero, suc, ◌+◌, ◌==◌, leb, length, get_or, take, drop, replicate, if◌then◌else◌, Bool, true,
  false, not, ◌&&◌, ◌||◌, List, [], ◌∷◌, ◌++◌,
}
use vanilla_utilities.Base.Words.{same_bytes}

-- `sizeof(packet)`.
abbrev pub sizeof_packet : ℕ
sizeof_packet = 546

abbrev pub max_net_nodes : ℕ
max_net_nodes = 16

pub data Counter : Type 0 where
  srv_rx_packets srv_rx_errors srv_tx_packets srv_tx_errors : Counter

-- A call of sendto.
pub record Sendto : Type 0 where
  pub msg : List ℕ
  pub target : List ℕ

-- A datagram as recvfrom returns it, with the `sockaddr_in` it comes from: no more than the bytes of
-- `packet`. What becomes of a longer one is up to the sockets.
pub record Datagram : Type 0 where
  pub bytes : List ℕ
  pub from : List ℕ

-- The static variables, and the calls of sendto. An address is the 16 bytes of a `sockaddr_in`.
pub record Server : Type 0 where
  pub client_addrs : List (List ℕ)
  pub packet : List ℕ
  pub is_open : Bool
  pub sent : List Sendto
  pub counts : List Counter

abbrev pub broadcast_addr : List ℕ
broadcast_addr = replicate 4 0 ++ replicate 6 255

abbrev pub null_addr : List ℕ
null_addr = replicate 10 0

-- `packet.ipx.Dest`, and the two bytes of `packet.ipx.DestSocket`.
abbrev pub dest_of : List ℕ → List ℕ
dest_of packet = take 10 (drop 6 packet)

abbrev pub dest_socket_of : List ℕ → List ℕ
dest_socket_of packet = take 2 (drop 16 packet)

unfoldable pub sockaddr_to_ipx : List ℕ → List ℕ
sockaddr_to_ipx inaddr = replicate 4 0 ++ take 4 (drop 4 inaddr) ++ take 2 (drop 2 inaddr)

-- AF_INET is 2. The rest of the structure stays what it is.
pub ipx_to_sockaddr : List ℕ → List ℕ → List ℕ
ipx_to_sockaddr ipxaddr inaddr =
    (2 ∷ 0 ∷ []) ++ take 2 (drop 8 ipxaddr) ++ take 4 (drop 4 ipxaddr) ++ drop 8 inaddr

unfoldable pub in_list : List ℕ → List (List ℕ) → Bool
in_list addr [] = false
in_list addr (c ∷ clients) = same_bytes c addr || in_list addr clients

pub in_clients_list : List ℕ → Server → Bool
in_clients_list addr s = in_list addr s.client_addrs

pub is_registration_packet : List ℕ → Bool
is_registration_packet packet =
    same_bytes (dest_of packet) null_addr && same_bytes (dest_socket_of packet) (0 ∷ 2 ∷ [])

-- The header that NewClient sends.
pub registration_reply : List ℕ → List ℕ
registration_reply addr =
    (255 ∷ 255 ∷ 0 ∷ 30 ∷ 0 ∷ 0 ∷ [])
    ++ sockaddr_to_ipx addr
    ++ (0 ∷ 2 ∷ 0 ∷ 0 ∷ 0 ∷ 1 ∷ [])
    ++ replicate 6 255
    ++ 0 ∷ 2 ∷ []

-- The header that SendShutdown sends.
pub shutdown_message : List ℕ → List ℕ
shutdown_message addr =
    (255 ∷ 255 ∷ 0 ∷ 30 ∷ 0 ∷ 255 ∷ [])
    ++ sockaddr_to_ipx addr
    ++ (0 ∷ 86 ∷ [])
    ++ null_addr
    ++ 0 ∷ 86 ∷ []

-- The end of RunServer's loop.
pub end_loop : Bool → Server → Server
end_loop would_block s =
    if would_block then s else record s { counts = s.counts ++ srv_rx_errors ∷ [] }

module _ (sendto_fails : ℕ → Bool) (uninit : List ℕ) where
  -- Whether the call has failed is in the first result.
  pub sendto_or_log : List ℕ → List ℕ → Server → Bool × Server
  sendto_or_log msg target s =
      let result = sendto_fails (length s.sent) in
      (
        result,
        record s {
          sent = s.sent ++ record { msg = msg; target = target } ∷ [];
          counts = s.counts ++ (if result then srv_tx_errors else srv_tx_packets) ∷ [];
        },
      )

  -- ForwardPacket's loop over the clients.
  pub forward_loop : List (List ℕ) → List ℕ → List ℕ → Server → Server
  forward_loop [] src msg s = s
  forward_loop (c ∷ clients) src msg s =
      forward_loop clients src msg (if same_bytes c src then s else (sendto_or_log msg c s).1)

  -- ForwardPacket, of the first `len` bytes of the packet.
  pub forward_packet : List ℕ → ℕ → Server → Server
  forward_packet src len s =
      let msg = take len s.packet in
      if not (same_bytes (dest_of s.packet) broadcast_addr)
      then (sendto_or_log msg (ipx_to_sockaddr (dest_of s.packet) uninit) s).1
      else forward_loop s.client_addrs src msg s

  pub reply_to : List ℕ → Server → Server
  reply_to addr s = (sendto_or_log (registration_reply addr) addr s).1

  pub new_client : List ℕ → Server → Server
  new_client addr s =
      if in_clients_list addr s
      then reply_to addr s
      else if leb max_net_nodes (length s.client_addrs)
      then s
      else reply_to addr (record s { client_addrs = s.client_addrs ++ addr ∷ [] })

  -- A round of RunServer's loop. The bytes behind the datagram stay in the static `packet`.
  pub receive : Datagram → Server → Server
  receive d s =
      let t : Server = record s {
        packet = d.bytes ++ drop (length d.bytes) s.packet;
        counts = s.counts ++ srv_rx_packets ∷ [];
      } in
      if is_registration_packet t.packet
      then new_client d.from t
      else if in_clients_list d.from t
      then forward_packet d.from (length d.bytes) t
      else t

  pub receive_all : List Datagram → Server → Server
  receive_all [] s = s
  receive_all (d ∷ datagrams) s = receive_all datagrams (receive d s)

  -- RunServer: the datagrams that wait, and whether the error that ends the loop is WSAEWOULDBLOCK.
  pub run_server : List Datagram → Bool → Server → Server
  run_server datagrams would_block s =
      if not s.is_open then s else end_loop would_block (receive_all datagrams s)

  -- SendShutdown: `k` messages are left for a client; the first result is whether a call has failed.
  pub shutdown_client : ℕ → List ℕ → Server → Bool × Server
  shutdown_client zero addr s = (false, s)
  shutdown_client (suc k) addr s =
      let (failed, t) = sendto_or_log (shutdown_message addr) addr s in
      elim failed [ true ↦ (true, t) | false ↦ shutdown_client k addr t ]

  pub send_shutdown : List (List ℕ) → Server → Server
  send_shutdown [] s = s
  send_shutdown (c ∷ clients) s =
      let (failed, t) = shutdown_client 3 c s in
      elim failed [ true ↦ t | false ↦ send_shutdown clients t ]

  pub shutdown_server : Server → Server
  shutdown_server s =
      if s.is_open then record (send_shutdown s.client_addrs s) { is_open = false } else s
