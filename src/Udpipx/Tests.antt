-- ===== src/Udpipx/Tests.antt =====
-- Two machines on one server.
use vanilla_utilities.Base.{
  length, ℕ, ◌≡◌, ◌≤◌, ◌++◌, refl, sym, subst, arith, replicate, take, count_if, true, false,
  Bool-cases, inl, inr, List, [], ◌∷◌,
}
use vanilla_utilities.Base.Words.{same_bytes, same_bytes-eq}
use vanilla_utilities.Dbserver.{broadcast_addr, Server, Sendto, in_list, sockaddr_to_ipx, receive}
use vanilla_utilities.Dbserver.Clients.{IsClients}
use vanilla_utilities.Dbserver.Broadcast.{is_to, Carry}
use vanilla_utilities.Udpipx.{
  Buffer, packet_of, net16, Udp, got, same_server_addr, ipx_get_packet, ipx_send_packet,
}
use vanilla_utilities.Udpipx.Network.{ipx_get_packet-broadcast, ipx_get_packet-unicast}
use vanilla_utilities.Udpipx.Deliver.{Carries, Reaches}

abbrev empty : Buffer
empty = record {
  check_sum = 0 ∷ 0 ∷ [];
  packet_length = 0 ∷ 0 ∷ [];
  control = 0 ∷ 0 ∷ [];
  dest = replicate 10 0;
  dest_socket = net16 0x869b;
  src = replicate 10 0;
  src_socket = net16 0x869b;
  time = replicate 4 0;
  payload = replicate 6 0;
}

abbrev server : List ℕ
server = 2 ∷ 0 ∷ 0 ∷ 213 ∷ 10 ∷ 0 ∷ 0 ∷ 9 ∷ replicate 8 0

abbrev machine : ℕ → Udp
machine n = record {
  local_addr = replicate 4 0 ++ 10 ∷ 0 ∷ 0 ∷ n ∷ 0 ∷ 213 ∷ [];
  packet = empty;
  in_game = false;
  server_addr = server;
  ipxsocket = 0x869b;
  ipx_localtime = 77;
  sent = [];
  counts = [];
}

reached : Reaches broadcast_addr server (machine 1) (machine 2)
unfolding same_server_addr same_bytes
reached = record {
  buffer = record {
    check_sum_size = refl;
    length_size = refl;
    control_size = refl;
    dest_size = refl;
    dest_socket_size = refl;
    src_size = refl;
    src_socket_size = refl;
    time_size = refl;
  };
  own_size = refl;
  addr_size = refl;
  socket = refl;
  server = refl;
  target = refl;
  time_fits = omega arith;
}

-- The server's addresses of the machines.
abbrev address : ℕ → List ℕ
address n = 2 ∷ 0 ∷ 0 ∷ 213 ∷ 10 ∷ 0 ∷ 0 ∷ n ∷ replicate 8 0

abbrev both : List (List ℕ)
both = address 1 ∷ address 2 ∷ []

abbrev served : Server
served = record { client_addrs = both; packet = []; is_open = true; sent = []; counts = [] }

first_once : count_if (same_bytes (address 1)) both ≤ 1
unfolding same_bytes
first_once = omega arith

both-IsClients : IsClients both
both-IsClients = record {
  distinct = λ addr. elim (Bool-cases (same_bytes addr (address 1))) [
    | inl first ↦
        subst (λ (l : List ℕ). count_if (same_bytes l) both ≤ 1)
          (sym (same_bytes-eq addr (address 1) first)) first_once
    | inr other ↦ ground arith
  ];
  few = omega arith;
}

first_there : in_list (address 1) both ≡ true
unfolding in_list same_bytes
first_there = refl

second_there : in_list (address 2) both ≡ true
unfolding in_list same_bytes
second_there = refl

other_machine : same_bytes (address 2) (address 1) ≡ false
unfolding same_bytes
other_machine = refl

ipx_get_packet-broadcast_example :
    (msg : List ℕ) × (sends : List Sendto) × (w : Udp) × (length msg ≤ 546)
    × ((ipx_send_packet (λ (n : ℕ). false) [] broadcast_addr (5 ∷ 6 ∷ 7 ∷ []) (machine 1)).sent
        ≡ [] ++ record { msg = msg; target = server } ∷ [])
    × ((receive (λ (n : ℕ). true) [] (record { bytes = msg; from = address 1 }) served).sent
        ≡ [] ++ sends)
    × Carry msg sends
    × (count_if (is_to (address 2)) sends ≡ 1)
    × (count_if (is_to (address 1)) sends ≡ 0)
    × (ipx_get_packet (record { bytes = msg; from = server } ∷ []) (machine 2) ≡ got [] w)
    × Carries (5 ∷ 6 ∷ 7 ∷ []) (machine 1) (packet_of w.packet)
ipx_get_packet-broadcast_example =
    ipx_get_packet-broadcast (λ (n : ℕ). false) (λ (n : ℕ). true) [] [] (5 ∷ 6 ∷ 7 ∷ []) server
      (address 1) (address 2) [] (machine 1) (machine 2) served (omega arith) reached both-IsClients
      first_there second_there other_machine

second_reached : Reaches (sockaddr_to_ipx (address 2)) server (machine 1) (machine 2)
unfolding same_server_addr same_bytes sockaddr_to_ipx
second_reached = record {
  buffer = reached.buffer;
  own_size = refl;
  addr_size = refl;
  socket = refl;
  server = refl;
  target = refl;
  time_fits = omega arith;
}

second_no_null : same_bytes (sockaddr_to_ipx (address 2)) (replicate 10 0) ≡ false
unfolding same_bytes sockaddr_to_ipx
second_no_null = refl

second_no_broadcast : same_bytes (sockaddr_to_ipx (address 2)) broadcast_addr ≡ false
unfolding same_bytes sockaddr_to_ipx
second_no_broadcast = refl

ipx_get_packet-unicast_example :
    (msg : List ℕ) × (w : Udp) × (length msg ≤ 546)
    × ((ipx_send_packet
          (λ (n : ℕ). false)
          []
          (sockaddr_to_ipx (address 2))
          (5 ∷ 6 ∷ 7 ∷ [])
          (machine 1)).sent
        ≡ [] ++ record { msg = msg; target = server } ∷ [])
    × ((receive
          (λ (n : ℕ). true)
          (replicate 16 9)
          (record { bytes = msg; from = address 1 })
          served).sent
        ≡ [] ++ record { msg = msg; target = take 8 (address 2) ++ replicate 8 9 } ∷ [])
    × (ipx_get_packet (record { bytes = msg; from = server } ∷ []) (machine 2) ≡ got [] w)
    × Carries (5 ∷ 6 ∷ 7 ∷ []) (machine 1) (packet_of w.packet)
ipx_get_packet-unicast_example =
    ipx_get_packet-unicast (λ (n : ℕ). false) (λ (n : ℕ). true) [] (replicate 16 9) (5 ∷ 6 ∷ 7 ∷ [])
      server (address 1) (replicate 8 0) 0 213 10 0 0 2 [] (machine 1) (machine 2) served
      (omega arith) second_reached first_there second_no_null second_no_broadcast
