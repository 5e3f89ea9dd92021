-- ===== src/Dbserver/Tests.antt =====
-- A server with two clients.
use vanilla_utilities.Base.{
  ℕ, ◌≡◌, ◌++◌, refl, subst, arith, length, replicate, count_if, if◌then◌else◌, Bool, true, false,
  not, ◌&&◌, List, [], ◌∷◌,
}
use vanilla_utilities.Base.Words.{same_bytes}
use vanilla_utilities.Dbserver.{
  Server, Datagram, Sendto, broadcast_addr, is_registration_packet, in_list, new_client,
  in_clients_list, reply_to, sendto_or_log, receive, receive_all, run_server, end_loop,
  shutdown_server, send_shutdown, shutdown_client,
}
use vanilla_utilities.Dbserver.Clients.{IsClients, Grown, run_server-Grown}
use vanilla_utilities.Dbserver.Broadcast.{is_to, Carry, IsBroadcast, receive-broadcast}

-- A `sockaddr_in` for a machine's number.
abbrev address : ℕ → List ℕ
address n = 2 ∷ 0 ∷ 0 ∷ 213 ∷ 10 ∷ 0 ∷ 0 ∷ n ∷ replicate 8 0

-- No call of sendto fails.
abbrev never : ℕ → Bool
never n = false

abbrev started : Server
started = record { client_addrs = []; packet = []; is_open = true; sent = []; counts = [] }

abbrev registration : List ℕ
registration =
    (255 ∷ 255 ∷ 0 ∷ 30 ∷ 0 ∷ 255 ∷ []) ++ replicate 10 0 ++ (0 ∷ 2 ∷ []) ++ replicate 12 0

abbrev joining : ℕ → Datagram
joining n = record { bytes = registration; from = address n }

abbrev served : Server
served = record started { client_addrs = address 1 ∷ address 2 ∷ [] }

empty-IsClients : IsClients []
empty-IsClients = record { distinct = λ addr. omega arith; few = omega arith }

run_server-Grown_example :
    Grown started (run_server never [] (joining 1 ∷ joining 2 ∷ joining 1 ∷ []) true started)
run_server-Grown_example =
    run_server-Grown never [] (joining 1 ∷ joining 2 ∷ joining 1 ∷ []) true started empty-IsClients

-- The third registration is one of a client that is there.
joined :
    (run_server never [] (joining 1 ∷ joining 2 ∷ joining 1 ∷ []) true started).client_addrs
    ≡ address 1 ∷ address 2 ∷ []
unfolding run_server end_loop receive_all receive is_registration_packet new_client in_clients_list
    in_list reply_to sendto_or_log same_bytes
joined = refl

abbrev shout : Datagram
shout = record {
  bytes = (255 ∷ 255 ∷ 0 ∷ 30 ∷ 0 ∷ 0 ∷ []) ++ broadcast_addr ++ (134 ∷ 155 ∷ []) ++ replicate 12 7;
  from = address 1;
}

served-IsClients : IsClients served.client_addrs
served-IsClients =
    subst IsClients joined
      (run_server-Grown never [] (joining 1 ∷ joining 2 ∷ joining 1 ∷ []) true started
        empty-IsClients).clients

shout-IsBroadcast : IsBroadcast never [] shout served
unfolding same_bytes is_registration_packet in_list
shout-IsBroadcast = record { to_all = refl; no_registration = refl; from_client = refl }

receive-broadcast_example :
    (sends : List Sendto) × ((receive never [] shout served).sent ≡ [] ++ sends)
    × Carry shout.bytes sends
    × ((addr : List ℕ)
        → count_if (is_to addr) sends ≡ (
            if in_list addr served.client_addrs && not (same_bytes addr (address 1)) then 1 else 0))
receive-broadcast_example =
    receive-broadcast never [] shout served served-IsClients shout-IsBroadcast

-- The first message of the shutdown fails: the server sends no other.
broken_off : length (shutdown_server (λ (n : ℕ). true) [] served).sent ≡ 1
unfolding shutdown_server send_shutdown shutdown_client sendto_or_log
broken_off = refl
