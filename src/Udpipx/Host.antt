-- ===== src/Udpipx/Host.antt =====
-- The functions of net/udpipx.c that call RunServer of net/dbserver.c, on a machine that may run the
-- server as well.
use vanilla_utilities.Base.{
  ℕ, ◌+◌, ◌*◌, ◌-◌, ◌%◌, ◌^◌, ltb, length, if◌then◌else◌, Bool, false, List, [], ◌∷◌,
}
use vanilla_utilities.Dbserver.{Server, Datagram, run_server}
use vanilla_utilities.Udpipx.{
  payload_max, Udp, Got, no_packet, shut_down, got, no_reply, receive_error, accepted, net16,
  registration, send_to_server, check_registration_reply, ipx_send_packet, ipx_get_packet,
}

pub record Host : Type 0 where
  pub udp : Udp
  pub server : Server

-- What waits at the server's socket when RunServer is called, and whether WSAEWOULDBLOCK is behind it.
pub record Waiting : Type 0 where
  pub datagrams : List Datagram
  pub would_block : Bool

-- A round of Connect's loop: what `clock()` returns, and what waits at the two sockets.
pub record Round : Type 0 where
  pub now : ℕ
  pub at_server : Waiting
  pub at_client : Waiting

-- Connect still runs, has ended with an Error, or is done.
pub data Connection : Type 0 where
  connecting : Host → Connection
  failed : Connection
  connected : Host → Connection

-- `sendto_fails` and `server_fails` are the answers of sendto to the client's calls and the server's.
module _ (sendto_fails server_fails : ℕ → Bool) (beyond uninit : List ℕ) where
  pub serve : Waiting → Host → Host
  serve w h = record h {
    server = run_server server_fails uninit w.datagrams w.would_block h.server;
  }

  -- IPXSendPacket, which calls RunServer a second time only behind a send.
  pub send_packet : Waiting → Waiting → List ℕ → List ℕ → Host → Host
  send_packet before after addr content h =
      let t = serve before h in
      if ltb payload_max (length content)
      then t
      else serve after (record t { udp = ipx_send_packet sendto_fails beyond addr content t.udp })

  -- IPXGetPacket.
  pub get_packet : Waiting → List Datagram → Host → Got × Host
  get_packet before datagrams h =
      let t = serve before h in
      let r = ipx_get_packet datagrams t.udp in
      (
        r,
        elim r [
          | no_packet u ↦ record t { udp = u }
          | shut_down ↦ t
          | got rest u ↦ record t { udp = u }
        ],
      )

  -- SendRegistration, when it is due: whether that ends in an Error, the time of the last one and the
  -- variables.
  pub send_registration : ℕ → ℕ → ℕ → Udp → Bool × ℕ × Udp
  send_registration per_sec now last_send_time u =
      if ltb per_sec ((now + 2 ^ 32 - last_send_time) % 2 ^ 32)
      then (let (error, v) = send_to_server sendto_fails beyond registration u in (error, now, v))
      else (false, last_send_time, u)

  pub connect_loop : ℕ → List Round → ℕ → ℕ → Host → Connection
  connect_loop per_sec [] start_time last_send_time h = connecting h
  connect_loop per_sec (r ∷ rounds) start_time last_send_time h =
      let (error, last, u) = send_registration per_sec r.now last_send_time h.udp in
      let t = serve r.at_server (record h { udp = u }) in
      let reply = check_registration_reply r.at_client.datagrams r.at_client.would_block t.udp in
      let next = connect_loop per_sec rounds start_time last in
      if ltb (5 * per_sec) ((r.now + 2 ^ 32 - start_time) % 2 ^ 32)
      then failed
      else if error
      then failed
      else elim reply [
        | no_reply v ↦ next (record t { udp = v })
        | receive_error ↦ failed
        | accepted v ↦ connected (record t { udp = v })
      ]

  -- Connect.
  pub connect : ℕ → ℕ → List Round → Host → Connection
  connect per_sec start_time rounds h =
      connect_loop per_sec rounds start_time ((start_time + 2 ^ 32 - 2 * per_sec) % 2 ^ 32) h

  -- InitNetwork behind Connect.
  pub join : Host → Host
  join h = record h {
    udp = record (h.udp) {
      packet = record (h.udp.packet) {
        src = h.udp.local_addr;
        src_socket = net16 h.udp.ipxsocket;
        dest_socket = net16 h.udp.ipxsocket;
      };
    };
  }
