-- ===== src/Udpipx/Network.antt =====
-- Machines with net/udpipx.c on one server of net/dbserver.c: the way of a packet through the server.
use vanilla_utilities.Base.{
  ℕ, ◌+◌, ◌≤◌, ◌≡◌, arith, length-take, refl, ap, ◌∙◌, length, take, drop, count_if, Bool, true,
  false, List, [], ◌∷◌, ◌++◌,
}
use vanilla_utilities.Base.Words.{same_bytes, same_bytes_refl}
use vanilla_utilities.Dbserver.{
  Server, Datagram, Sendto, sizeof_packet, broadcast_addr, null_addr, in_list, dest_of,
  sockaddr_to_ipx, receive,
}
use vanilla_utilities.Dbserver.Clients.{IsClients}
use vanilla_utilities.Dbserver.Broadcast.{broadcast_not, Carry, is_to, receive-broadcast}
use vanilla_utilities.Dbserver.Unicast.{receive-unicast}
use vanilla_utilities.Udpipx.{
  message_of, to_bytes, packet_of, Udp, got, ipx_get_packet, ipx_send_packet, fill_packet,
}
use vanilla_utilities.Udpipx.Tunnel.{dest_of-message}
use vanilla_utilities.Udpipx.Deliver.{
  Carries, Reaches, sent_message, ipx_get_packet-message, ipx_send_packet-sent,
  fill_packet-IsBuffer,
}

-- The server reads the destination that the sender wrote.
dest_of-sent :
    (beyond addr content from more : List ℕ) (u v : Udp)
    → Reaches addr from u v
    → dest_of (sent_message beyond addr content u ++ more) ≡ addr
unfolding fill_packet
dest_of-sent beyond addr content from more u v r =
    dest_of-message beyond content (drop (length content) u.packet.payload) more
      (fill_packet addr content u) (fill_packet-IsBuffer addr content from u v r)

-- What is sent fits into the packet that recvfrom fills.
sent_message-fits :
    (beyond addr content : List ℕ) (u : Udp)
    → length content + 38 ≤ sizeof_packet
    → length (sent_message beyond addr content u) ≤ sizeof_packet
unfolding message_of
sent_message-fits beyond addr content u h =
    omega
      (arith, length-take (length content + 38) (to_bytes (fill_packet addr content u) ++ beyond))

-- A machine sends at most 508 bytes to all by IPXSendPacket, as one datagram to the server that is
-- no longer than the `sizeof(packet)` that recvfrom takes. The server, whose clients are listed
-- once each and include the sender and another machine, passes the same bytes on once to the other
-- and not to the sender, whichever calls of sendto fail. Where they reach that machine from the
-- server's port, IPXGetPacket returns them at once, with the data in front of its payload, their
-- length, the sender's address and its time.
pub ipx_get_packet-broadcast :
    (sendto_fails server_fails : ℕ → Bool) (beyond uninit content from own other : List ℕ)
    (datagrams : List Datagram) (u v : Udp) (s : Server)
    → length content + 38 ≤ sizeof_packet
    → Reaches broadcast_addr from u v
    → IsClients s.client_addrs
    → in_list own s.client_addrs ≡ true
    → in_list other s.client_addrs ≡ true
    → same_bytes other own ≡ false
    → (msg : List ℕ) × (sends : List Sendto) × (w : Udp) × (length msg ≤ sizeof_packet)
      × ((ipx_send_packet sendto_fails beyond broadcast_addr content u).sent
          ≡ u.sent ++ record { msg = msg; target = u.server_addr } ∷ [])
      × ((receive server_fails uninit (record { bytes = msg; from = own }) s).sent
          ≡ s.sent ++ sends)
      × Carry msg sends
      × (count_if (is_to other) sends ≡ 1)
      × (count_if (is_to own) sends ≡ 0)
      × (ipx_get_packet (record { bytes = msg; from = from } ∷ datagrams) v ≡ got datagrams w)
      × Carries content u (packet_of w.packet)
ipx_get_packet-broadcast sendto_fails server_fails beyond uninit content from own other datagrams u
      v s few r c o t d =
    let msg = sent_message beyond broadcast_addr content u in
    let dest = dest_of-sent beyond broadcast_addr content from (drop (length msg) s.packet) u v r in
    let (w, e, carried) =
      ipx_get_packet-message beyond broadcast_addr content from datagrams u v (omega arith) r in
    let (sends, sent, carry, counts) =
      receive-broadcast server_fails uninit (record { bytes = msg; from = own }) s c
        (record {
          to_all =
              ap (λ (l : List ℕ). same_bytes l broadcast_addr) dest
              ∙ same_bytes_refl broadcast_addr;
          no_registration = broadcast_not (msg ++ drop (length msg) s.packet) dest;
          from_client = o;
        }) in
    (
      msg,
      sends,
      w,
      sent_message-fits beyond broadcast_addr content u few,
      ipx_send_packet-sent sendto_fails beyond broadcast_addr content u (omega arith),
      sent,
      carry,
      counts other ∙ rw (t, d) refl,
      counts own ∙ rw (o, same_bytes_refl own) refl,
      e,
      carried,
    )

-- A machine sends at most 508 bytes to the IPX address that SockaddrToIPX makes of another one's
-- socket address, which is not null or that of all, as one datagram to the server that is no
-- longer than the `sizeof(packet)` that recvfrom takes. The server passes the same bytes on in a
-- single call of sendto, to a socket address with the other's family, port and IP address. Where
-- they reach that machine from the server's port, IPXGetPacket returns them at once, with the data
-- in front of its payload, their length, the sender's address and its time.
pub ipx_get_packet-unicast :
    (sendto_fails server_fails : ℕ → Bool) (beyond uninit content from own rest : List ℕ)
    (p q a b c e : ℕ) (datagrams : List Datagram) (u v : Udp) (s : Server)
    → let addr : List ℕ = 2 ∷ 0 ∷ p ∷ q ∷ a ∷ b ∷ c ∷ e ∷ rest in
      length content + 38 ≤ sizeof_packet
      → Reaches (sockaddr_to_ipx addr) from u v
      → in_list own s.client_addrs ≡ true
      → same_bytes (sockaddr_to_ipx addr) null_addr ≡ false
      → same_bytes (sockaddr_to_ipx addr) broadcast_addr ≡ false
      → (msg : List ℕ) × (w : Udp) × (length msg ≤ sizeof_packet)
        × ((ipx_send_packet sendto_fails beyond (sockaddr_to_ipx addr) content u).sent
            ≡ u.sent ++ record { msg = msg; target = u.server_addr } ∷ [])
        × ((receive server_fails uninit (record { bytes = msg; from = own }) s).sent
            ≡ s.sent ++ record { msg = msg; target = take 8 addr ++ drop 8 uninit } ∷ [])
        × (ipx_get_packet (record { bytes = msg; from = from } ∷ datagrams) v ≡ got datagrams w)
        × Carries content u (packet_of w.packet)
ipx_get_packet-unicast sendto_fails server_fails beyond uninit content from own rest p q a b c e
      datagrams u v s few r o n m =
    let to : List ℕ = sockaddr_to_ipx (2 ∷ 0 ∷ p ∷ q ∷ a ∷ b ∷ c ∷ e ∷ rest) in
    let msg = sent_message beyond to content u in
    let dest = dest_of-sent beyond to content from (drop (length msg) s.packet) u v r in
    let (w, h, carried) =
      ipx_get_packet-message beyond to content from datagrams u v (omega arith) r in
    (
      msg,
      w,
      sent_message-fits beyond to content u few,
      ipx_send_packet-sent sendto_fails beyond to content u (omega arith),
      receive-unicast server_fails uninit p q a b c e rest (record { bytes = msg; from = own }) s
          (record { target = dest; no_null = n; no_broadcast = m; from_client = o }),
      h,
      carried,
    )
