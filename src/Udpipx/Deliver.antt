-- ===== src/Udpipx/Deliver.antt =====
-- IPXSendPacket of one machine and IPXGetPacket of another one.
use vanilla_utilities.Base.{
  ℕ, ◌+◌, ◌<◌, ◌≤◌, ◌≡◌, ◌^◌, refl, ap, ◌∙◌, arith, ltb, length, take, drop, if◌then◌else◌, Bool,
  true, false, ◌&&◌, ◌||◌, List, [], ◌∷◌, ◌++◌,
}
use vanilla_utilities.Base.Words.{same_bytes, same_bytes_refl}
use vanilla_utilities.Dbserver.{Datagram, broadcast_addr}
use vanilla_utilities.Ipxnet.{Packet, short_swap}
use vanilla_utilities.Ipxsetup.{payload_size}
use vanilla_utilities.Udpipx.{
  payload_max, packet_of, net16, Udp, Got, got, same_server_addr, for_us, take_packet,
  ipx_get_packet, fill_packet, message_of, ipx_send_packet, count, counter_of, send_to_server,
}
use vanilla_utilities.Udpipx.Tunnel.{IsBuffer, with_payload, receive-filled}

-- The packet that a receiver reads: the data, their length, the sender's address and its time.
pub record Carries (content : List ℕ) (u : Udp) (p : Packet) : Type 0 where
  pub size : payload_size p ≡ length content
  pub front : take (length content) p.payload ≡ content
  pub sender : p.src ≡ u.local_addr
  pub sent_time : p.time ≡ u.ipx_localtime

-- `u` and `v` are on one server and socket, and `addr` is that of `v`, or the one of all.
pub record Reaches (addr from : List ℕ) (u v : Udp) : Type 0 where
  pub buffer : IsBuffer u.packet
  pub own_size : length u.local_addr ≡ 10
  pub addr_size : length addr ≡ 10
  pub socket : u.packet.dest_socket ≡ net16 v.ipxsocket
  pub server : same_server_addr v.server_addr from ≡ true
  pub target : (same_bytes addr v.local_addr || same_bytes addr broadcast_addr) ≡ true
  pub time_fits : u.ipx_localtime < 2 ^ 32

pub fill_packet-IsBuffer :
    (addr content from : List ℕ) (u v : Udp)
    → Reaches addr from u v
    → IsBuffer (fill_packet addr content u)
unfolding fill_packet
fill_packet-IsBuffer addr content from u v r = record {
  check_sum_size = r.buffer.check_sum_size;
  length_size = refl;
  control_size = r.buffer.control_size;
  dest_size = r.addr_size;
  dest_socket_size = r.buffer.dest_socket_size;
  src_size = r.own_size;
  src_socket_size = r.buffer.src_socket_size;
  time_size = refl;
}

fill_packet-Carries :
    (addr content payload : List ℕ) (u : Udp)
    → length content ≤ payload_max
    → u.ipx_localtime < 2 ^ 32
    → take (length content) payload ≡ content
    → Carries content u (packet_of (with_payload (fill_packet addr content u) payload))
unfolding fill_packet packet_of payload_size short_swap
fill_packet-Carries addr content payload u few fits front = record {
  size = omega arith;
  front = front;
  sender = refl;
  sent_time = omega arith;
}

-- The round of IPXGetPacket's loop, behind recvfrom.
abbrev round : List ℕ → List Datagram → Udp → Got
round from datagrams t =
    let w = count (counter_of t from) t in
    if same_server_addr t.server_addr from && for_us t
    then take_packet datagrams w (ipx_get_packet datagrams w)
    else ipx_get_packet datagrams w

-- The packet passes the tests of the round.
round-got :
    (addr content from payload : List ℕ) (datagrams : List Datagram) (u v : Udp)
    → Reaches addr from u v
    → let t : Udp = record v { packet = with_payload (fill_packet addr content u) payload } in
      round from datagrams t ≡ got datagrams (count (counter_of t from) t)
unfolding take_packet fill_packet count for_us
round-got addr content from payload datagrams u v r =
    rw (r.server, r.target, r.socket, same_bytes_refl (net16 v.ipxsocket)) refl

pub ipx_send_packet-sent :
    (sendto_fails : ℕ → Bool) (beyond addr content : List ℕ) (u : Udp)
    → length content ≤ payload_max
    → (ipx_send_packet sendto_fails beyond addr content u).sent
      ≡ u.sent
        ++ record {
          msg = message_of beyond (length content + 38) (fill_packet addr content u);
          target = u.server_addr;
        }
          ∷ []
unfolding ipx_send_packet send_to_server count
ipx_send_packet-sent sendto_fails beyond addr content u few =
    let fits : ltb payload_max (length content) ≡ false = ground arith in rw fits refl

-- The datagram that IPXSendPacket sends.
abbrev pub sent_message : List ℕ → List ℕ → List ℕ → Udp → List ℕ
sent_message beyond addr content u =
    message_of beyond (length content + 38) (fill_packet addr content u)

pub ipx_get_packet-message :
    (beyond addr content from : List ℕ) (datagrams : List Datagram) (u v : Udp)
    → length content ≤ payload_max
    → Reaches addr from u v
    → (w : Udp) × (ipx_get_packet
          (record { bytes = sent_message beyond addr content u; from = from } ∷ datagrams)
          v
        ≡ got datagrams w)
      × Carries content u (packet_of w.packet)
unfolding ipx_get_packet fill_packet count
ipx_get_packet-message beyond addr content from datagrams u v few r =
    let b = fill_packet addr content u in
    let (payload, e, front) =
      receive-filled beyond content (drop (length content) u.packet.payload) from b v
        (fill_packet-IsBuffer addr content from u v r) few in
    (
      _,
      ap (round from datagrams) e ∙ round-got addr content from payload datagrams u v r,
      fill_packet-Carries addr content payload u few r.time_fits front,
    )
