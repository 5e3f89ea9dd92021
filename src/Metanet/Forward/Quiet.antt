-- ===== src/Metanet/Forward/Quiet.antt =====
-- What the forwarding functions leave alone.
use vanilla_utilities.Base.{
  ℕ, zero, suc, ◌+◌, refl, List, Option, none, some, length, ltb, inl, inr, Bool-cases,
}
use vanilla_utilities.Metanet.Addr.{Addr, addr_driver, addr_node}
use vanilla_utilities.Metanet.State.{
  Meta, driver_at, too_many_hops, invalid_dest, forwarded, rx_broadcasts, put_driver,
}
use vanilla_utilities.Metanet.State.Laws.{
  Quiet, Quiet-refl, Quiet-trans, Quiet-increment, Quiet-net_send_packet, Quiet-put_driver,
}
use vanilla_utilities.Metanet.Forward.{
  is_source, write_broadcast, send_to_node, node_loop, broadcast_on, driver_loop, send_broadcast,
  broadcast_from, forward_broadcast, bad_next_hop, pass_on, route_packet, forward_packet,
}

node_loop-Quiet : (k node driver : ℕ) (s : Meta) → Quiet s (node_loop k node driver s)
unfolding node_loop send_to_node
node_loop-Quiet zero node driver s = Quiet-refl s
node_loop-Quiet (suc k) node driver s =
    Quiet-trans (Quiet-put_driver driver _ s refl)
      (Quiet-trans (Quiet-net_send_packet driver _) (node_loop-Quiet k (node + 1) driver _))

broadcast_on-Quiet :
    (src : Option ℕ) (addr : Addr) (bytes : List ℕ) (driver : ℕ) (s : Meta)
    → Quiet s (broadcast_on src addr bytes driver s)
unfolding broadcast_on write_broadcast
broadcast_on-Quiet src addr bytes driver s = elim (Bool-cases (is_source src driver)) [
  | inl skipped ↦ rw skipped (Quiet-refl s)
  | inr used ↦
      rw used (Quiet-trans (Quiet-put_driver driver _ s refl) (node_loop-Quiet _ 1 driver _))
]

driver_loop-Quiet :
    (k driver : ℕ) (src : Option ℕ) (addr : Addr) (bytes : List ℕ) (s : Meta)
    → Quiet s (driver_loop k driver src addr bytes s)
unfolding driver_loop
driver_loop-Quiet zero driver src addr bytes s = Quiet-refl s
driver_loop-Quiet (suc k) driver src addr bytes s =
    Quiet-trans (broadcast_on-Quiet src addr bytes driver s)
      (driver_loop-Quiet k (driver + 1) src addr bytes _)

pub send_broadcast-Quiet :
    (src : Option ℕ) (addr : Addr) (bytes : List ℕ) (s : Meta)
    → Quiet s (send_broadcast src addr bytes s)
unfolding send_broadcast
send_broadcast-Quiet src addr bytes s = driver_loop-Quiet _ 0 src addr bytes s

broadcast_from-Quiet : (i : ℕ) (r : Option Addr) (s : Meta) → Quiet s (broadcast_from i r s)
unfolding broadcast_from
broadcast_from-Quiet i none s = Quiet-increment too_many_hops s
broadcast_from-Quiet i (some addr) s = send_broadcast-Quiet (some i) addr _ s

pub forward_broadcast-Quiet : (i : ℕ) (s : Meta) → Quiet s (forward_broadcast i s)
unfolding forward_broadcast
forward_broadcast-Quiet i s =
    let counted = Quiet-increment rx_broadcasts s in
    elim (Bool-cases (ltb (length s.drivers) 2)) [
      | inl leaf ↦ rw leaf counted
      | inr inner ↦ rw inner (Quiet-trans counted (broadcast_from-Quiet i _ _))
    ]

pass_on-Quiet : (i driver node : ℕ) (s : Meta) → Quiet s (pass_on i driver node s)
unfolding pass_on
pass_on-Quiet i driver node s = Quiet-trans (Quiet-put_driver i _ s refl) (
    Quiet-trans (Quiet-put_driver driver _ _ refl)
      (Quiet-trans (Quiet-net_send_packet driver _) (Quiet-increment forwarded _)))

route_packet-Quiet : (i : ℕ) (r : Option Addr) (s : Meta) → Quiet s (route_packet i r s)
unfolding route_packet
route_packet-Quiet i none s = Quiet-increment too_many_hops s
route_packet-Quiet i (some addr) s =
    let d = driver_at s i in
    let t = put_driver s i (record d { frame = record (d.frame) { src = addr } }) in
    let wrote : Quiet s t = Quiet-put_driver i _ s refl in
    elim (Bool-cases
      (bad_next_hop i (addr_driver d.frame.dest.hop0) (addr_node d.frame.dest.hop0) t)) [
        | inl bad ↦ rw bad (Quiet-trans wrote (Quiet-increment invalid_dest t))
        | inr good ↦ rw good (Quiet-trans wrote (pass_on-Quiet i _ _ t))
      ]

pub forward_packet-Quiet : (i : ℕ) (s : Meta) → Quiet s (forward_packet i s)
unfolding forward_packet
forward_packet-Quiet i s = route_packet-Quiet i _ s
