-- ===== src/Metanet/Forward/Flood.antt =====
-- Broadcasts: which packets SendBroadcast and ForwardBroadcast put out.
use vanilla_utilities.Base.{
  ℕ, zero, suc, ◌+◌, ◌-◌, ◌<◌, ◌≤◌, ◌≡◌, ◌≢◌, refl, false, arith, ltb, length, take, List, [], ◌∷◌,
  ◌++◌, Option, some, if◌then◌else◌, length-set, get_or-set_self, get_or-set_ne, ap, ◌∙◌, map,
  append-nil, append_assoc, Bool-cases, inl, inr,
}
use mathlib.Core.List.{map-append}
use vanilla_utilities.Metanet.Addr.{Addr, broadcast, make_address, prepend_previous_hop}
use vanilla_utilities.Metanet.State.{
  Meta, Driver, Sent, driver_at, put_driver, net_send_packet, no_driver, increment, rx_broadcasts,
}
use vanilla_utilities.Metanet.State.Laws.{net_send_packet-put_driver}
use vanilla_utilities.Metanet.Forward.{
  is_source, write_broadcast, send_to_node, node_loop, broadcast_on, driver_loop, send_broadcast,
  broadcast_from, forward_broadcast,
}

-- A packet as its receiver sees it: the header and the payload.
pub record Plain : Type 0 where
  pub driver : ℕ
  pub node : ℕ
  pub size : ℕ
  pub magic : ℕ
  pub src : Addr
  pub dest : Addr
  pub bytes : List ℕ

abbrev pub plain : Sent → Plain
plain p = record {
  driver = p.driver;
  node = p.node;
  size = p.size;
  magic = p.frame.magic;
  src = p.frame.src;
  dest = p.frame.dest;
  bytes = p.frame.bytes;
}

abbrev pub data_packet : Addr → List ℕ → ℕ → ℕ → Plain
data_packet addr bytes driver node = record {
  driver = driver;
  node = node;
  size = length bytes + 12;
  magic = 0x01C26440;
  src = addr;
  dest = broadcast;
  bytes = bytes;
}

-- `k` copies to the nodes of a driver, from node `node` on.
abbrev pub copies : ℕ → ℕ → (ℕ → Plain) → List Plain
copies zero node packet = []
copies (suc k) node packet = packet node ∷ copies k (node + 1) packet

-- The flood of a packet: a copy to each node behind each driver but the source.
abbrev pub flood : ℕ → ℕ → Option ℕ → (ℕ → ℕ → Plain) → (ℕ → ℕ) → List Plain
flood zero driver src packet numnodes = []
flood (suc k) driver src packet numnodes =
    (if is_source src driver then [] else copies (numnodes driver - 1) 1 (packet driver))
    ++ flood k (driver + 1) src packet numnodes

-- What the loops keep: other drivers, and their number.
record Keeps (driver : ℕ) (s t : Meta) : Type 0 where
  count : length t.drivers ≡ length s.drivers
  others : (j : ℕ) → driver ≢ j → driver_at t j ≡ driver_at s j

Keeps-put_driver : (driver : ℕ) (d : Driver) (s : Meta) → Keeps driver s (put_driver s driver d)
Keeps-put_driver driver d s = record {
  count = length-set s.drivers driver d;
  others = λ j ne. get_or-set_ne s.drivers driver j d no_driver ne;
}

Keeps-trans : {driver : ℕ} {s t u : Meta} → Keeps driver s t → Keeps driver t u → Keeps driver s u
Keeps-trans p q = record {
  count = q.count ∙ p.count;
  others = λ j ne. q.others j ne ∙ p.others j ne;
}

send_to_node-Keeps : (driver node : ℕ) (s : Meta) → Keeps driver s (send_to_node driver node s)
unfolding send_to_node net_send_packet
send_to_node-Keeps driver node s =
    let k = Keeps-put_driver driver (record (driver_at s driver) { remotenode = node }) s in
    record { count = k.count; others = k.others }

node_loop-Keeps : (k node driver : ℕ) (s : Meta) → Keeps driver s (node_loop k node driver s)
unfolding node_loop
node_loop-Keeps zero node driver s = record { count = refl; others = λ j ne. refl }
node_loop-Keeps (suc k) node driver s =
    Keeps-trans (send_to_node-Keeps driver node s)
      (node_loop-Keeps k (node + 1) driver (send_to_node driver node s))

-- A packet of the driver's buffer to one of its nodes.
abbrev outgoing : ℕ → Driver → ℕ → Plain
outgoing driver d node = record {
  driver = driver;
  node = node;
  size = d.datalength;
  magic = d.frame.magic;
  src = d.frame.src;
  dest = d.frame.dest;
  bytes = d.frame.bytes;
}

send_to_node-driver_at :
    (driver node : ℕ) (s : Meta)
    → driver < length s.drivers
    → driver_at (send_to_node driver node s) driver
      ≡ record (driver_at s driver) { remotenode = node }
unfolding send_to_node net_send_packet
send_to_node-driver_at driver node s h = get_or-set_self s.drivers driver _ no_driver h

send_to_node-sent :
    (driver node : ℕ) (s : Meta)
    → driver < length s.drivers
    → let d = driver_at s driver in
      (send_to_node driver node s).sent
      ≡ s.sent ++ record { driver = driver; node = node; size = d.datalength; frame = d.frame } ∷ []
unfolding send_to_node
send_to_node-sent driver node s h = net_send_packet-put_driver driver _ s h

node_loop-sent :
    (k node driver : ℕ) (s : Meta)
    → driver < length s.drivers
    → map plain (node_loop k node driver s).sent
      ≡ map plain s.sent ++ copies k node (outgoing driver (driver_at s driver))
unfolding node_loop
node_loop-sent zero node driver s h = rw append-nil
node_loop-sent (suc k) node driver s h =
    let t = send_to_node driver node s in
    let kept = send_to_node-Keeps driver node s in
    node_loop-sent k (node + 1) driver t (rw kept.count h)
    ∙ rw (send_to_node-driver_at driver node s h) (
        ap (λ (l : List Plain). l ++ copies k (node + 1) (outgoing driver (driver_at s driver)))
          (ap (map plain) (send_to_node-sent driver node s h) ∙ map-append plain s.sent _)
        ∙ append_assoc (map plain s.sent) _ _)

broadcast_on-Keeps :
    (src : Option ℕ) (addr : Addr) (bytes : List ℕ) (driver : ℕ) (s : Meta)
    → Keeps driver s (broadcast_on src addr bytes driver s)
unfolding broadcast_on
broadcast_on-Keeps src addr bytes driver s = elim (Bool-cases (is_source src driver)) [
  | inl skipped ↦ rw skipped (unfold node_loop in node_loop-Keeps zero 0 driver s)
  | inr used ↦ rw used (
      Keeps-trans (Keeps-put_driver driver (write_broadcast addr bytes (driver_at s driver)) s)
        (node_loop-Keeps _ 1 driver _))
]

broadcast_on-sent :
    (src : Option ℕ) (addr : Addr) (bytes : List ℕ) (driver : ℕ) (s : Meta)
    → driver < length s.drivers
    → map plain (broadcast_on src addr bytes driver s).sent
      ≡ map plain s.sent
        ++ (if is_source src driver
            then []
            else copies ((driver_at s driver).numnodes - 1) 1 (data_packet addr bytes driver))
unfolding broadcast_on write_broadcast
broadcast_on-sent src addr bytes driver s h = elim (Bool-cases (is_source src driver)) [
  | inl skipped ↦ rw (skipped, append-nil)
  | inr used ↦ rw used (
      node_loop-sent _ 1 driver _ (rw (length-set s.drivers driver _) h)
      ∙ rw (get_or-set_self s.drivers driver _ no_driver h))
]

driver_loop-sent :
    (k driver : ℕ) (src : Option ℕ) (addr : Addr) (bytes : List ℕ) (s : Meta) (numnodes : ℕ → ℕ)
    → driver + k ≤ length s.drivers
    → ((j : ℕ) → driver ≤ j → (driver_at s j).numnodes ≡ numnodes j)
    → map plain (driver_loop k driver src addr bytes s).sent
      ≡ map plain s.sent ++ flood k driver src (data_packet addr bytes) numnodes
unfolding driver_loop
driver_loop-sent zero driver src addr bytes s numnodes h e = rw append-nil
driver_loop-sent (suc k) driver src addr bytes s numnodes h e =
    let t = broadcast_on src addr bytes driver s in
    let kept = broadcast_on-Keeps src addr bytes driver s in
    driver_loop-sent k (driver + 1) src addr bytes t numnodes (rw kept.count (omega arith))
      (λ j le. ap (λ (d : Driver). d.numnodes) (kept.others j (omega arith)) ∙ e j (omega arith))
    ∙ ap (λ (l : List Plain). l ++ flood k (driver + 1) src (data_packet addr bytes) numnodes)
        (broadcast_on-sent src addr bytes driver s (omega arith))
    ∙ rw (e driver (omega arith)) (append_assoc (map plain s.sent) _ _)

-- SendBroadcast puts out a data packet to every node behind every driver but the source, once each
-- and in that order, and nothing else.
pub send_broadcast-flood :
    (src : Option ℕ) (addr : Addr) (bytes : List ℕ) (s : Meta)
    → map plain (send_broadcast src addr bytes s).sent
      ≡ map plain s.sent
        ++ flood (length s.drivers) 0 src (data_packet addr bytes) (λ j. (driver_at s j).numnodes)
unfolding send_broadcast
send_broadcast-flood src addr bytes s =
    driver_loop-sent (length s.drivers) 0 src addr bytes s (λ j. (driver_at s j).numnodes)
      (omega arith) (λ j le. refl)

-- The bug: with two drivers or more and room in the path, ForwardBroadcast passes a broadcast of
-- any type on as a data packet, to every node behind the other drivers.
forward_broadcast-data :
    (i : ℕ) (s : Meta) (back : Addr)
    → 2 ≤ length s.drivers
    → prepend_previous_hop (make_address i (driver_at s i).remotenode) (driver_at s i).frame.src
      ≡ some back
    → map plain (forward_broadcast i s).sent
      ≡ map plain s.sent
        ++ flood
            (length s.drivers)
            0
            (some i)
            (data_packet back (take ((driver_at s i).datalength - 12) (driver_at s i).frame.bytes))
            (λ j. (driver_at s j).numnodes)
unfolding forward_broadcast broadcast_from
forward_broadcast-data i s back h e =
    let enough : ltb (length s.drivers) 2 ≡ false = ground arith in
    rw (enough, e) (send_broadcast-flood (some i) back _ (increment rx_broadcasts s))
