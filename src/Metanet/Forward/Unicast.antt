-- ===== src/Metanet/Forward/Unicast.antt =====
-- One hop of a routed packet.
use vanilla_utilities.Base.{
  ℕ, ◌-◌, ◌<◌, ◌≡◌, ◌≢◌, refl, false, arith, length, take, [], ◌∷◌, ◌++◌, some, length-set,
  get_or-set_self, sym, ◌∙◌,
}
use vanilla_utilities.Metanet.Addr.{
  Addr, addr_driver, addr_node, make_address, prepend_previous_hop, drop_hop,
}
use vanilla_utilities.Metanet.Addr.Laws.{address-make_address, drop_hop-prepend}
use vanilla_utilities.Metanet.State.{
  Meta, Driver, Sent, driver_at, put_driver, header_size, no_driver,
}
use vanilla_utilities.Metanet.State.Laws.{net_send_packet-put_driver, numnodes-put_driver}
use vanilla_utilities.Metanet.Forward.{forward_packet, route_packet, pass_on, bad_next_hop}

-- The packet that goes out for the one waiting in driver `i`, with `back` as its new source path.
abbrev pub routed : ℕ → Addr → Meta → Sent
routed i back s =
    let d = driver_at s i in
    record {
      driver = addr_driver d.frame.dest.hop0;
      node = addr_node d.frame.dest.hop0;
      size = d.datalength;
      frame = record (d.frame) {
        src = back;
        dest = drop_hop d.frame.dest;
        bytes = take (d.datalength - header_size) d.frame.bytes;
      };
    }

bad_next_hop-range :
    (i driver node : ℕ) (s : Meta)
    → bad_next_hop i driver node s ≡ false
    → (driver < length s.drivers)
      × (driver ≢ i)
      × (0 < node)
      × (node < (driver_at s driver).numnodes)
unfolding bad_next_hop
bad_next_hop-range i driver node s h = ground arith

bad_next_hop-in_range :
    (i driver node : ℕ) (s : Meta)
    → driver < length s.drivers
    → driver ≢ i
    → 0 < node
    → node < (driver_at s driver).numnodes
    → bad_next_hop i driver node s ≡ false
unfolding bad_next_hop
bad_next_hop-in_range i driver node s h ne p q = ground arith

-- The packet is written into another driver's buffer than the one that it waits in.
pass_on-sent :
    (i driver node : ℕ) (s : Meta)
    → i < length s.drivers
    → driver < length s.drivers
    → let p = driver_at s i in
      (pass_on i driver node s).sent
      ≡ s.sent
        ++ record {
          driver = driver;
          node = node;
          size = p.datalength;
          frame = record (p.frame) {
            dest = drop_hop p.frame.dest;
            bytes = take (p.datalength - header_size) p.frame.bytes;
          };
        }
          ∷ []
unfolding pass_on
pass_on-sent i driver node s hi h =
    net_send_packet-put_driver _ _ _ (rw (length-set s.drivers i _) h)
    ∙ rw (get_or-set_self s.drivers i _ no_driver hi)

bad_next_hop-put_driver :
    (i driver node : ℕ) (s : Meta) (d : Driver)
    → d.numnodes ≡ (driver_at s i).numnodes
    → bad_next_hop i driver node (put_driver s i d) ≡ bad_next_hop i driver node s
unfolding bad_next_hop
bad_next_hop-put_driver i driver node s d e =
    rw (length-set s.drivers i d, numnodes-put_driver s i driver d e)

-- A packet that can go on goes to the driver and node of its first destination hop.
pub route_packet-routed :
    (i : ℕ) (back : Addr) (s : Meta)
    → let d = driver_at s i in
      i < length s.drivers
      → bad_next_hop i (addr_driver d.frame.dest.hop0) (addr_node d.frame.dest.hop0) s ≡ false
      → (route_packet i (some back) s).sent ≡ s.sent ++ routed i back s ∷ []
unfolding route_packet
route_packet-routed i back s hi good =
    let d : Driver = record (driver_at s i) {
      frame = record (driver_at s i).frame { src = back };
    } in
    rw (bad_next_hop-put_driver i _ _ s d refl, good)
      (pass_on-sent i _ _ (put_driver s i d) (rw (length-set s.drivers i d) hi)
          (rw (length-set s.drivers i d) (bad_next_hop-range i _ _ s good).0)
        ∙ rw (get_or-set_self s.drivers i d no_driver hi))

-- A machine forwards a packet from node `r` of driver `i` to driver `d`; later it gets one from
-- there, addressed to the path that the first packet had as its source when it left. If neither
-- path is full and the first packet's next hop is good, each is sent on as one packet: the second
-- to node `r` of driver `i`, with the first packet's own source path as the rest of its way.
pub forward_packet_reply :
    (i r d : ℕ) (s t : Meta) (back again : Addr)
    → i < 8
    → i < length s.drivers
    → i < length t.drivers
    → d < length t.drivers
    → d ≡ addr_driver (driver_at s i).frame.dest.hop0
    → (driver_at s i).remotenode ≡ r
    → r < 32
    → 0 < r
    → r < (driver_at t i).numnodes
    → prepend_previous_hop (make_address i r) (driver_at s i).frame.src ≡ some back
    → bad_next_hop i d (addr_node (driver_at s i).frame.dest.hop0) s ≡ false
    → (driver_at t d).frame.dest ≡ back
    → prepend_previous_hop (make_address d (driver_at t d).remotenode) (driver_at t d).frame.src
      ≡ some again
    → (out reply : Sent) × ((forward_packet i s).sent ≡ s.sent ++ out ∷ [])
      × ((forward_packet d t).sent ≡ t.sent ++ reply ∷ [])
      × (out.driver ≡ d)
      × (out.frame.src ≡ back)
      × (reply.driver ≡ i)
      × (reply.node ≡ r)
      × (reply.frame.dest ≡ (driver_at s i).frame.src)
unfolding forward_packet
forward_packet_reply i r d s t back again hi8 hi ht hd ed er hr pr hn e good eq again_eq =
    let (dropped, first) = drop_hop-prepend (make_address i r) (driver_at s i).frame.src back e in
    let (to_driver, to_node) = address-make_address i r hi8 hr in
    (
      routed i back s,
      routed d again t,
      rw (er, e) (route_packet-routed i back s hi (rw (← ed) good)),
      rw again_eq (
          route_packet-routed d again t hd (
            rw (eq, first, to_driver, to_node)
              (bad_next_hop-in_range d i r t ht (λ c. (bad_next_hop-range i d _ s good).1 (sym c))
                pr hn))),
      rw ed,
      refl,
      rw (eq, first) to_driver,
      rw (eq, first) to_node,
      rw eq dropped,
    )
