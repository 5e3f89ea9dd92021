-- ===== src/Metanet/Receive/Progress.antt =====
-- GetPacket returns, and leaves a good table and a node of it (or -1) for Doom.
use vanilla_utilities.Base.{
  ℕ, zero, suc, ◌+◌, ◌≡◌, ◌<◌, ◌≤◌, ◌⊎◌, refl, ap, sym, subst, ◌∙◌, Bool, true, false, not, ◌==◌,
  List, [], ◌∷◌, Option, none, some, length, get_or, set, if◌then◌else◌, Bool-cases, inl, inr, map,
  arith, length-set, bit_and, get_or-set_self,
}
use vanilla_utilities.Metanet.Addr.{broadcast, same_addr, make_address}
use vanilla_utilities.Metanet.State.{
  Meta, Driver, Arrival, driver_at, no_driver, no_node, receive, receive_none, setup_packets,
  wrong_magic, ncmd_mask, ncmd_setup, meta_magic_mask, meta_magic, meta_type_mask, packet_data,
  packet_discover, packet_quit,
}
use vanilla_utilities.Metanet.State.Laws.{Quiet, Quiet-refl, Quiet-increment, inboxes}
use vanilla_utilities.Metanet.Forward.Quiet.{forward_broadcast-Quiet, forward_packet-Quiet}
use vanilla_utilities.Metanet.Table.{node_for_addr}
use vanilla_utilities.Metanet.Table.Inv.{IsTable, node_for_addr-lt}
use vanilla_utilities.Metanet.Discover.Inv.{Kept, Kept-same, handle_discover-Kept, node_quit-Kept}
use vanilla_utilities.Metanet.Receive.{
  sort_packet, forward_loop, get_and_forward, handle_data, handle_packet, poll_drivers, handle_poll,
  packet_loop,
}

-- The number of packets that the drivers hold.
abbrev pub held : List (List Arrival) → ℕ
held [] = 0
held (inbox ∷ rest) = length inbox + held rest

abbrev pub waiting : Meta → ℕ
waiting s = held (inboxes s)

abbrev inbox_of : Driver → List Arrival
inbox_of d = d.inbox

inbox-driver_at :
    (ds : List Driver) (i : ℕ) → (get_or ds i no_driver).inbox ≡ get_or (map inbox_of ds) i []
inbox-driver_at [] i = refl
inbox-driver_at (d ∷ ds) zero = refl
inbox-driver_at (d ∷ ds) (suc i) = inbox-driver_at ds i

held-set :
    (ds : List Driver) (i : ℕ) (d : Driver)
    → i < length ds
    → held (map inbox_of (set ds i d)) + length (get_or ds i no_driver).inbox
      ≡ held (map inbox_of ds) + length d.inbox
held-set [] i d h = absurd (omega arith)
held-set (x ∷ ds) zero d h = omega arith
held-set (x ∷ ds) (suc i) d h = omega (arith, held-set ds i d (omega arith))

sort_packet-Quiet : (i : ℕ) (s : Meta) → Quiet s (sort_packet i s).1
unfolding sort_packet
sort_packet-Quiet i s =
    let frame = (driver_at s i).frame in
    elim (Bool-cases (bit_and frame.magic ncmd_mask == ncmd_setup)) [
      | inl setup ↦ rw setup (Quiet-increment setup_packets s)
      | inr game ↦ elim (Bool-cases (not (bit_and frame.magic meta_magic_mask == meta_magic))) [
        | inl foreign ↦ rw (game, foreign) (Quiet-increment wrong_magic s)
        | inr meta ↦ elim (Bool-cases (frame.dest.hop0 == 0)) [
          | inl own ↦ rw (game, meta, own) (Quiet-refl s)
          | inr away ↦ elim (Bool-cases (same_addr frame.dest broadcast)) [
            | inl all ↦ rw (game, meta, away, all) (forward_broadcast-Quiet i s)
            | inr one ↦ rw (game, meta, away, one) (forward_packet-Quiet i s)
          ]
        ]
      ]
    ]

-- A poll that gets a packet for us has taken it from its driver, and leaves the rest alone.
record Polled (got : Bool) (s t : Meta) : Type 0 where
  nodes : t.nodes ≡ s.nodes
  doomcom : t.doomcom ≡ s.doomcom
  count : length t.drivers ≡ length s.drivers
  fewer : waiting t + (if got then 1 else 0) ≤ waiting s

receive-Polled :
    (i : ℕ) (a : Arrival) (rest : List Arrival) (s : Meta)
    → i < length s.drivers
    → (driver_at s i).inbox ≡ a ∷ rest
    → Polled true s (receive i a rest s)
unfolding receive
receive-Polled i a rest s h e = record {
  nodes = refl;
  doomcom = refl;
  count = length-set s.drivers i _;
  fewer = omega (arith, held-set s.drivers i _ h, ap length e);
}

receive-inbox :
    (i : ℕ) (a : Arrival) (rest : List Arrival) (s : Meta)
    → i < length s.drivers
    → (driver_at (receive i a rest s) i).inbox ≡ rest
unfolding receive
receive-inbox i a rest s h = ap inbox_of (get_or-set_self s.drivers i _ no_driver h)

receive_none-Polled :
    (i : ℕ) (s : Meta)
    → i < length s.drivers
    → (driver_at s i).inbox ≡ []
    → Polled false s (receive_none i s)
unfolding receive_none
receive_none-Polled i s h e = record {
  nodes = refl;
  doomcom = refl;
  count = length-set s.drivers i _;
  fewer = omega (arith, held-set s.drivers i _ h, ap length e);
}

Polled-Quiet : {got : Bool} (s t u : Meta) → Polled got s t → Quiet t u → Polled got s u
Polled-Quiet s t u p q = record {
  nodes = q.nodes ∙ p.nodes;
  doomcom = q.doomcom ∙ p.doomcom;
  count = q.count ∙ p.count;
  fewer = rw q.inbox p.fewer;
}

Polled-then : (a b : Bool) (s t u : Meta) → Polled a s t → Polled b t u → Polled b s u
Polled-then a b s t u p q = record {
  nodes = q.nodes ∙ p.nodes;
  doomcom = q.doomcom ∙ p.doomcom;
  count = q.count ∙ p.count;
  fewer = omega (arith, p.fewer, q.fewer);
}

forward_loop-Polled :
    (i : ℕ) (l : List Arrival) (s : Meta)
    → i < length s.drivers
    → (driver_at s i).inbox ≡ l
    → let (got, t) = forward_loop i l s in Polled got s t
unfolding forward_loop
forward_loop-Polled i [] s h e = receive_none-Polled i s h e
forward_loop-Polled i (a ∷ rest) s h e =
    let r = receive i a rest s in
    let taken = receive-Polled i a rest s h e in
    let sorted = sort_packet-Quiet i r in
    let u = (sort_packet i r).1 in
    let here = Polled-Quiet s r u taken sorted in
    let left : (driver_at u i).inbox ≡ rest =
      inbox-driver_at u.drivers i
      ∙ ap (λ (l : List (List Arrival)). get_or l i []) sorted.inbox
      ∙ sym (inbox-driver_at r.drivers i)
      ∙ receive-inbox i a rest s h in
    elim (Bool-cases (sort_packet i r).0) [
      | inl ours ↦ rw ours here
      | inr not_ours ↦
          rw not_ours
            (Polled-then true _ s u _ here (forward_loop-Polled i rest u (rw here.count h) left))
    ]

-- Did the poll find a packet?
abbrev found : Option ℕ → Bool
found none = false
found (some i) = true

poll_drivers-Polled :
    (k i : ℕ) (s : Meta)
    → i + k ≤ length s.drivers
    → let (r, t) = poll_drivers k i s in Polled (found r) s t
unfolding poll_drivers get_and_forward
poll_drivers-Polled zero i s h = record {
  nodes = refl;
  doomcom = refl;
  count = refl;
  fewer = omega arith;
}
poll_drivers-Polled (suc k) i s h =
    let first = forward_loop-Polled i (driver_at s i).inbox s (omega arith) refl in
    let r = forward_loop i (driver_at s i).inbox s in
    elim (Bool-cases r.0) [
      | inl got ↦ rw got (subst (λ b. Polled b s r.1) got first)
      | inr missed ↦ rw missed (
          Polled-then r.0 _ s r.1 _ first
            (poll_drivers-Polled k (i + 1) r.1 (rw first.count (omega arith))))
    ]

-- What Doom is told: no packet, or one from a node of the table.
abbrev pub NamesNode : Meta → Type 0
NamesNode s = (s.doomcom.remotenode ≡ no_node) ⊎ (s.doomcom.remotenode < length s.nodes)

handle_data-lem :
    (r : Option ℕ) (i : ℕ) (s : Meta)
    → IsTable s.nodes
    → ((n : ℕ) → r ≡ some n → n < length s.nodes)
    → let (done, t) = handle_data r i s in Kept s t × ((done ≡ true) → NamesNode t)
unfolding handle_data
handle_data-lem none i s v h = (Kept-same s _ v refl, λ e. inl refl)
handle_data-lem (some n) i s v h = (Kept-same s _ v refl, λ e. inr (h n refl))

-- HandlePacket keeps the table and what waits, and names a node when it has data.
handle_packet-lem :
    (f i : ℕ) (s : Meta)
    → IsTable s.nodes
    → let (done, t) = handle_packet f i s in Kept s t × ((done ≡ true) → NamesNode t)
unfolding handle_packet
handle_packet-lem f i s v =
    let frame = (driver_at s i).frame in
    let kind = bit_and frame.magic meta_type_mask in
    elim (Bool-cases (kind == packet_data)) [
      | inl is_data ↦ rw is_data (
          handle_data-lem (node_for_addr f frame.src s) i s v
            (λ n e. node_for_addr-lt f frame.src n s e))
      | inr other ↦ elim (Bool-cases (kind == packet_discover)) [
        | inl is_discover ↦
            rw (other, is_discover) (handle_discover-Kept f frame.src frame.discover s v, λ e. cc)
        | inr other' ↦ elim (Bool-cases (kind == packet_quit)) [
          | inl is_quit ↦ rw (other, other', is_quit) (node_quit-Kept f frame.src s v, λ e. cc)
          | inr unknown ↦ rw (other, other', unknown) (Kept-same s _ v refl, λ e. cc)
        ]
      ]
    ]

-- A run of GetPacket's loop that is given enough fuel.
abbrev pub Returns : Meta → Option Meta → Type 0
Returns s r =
    (t : Meta) × (r ≡ some t)
    × IsTable t.nodes
    × NamesNode t
    × (length t.drivers ≡ length s.drivers)
    × (waiting t ≤ waiting s)

handle_poll-Returns :
    (next : Meta → Option Meta) (s : Meta) (r : Option ℕ) (t : Meta)
    → IsTable s.nodes
    → Polled (found r) s t
    → ((u : Meta)
        → IsTable u.nodes
        → length u.drivers ≡ length s.drivers
        → waiting u < waiting s
        → Returns u (next u))
    → Returns s (handle_poll next (r, t))
unfolding handle_poll
handle_poll-Returns next s none t v p more =
    (_, refl, rw p.nodes v, inl refl, p.count, omega (arith, p.fewer))
handle_poll-Returns next s (some i) t v p more =
    let h = handle_packet (make_address i (driver_at t i).remotenode) i t in
    let (kept, names) = handle_packet-lem _ i t (rw p.nodes v) in
    let count : length h.1.drivers ≡ length s.drivers = kept.count ∙ p.count in
    let fewer : waiting h.1 < waiting s = rw kept.inbox (omega (arith, p.fewer)) in
    elim (Bool-cases h.0) [
      | inl done ↦ rw done (h.1, refl, kept.table, names done, count, omega arith)
      | inr more_to_do ↦
          let (u, e, v', n, c, w) = more h.1 kept.table count fewer in
          rw more_to_do (u, e, v', n, c ∙ count, omega arith)
    ]

-- GetPacket's loop, on a well-formed node table and with more rounds of fuel than packets wait in
-- the drivers, returns. Afterwards the table is well formed, no more packets wait, there are as
-- many drivers, and `remotenode` is -1 or the index of an entry of the table.
pub packet_loop-Returns :
    (fuel : ℕ) (s : Meta) → waiting s < fuel → IsTable s.nodes → Returns s (packet_loop fuel s)
unfolding packet_loop
packet_loop-Returns zero s h v = absurd (omega arith)
packet_loop-Returns (suc fuel) s h v =
    let (r, t) = poll_drivers (length s.drivers) 0 s in
    handle_poll-Returns (packet_loop fuel) s r t v
      (poll_drivers-Polled (length s.drivers) 0 s (omega arith))
      (λ u v' c w. packet_loop-Returns fuel u (omega arith) v')
