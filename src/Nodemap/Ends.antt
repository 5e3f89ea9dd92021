-- ===== src/Nodemap/Ends.antt =====
-- DiscoverPlayers of adapters/nodemap.c ends once every node was heard.
use Prim.Native.Nat.{}
use vanilla_utilities.Base.{
  ℕ, zero, suc, ◌<◌, ◌≤◌, ◌≡◌, ◌==◌, ◌⊎◌, refl, ap, ◌∙◌, arith, length, length-set, get_or,
  get_or-set_self, true, false, Bool-cases, ==_iff, inl, inr, List, [], ◌∷◌, some,
}
use vanilla_utilities.Base.Bitset.{bit, bit_le, bit-bit_or}
use vanilla_utilities.Nodemap.{
  Discovery, Round, Doomcom, node_bit, all_nodes, widen, is_discover, take_packet, send_if_due,
  is_complete, wait_loop, discover_players, start_discovery, finish,
}
use vanilla_utilities.Nodemap.Maps.{
  ArePlayers, AreHonest, IsMapped, take_packet-IsMapped, send_if_due-IsMapped,
}
use vanilla_utilities.Nodemap.Maps.Bits.{bit_self, bit_other, bit_above, all_inside}
use vanilla_utilities.Nodemap.Counted.{
  IsCounted, send_if_due-IsCounted, send_if_due-got, take_packet-IsCounted, take_packet-kept,
  complete,
}

-- A round has a discover packet of node `n`.
pub data Hears (n : ℕ) : List Round → Type 0 where
  here :
      (now : ℕ) (bytes : List ℕ) {rounds : List Round}
      → is_discover bytes ≡ true
      → Hears n (record { now = now; arrival = some (n, bytes) } ∷ rounds)
  there : (r : Round) {rounds : List Round} → Hears n rounds → Hears n (r ∷ rounds)

Hears-next :
    (n : ℕ) (r : Round) (rounds : List Round) (d : Discovery)
    → n < 16
    → Hears n (r ∷ rounds)
    → (bit n (take_packet r.arrival d).got_nodes ≡ 1) ⊎ Hears n rounds
unfolding take_packet
Hears-next n r rounds d l (here now bytes h) =
    let joined = bit-bit_or n d.got_nodes (node_bit n) in
    let most = bit_le n d.got_nodes in let on = bit_self n l in inl (rw h (omega arith))
Hears-next n r rounds d l (there _ later) = inr later

wait_loop-ends :
    (f : ℕ → ℕ) (num clocks_per_sec : ℕ) (rounds : List Round) (d : Discovery)
    → 1 ≤ num
    → ArePlayers f num
    → AreHonest f num rounds
    → IsMapped f num d
    → IsCounted num d
    → ((n : ℕ) → n < num → (bit n d.got_nodes ≡ 1) ⊎ Hears n rounds)
    → (e : Discovery) × (wait_loop clocks_per_sec rounds d ≡ some e)
      × IsMapped f num e
      × (is_complete e ≡ true)
unfolding wait_loop AreHonest
wait_loop-ends f num clocks_per_sec [] d one p h v c heard =
    let whole : is_complete d ≡ true =
      complete num d one p.few v.count c
        (λ n below. elim (heard n below) [ inl on ↦ on | inr bad ↦ elim bad [ ] ]) in
    rw whole (d, refl, v, whole)
wait_loop-ends f num clocks_per_sec (r ∷ rounds) d one p (h, hs) v c heard =
    let t = send_if_due clocks_per_sec r.now d in
    let kept = send_if_due-got clocks_per_sec r.now d in
    let v' =
      take_packet-IsMapped f num r.arrival t p h
        (send_if_due-IsMapped f num clocks_per_sec r.now d v) in
    let c' =
      take_packet-IsCounted f num r.arrival t p.few h
        (send_if_due-IsCounted num clocks_per_sec r.now d c) in
    let few = p.few in
    let left : (n : ℕ)
        → n < num
        → (bit n (take_packet r.arrival t).got_nodes ≡ 1) ⊎ Hears n rounds =
      λ n below. elim (heard n below) [
        | inl on ↦ inl (take_packet-kept f num n r.arrival t (rw kept on) (omega arith) p.few h)
        | inr later ↦ Hears-next n r rounds t (omega arith) later
      ] in
    elim (Bool-cases (is_complete d)) [
      | inl done ↦ rw done (d, refl, v, done)
      | inr missing ↦
          rw missing (
            wait_loop-ends f num clocks_per_sec rounds (take_packet r.arrival t) one p hs v' c'
              left)
    ]

first_bit : node_bit 0 ≡ 1
unfolding node_bit widen
first_bit = refl

start_heard :
    (c : Doomcom) (nodes players : List ℕ) (rounds : List Round)
    → ((n : ℕ) → 1 ≤ n → n < c.numnodes → Hears n rounds)
    → (n : ℕ) → n < c.numnodes
    → (bit n (start_discovery c nodes players).got_nodes ≡ 1) ⊎ Hears n rounds
unfolding start_discovery bit
start_heard c nodes players rounds heard zero below = inl refl
start_heard c nodes players rounds heard (suc n) below = inr (heard (suc n) (omega arith) below)

start-IsCounted :
    (num : ℕ) (c : Doomcom) (nodes players : List ℕ)
    → 1 ≤ num
    → IsCounted num (start_discovery c nodes players)
unfolding start_discovery
start-IsCounted num c nodes players one = record {
  small = omega arith;
  outside = λ n over below.
      let apart : (n == 0) ≡ false = ground arith in
      rw first_bit at (bit_other n 0 below (omega arith) apart);
  above = λ n over below. rw first_bit at (bit_above n 0 over below (omega arith));
}

start-IsMapped :
    (f : ℕ → ℕ) (c : Doomcom) (nodes players : List ℕ)
    → ArePlayers f c.numnodes
    → 1 ≤ c.numnodes
    → c.consoleplayer ≡ f 0
    → length nodes ≡ 16
    → length players ≡ 16
    → IsMapped f c.numnodes (start_discovery c nodes players)
unfolding start_discovery
start-IsMapped f c nodes players p one own size1 size2 = record {
  node_size = length-set nodes 0 c.consoleplayer ∙ size1;
  player_size = length-set players c.consoleplayer 0 ∙ size2;
  count = refl;
  maps = λ n below b. elim (Bool-cases (n == 0)) [
    | inl zeroth ↦
        let e : n ≡ 0 = ground arith in
        let inside = p.below 0 one in
        let first = get_or-set_self nodes 0 (f 0) 0 (omega arith) in
        let second = get_or-set_self players (f 0) 0 0 (omega arith) in rw (e, own) (first, second)
    | inr other ↦
        let few = p.few in
        let off : bit n 1 ≡ 0 = rw first_bit at (bit_other n 0 (omega arith) (omega arith) other) in
        absurd (omega arith)
  ];
}

is_complete-got :
    (d : Discovery) → is_complete d ≡ true → d.got_nodes ≡ all_nodes d.doomcom.numnodes
unfolding is_complete
is_complete-got d h = (==_iff d.got_nodes (all_nodes d.doomcom.numnodes)).0 h

-- In a game of at most 16 nodes, `f` gives the players of the nodes, each another one below 16,
-- and our own is that of node 0. Every discover packet that arrives names the player of the node
-- it comes from, and among them is one of each other node. Then DiscoverPlayers ends, and its two
-- maps send each node to its player and back.
pub discover_players-maps :
    (f : ℕ → ℕ) (clocks_per_sec : ℕ) (rounds : List Round) (c : Doomcom) (nodes players : List ℕ)
    → ArePlayers f c.numnodes
    → 1 ≤ c.numnodes
    → c.consoleplayer ≡ f 0
    → length nodes ≡ 16
    → length players ≡ 16
    → AreHonest f c.numnodes rounds
    → ((n : ℕ) → 1 ≤ n → n < c.numnodes → Hears n rounds)
    → (e : Discovery) × (discover_players clocks_per_sec rounds c nodes players ≡ some e)
      × ((n : ℕ)
          → n < c.numnodes
          → (get_or e.nodetoplayer n 0 ≡ f n) × (get_or e.playertonode (f n) 0 ≡ n))
unfolding discover_players finish
discover_players-maps f clocks_per_sec rounds c nodes players p one own size1 size2 h heard =
    let d = start_discovery c nodes players in
    let v = start-IsMapped f c nodes players p one own size1 size2 in
    let counted = start-IsCounted c.numnodes c nodes players one in
    let (e, w, m, done) =
      wait_loop-ends f c.numnodes clocks_per_sec rounds d one p h v counted
        (start_heard c nodes players rounds heard) in
    let every : e.got_nodes ≡ all_nodes c.numnodes =
      is_complete-got e done ∙ ap all_nodes m.count in
    (
      finish e,
      rw (discover_players, w) refl,
      λ n below. m.maps n below (ap (bit n) every ∙ all_inside n c.numnodes below p.few),
    )
