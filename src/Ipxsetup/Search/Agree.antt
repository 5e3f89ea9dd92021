-- ===== src/Ipxsetup/Search/Agree.antt =====
-- When LookForNodes of net/ipxsetup.c ends, and what it has found then.
use vanilla_utilities.Base.{
  ℕ, zero, suc, ◌+◌, ◌<◌, ◌≤◌, ◌≡◌, refl, ap, subst, ◌∙◌, arith, length, length-set, length-take,
  replicate, count_if, ◌++◌, get_or, ltb, leb, ◌==◌, ◌%◌, ◌-◌, ◌^◌, true, false, Bool, not, ◌&&◌,
  ◌||◌, Bool-cases, Option-cases, inl, inr, List, [], ◌∷◌, none, some,
}
use vanilla_utilities.Base.Words.{lt16}
use vanilla_utilities.Ipxnet.{Packet}
use vanilla_utilities.Ipxsetup.{
  Peer, Ipx, no_peer, minus_one, max_net_nodes, process_setup_packet, process_setup_packets,
}
use vanilla_utilities.Ipxsetup.Table.{IsTable, IsTable-with_setup, process_setup_packet-Learnt}
use vanilla_utilities.Ipxsetup.Player.{is_auto_below, determine_console_player}
use vanilla_utilities.Ipxsetup.Player.Nth.{NthFree, determine_console_player-ends}
use vanilla_utilities.Ipxsetup.Search.{
  max_players, Search, Round, ready, settled_count, found_all, own_setup, send_if_due,
  count_players, finish_with, finish, game_nodes, search_loop, start_search, look_for_nodes,
}

-- What holds of the tables and the variables in all of the search of a machine that began with `o`.
record IsSearch (o s : Ipx) : Type 0 where
  table : IsTable s.nodes
  few : length s.nodes ≤ max_net_nodes
  same_nodes : s.numnetnodes ≡ o.numnetnodes
  same_player : s.force_player ≡ o.force_player

process_setup_packet-same :
    (p : Packet) (s t : Ipx)
    → process_setup_packet p s ≡ some t
    → (t.numnetnodes ≡ s.numnetnodes) × (t.force_player ≡ s.force_player)
unfolding process_setup_packet
process_setup_packet-same p s t h = ground arith

process_setup_packet-IsSearch :
    (p : Packet) (o s t : Ipx) → IsSearch o s → process_setup_packet p s ≡ some t → IsSearch o t
unfolding process_setup_packet
process_setup_packet-IsSearch p o s t v h =
    let (nodes, player) = process_setup_packet-same p s t h in
    elim (Bool-cases (p.time == 0xffffffff)) [
      | inl setup ↦
          let l = process_setup_packet-Learnt p s t (ground arith) v.table v.few h in
          record {
            table = l.table;
            few = l.few;
            same_nodes = nodes ∙ v.same_nodes;
            same_player = player ∙ v.same_player;
          }
      | inr other ↦ let h' = rw other at h in let same : s ≡ t = cc in subst (IsSearch o) same v
    ]

process_setup_packets-IsSearch :
    (packets : List Packet) (o s t : Ipx)
    → IsSearch o s
    → process_setup_packets packets s ≡ some t
    → IsSearch o t
unfolding process_setup_packets
process_setup_packets-IsSearch [] o s t v h = let same : s ≡ t = cc in subst (IsSearch o) same v
process_setup_packets-IsSearch (p ∷ packets) o s t v h =
    elim (Option-cases (process_setup_packet p s)) [
      | inl error ↦ let h' = rw (process_setup_packets, error) at h in cc
      | inr (u, e) ↦
          process_setup_packets-IsSearch packets o u t (process_setup_packet-IsSearch p o s u v e)
            (rw (process_setup_packets, e) at h)
    ]

send_if_due-IsSearch :
    (per_sec now : ℕ) (o : Ipx) (v : Search)
    → IsSearch o v.ipx
    → IsSearch o (send_if_due per_sec now v).ipx
unfolding send_if_due
send_if_due-IsSearch per_sec now o v t =
    elim (Bool-cases (leb per_sec ((now + 2 ^ 32 - v.last_time) % 2 ^ 32))) [
      | inl due ↦ rw due (record {
        table = IsTable-with_setup v.ipx.nodes 0 (own_setup v.ipx) (t.table);
        few = rw (length-set v.ipx.nodes 0 _) (t.few);
        same_nodes = t.same_nodes;
        same_player = t.same_player;
      })
      | inr early ↦ rw early t
    ]

-- The node at `i` has found all that it wants.
abbrev pub IsSettled : Peer → Type 0
IsSettled n = n.setup.nodesfound ≡ n.setup.nodeswanted

IsSettled-cons :
    (n : Peer) (nodes : List Peer) (i : ℕ)
    → i < suc (settled_count nodes)
    → IsSettled n
    → ((k : ℕ) → k < settled_count nodes → (k < length nodes) × IsSettled (get_or nodes k no_peer))
    → (i < length (n ∷ nodes)) × IsSettled (get_or (n ∷ nodes) i no_peer)
IsSettled-cons n nodes zero h e rest = (omega arith, e)
IsSettled-cons n nodes (suc i) h e rest = let (l, r) = rest i (omega arith) in (omega arith, r)

settled_count-IsSettled :
    (nodes : List Peer) (i : ℕ)
    → i < settled_count nodes
    → (i < length nodes) × IsSettled (get_or nodes i no_peer)
unfolding settled_count
settled_count-IsSettled [] i h = absurd (omega arith)
settled_count-IsSettled (n ∷ nodes) i h =
    elim (Bool-cases (n.setup.nodesfound == n.setup.nodeswanted)) [
      | inr open_node ↦ let h' = rw open_node at h in absurd (omega arith)
      | inl closed ↦
          IsSettled-cons n nodes i (rw closed at h) (ground arith)
            (λ k. settled_count-IsSettled nodes k)
    ]

abbrev pub is_player : Peer → Bool
is_player n = n.setup.drone == 0

count_players-few :
    (nodes : List Peer) (total n : ℕ)
    → total ≤ max_players
    → count_players nodes total ≡ some n
    → (n ≡ total + count_if is_player nodes) × (n ≤ max_players)
unfolding count_players
count_players-few [] total n h e = (ground arith, ground arith)
count_players-few (p ∷ nodes) total n h e = elim (Bool-cases (p.setup.drone == 0)) [
  | inr drone ↦
      let (sum, few) = count_players-few nodes total n h (rw drone at e) in
      rw drone (omega arith, few)
  | inl player ↦ elim (Bool-cases (ltb max_players (total + 1))) [
    | inl many ↦ let bad : none ≡ some n = rw (player, many) at e in cc
    | inr fits ↦
        let (sum, few) =
          count_players-few nodes (total + 1) n (ground arith) (rw (player, fits) at e) in
        rw player (omega arith, few)
  ]
]

-- Our number, from 0 on: the one of -player, or as many unclaimed numbers come before it as there are
-- other players that take theirs and have a lower address than our entry, the first one.
pub data Number (s : Ipx) (nodes : List Peer) (player : ℕ) : Type 0 where
  given : player + 1 ≡ s.force_player → player < s.numnetnodes → Number s nodes player
  taken :
      s.force_player ≡ minus_one
      → NthFree nodes 0 (count_if (is_auto_below (get_or nodes 0 no_peer).addr) nodes) player
      → Number s nodes player

-- What the end of a search from the state `s` means: distinct nodes, in the bounds of the arrays and
-- settled, as many players as nodes of the game are no drones, from 1 to 16, and a number for ours.
pub record Found (s : Ipx) (player total : ℕ) (v : Search) : Type 0 where
  pub table : IsTable v.ipx.nodes
  pub few_nodes : length v.ipx.nodes ≤ max_net_nodes
  pub same_nodes : v.ipx.numnetnodes ≡ s.numnetnodes
  pub settled :
      (i : ℕ)
      → i < (get_or v.ipx.nodes 0 no_peer).setup.nodeswanted
      → (i < length v.ipx.nodes) × IsSettled (get_or v.ipx.nodes i no_peer)
  pub players : total ≡ count_if is_player (game_nodes v.ipx)
  pub some_player : 0 < total
  pub few_players : total ≤ max_players
  pub number : Number s (game_nodes v.ipx) player

-- The test of -player at the start of LookForNodes.
abbrev outside : Ipx → Bool
outside s =
    not (s.force_player == minus_one)
    && (lt16 s.force_player 1 || lt16 s.numnetnodes s.force_player)

length-game_nodes : (s : Ipx) → length (game_nodes s) ≤ s.numnetnodes
unfolding game_nodes
length-game_nodes s =
    omega (arith, length-take s.numnetnodes (s.nodes ++ replicate s.numnetnodes no_peer))

determine_console_player-Number :
    (o s : Ipx) (player : ℕ)
    → IsSearch o s
    → outside o ≡ false
    → o.numnetnodes ≤ max_net_nodes
    → o.force_player < 2 ^ 16
    → determine_console_player (s.numnetnodes + 1) s.force_player (game_nodes s) ≡ some player
    → Number o (game_nodes s) player
unfolding determine_console_player
determine_console_player-Number o s player v inside m w h =
    let nodes = v.same_nodes in
    let force = v.same_player in
    elim (Bool-cases (s.force_player == minus_one)) [
      | inl automatic ↦
          let e : s.force_player ≡ minus_one = ground arith in
          let few = length-game_nodes s in
          let (p, ends, free) =
            determine_console_player-ends (s.numnetnodes + 1) (game_nodes s) (omega arith) in
          let h' = rw e at h in
          let same : p ≡ player = cc in
          taken (omega arith) (
            subst
              (NthFree (game_nodes s) 0
                (count_if (is_auto_below (get_or (game_nodes s) 0 no_peer).addr) (game_nodes s)))
              same free)
      | inr number ↦
          let h' = rw number at h in
          let same : s.force_player - 1 ≡ player = ground arith in
          given (ground arith) (ground arith)
    ]

finish-Found :
    (o : Ipx) (v w : Search) (player total : ℕ)
    → IsSearch o v.ipx
    → outside o ≡ false
    → o.numnetnodes ≤ max_net_nodes
    → o.force_player < 2 ^ 16
    → found_all v.ipx ≡ true
    → finish v ≡ ready player total w
    → Found o player total w
unfolding finish finish_with found_all
finish-Found o v w player total t inside m word all h =
    elim (Option-cases (count_players (game_nodes v.ipx) 0)) [
      | inl many ↦ let h' = rw many at h in cc
      | inr (n, counted) ↦
          elim (Option-cases (
            determine_console_player (v.ipx.numnetnodes + 1) v.ipx.force_player
              (game_nodes v.ipx))) [
                | inl stuck ↦ let h' = rw (counted, stuck) at h in cc
                | inr (c, number) ↦ elim (Bool-cases (n == 0)) [
                  | inl empty ↦ let h' = rw (counted, number, empty) at h in cc
                  | inr full ↦
                      let h' : ready c n v ≡ ready player total w =
                        rw (counted, number, full) at h in
                      let same_player : c ≡ player = cc in
                      let same_total : n ≡ total = cc in
                      let same_state : v ≡ w = cc in
                      let (sum, few) =
                        count_players-few (game_nodes v.ipx) 0 n (omega arith) counted in
                      subst (Found o player total) same_state (record {
                        table = t.table;
                        few_nodes = t.few;
                        same_nodes = t.same_nodes;
                        settled = λ i l. settled_count-IsSettled v.ipx.nodes i (ground arith);
                        players = omega arith;
                        some_player = ground arith;
                        few_players = omega arith;
                        number =
                            determine_console_player-Number o v.ipx player t inside m word
                              (number ∙ ap some same_player);
                      })
                ]
              ]
    ]

search_loop-Found :
    (per_sec : ℕ) (rounds : List Round) (o : Ipx) (v w : Search) (player total : ℕ)
    → IsSearch o v.ipx
    → outside o ≡ false
    → o.numnetnodes ≤ max_net_nodes
    → o.force_player < 2 ^ 16
    → search_loop per_sec rounds v ≡ ready player total w
    → Found o player total w
unfolding search_loop
search_loop-Found per_sec [] o v w player total t inside m word h = cc
search_loop-Found per_sec (r ∷ rounds) o v w player total t inside m word h =
    elim (Option-cases (process_setup_packets r.packets v.ipx)) [
      | inl error ↦ let h' = rw (search_loop, error) at h in cc
      | inr (s, e) ↦
          let t' = process_setup_packets-IsSearch r.packets o v.ipx s t e in
          elim (Bool-cases (found_all s)) [
            | inl all ↦
                finish-Found o (record v { ipx = s }) w player total t' inside m word all
                  (rw (search_loop, e, all) at h)
            | inr more ↦
                search_loop-Found per_sec rounds o
                  (send_if_due per_sec r.now (record v { ipx = s })) w player total
                  (send_if_due-IsSearch per_sec r.now o (record v { ipx = s }) t') inside m word
                  (rw (search_loop, e, more) at h)
          ]
    ]

-- The game is for at most 16 nodes. Whenever LookForNodes ends without an Error or a write outside
-- the tables, it has found at most 16 nodes, no two with the same address, each of the first ones,
-- as many as our own entry wants, is there and has found as many as it wants, and the players are
-- as many as nodes of the game that are no drones, from 1 to 16. Our number is the one of -player,
-- within the number of nodes, or nobody claims it and as many unclaimed numbers come before it as
-- there are players of the game that take theirs and have an address below our entry's.
pub look_for_nodes-Found :
    (per_sec : ℕ) (localaddr : List ℕ) (rounds : List Round) (s : Ipx) (w : Search)
    (player total : ℕ)
    → s.numnetnodes ≤ max_net_nodes
    → s.force_player < 2 ^ 16
    → look_for_nodes per_sec localaddr rounds s ≡ ready player total w
    → Found s player total w
unfolding look_for_nodes start_search
look_for_nodes-Found per_sec localaddr rounds s w player total m word h =
    let start : IsSearch s (start_search localaddr s).ipx = record {
      table = (tt, tt);
      few = omega arith;
      same_nodes = refl;
      same_player = refl;
    } in
    elim (Bool-cases (outside s)) [
      | inl bad ↦ let h' = rw bad at h in cc
      | inr inside ↦
          search_loop-Found per_sec rounds s (start_search localaddr s) w player total start inside
            m word (rw inside at h)
    ]
