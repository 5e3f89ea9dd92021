-- ===== src/Nodemap/Maps.antt =====
-- The maps that DiscoverPlayers of adapters/nodemap.c leaves.
pub mod Bits
use vanilla_utilities.Base.{
  ℕ, zero, suc, ◌+◌, ◌-◌, ◌<◌, ◌≤◌, ◌≡◌, ◌≢◌, ◌==◌, refl, sym, ap, ◌∙◌, arith, ltb, length, get_or,
  set, length-set, get_or-set_self, get_or-set_ne, if◌then◌else◌, Bool, true, false, ◌&&◌,
  Bool-cases, inl, inr, List, [], ◌∷◌, Option, none, some, ◌%◌, ◌^◌,
}
use vanilla_utilities.Base.Bitset.{bit, bit-bit_or}
use vanilla_utilities.Nodemap.{
  Discovery, Round, Doomcom, node_bit, all_nodes, player_of, is_discover, take_packet, send_if_due,
  is_complete, wait_loop, send_discover, discover_loop, send_discover_to_all,
}
use vanilla_utilities.Nodemap.Maps.Bits.{bit_self, bit_other}

-- `f` gives the player of each of `num` nodes.
pub record ArePlayers (f : ℕ → ℕ) (num : ℕ) : Type 0 where
  pub few : num ≤ 16
  pub below : (n : ℕ) → n < num → f n < 16
  pub distinct : (n m : ℕ) → n < num → m < num → f n ≡ f m → n ≡ m

-- A discover packet names the player of the node that it comes from.
unfoldable pub IsHonest : (ℕ → ℕ) → ℕ → Option (ℕ × List ℕ) → Type 0
IsHonest f num none = Unit {0}
IsHonest f num (some (node, bytes)) =
    is_discover bytes ≡ true → (node < num) × (player_of bytes ≡ f node)

unfoldable pub AreHonest : (ℕ → ℕ) → ℕ → List Round → Type 0
AreHonest f num [] = Unit {0}
AreHonest f num (r ∷ rounds) = IsHonest f num r.arrival × AreHonest f num rounds

-- The maps are right for the nodes that were heard.
pub record IsMapped (f : ℕ → ℕ) (num : ℕ) (d : Discovery) : Type 0 where
  pub node_size : length d.nodetoplayer ≡ 16
  pub player_size : length d.playertonode ≡ 16
  pub count : d.doomcom.numnodes ≡ num
  pub maps :
      (n : ℕ)
      → n < num
      → bit n d.got_nodes ≡ 1
      → (get_or d.nodetoplayer n 0 ≡ f n) × (get_or d.playertonode (f n) 0 ≡ n)

discover_loop-numnodes : (k i : ℕ) (c : Doomcom) → (discover_loop k i c).numnodes ≡ c.numnodes
unfolding discover_loop send_discover
discover_loop-numnodes zero i c = refl
discover_loop-numnodes (suc k) i c = discover_loop-numnodes k (i + 1) (send_discover i 0 c)

pub send_discover_to_all-numnodes : (c : Doomcom) → (send_discover_to_all c).numnodes ≡ c.numnodes
unfolding send_discover_to_all
send_discover_to_all-numnodes c = discover_loop-numnodes _ 1 c

pub send_if_due-IsMapped :
    (f : ℕ → ℕ) (num clocks_per_sec now : ℕ) (d : Discovery)
    → IsMapped f num d
    → IsMapped f num (send_if_due clocks_per_sec now d)
unfolding send_if_due
send_if_due-IsMapped f num clocks_per_sec now d v =
    elim (Bool-cases (ltb clocks_per_sec ((now + 2 ^ 32 - d.last_send) % 2 ^ 32))) [
      | inl due ↦ rw due (record {
        node_size = v.node_size;
        player_size = v.player_size;
        count = send_discover_to_all-numnodes d.doomcom ∙ v.count;
        maps = v.maps;
      })
      | inr early ↦ rw early v
    ]

pub take_packet-IsMapped :
    (f : ℕ → ℕ) (num : ℕ) (arrival : Option (ℕ × List ℕ)) (d : Discovery)
    → ArePlayers f num
    → IsHonest f num arrival
    → IsMapped f num d
    → IsMapped f num (take_packet arrival d)
unfolding take_packet IsHonest
take_packet-IsMapped f num none d p h v = v
take_packet-IsMapped f num (some (node, bytes)) d p h v = elim (Bool-cases (is_discover bytes)) [
  | inr other ↦ rw other (record {
    node_size = v.node_size;
    player_size = v.player_size;
    count = v.count;
    maps = v.maps;
  })
  | inl heard ↦
      let (inside, e) = h heard in
      let few = p.few in
      let size = p.below node inside in
      rw (heard, e)
        (record {
          node_size = length-set d.nodetoplayer node (f node) ∙ v.node_size;
          player_size = length-set d.playertonode (f node) node ∙ v.player_size;
          count = v.count;
          maps = λ n below b. elim (Bool-cases (n == node)) [
            | inl here ↦
                let same : node ≡ n = ground arith in
                let size1 = v.node_size in
                let size2 = v.player_size in
                let first = get_or-set_self d.nodetoplayer node (f node) 0 (omega arith) in
                let second = get_or-set_self d.playertonode (f node) node 0 (omega arith) in
                rw (← same) (first, second)
            | inr elsewhere ↦
                let differ : node ≢ n = λ q. let q' = q in ground arith in
                let apart : f node ≢ f n = λ q. differ (p.distinct node n inside below q) in
                let old : bit n d.got_nodes ≡ 1 =
                  let joined = bit-bit_or n d.got_nodes (node_bit node) in
                  let off = bit_other n node (omega arith) (omega arith) elsewhere in omega arith in
                let (x, y) = v.maps n below old in
                (
                  get_or-set_ne d.nodetoplayer node n (f node) 0 differ ∙ x,
                  get_or-set_ne d.playertonode (f node) (f n) node 0 apart ∙ y,
                )
          ];
        })
]
