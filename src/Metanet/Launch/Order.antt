-- ===== src/Metanet/Launch/Order.antt =====
-- RearrangeNodes: which nodes it keeps, and where it leaves the forwarders.
use vanilla_utilities.Base.{
  count_if, ℕ, zero, suc, ◌+◌, ◌-◌, ◌<◌, ◌≤◌, ◌≡◌, refl, ap, ◌∙◌, Bool, true, false, not, arith,
  ltb, length, get_or, set, List, [], ◌∷◌, if◌then◌else◌, Bool-cases, inl, inr, length-set,
  get_or-set_self, get_or-set_ne,
}
use vanilla_utilities.Metanet.State.{Meta, Node, empty_node, node_at, has_flag, is_forwarder}
use vanilla_utilities.Metanet.Launch.{swap_nodes, rearrange_loop, rearrange_nodes}

count_if-set :
    (f : Node → Bool) (nodes : List Node) (i : ℕ) (n : Node)
    → i < length nodes
    → count_if f (set nodes i n) + (if f (get_or nodes i empty_node) then 1 else 0)
      ≡ count_if f nodes + (if f n then 1 else 0)
count_if-set f [] i n h = absurd (omega arith)
count_if-set f (m ∷ nodes) zero n h = omega arith
count_if-set f (m ∷ nodes) (suc i) n h = omega (arith, count_if-set f nodes i n (omega arith))

length-swap_nodes : (i p : ℕ) (nodes : List Node) → length (swap_nodes i p nodes) ≡ length nodes
unfolding swap_nodes
length-swap_nodes i p nodes = rw (length-set (set nodes p _) i _) (length-set nodes p _)

count_if-swap_nodes :
    (f : Node → Bool) (i p : ℕ) (nodes : List Node)
    → i < p
    → p < length nodes
    → count_if f (swap_nodes i p nodes) ≡ count_if f nodes
unfolding swap_nodes
count_if-swap_nodes f i p nodes h hp =
    let x = get_or nodes i empty_node in
    let y = get_or nodes p empty_node in
    let kept : get_or (set nodes p x) i empty_node ≡ x =
      get_or-set_ne nodes p i x empty_node (omega arith) in
    let outer =
      rw kept at (count_if-set f (set nodes p x) i y (rw (length-set nodes p x) (omega arith))) in
    omega (arith, outer, count_if-set f nodes p x hp)

-- Below both indices the swap changes nothing; it brings what was at `p` to `i`.
get_or-swap_nodes_below :
    (i p j : ℕ) (nodes : List Node)
    → i < p
    → j < i
    → get_or (swap_nodes i p nodes) j empty_node ≡ get_or nodes j empty_node
unfolding swap_nodes
get_or-swap_nodes_below i p j nodes h hj =
    get_or-set_ne (set nodes p _) i j _ empty_node (omega arith)
    ∙ get_or-set_ne nodes p j _ empty_node (omega arith)

get_or-swap_nodes_self :
    (i p : ℕ) (nodes : List Node)
    → i < length nodes
    → get_or (swap_nodes i p nodes) i empty_node ≡ get_or nodes p empty_node
unfolding swap_nodes
get_or-swap_nodes_self i p nodes h =
    get_or-set_self (set nodes p _) i _ empty_node (rw (length-set nodes p _) h)

-- What a run of the loop from index `i` does: it keeps the nodes, and those below `i` in place.
record Rearranged (i : ℕ) (nodes out : List Node) : Type 0 where
  size : length out ≡ length nodes
  same : (f : Node → Bool) → count_if f out ≡ count_if f nodes
  below : (j : ℕ) → j < i → get_or out j empty_node ≡ get_or nodes j empty_node

Rearranged-swap :
    (i p : ℕ) (nodes out : List Node)
    → i < p
    → p < length nodes
    → Rearranged (i + 1) (swap_nodes i p nodes) out
    → Rearranged i nodes out
Rearranged-swap i p nodes out h hp r = record {
  size = r.size ∙ length-swap_nodes i p nodes;
  same = λ f. r.same f ∙ count_if-swap_nodes f i p nodes h hp;
  below = λ j hj. r.below j (omega arith) ∙ get_or-swap_nodes_below i p j nodes h hj;
}

Rearranged-skip :
    (i : ℕ) (nodes out : List Node) → Rearranged (i + 1) nodes out → Rearranged i nodes out
Rearranged-skip i nodes out r = record {
  size = r.size;
  same = r.same;
  below = λ j hj. r.below j (omega arith);
}

Rearranged-refl : (i : ℕ) (nodes : List Node) → Rearranged i nodes nodes
Rearranged-refl i nodes = record { size = refl; same = λ f. refl; below = λ j hj. refl }

rearrange_loop-Rearranged :
    (k i p : ℕ) (nodes : List Node)
    → p < length nodes
    → Rearranged i nodes (rearrange_loop k i p nodes)
unfolding rearrange_loop
rearrange_loop-Rearranged zero i p nodes hp = Rearranged-refl i nodes
rearrange_loop-Rearranged (suc k) i p nodes hp = elim (Bool-cases (ltb i p)) [
  | inl on ↦ elim (Bool-cases (has_flag (get_or nodes i empty_node).flags is_forwarder)) [
    | inl far ↦
        rw (on, far)
          (Rearranged-swap i p nodes _ (ground arith) hp (
            rearrange_loop-Rearranged k (i + 1) (p - 1) (swap_nodes i p nodes)
              (rw (length-swap_nodes i p nodes) (omega arith))))
    | inr near ↦
        rw (on, near) (Rearranged-skip i nodes _ (rearrange_loop-Rearranged k (i + 1) p nodes hp))
  ]
  | inr over ↦ rw over (Rearranged-refl i nodes)
]

-- RearrangeNodes, on a table that is not empty, keeps the number of nodes, and of those that pass
-- any given test, and leaves our own entry in place.
pub rearrange_nodes-same :
    (test : Node → Bool) (s : Meta)
    → 0 < length s.nodes
    → let t = rearrange_nodes s in
      (length t.nodes ≡ length s.nodes)
      × (count_if test t.nodes ≡ count_if test s.nodes)
      × (node_at t 0 ≡ node_at s 0)
unfolding rearrange_nodes
rearrange_nodes-same test s h =
    let r =
      rearrange_loop-Rearranged (length s.nodes) 1 (length s.nodes - 1) s.nodes (omega arith) in
    (r.size, r.same test, r.below 0 (omega arith))

rearrange_loop-done : (k i p : ℕ) (nodes : List Node) → p ≤ i → rearrange_loop k i p nodes ≡ nodes
unfolding rearrange_loop
rearrange_loop-done zero i p nodes h = refl
rearrange_loop-done (suc k) i p nodes h = let over : ltb i p ≡ false = ground arith in rw over

-- More rounds than there are places between `i` and `p` change nothing: the fuel is enough.
rearrange_loop-enough :
    (k m i p : ℕ) (nodes : List Node)
    → p ≤ i + k
    → rearrange_loop (k + m) i p nodes ≡ rearrange_loop k i p nodes
unfolding rearrange_loop
rearrange_loop-enough zero m i p nodes h = rearrange_loop-done (0 + m) i p nodes (omega arith)
rearrange_loop-enough (suc k) m i p nodes h =
    let more : suc k + m ≡ suc (k + m) = omega arith in
    let far = has_flag (get_or nodes i empty_node).flags is_forwarder in
    let rest =
      rearrange_loop-enough k m (i + 1) (if far then p - 1 else p)
        (if far then swap_nodes i p nodes else nodes) (ground arith) in
    rw (more, rest) refl

abbrev pub is_player : Node → Bool
is_player n = not (has_flag n.flags is_forwarder)

-- What the comment in RearrangeNodes asks for: no player stands behind a forwarder.
abbrev pub ForwardersLast : List Node → Type 0
ForwardersLast [] = Unit {0}
ForwardersLast (n ∷ nodes) =
    (has_flag n.flags is_forwarder ≡ true → count_if is_player nodes ≡ 0) × ForwardersLast nodes

few_players :
    (nodes : List Node)
    → 2 ≤ length nodes
    → has_flag (get_or nodes 1 empty_node).flags is_forwarder ≡ true
    → ForwardersLast nodes
    → count_if is_player nodes ≤ 1
few_players [] h far l = omega arith
few_players (a ∷ []) h far l = ground arith
few_players (a ∷ b ∷ nodes) h far l = ground (arith, l.1.0 far)

first_swap :
    (k p : ℕ) (nodes : List Node)
    → 1 < p
    → p < length nodes
    → has_flag (get_or nodes 1 empty_node).flags is_forwarder ≡ true
    → get_or (rearrange_loop (suc k) 1 p nodes) 1 empty_node ≡ get_or nodes p empty_node
unfolding rearrange_loop
first_swap k p nodes h hp far =
    let on : ltb 1 p ≡ true = ground arith in
    let r =
      rearrange_loop-Rearranged k 2 (p - 1) (swap_nodes 1 p nodes)
        (rw (length-swap_nodes 1 p nodes) (omega arith)) in
    rw (on, far) (r.below 1 (omega arith) ∙ get_or-swap_nodes_self 1 p nodes (omega arith))

-- The bug: with forwarders at index 1 and at the end of three nodes or more, and two players or
-- more, RearrangeNodes leaves a player behind a forwarder.
rearrange_nodes_not_last :
    (s : Meta)
    → 3 ≤ length s.nodes
    → has_flag (node_at s 1).flags is_forwarder ≡ true
    → has_flag (node_at s (length s.nodes - 1)).flags is_forwarder ≡ true
    → 2 ≤ count_if is_player s.nodes
    → ¬ ForwardersLast (rearrange_nodes s).nodes
unfolding rearrange_nodes
rearrange_nodes_not_last s h far last players sorted =
    let n = length s.nodes in
    let r = rearrange_loop-Rearranged n 1 (n - 1) s.nodes (omega arith) in
    let rounds : n ≡ suc (n - 1) = omega arith in
    let moved =
      ap (λ (k : ℕ). get_or (rearrange_loop k 1 (n - 1) s.nodes) 1 empty_node) rounds
      ∙ first_swap (n - 1) (n - 1) s.nodes (omega arith) (omega arith) far in
    let still = ap (λ (m : Node). has_flag m.flags is_forwarder) moved ∙ last in
    let few = few_players _ (rw r.size (omega arith)) still sorted in
    absurd (omega (arith, few, r.same is_player))
