-- ===== src/Metanet/Table/Inv.antt =====
-- The node table: at most 16 entries, our own first, and no two with the same way to them.
use vanilla_utilities.Base.{
  ℕ, zero, suc, ◌+◌, ◌-◌, ◌<◌, ◌≤◌, ◌≡◌, ◌↔◌, ◌==◌, refl, ap, sym, ◌∙◌, Bool, true, false, ◌&&◌,
  arith, leb, length, get_or, set, map, List, [], ◌∷◌, ◌++◌, Option, none, some, Bool-cases, inl,
  inr, length-append, length-set,
}
use vanilla_utilities.Metanet.Addr.{Addr, same_addr}
use vanilla_utilities.Metanet.Addr.Laws.{same_addr_iff}
use vanilla_utilities.Metanet.State.{Meta, Node, empty_node, node_at}
use vanilla_utilities.Metanet.Table.{
  max_net_nodes, node_for_addr_from, node_for_addr, found_or_added, node_or_add_node,
}

-- The way to a node: the first hop and the path behind it.
pub record Route : Type 0 where
  pub first_hop : ℕ
  pub addr : Addr

abbrev pub route : Node → Route
route n = record { first_hop = n.first_hop; addr = n.addr }

abbrev pub routes : List Node → List Route
routes = map route

abbrev pub same_route : ℕ → Addr → Route → Bool
same_route first_hop addr r = first_hop == r.first_hop && same_addr r.addr addr

abbrev pub Absent : ℕ → Addr → List Route → Type 0
Absent first_hop addr [] = Unit {0}
Absent first_hop addr (r ∷ rs) = (same_route first_hop addr r ≡ false) × Absent first_hop addr rs

abbrev pub Distinct : List Route → Type 0
Distinct [] = Unit {0}
Distinct (r ∷ rs) = Absent r.first_hop r.addr rs × Distinct rs

pub record IsTable (nodes : List Node) : Type 0 where
  pub own : 0 < length nodes
  pub few : length nodes ≤ 16
  pub distinct : Distinct (routes nodes)

same_route-sym :
    (f g : ℕ) (a b : Addr)
    → same_route f a (record { first_hop = g; addr = b }) ≡ false
    → same_route g b (record { first_hop = f; addr = a }) ≡ false
unfolding same_addr
same_route-sym f g a b h = ground arith

Absent-append :
    (f g : ℕ) (a b : Addr) (rs : List Route)
    → Absent f a rs
    → same_route f a (record { first_hop = g; addr = b }) ≡ false
    → Absent f a (rs ++ record { first_hop = g; addr = b } ∷ [])
Absent-append f g a b [] h e = (e, tt)
Absent-append f g a b (r ∷ rs) h e = (h.0, Absent-append f g a b rs h.1 e)

Distinct-append :
    (f : ℕ) (a : Addr) (rs : List Route)
    → Distinct rs
    → Absent f a rs
    → Distinct (rs ++ record { first_hop = f; addr = a } ∷ [])
Distinct-append f a [] d h = (tt, tt)
Distinct-append f a (r ∷ rs) d h = (
  Absent-append r.first_hop f r.addr a rs d.0 (same_route-sym f r.first_hop a r.addr h.0),
  Distinct-append f a rs d.1 h.1,
)

-- NodeForAddr fails only if no entry has this route.
node_for_addr-none :
    (i f : ℕ) (a : Addr) (nodes : List Node)
    → node_for_addr_from i f a nodes ≡ none
    → Absent f a (routes nodes)
unfolding node_for_addr_from
node_for_addr-none i f a [] h = tt
node_for_addr-none i f a (n ∷ nodes) h = elim (Bool-cases (same_route f a (route n))) [
  | inl hit ↦ absurd (let e : some i ≡ none = rw hit at h in cc)
  | inr miss ↦ (miss, node_for_addr-none (i + 1) f a nodes (rw miss at h))
]

routes-append :
    (nodes : List Node) (n : Node) → routes (nodes ++ n ∷ []) ≡ routes nodes ++ route n ∷ []
routes-append [] n = refl
routes-append (m ∷ nodes) n = ap (◌∷◌ (route m)) (routes-append nodes n)

pub IsTable-append :
    (nodes : List Node) (n : Node)
    → IsTable nodes
    → length nodes < 16
    → Absent n.first_hop n.addr (routes nodes)
    → IsTable (nodes ++ n ∷ [])
IsTable-append nodes n v room h = record {
  own = omega (arith, length-append nodes (n ∷ []), v.own);
  few = omega (arith, length-append nodes (n ∷ []));
  distinct =
      rw (routes-append nodes n) (Distinct-append n.first_hop n.addr (routes nodes) v.distinct h);
}

found_or_added-IsTable :
    (r : Option ℕ) (f : ℕ) (a : Addr) (s : Meta)
    → IsTable s.nodes
    → (r ≡ none → Absent f a (routes s.nodes))
    → IsTable (found_or_added r f a s).1.nodes
unfolding found_or_added
found_or_added-IsTable (some i) f a s v h = v
found_or_added-IsTable none f a s v h = elim (Bool-cases (leb max_net_nodes (length s.nodes))) [
  | inl full ↦ rw full v
  | inr room ↦ rw room (
      IsTable-append s.nodes (record empty_node { first_hop = f; addr = a }) v (ground arith)
        (h refl))
]

-- NodeOrAddNode keeps the node table well formed: not empty, at most 16 entries, and no two with
-- the same first hop and path.
pub node_or_add_node-IsTable :
    (f : ℕ) (a : Addr) (s : Meta) → IsTable s.nodes → IsTable (node_or_add_node f a s).1.nodes
unfolding node_or_add_node node_for_addr
node_or_add_node-IsTable f a s v =
    found_or_added-IsTable _ f a s v (λ e. node_for_addr-none 0 f a s.nodes e)

routes-set :
    (nodes : List Node) (i : ℕ) (n : Node)
    → route n ≡ route (get_or nodes i empty_node)
    → routes (set nodes i n) ≡ routes nodes
routes-set [] i n e = refl
routes-set (m ∷ nodes) zero n e = ap (λ (r : Route). r ∷ routes nodes) e
routes-set (m ∷ nodes) (suc i) n e = ap (◌∷◌ (route m)) (routes-set nodes i n e)

-- The table speaks of the routes and their number only.
pub IsTable-routes :
    (nodes nodes' : List Node)
    → length nodes' ≡ length nodes
    → routes nodes' ≡ routes nodes
    → IsTable nodes
    → IsTable nodes'
IsTable-routes nodes nodes' l e v = record {
  own = rw l v.own;
  few = rw l v.few;
  distinct = rw e v.distinct;
}

pub IsTable-set :
    (nodes : List Node) (i : ℕ) (n : Node)
    → route n ≡ route (get_or nodes i empty_node)
    → IsTable nodes
    → IsTable (set nodes i n)
IsTable-set nodes i n e = IsTable-routes nodes _ (length-set nodes i n) (routes-set nodes i n e)

first_hit :
    (f : ℕ) (a : Addr) (n : Node) (nodes : List Node) (k i : ℕ)
    → same_route f a (route n) ≡ true
    → some k ≡ some i
    → (k ≤ i)
      × (i < k + length (n ∷ nodes))
      × (route (get_or (n ∷ nodes) (i - k) empty_node) ≡ record { first_hop = f; addr = a })
first_hit f a n nodes k i hit e =
    let same : k ≡ i = ground arith in
    let start : i - k ≡ 0 = omega arith in
    (omega arith, omega arith, rw start (ground (arith, same_addr_iff n.addr a)))

-- What NodeForAddr finds is an entry with this route, the first one.
pub node_for_addr-some :
    (f : ℕ) (a : Addr) (nodes : List Node) (k i : ℕ)
    → node_for_addr_from k f a nodes ≡ some i
    → (k ≤ i)
      × (i < k + length nodes)
      × (route (get_or nodes (i - k) empty_node) ≡ record { first_hop = f; addr = a })
unfolding node_for_addr_from
node_for_addr-some f a [] k i h = absurd (cc)
node_for_addr-some f a (n ∷ nodes) k i h = elim (Bool-cases (same_route f a (route n))) [
  | inl hit ↦ first_hit f a n nodes k i hit (rw hit at h)
  | inr miss ↦
      let (after, within, e) = node_for_addr-some f a nodes (k + 1) i (rw miss at h) in
      let back : i - k ≡ suc (i - (k + 1)) = omega arith in (omega arith, omega arith, rw back e)
]

Absent-get_or :
    (f : ℕ) (a : Addr) (nodes : List Node) (i : ℕ)
    → Absent f a (routes nodes)
    → i < length nodes
    → same_route f a (route (get_or nodes i empty_node)) ≡ false
Absent-get_or f a [] i d h = absurd (omega arith)
Absent-get_or f a (n ∷ nodes) zero d h = d.0
Absent-get_or f a (n ∷ nodes) (suc i) d h = Absent-get_or f a nodes i d.1 (omega arith)

-- Conversely each entry is found at its own index.
node_for_addr-own :
    (nodes : List Node) (k i : ℕ)
    → Distinct (routes nodes)
    → i < length nodes
    → let n = get_or nodes i empty_node in
      node_for_addr_from k n.first_hop n.addr nodes ≡ some (k + i)
unfolding node_for_addr_from
node_for_addr-own [] k i d h = absurd (omega arith)
node_for_addr-own (n ∷ nodes) k zero d h = ground (arith, (same_addr_iff n.addr n.addr).1 refl)
node_for_addr-own (n ∷ nodes) k (suc i) d h =
    let m = get_or nodes i empty_node in
    let other =
      same_route-sym n.first_hop m.first_hop n.addr m.addr
        (Absent-get_or n.first_hop n.addr nodes i d.0 (omega arith)) in
    rw other (node_for_addr-own nodes (k + 1) i d.1 (omega arith) ∙ ap some (omega arith))

-- In a well-formed table NodeForAddr finds the index `i` of an entry for a first hop and path just
-- if they are those of entry `i`.
pub node_for_addr_iff :
    (f : ℕ) (a : Addr) (i : ℕ) (s : Meta)
    → IsTable s.nodes
    → i < length s.nodes
    → (node_for_addr f a s ≡ some i) ↔ (route (node_at s i) ≡ record { first_hop = f; addr = a })
unfolding node_for_addr
node_for_addr_iff f a i s v h = (
  λ e.
      let start : i - 0 ≡ i = omega arith in
      let found = node_for_addr-some f a s.nodes 0 i e in rw start at (found.2),
  λ e.
      ap (λ (r : Route). node_for_addr_from 0 r.first_hop r.addr s.nodes) (sym e)
      ∙ node_for_addr-own s.nodes 0 i v.distinct h
      ∙ ap some (omega arith),
)

pub node_for_addr-lt :
    (f : ℕ) (a : Addr) (i : ℕ) (s : Meta) → node_for_addr f a s ≡ some i → i < length s.nodes
unfolding node_for_addr
node_for_addr-lt f a i s e = omega (arith, (node_for_addr-some f a s.nodes 0 i e).1)

found_or_added-drivers :
    (r : Option ℕ) (f : ℕ) (a : Addr) (s : Meta) → (found_or_added r f a s).1.drivers ≡ s.drivers
unfolding found_or_added
found_or_added-drivers (some i) f a s = refl
found_or_added-drivers none f a s = ground arith

pub node_or_add_node-drivers :
    (f : ℕ) (a : Addr) (s : Meta) → (node_or_add_node f a s).1.drivers ≡ s.drivers
unfolding node_or_add_node
node_or_add_node-drivers f a s = found_or_added-drivers _ f a s
