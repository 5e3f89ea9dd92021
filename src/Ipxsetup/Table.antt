-- ===== src/Ipxsetup/Table.antt =====
-- The table of nodes that ProcessSetupPacket of net/ipxsetup.c keeps.
use vanilla_utilities.Base.{
  ℕ, zero, suc, ◌+◌, ◌<◌, ◌≤◌, ◌≡◌, refl, ap, subst, leb, ◌||◌, ◌∙◌, arith, length, get_or, set,
  true, false, ◌==◌, Bool-cases, inl, inr, List, [], ◌∷◌, ◌++◌, Option, none, some, length-set,
  length-append, get_or-set_self,
}
use vanilla_utilities.Base.Words.{same_bytes, same_bytes-sym, same_bytes_refl}
use vanilla_utilities.Ipxnet.{Packet}
use vanilla_utilities.Ipxsetup.{
  Peer, Ipx, SetupData, no_peer, find_node, node_for_address, read_setup, clashes,
  process_setup_packet, max_net_nodes,
}

-- No node of the list has the address.
abbrev pub Unknown : List ℕ → List Peer → Type 0
Unknown addr [] = Unit {0}
Unknown addr (n ∷ nodes) = (same_bytes addr n.addr ≡ false) × Unknown addr nodes

-- No two nodes have the same address.
abbrev pub IsTable : List Peer → Type 0
IsTable [] = Unit {0}
IsTable (n ∷ nodes) = Unknown n.addr nodes × IsTable nodes

-- What NodeForAddress finds from index `i` on.
data Find (addr : List ℕ) (i : ℕ) (nodes : List Peer) : Option ℕ → Type 0 where
  missing : (r : Option ℕ) → r ≡ none → Unknown addr nodes → Find addr i nodes r
  present :
      (r : Option ℕ) (j : ℕ)
      → r ≡ some (i + j)
      → j < length nodes
      → same_bytes addr (get_or nodes j no_peer).addr ≡ true
      → Find addr i nodes r

find_node-Find :
    (addr : List ℕ) (i : ℕ) (nodes : List Peer) → Find addr i nodes (find_node addr i nodes)
unfolding find_node
find_node-Find addr i [] = missing _ refl tt
find_node-Find addr i (n ∷ nodes) = elim (Bool-cases (same_bytes addr n.addr)) [
  | inl here ↦ rw here (present _ 0 (ap some (omega arith)) (omega arith) here)
  | inr other ↦ rw other (elim (find_node-Find addr (i + 1) nodes) [
    | missing _ e u ↦ missing _ e (other, u)
    | present _ j e l h ↦ present _ (suc j) (e ∙ ap some (omega arith)) (omega arith) h
  ])
]

Unknown-append :
    (addr : List ℕ) (nodes : List Peer) (n : Peer)
    → Unknown addr nodes
    → same_bytes addr n.addr ≡ false
    → Unknown addr (nodes ++ n ∷ [])
Unknown-append addr [] n u h = (h, tt)
Unknown-append addr (m ∷ nodes) n u h = (u.0, Unknown-append addr nodes n u.1 h)

IsTable-append :
    (nodes : List Peer) (n : Peer)
    → IsTable nodes
    → Unknown n.addr nodes
    → IsTable (nodes ++ n ∷ [])
IsTable-append [] n v u = (tt, tt)
IsTable-append (m ∷ nodes) n v u = (
  Unknown-append m.addr nodes n v.0 (same_bytes-sym m.addr n.addr ∙ u.0),
  IsTable-append nodes n v.1 u.1,
)

-- A write that keeps the address keeps what NodeForAddress sees.
abbrev pub with_setup : List Peer → ℕ → SetupData → List Peer
with_setup nodes j d = set nodes j (record (get_or nodes j no_peer) { setup = d })

Unknown-with_setup :
    (addr : List ℕ) (nodes : List Peer) (j : ℕ) (d : SetupData)
    → Unknown addr nodes
    → Unknown addr (with_setup nodes j d)
Unknown-with_setup addr [] j d u = tt
Unknown-with_setup addr (m ∷ nodes) zero d u = u
Unknown-with_setup addr (m ∷ nodes) (suc j) d u = (u.0, Unknown-with_setup addr nodes j d u.1)

pub IsTable-with_setup :
    (nodes : List Peer) (j : ℕ) (d : SetupData) → IsTable nodes → IsTable (with_setup nodes j d)
IsTable-with_setup [] j d v = tt
IsTable-with_setup (m ∷ nodes) zero d v = v
IsTable-with_setup (m ∷ nodes) (suc j) d v =
    (Unknown-with_setup m.addr nodes j d v.0, IsTable-with_setup nodes j d v.1)

addr-with_setup :
    (nodes : List Peer) (j k : ℕ) (d : SetupData)
    → (get_or (with_setup nodes j d) k no_peer).addr ≡ (get_or nodes k no_peer).addr
addr-with_setup [] j k d = refl
addr-with_setup (m ∷ nodes) zero zero d = refl
addr-with_setup (m ∷ nodes) zero (suc k) d = refl
addr-with_setup (m ∷ nodes) (suc j) zero d = refl
addr-with_setup (m ∷ nodes) (suc j) (suc k) d = addr-with_setup nodes j k d

get_or-append_below :
    (nodes more : List Peer) (k : ℕ)
    → k < length nodes
    → get_or (nodes ++ more) k no_peer ≡ get_or nodes k no_peer
get_or-append_below [] more k h = absurd (omega arith)
get_or-append_below (m ∷ nodes) more zero h = refl
get_or-append_below (m ∷ nodes) more (suc k) h = get_or-append_below nodes more k (omega arith)

get_or-append_end :
    (nodes : List Peer) (n : Peer) → get_or (nodes ++ n ∷ []) (length nodes) no_peer ≡ n
get_or-append_end [] n = refl
get_or-append_end (m ∷ nodes) n = get_or-append_end nodes n

-- What a setup packet makes of the table: it stays one, in the bounds of the arrays and with its
-- nodes at their indices, and a node with the sender's address holds what the packet says.
pub record Learnt (p : Packet) (nodes out : List Peer) : Type 0 where
  pub table : IsTable out
  pub size : length nodes ≤ length out
  pub few : length out ≤ max_net_nodes
  pub same_addr :
      (k : ℕ) → k < length nodes → (get_or out k no_peer).addr ≡ (get_or nodes k no_peer).addr
  pub index : ℕ
  pub is_node : index < length out
  pub sender : same_bytes p.src (get_or out index no_peer).addr ≡ true
  pub told : (get_or out index no_peer).setup ≡ read_setup p

known-Learnt :
    (p : Packet) (nodes : List Peer) (j : ℕ)
    → IsTable nodes
    → length nodes ≤ max_net_nodes
    → j < length nodes
    → same_bytes p.src (get_or nodes j no_peer).addr ≡ true
    → Learnt p nodes (with_setup nodes j (read_setup p))
known-Learnt p nodes j v m l h = record {
  table = IsTable-with_setup nodes j (read_setup p) v;
  size = rw (length-set nodes j _) (omega arith);
  few = rw (length-set nodes j _) m;
  same_addr = λ k b. addr-with_setup nodes j k (read_setup p);
  index = j;
  is_node = rw (length-set nodes j _) l;
  sender = rw (addr-with_setup nodes j j (read_setup p)) h;
  told = ap (λ (n : Peer). n.setup) (get_or-set_self nodes j _ no_peer l);
}

new-Learnt :
    (p : Packet) (nodes : List Peer)
    → IsTable nodes
    → length nodes < max_net_nodes
    → Unknown p.src nodes
    → Learnt p nodes (nodes ++ record { addr = p.src; setup = read_setup p } ∷ [])
new-Learnt p nodes v m u =
    let n : Peer = record { addr = p.src; setup = read_setup p } in
    record {
      table = IsTable-append nodes n v u;
      size = omega (arith, length-append nodes (n ∷ []));
      few = omega (arith, length-append nodes (n ∷ []));
      same_addr = λ k b. ap (λ (m : Peer). m.addr) (get_or-append_below nodes (n ∷ []) k b);
      index = length nodes;
      is_node = omega (arith, length-append nodes (n ∷ []));
      sender = rw (get_or-append_end nodes n) (same_bytes_refl p.src);
      told = ap (λ (m : Peer). m.setup) (get_or-append_end nodes n);
    }

-- A setup packet that ProcessSetupPacket takes without an Error or a write outside the tables, on
-- a table of at most 16 nodes without equal addresses: the table stays so and loses no node, the
-- nodes keep their indices and addresses, and an entry with the sender's address holds what the
-- packet says.
pub process_setup_packet-Learnt :
    (p : Packet) (s t : Ipx)
    → p.time ≡ 0xffffffff
    → IsTable s.nodes
    → length s.nodes ≤ max_net_nodes
    → process_setup_packet p s ≡ some t
    → Learnt p s.nodes t.nodes
unfolding process_setup_packet node_for_address
process_setup_packet-Learnt p s t setup v m h =
    let timed : (p.time == 0xffffffff) ≡ true = ground arith in
    elim (find_node-Find p.src 0 s.nodes) [
      | present _ j e l b ↦
          let h' = rw (timed, e) at h in
          let made : with_setup s.nodes j (read_setup p) ≡ t.nodes = ground arith in
          subst (Learnt p s.nodes) made (known-Learnt p s.nodes j v m l b)
      | missing _ e u ↦ elim (Bool-cases (leb max_net_nodes (length s.nodes) || clashes s p)) [
        | inl bad ↦ let h' : none ≡ some t = rw (timed, e, bad) at h in cc
        | inr fits ↦
            let h' = rw (timed, e, fits) at h in
            let room : length s.nodes < max_net_nodes = ground arith in
            let made : s.nodes ++ record { addr = p.src; setup = read_setup p } ∷ [] ≡ t.nodes =
              ground arith in
            subst (Learnt p s.nodes) made (new-Learnt p s.nodes v room u)
      ]
    ]
