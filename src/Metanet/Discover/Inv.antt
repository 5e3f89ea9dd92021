-- ===== src/Metanet/Discover/Inv.antt =====
-- The discovery protocol keeps the node table, and what waits in the drivers.
use vanilla_utilities.Base.{
  ℕ, zero, suc, ◌+◌, ◌≡◌, refl, ap, ◌∙◌, not, ◌&&◌, List, [], ◌∷◌, Option, none, some, length,
  get_or, Bool-cases, inl, inr, arith,
}
use vanilla_utilities.Metanet.Addr.{Addr, append_next_hop}
use vanilla_utilities.Metanet.State.{Meta, Node, Discover, node_at, has_flag, launched}
use vanilla_utilities.Metanet.State.Laws.{
  Quiet, Quiet-trans, Quiet-net_send_packet, Quiet-put_driver, inboxes,
}
use vanilla_utilities.Metanet.Table.{node_or_add_node}
use vanilla_utilities.Metanet.Table.Inv.{
  IsTable, IsTable-set, IsTable-routes, routes, node_or_add_node-IsTable, node_or_add_node-drivers,
}
use vanilla_utilities.Metanet.Discover.{
  send_discover, add_neighbor, add_neighbors, discovered, put_node, discover_from, handle_discover,
  quit_loop, quit_node, node_quit,
}

pub send_discover-Quiet : (n : Node) (s : Meta) → Quiet s (send_discover n s)
unfolding send_discover
send_discover-Quiet n s = Quiet-trans (Quiet-put_driver _ _ s refl) (Quiet-net_send_packet _ _)

-- What the packet handlers keep: a good table, and the packets that wait.
pub record Kept (s t : Meta) : Type 0 where
  pub table : IsTable t.nodes
  pub count : length t.drivers ≡ length s.drivers
  pub inbox : inboxes t ≡ inboxes s

pub Kept-refl : (s : Meta) → IsTable s.nodes → Kept s s
Kept-refl s v = record { table = v; count = refl; inbox = refl }

pub Kept-trans : {s t u : Meta} → Kept s t → Kept t u → Kept s u
Kept-trans p q = record { table = q.table; count = q.count ∙ p.count; inbox = q.inbox ∙ p.inbox }

pub Kept-Quiet : (s t : Meta) → IsTable s.nodes → Quiet s t → Kept s t
Kept-Quiet s t v q = record { table = rw q.nodes v; count = q.count; inbox = q.inbox }

-- The drivers are as before.
pub Kept-same : (s t : Meta) → IsTable t.nodes → t.drivers ≡ s.drivers → Kept s t
Kept-same s t v e = record { table = v; count = ap length e; inbox = rw e refl }

pub node_or_add_node-Kept :
    (f : ℕ) (a : Addr) (s : Meta) → IsTable s.nodes → Kept s (node_or_add_node f a s).1
node_or_add_node-Kept f a s v =
    Kept-same s _ (node_or_add_node-IsTable f a s v) (node_or_add_node-drivers f a s)

add_neighbor-Kept :
    (f : ℕ) (r : Option Addr) (s : Meta) → IsTable s.nodes → Kept s (add_neighbor f r s)
unfolding add_neighbor
add_neighbor-Kept f none s v = Kept-same s _ v refl
add_neighbor-Kept f (some a) s v = node_or_add_node-Kept f a s v

add_neighbors-Kept :
    (k i f : ℕ) (src : Addr) (ns : List ℕ) (s : Meta)
    → IsTable s.nodes
    → Kept s (add_neighbors k i f src ns s)
unfolding add_neighbors
add_neighbors-Kept zero i f src ns s v = Kept-refl s v
add_neighbors-Kept (suc k) i f src ns s v =
    let first = add_neighbor-Kept f (append_next_hop src (get_or ns i 0)) s v in
    Kept-trans first (add_neighbors-Kept k (i + 1) f src ns _ first.table)

discover_from-Kept :
    (r : Option ℕ) (f : ℕ) (src : Addr) (dsc : Discover) (s : Meta)
    → IsTable s.nodes
    → Kept s (discover_from r f src dsc s)
unfolding discover_from put_node
discover_from-Kept none f src dsc s v = Kept-refl s v
discover_from-Kept (some i) f src dsc s v =
    elim (Bool-cases
      (has_flag (node_at s 0).flags launched && not (has_flag dsc.status launched))) [
        | inl behind ↦ rw behind (Kept-Quiet s _ v (send_discover-Quiet (node_at s i) s))
        | inr level ↦ rw level (
            let w = IsTable-set s.nodes i (discovered dsc (node_at s i)) refl v in
            Kept-trans (Kept-same s _ w refl) (add_neighbors-Kept _ 0 f src dsc.neighbors _ w))
      ]

-- HandleDiscover, on any packet, keeps the node table well formed (at most 16 entries, no two with
-- the same route), the number of drivers, and the packets that wait in them.
pub handle_discover-Kept :
    (f : ℕ) (src : Addr) (dsc : Discover) (s : Meta)
    → IsTable s.nodes
    → Kept s (handle_discover f src dsc s)
unfolding handle_discover
handle_discover-Kept f src dsc s v =
    let first = node_or_add_node-Kept f src s v in
    Kept-trans first (discover_from-Kept _ f src dsc _ first.table)

quit_loop-routes :
    (f : ℕ) (n : Node) (nodes : List Node)
    → (length (quit_loop f n nodes) ≡ length nodes) × (routes (quit_loop f n nodes) ≡ routes nodes)
unfolding quit_loop
quit_loop-routes f n [] = (refl, refl)
quit_loop-routes f n (m ∷ nodes) = ground (arith, quit_loop-routes f n nodes)

quit_node-Kept : (r : Option ℕ) (f : ℕ) (s : Meta) → IsTable s.nodes → Kept s (quit_node r f s)
unfolding quit_node
quit_node-Kept none f s v = Kept-refl s v
quit_node-Kept (some i) f s v =
    let (l, e) = quit_loop-routes f (node_at s i) s.nodes in
    Kept-same s _ (IsTable-routes s.nodes _ l e v) refl

-- NodeQuit keeps the table.
pub node_quit-Kept : (f : ℕ) (src : Addr) (s : Meta) → IsTable s.nodes → Kept s (node_quit f src s)
unfolding node_quit
node_quit-Kept f src s v = quit_node-Kept _ f s v
