-- ===== src/Metanet/Discover/Quit.antt =====
-- NodeQuit: which entries it marks.
use vanilla_utilities.Base.{
  ℕ, ◌<◌, ◌≡◌, refl, ap, sym, true, ◌==◌, ==_iff, List, [], ◌∷◌, some, bit_or,
}
use vanilla_utilities.Base.Bits.{passes, passes-at}
use vanilla_utilities.Metanet.Addr.{zero_addr, path_length, same_prefix}
use vanilla_utilities.Metanet.State.{Meta, Node, node_at, has_flag, has_quit}
use vanilla_utilities.Metanet.Table.{node_for_addr}
use vanilla_utilities.Metanet.Table.Inv.{IsTable, node_for_addr_iff, node_for_addr-lt, Route}
use vanilla_utilities.Metanet.Discover.{quit_loop, quit_node, node_quit}

-- An entry's flags are a byte.
abbrev pub FlagBytes : List Node → Type 0
FlagBytes [] = Unit {0}
FlagBytes (n ∷ nodes) = (n.flags < 256) × FlagBytes nodes

abbrev pub AllQuit : List Node → Type 0
AllQuit [] = Unit {0}
AllQuit (n ∷ nodes) = (has_flag n.flags has_quit ≡ true) × AllQuit nodes

quit_table : passes (λ f. has_flag (bit_or f has_quit) has_quit) 256 ≡ true
unfolding passes has_flag
quit_table = refl

quit_loop-all :
    (f : ℕ) (n : Node) (nodes : List Node)
    → FlagBytes nodes
    → f ≡ n.first_hop
    → n.addr ≡ zero_addr
    → AllQuit (quit_loop f n nodes)
unfolding quit_loop same_prefix path_length
quit_loop-all f n [] b e z = tt
quit_loop-all f n (m ∷ nodes) b e z =
    let here : (f == n.first_hop) ≡ true = (==_iff f n.first_hop).1 e in
    let whole : same_prefix (path_length n.addr) 0 n.addr m.addr ≡ true = rw z in
    (rw (here, whole) (passes-at _ m.flags 256 b.0 quit_table), quit_loop-all f n nodes b.1 e z)

-- The bug: in a well-formed table, when a direct neighbour quits, every entry is marked as having
-- quit, our own and those behind other interfaces too.
pub node_quit_neighbor :
    (f i : ℕ) (s : Meta)
    → IsTable s.nodes
    → FlagBytes s.nodes
    → node_for_addr f zero_addr s ≡ some i
    → AllQuit (node_quit f zero_addr s).nodes
unfolding node_quit quit_node
node_quit_neighbor f i s v b e =
    let r = (node_for_addr_iff f zero_addr i s v (node_for_addr-lt f zero_addr i s e)).0 e in
    rw e (
      quit_loop-all f (node_at s i) s.nodes b (sym (ap (λ (r : Route). r.first_hop) r))
        (ap (λ (r : Route). r.addr) r))
