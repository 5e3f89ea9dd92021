-- ===== src/Ipxsetup/Player.antt =====
-- DetermineConsolePlayer of net/ipxsetup.c.
pub mod Nth
pub mod Differ
use vanilla_utilities.Base.{
  ℕ, zero, suc, ◌+◌, ◌-◌, ltb, ◌==◌, get_or, count_if, if◌then◌else◌, Bool, true, false, not, ◌&&◌,
  ◌||◌, List, [], ◌∷◌, Option, none, some,
}
use vanilla_utilities.Base.Words.{memcmp_above}
use vanilla_utilities.Ipxsetup.{Peer, minus_one, no_peer}

-- A node that wants no particular number, with an address below `own`.
unfoldable pub is_auto_below : List ℕ → Peer → Bool
is_auto_below own n =
    n.setup.drone == 0 && n.setup.plnumwanted == minus_one && memcmp_above own n.addr

-- `result == plnumwanted - 1`, for a result that is not negative.
unfoldable pub claims : ℕ → Peer → Bool
claims result n = ltb n.setup.plnumwanted 0x8000 && n.setup.plnumwanted == result + 1

-- Whether the inner loop breaks off.
unfoldable pub is_claimed : ℕ → List Peer → Bool
is_claimed result [] = false
is_claimed result (n ∷ nodes) = claims result n || is_claimed result nodes

-- The outer loop, on fuel.
unfoldable pub skip_loop : ℕ → List Peer → ℕ → ℕ → Option ℕ
skip_loop zero nodes cnt result = none
skip_loop (suc fuel) nodes cnt result =
    let next =
      skip_loop fuel nodes (if is_claimed result nodes then cnt else cnt - 1) (result + 1) in
    if is_claimed result nodes then next else if cnt == 0 then some result else next

-- DetermineConsolePlayer, on the `numnetnodes` nodes of the game. One round more than there are
-- nodes is enough.
unfoldable pub determine_console_player : ℕ → ℕ → List Peer → Option ℕ
determine_console_player fuel force_player nodes =
    if not (force_player == minus_one)
    then some (force_player - 1)
    else skip_loop fuel nodes (count_if (is_auto_below (get_or nodes 0 no_peer).addr) nodes) 0
