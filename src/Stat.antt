-- ===== src/Stat.antt =====
-- stat/statprnt.c and stat/statdump.c: the statistics of the levels that were played, and the game
-- that they are from. A structure has the fields that are read here; they are not negative.
pub mod Gamemode
mod Tests
use vanilla_utilities.Base.{
  ℕ, zero, suc, ◌+◌, ◌*◌, ◌==◌, ltb, leb, length, get_or, if◌then◌else◌, Bool, true, false, not,
  ◌&&◌, List, [], ◌∷◌, ◌++◌,
}

-- `wbstartstruct_t`; `players` has `plyr[i].in`.
pub record Stats : Type 0 where
  pub epsd : ℕ
  pub last : ℕ
  pub partime : ℕ
  pub players : List Bool

pub data GameMode : Type 0 where
  doom1 doom2 indetermined : GameMode

abbrev pub ticrate : ℕ
ticrate = 35

abbrev pub doom1_par_times : List ℕ
doom1_par_times = 30 ∷ 75 ∷ 120 ∷ 90 ∷ 165 ∷ 180 ∷ 180 ∷ 30 ∷ 165 ∷ []

abbrev pub doom2_par_times : List ℕ
doom2_par_times = 30 ∷ 90 ∷ 120 ∷ 120 ∷ 90 ∷ 150 ∷ 120 ∷ 120 ∷ 270 ∷ []

-- Is a par time that of a level? The tables have nine levels.
pub is_par : List ℕ → Stats → Bool
is_par times s = s.partime == get_or times s.last 0 * ticrate

-- DiscoverGamemode's loop.
pub discover_loop : List Stats → GameMode
discover_loop [] = indetermined
discover_loop (s ∷ stats) =
    let rest = discover_loop stats in
    if ltb 0 s.epsd
    then doom1
    else if leb 9 s.last
    then doom2
    else if is_par doom1_par_times s && not (is_par doom2_par_times s)
    then doom1
    else if not (is_par doom1_par_times s) && is_par doom2_par_times s
    then doom2
    else rest

pub discover_gamemode : GameMode → List Stats → GameMode
discover_gamemode doom1 stats = doom1
discover_gamemode doom2 stats = doom2
discover_gamemode indetermined stats = discover_loop stats

pub get_num_players : List Bool → ℕ
get_num_players [] = 0
get_num_players (p ∷ players) = (if p then 1 else 0) + get_num_players players

abbrev pub max_captures : ℕ
max_captures = 32

-- StatsCallback, on the first `num_captured_stats` of `captured_stats`.
pub stats_callback : Stats → List Stats → List Stats
stats_callback s captured =
    if ltb (length captured) max_captures then captured ++ s ∷ [] else captured

-- The callback at the end of each level of a game.
pub capture_all : List Stats → List Stats → List Stats
capture_all [] captured = captured
capture_all (s ∷ played) captured = capture_all played (stats_callback s captured)
