-- ===== src/Stat/Tests.antt =====
-- The first two levels of Doom 2.
use vanilla_utilities.Base.{◌≡◌, refl, take, if◌then◌else◌, true, false, [], ◌∷◌}
use vanilla_utilities.Stat.{
  Stats, indetermined, doom2, is_par, discover_loop, discover_gamemode, capture_all,
  get_num_players,
}
use vanilla_utilities.Stat.Gamemode.{
  any_tells, mode_of, IsLevel, AreLevels, discover_gamemode-captured,
}

abbrev first : Stats
first = record { epsd = 0; last = 0; partime = 1050; players = true ∷ false ∷ true ∷ false ∷ [] }

abbrev second : Stats
second = record { epsd = 0; last = 1; partime = 3150; players = true ∷ false ∷ true ∷ false ∷ [] }

first-IsLevel : IsLevel false first
unfolding is_par
first-IsLevel = record { place = refl; par = refl }

second-IsLevel : IsLevel false second
unfolding is_par
second-IsLevel = record { place = refl; par = refl }

levels-AreLevels : AreLevels false (first ∷ second ∷ [])
unfolding AreLevels
levels-AreLevels = (first-IsLevel, (second-IsLevel, tt))

discover_gamemode-captured_example :
    discover_gamemode indetermined (capture_all (first ∷ second ∷ []) [])
    ≡ (if any_tells false (take 32 (first ∷ second ∷ [])) then mode_of false else indetermined)
discover_gamemode-captured_example =
    discover_gamemode-captured false (first ∷ second ∷ []) levels-AreLevels

-- The second level tells the games apart.
told : discover_gamemode indetermined (first ∷ second ∷ []) ≡ doom2
unfolding discover_gamemode discover_loop is_par
told = refl

two_players : get_num_players first.players ≡ 2
unfolding get_num_players
two_players = refl
