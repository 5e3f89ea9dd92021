-- ===== src/Stat/Gamemode.antt =====
-- DiscoverGamemode of stat/statprnt.c on the levels of a game.
use vanilla_utilities.Base.{
  ℕ, zero, suc, ◌-◌, ◌≤◌, ◌≡◌, ◌==◌, refl, sym, ap, ◌∙◌, arith, ltb, leb, length, length-append,
  get_or, take, if◌then◌else◌, Bool, true, false, not, ◌||◌, Bool-cases, inl, inr, List, [], ◌∷◌,
  ◌++◌, append_assoc, append-nil,
}
use vanilla_utilities.Stat.{
  Stats, GameMode, doom1, doom2, indetermined, doom1_par_times, doom2_par_times, is_par,
  discover_loop, discover_gamemode, stats_callback, capture_all,
}

-- Which of the two games is played: does a level's end show it?
pub tells : Bool → Stats → Bool
tells is_doom1 s =
    (if is_doom1 then ltb 0 s.epsd else leb 9 s.last)
    || not (get_or doom1_par_times s.last 0 == get_or doom2_par_times s.last 0)

pub any_tells : Bool → List Stats → Bool
any_tells is_doom1 [] = false
any_tells is_doom1 (s ∷ stats) = tells is_doom1 s || any_tells is_doom1 stats

-- The levels of a game: Doom 1 has nine in each episode, Doom 2 one episode. The par times are
-- those of the tables, in the first episode's first nine levels.
pub record IsLevel (is_doom1 : Bool) (s : Stats) : Type 0 where
  pub place : (if is_doom1 then ltb s.last 9 else s.epsd == 0) ≡ true
  pub par :
      (ltb 0 s.epsd
        || leb 9 s.last
        || is_par (if is_doom1 then doom1_par_times else doom2_par_times) s)
      ≡ true

unfoldable pub AreLevels : Bool → List Stats → Type 0
AreLevels is_doom1 [] = Unit {0}
AreLevels is_doom1 (s ∷ stats) = IsLevel is_doom1 s × AreLevels is_doom1 stats

pub mode_of : Bool → GameMode
mode_of is_doom1 = if is_doom1 then doom1 else doom2

discover_loop-levels :
    (is_doom1 : Bool) (stats : List Stats)
    → AreLevels is_doom1 stats
    → discover_loop stats ≡ (if any_tells is_doom1 stats then mode_of is_doom1 else indetermined)
unfolding discover_loop any_tells tells mode_of AreLevels is_par
discover_loop-levels is_doom1 [] ok = refl
discover_loop-levels true (s ∷ stats) (v, ok) =
    let place = v.place in
    let par = v.par in let rest = discover_loop-levels true stats ok in ground arith
discover_loop-levels false (s ∷ stats) (v, ok) =
    let place = v.place in
    let par = v.par in let rest = discover_loop-levels false stats ok in ground arith

take-AreLevels :
    (n : ℕ) (is_doom1 : Bool) (stats : List Stats)
    → AreLevels is_doom1 stats
    → AreLevels is_doom1 (take n stats)
unfolding AreLevels
take-AreLevels zero is_doom1 stats ok = tt
take-AreLevels (suc n) is_doom1 [] ok = tt
take-AreLevels (suc n) is_doom1 (s ∷ stats) (v, ok) = (v, take-AreLevels n is_doom1 stats ok)

capture_all-take :
    (played captured : List Stats)
    → length captured ≤ 32
    → capture_all played captured ≡ captured ++ take (32 - length captured) played
unfolding capture_all stats_callback
capture_all-take [] captured h = elim (Bool-cases (ltb (length captured) 32)) [
  | inl room ↦
      let e : 32 - length captured ≡ suc (31 - length captured) = ground arith in
      rw e (sym (append-nil captured))
  | inr full ↦ let e : 32 - length captured ≡ 0 = ground arith in rw e (sym (append-nil captured))
]
capture_all-take (s ∷ played) captured h = elim (Bool-cases (ltb (length captured) 32)) [
  | inl room ↦
      let size = length-append captured (s ∷ []) in
      let e : 32 - length captured ≡ suc (32 - length (captured ++ (s ∷ []))) = ground arith in
      rw (room, e)
        (capture_all-take played (captured ++ (s ∷ [])) (ground arith)
          ∙ append_assoc captured (s ∷ []) (take (32 - length (captured ++ (s ∷ []))) played))
  | inr full ↦
      let e : 32 - length captured ≡ 0 = ground arith in
      let rest : capture_all played captured ≡ captured ++ take 0 played =
        rw e at (capture_all-take played captured h) in
      rw (full, e) rest
]

-- The levels that were played are all of Doom 1 or all of Doom 2, with the par times of that game
-- where the tables have them. After StatsCallback at the end of each, DiscoverGamemode names that
-- game if one of the first 32 levels tells it: one of a later episode in Doom 1, one from MAP10 on
-- in Doom 2, or one with different par times in the two games. Else it leaves the game open; it
-- never names the other one.
pub discover_gamemode-captured :
    (is_doom1 : Bool) (played : List Stats)
    → AreLevels is_doom1 played
    → discover_gamemode indetermined (capture_all played [])
      ≡ (if any_tells is_doom1 (take 32 played) then mode_of is_doom1 else indetermined)
unfolding discover_gamemode
discover_gamemode-captured is_doom1 played ok =
    ap discover_loop (capture_all-take played [] (omega arith))
    ∙ discover_loop-levels is_doom1 (take 32 played) (take-AreLevels 32 is_doom1 played ok)
