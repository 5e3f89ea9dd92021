-- ===== src/Vsetargs/Tests.antt =====
-- lib/vsetargs.c on concrete files.
use vanilla_utilities.Base.{
  ℕ, ◌≤◌, ◌≡◌, refl, arith, take, drop, replicate, List, [], ◌∷◌, ◌++◌, some,
}
use vanilla_utilities.Vsetargs.{
  magic, has_prefix, find_config_position, kept_args, total_len, set_at,
}
use vanilla_utilities.Vsetargs.Search.{first_match, first_place, find_config_position-first}
use vanilla_utilities.Vsetargs.Store.{last, more, AreTexts, nil, cons, baked_in_texts, set_at-texts}

-- A program with the magic text at place 3, behind a beginning of it.
abbrev program : List ℕ
program = (b'_' ∷ b'-' ∷ b'M' ∷ []) ++ (magic ++ replicate 60 0)

magic_place : first_match program 0 ≡ some 3
unfolding first_match has_prefix
magic_place = refl

find_config_position-first_example : find_config_position program ≡ first_place program
find_config_position-first_example =
    find_config_position-first program (λ p h. let e : 3 ≡ p = cc (magic_place) in omega arith)

abbrev arguments : List (List ℕ)
arguments = (b'-' ∷ b'd' ∷ []) ∷ (b'7' ∷ []) ∷ []

arguments-AreTexts : AreTexts arguments
arguments-AreTexts = cons (more b'-' refl (last b'd' refl)) (cons (last b'7' refl) nil)

abbrev blank : List ℕ
blank = replicate 1050 9

arguments-fit : total_len (kept_args arguments) ≤ 1024
unfolding total_len kept_args
arguments-fit = omega arith

set_at-texts_example :
    (file : List ℕ) × (set_at arguments blank 3 ≡ some file)
    × (baked_in_texts 1024 (drop 23 file) ≡ kept_args arguments)
    × (take 23 file ≡ take 23 blank)
    × (drop 1047 file ≡ drop 1047 blank)
set_at-texts_example = set_at-texts arguments blank 3 arguments-AreTexts (omega arith) arguments-fit
