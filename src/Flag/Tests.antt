-- ===== src/Flag/Tests.antt =====
-- Command lines at concrete inputs.
use vanilla_utilities.Base.{ℕ, ◌≡◌, refl, List, [], ◌∷◌, ◌++◌, none, some, replicate}
use vanilla_utilities.Flag.{
  Flag, Arg, bool_flag, int_flag, starts_with, same_name, find_flag_for_name,
}
use vanilla_utilities.Flag.Number.{must_parse_int, word, invalid, out_of_range}
use vanilla_utilities.Flag.Response.{Files, is_space}
use vanilla_utilities.Flag.Parse.{Setting, word_value, is_set, parsed, parse_loop}
use vanilla_utilities.Flag.Parse.Complete.{
  Uses, nothing, switch, with_parameter, int_parameter, parse_loop-Uses,
}
use vanilla_utilities.Flag.Parse.Sound.{Accepted, parse_loop-Accepted}

-- Numbers: `017`, ` -0x1F`, `9x` and `40000`.
octal : must_parse_int int_flag (b'0' ∷ b'1' ∷ b'7' ∷ []) ≡ word 15
unfolding must_parse_int is_space
octal = refl

negative_hex : must_parse_int int_flag (b' ' ∷ b'-' ∷ b'0' ∷ b'x' ∷ b'1' ∷ b'F' ∷ []) ≡ word 65505
unfolding must_parse_int is_space
negative_hex = refl

no_number : must_parse_int int_flag (b'9' ∷ b'x' ∷ []) ≡ invalid
unfolding must_parse_int is_space
no_number = refl

too_large : must_parse_int int_flag (b'4' ∷ b'0' ∷ b'0' ∷ b'0' ∷ b'0' ∷ []) ≡ out_of_range
unfolding must_parse_int is_space
too_large = refl

abbrev typed : List ℕ → Arg
typed text = record { text = text; place = none }

abbrev nodes : Flag
nodes = record { type = int_flag; name = b'-' ∷ b'n' ∷ [] }

abbrev com2 : Flag
com2 = record { type = bool_flag; name = b'-' ∷ b'c' ∷ [] }

abbrev flags : List Flag
flags = nodes ∷ com2 ∷ []

-- `-C -n 3 doom`, where case makes no difference.
abbrev line : List Arg
line = typed (b'-' ∷ b'C' ∷ []) ∷ typed (b'-' ∷ b'n' ∷ []) ∷ typed (b'3' ∷ []) ∷ []

abbrev doom : Arg
doom = typed (b'd' ∷ b'o' ∷ b'o' ∷ b'm' ∷ [])

abbrev made : List Setting
made =
    record { name = com2.name; value = is_set }
    ∷ record { name = nodes.name; value = word_value 3 }
    ∷ []

line-Uses : Uses flags line made
unfolding find_flag_for_name same_name starts_with must_parse_int is_space
line-Uses = switch (typed (b'-' ∷ b'C' ∷ [])) com2 refl refl refl (
    with_parameter (typed (b'-' ∷ b'n' ∷ [])) (typed (b'3' ∷ [])) nodes refl refl refl
      (int_parameter nodes 3 refl refl) nothing)

parse_loop-Uses_example : parse_loop flags (line ++ doom ∷ []) ≡ parsed made (some (doom ∷ []))
unfolding starts_with
parse_loop-Uses_example = parse_loop-Uses (doom ∷ []) line-Uses refl

line_parsed : parse_loop flags (line ++ doom ∷ []) ≡ parsed made (some (doom ∷ []))
unfolding starts_with
line_parsed = parse_loop-Uses (doom ∷ []) line-Uses refl

parse_loop-Accepted_example : Accepted flags (line ++ doom ∷ []) made (some (doom ∷ []))
parse_loop-Accepted_example =
    parse_loop-Accepted flags (line ++ doom ∷ []) made (some (doom ∷ [])) line_parsed

abbrev long_args : List Arg
long_args = typed (b'-' ∷ b'f' ∷ []) ∷ typed (b'a' ∷ replicate 129 b'a') ∷ []

abbrev no_files : Files
no_files name = none
