-- ===== src/Flag/Reorder.antt =====
-- lib/flag.c: arguments that are baked in to the program. The lists of arguments here stand behind
-- the program's name.
pub mod Keep
use vanilla_utilities.Base.{
  ℕ, ◌==◌, if◌then◌else◌, Bool, true, false, not, ◌&&◌, ◌||◌, List, [], ◌∷◌, ◌++◌, Option, none,
  some,
}
use vanilla_utilities.Flag.{Flag, Arg, is_bool, starts_with, find_flag_for_name}

-- AppendBakedInArgs: the configuration's texts.
pub append_baked_in_args : List (List ℕ) → List Arg → List Arg
append_baked_in_args [] args = args
append_baked_in_args (text ∷ config) args =
    append_baked_in_args config (args ++ record { text = text; place = none } ∷ [])

abbrev pub is_known : Option Flag → Bool
is_known none = false
is_known (some f) = true

-- A parameter follows the flag.
abbrev pub takes_parameter : Option Flag → Bool
takes_parameter none = false
takes_parameter (some f) = not (is_bool f.type)

-- IdentifyCallee's loop over `argv`: is this argument a parameter? The result is the callee's place.
pub identify_callee : List Flag → Bool → List Arg → Option ℕ
identify_callee flags parameter [] = none
identify_callee flags parameter (a ∷ args) =
    let f = find_flag_for_name a.text flags in
    let rest = identify_callee flags (not parameter && takes_parameter f) args in
    if parameter
    then rest
    else if not (starts_with b'-' a.text)
    then a.place
    else if is_known f
    then rest
    else none

-- `args[i] == callee`.
abbrev pub is_callee : ℕ → Option ℕ → Bool
is_callee callee none = false
is_callee callee (some place) = place == callee

pub behind_arg : Arg → Option (Arg × List Arg × List Arg) → Option (Arg × List Arg × List Arg)
behind_arg a none = none
behind_arg a (some (c, before, behind)) = some (c, a ∷ before, behind)

-- The callee's argument and those before and behind it.
pub find_callee : ℕ → List Arg → Option (Arg × List Arg × List Arg)
find_callee callee [] = none
find_callee callee (a ∷ args) =
    let rest = find_callee callee args in
    if is_callee callee a.place then some (a, [], args) else behind_arg a rest

-- The move of the callee to the front, by memmove.
pub callee_first : Option (Arg × List Arg × List Arg) → List Arg → List Arg
callee_first none args = args
callee_first (some (c, before, behind)) args = c ∷ (before ++ behind)

pub move_callee : Option ℕ → List Arg → List Arg
move_callee none args = args
move_callee (some callee) args = callee_first (find_callee callee args) args

-- ReorderArgsForBakedIn's loop: the arguments for this program, and those for the callee. Is the
-- first one the parameter of the flag before it?
pub sort_args : List Flag → Bool → List Arg → List Arg × List Arg
sort_args flags parameter [] = ([], [])
sort_args flags parameter (a ∷ args) =
    let f = find_flag_for_name a.text flags in
    let (own, callee_args) = sort_args flags (not parameter && takes_parameter f) args in
    if parameter || is_known f then (a ∷ own, callee_args) else (own, a ∷ callee_args)

pub reorder_args_for_baked_in : List Flag → Option ℕ → List Arg → List Arg
reorder_args_for_baked_in flags callee args =
    let (own, callee_args) = sort_args flags false (move_callee callee args) in own ++ callee_args
