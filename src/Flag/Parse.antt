-- ===== src/Flag/Parse.antt =====
-- lib/flag.c: ParseCommandLine. A variable that a flag sets is a setting with the flag's name.
pub mod Complete
pub mod Sound
use vanilla_utilities.Base.{
  ℕ, ◌==◌, if◌then◌else◌, Bool, true, false, not, ◌&&◌, ◌||◌, List, [], ◌∷◌, ◌++◌, Option, none,
  some,
}
use vanilla_utilities.Flag.{
  FlagType, bool_flag, string_flag, unsigned_int_flag, int_flag, api_pointer_flag, Flag, Arg,
  is_bool, is_api_pointer, starts_with, same_name, find_flag_for_name,
}
use vanilla_utilities.Flag.Response.{Files, expand_response_args, same_text}
use vanilla_utilities.Flag.Reorder.{
  append_baked_in_args, identify_callee, reorder_args_for_baked_in,
}
use vanilla_utilities.Flag.Number.{
  Long, IntResult, invalid, out_of_range, word, strtol_10, must_parse_int,
}

pub data Value : Type 0 where
  is_set : Value
  text_value : List ℕ → Value
  word_value : ℕ → Value

pub record Setting : Type 0 where
  pub name : List ℕ
  pub value : Value

-- The messages of ErrorPrintUsage.
pub data Failure : Type 0 where
  unknown_flag no_value invalid_value value_out_of_range : Failure

-- What DoParseArgs' loop comes to: the settings, and the command if there is one.
pub data Outcome : Type 0 where
  failed : Failure → Outcome
  parsed : List Setting → Option (List Arg) → Outcome

pub add_setting : List ℕ → Value → Outcome → Outcome
add_setting name value (failed e) = failed e
add_setting name value (parsed settings command) =
    parsed (record { name = name; value = value } ∷ settings) command

pub add_int : List ℕ → IntResult → Outcome → Outcome
add_int name invalid next = failed invalid_value
add_int name out_of_range next = failed value_out_of_range
add_int name (word w) next = add_setting name (word_value w) next

-- The switch over the flag's type, for a flag with a parameter; `next` is what the rest comes to.
pub set_parameter : FlagType → List ℕ → List ℕ → Outcome → Outcome
set_parameter bool_flag name text next = next
set_parameter string_flag name text next = add_setting name (text_value text) next
set_parameter unsigned_int_flag name text next =
    add_int name (must_parse_int unsigned_int_flag text) next
set_parameter int_flag name text next = add_int name (must_parse_int int_flag text) next
set_parameter api_pointer_flag name text next = next

-- A round of the loop on a flag: `text` is the next argument, `next` what the arguments behind the flag
-- come to, and `behind` what those behind `text` do.
pub apply_flag : Option Flag → List ℕ → Outcome → Outcome → Outcome
apply_flag none text next behind = failed unknown_flag
apply_flag (some f) text next behind =
    if is_bool f.type
    then add_setting f.name is_set next
    else if starts_with b'-' text
    then failed no_value
    else set_parameter f.type f.name text behind

-- A flag that is the last argument.
pub apply_last : Option Flag → Outcome
apply_last none = failed unknown_flag
apply_last (some f) =
    if is_bool f.type then add_setting f.name is_set (parsed [] none) else failed no_value

-- DoParseArgs' loop.
pub parse_loop : List Flag → List Arg → Outcome
parse_loop flags [] = parsed [] none
parse_loop flags (a ∷ []) =
    if starts_with b'-' a.text
    then apply_last (find_flag_for_name a.text flags)
    else parsed [] (some (a ∷ []))
parse_loop flags (a ∷ b ∷ args) =
    let next = parse_loop flags (b ∷ args) in
    let behind = parse_loop flags args in
    if starts_with b'-' a.text
    then apply_flag (find_flag_for_name a.text flags) b.text next behind
    else parsed [] (some (a ∷ b ∷ args))

-- StripAPIPointers: the values for the callbacks and the other arguments. `none` is the failed assert
-- on zero, or the read of the NULL behind the last argument.
pub keep_arg : Arg → Option (List Long × List Arg) → Option (List Long × List Arg)
keep_arg a none = none
keep_arg a (some (pointers, args)) = some (pointers, a ∷ args)

pub add_pointer : Long → Option (List Long × List Arg) → Option (List Long × List Arg)
add_pointer l none = none
add_pointer l (some (pointers, args)) = if l.size == 0 then none else some (l ∷ pointers, args)

abbrev pub names_pointer : Option Flag → Bool
names_pointer none = false
names_pointer (some f) = is_api_pointer f.type

abbrev pub is_pointer : List Flag → Arg → Bool
is_pointer flags a = starts_with b'-' a.text && names_pointer (find_flag_for_name a.text flags)

pub strip_api_pointers : List Flag → List Arg → Option (List Long × List Arg)
strip_api_pointers flags [] = some ([], [])
strip_api_pointers flags (a ∷ []) = if is_pointer flags a then none else some ([], a ∷ [])
strip_api_pointers flags (a ∷ b ∷ args) =
    let kept = keep_arg a (strip_api_pointers flags (b ∷ args)) in
    let stripped = add_pointer (strtol_10 b.text) (strip_api_pointers flags args) in
    if is_pointer flags a then stripped else kept

-- How a program's start ends: it shows the usage, breaks off, lacks a response file, or goes on.
pub data Start : Type 0 where
  shows_usage breaks_off lacks_file : Start
  goes_on : List Long → Outcome → Start

pub after_strip : List Flag → Option (List Long × List Arg) → Start
after_strip flags none = breaks_off
after_strip flags (some (pointers, args)) = goes_on pointers (parse_loop flags args)

-- DoParseArgs, on the arguments behind the program's name.
pub do_parse_args : List Flag → List Arg → Start
do_parse_args flags [] = shows_usage
do_parse_args flags (a ∷ args) = after_strip flags (strip_api_pointers flags (a ∷ args))

abbrev pub asks_help : List ℕ → Bool
asks_help text =
    same_name text (b'-' ∷ b'h' ∷ [])
    || same_name text (b'-' ∷ b'h' ∷ b'e' ∷ b'l' ∷ b'p' ∷ [])
    || same_name text (b'-' ∷ b'-' ∷ b'h' ∷ b'e' ∷ b'l' ∷ b'p' ∷ [])
    || same_text text (b'/' ∷ b'?' ∷ [])

pub any_asks_help : List Arg → Bool
any_asks_help [] = false
any_asks_help (a ∷ args) = asks_help a.text || any_asks_help args

-- Is there a baked-in configuration?
abbrev pub have_baked_in_config : List (List ℕ) → Bool
have_baked_in_config [] = false
have_baked_in_config (text ∷ config) = true

pub after_expand : List Flag → List (List ℕ) → List Arg → Option (List Arg) → Start
after_expand flags config user none = lacks_file
after_expand flags config user (some []) = shows_usage
after_expand flags config user (some (program ∷ args)) = do_parse_args flags (
    if have_baked_in_config config
    then reorder_args_for_baked_in flags (identify_callee flags false user) args
    else args)

-- ParseCommandLine, with the texts of the baked-in configuration and the user's arguments behind the
-- program's name.
pub parse_command_line : List Flag → List (List ℕ) → Files → Arg → List Arg → Start
parse_command_line flags config files program user =
    if any_asks_help user
    then shows_usage
    else after_expand flags config user
        (expand_response_args (append_baked_in_args config (program ∷ []) ++ user) files)
