-- ===== src/Flag/Parse/Complete.antt =====
-- What command lines DoParseArgs' loop accepts.
use vanilla_utilities.Base.{
  ℕ, ◌≡◌, refl, ap, ◌∙◌, arith, if◌then◌else◌, true, false, List, [], ◌∷◌, ◌++◌, Option, some,
}
use vanilla_utilities.Flag.{
  bool_flag, string_flag, unsigned_int_flag, int_flag, api_pointer_flag, Flag, Arg, is_bool,
  starts_with, find_flag_for_name,
}
use vanilla_utilities.Flag.Number.{word, must_parse_int}
use vanilla_utilities.Flag.Parse.{
  is_set, text_value, word_value, Setting, parsed, add_setting, add_int, set_parameter, apply_flag,
  apply_last, parse_loop,
}

-- The settings that the parameter of a flag makes.
pub data Parameter (text : List ℕ) : Flag → List Setting → Type 0 where
  text_parameter :
      (f : Flag)
      → f.type ≡ string_flag
      → Parameter text f (record { name = f.name; value = text_value text } ∷ [])
  unsigned_parameter :
      (f : Flag) (w : ℕ)
      → f.type ≡ unsigned_int_flag
      → must_parse_int unsigned_int_flag text ≡ word w
      → Parameter text f (record { name = f.name; value = word_value w } ∷ [])
  int_parameter :
      (f : Flag) (w : ℕ)
      → f.type ≡ int_flag
      → must_parse_int int_flag text ≡ word w
      → Parameter text f (record { name = f.name; value = word_value w } ∷ [])
  pointer_parameter : (f : Flag) → f.type ≡ api_pointer_flag → Parameter text f []

-- A sequence of well-formed flags, with the settings that they make.
pub data Uses (flags : List Flag) : List Arg → List Setting → Type 0 where
  nothing : Uses flags [] []
  switch :
      (a : Arg) (f : Flag) {args : List Arg} {settings : List Setting}
      → starts_with b'-' a.text ≡ true
      → find_flag_for_name a.text flags ≡ some f
      → f.type ≡ bool_flag
      → Uses flags args settings
      → Uses flags (a ∷ args) (record { name = f.name; value = is_set } ∷ settings)
  with_parameter :
      (a b : Arg) (f : Flag) {args : List Arg} {made settings : List Setting}
      → starts_with b'-' a.text ≡ true
      → find_flag_for_name a.text flags ≡ some f
      → starts_with b'-' b.text ≡ false
      → Parameter b.text f made
      → Uses flags args settings
      → Uses flags (a ∷ b ∷ args) (made ++ settings)

-- The command begins with an argument that is no flag.
abbrev pub IsCommand : List Arg → Type 0
IsCommand [] = true ≡ false
IsCommand (a ∷ args) = starts_with b'-' a.text ≡ false

parse_loop-switch :
    (flags : List Flag) (a : Arg) (f : Flag) (args : List Arg) (settings : List Setting)
    (command : Option (List Arg))
    → starts_with b'-' a.text ≡ true
    → find_flag_for_name a.text flags ≡ some f
    → f.type ≡ bool_flag
    → parse_loop flags args ≡ parsed settings command
    → parse_loop flags (a ∷ args)
      ≡ parsed (record { name = f.name; value = is_set } ∷ settings) command
unfolding parse_loop apply_flag apply_last add_setting
parse_loop-switch flags a f [] settings command dash found type h =
    rw (dash, found, type) (ap (add_setting f.name is_set) h)
parse_loop-switch flags a f (b ∷ args) settings command dash found type h =
    rw (dash, found, type, h) refl

set_parameter-Parameter :
    {text : List ℕ} {f : Flag} {made : List Setting} (settings : List Setting)
    (command : Option (List Arg))
    → Parameter text f made
    → set_parameter f.type f.name text (parsed settings command) ≡ parsed (made ++ settings) command
unfolding set_parameter add_int add_setting
set_parameter-Parameter settings command (text_parameter f type) = rw type refl
set_parameter-Parameter settings command (unsigned_parameter f w type e) = rw (type, e) refl
set_parameter-Parameter settings command (int_parameter f w type e) = rw (type, e) refl
set_parameter-Parameter settings command (pointer_parameter f type) = rw type refl

not_bool :
    {text : List ℕ} {f : Flag} {made : List Setting} {A : Type 0} (x y : A)
    → Parameter text f made
    → (if is_bool f.type then x else y) ≡ y
not_bool x y (text_parameter f type) = rw type refl
not_bool x y (unsigned_parameter f w type e) = rw type refl
not_bool x y (int_parameter f w type e) = rw type refl
not_bool x y (pointer_parameter f type) = rw type refl

parse_loop-Parameter :
    (flags : List Flag) (a b : Arg) (f : Flag) (args : List Arg) (made settings : List Setting)
    (command : Option (List Arg))
    → starts_with b'-' a.text ≡ true
    → find_flag_for_name a.text flags ≡ some f
    → starts_with b'-' b.text ≡ false
    → Parameter b.text f made
    → parse_loop flags args ≡ parsed settings command
    → parse_loop flags (a ∷ b ∷ args) ≡ parsed (made ++ settings) command
unfolding parse_loop apply_flag
parse_loop-Parameter flags a b f args made settings command dash found plain p h =
    rw (dash, found, plain, h) (not_bool _ _ p ∙ set_parameter-Parameter settings command p)

-- A sequence of known flags, each with a parameter of its type where it needs one, and behind it a
-- command that begins with no flag: DoParseArgs' loop makes just the flags' settings, in order,
-- and returns the command.
pub parse_loop-Uses :
    {flags : List Flag} {args : List Arg} {settings : List Setting} (command : List Arg)
    → Uses flags args settings
    → IsCommand command
    → parse_loop flags (args ++ command) ≡ parsed settings (some command)
parse_loop-Uses [] u c = absurd (ground arith)
parse_loop-Uses (a ∷ []) nothing c = unfold parse_loop in rw c refl
parse_loop-Uses (a ∷ b ∷ more) nothing c = unfold parse_loop in rw c refl
parse_loop-Uses (x ∷ more) (switch a f {args} {settings} dash found type u) c =
    parse_loop-switch _ a f (args ++ (x ∷ more)) settings (some (x ∷ more)) dash found type
      (parse_loop-Uses (x ∷ more) u c)
parse_loop-Uses (x ∷ more) (with_parameter a b f {args} {made} {settings} dash found plain p u) c =
    parse_loop-Parameter _ a b f (args ++ (x ∷ more)) made settings (some (x ∷ more)) dash found
      plain p (parse_loop-Uses (x ∷ more) u c)
