-- ===== src/Flag/Parse/Sound.antt =====
-- Whatever DoParseArgs' loop accepts is a sequence of well-formed flags, and the command.
use vanilla_utilities.Base.{
  ℕ, ◌≡◌, refl, ap, subst, true, false, Bool-cases, Option-cases, inl, inr, List, [], ◌∷◌, ◌++◌,
  Option, none, some,
}
use vanilla_utilities.Flag.{
  FlagType, bool_flag, string_flag, unsigned_int_flag, int_flag, api_pointer_flag, Flag, Arg,
  is_bool, starts_with, find_flag_for_name,
}
use vanilla_utilities.Flag.Number.{IntResult, invalid, out_of_range, word}
use vanilla_utilities.Flag.Parse.{
  Value, is_set, word_value, Setting, Outcome, failed, no_value, unknown_flag, parsed, add_setting,
  add_int, set_parameter, apply_flag, apply_last, parse_loop,
}
use vanilla_utilities.Flag.Parse.Complete.{
  Parameter, text_parameter, unsigned_parameter, int_parameter, pointer_parameter, Uses, nothing,
  switch, with_parameter, IsCommand,
}

-- The command that is left is `rest`, which is empty just if there is none.
abbrev pub Ends : Option (List Arg) → List Arg → Type 0
Ends none rest = rest ≡ []
Ends (some command) rest = (rest ≡ command) × IsCommand command

pub record Accepted (flags : List Flag) (args : List Arg) (settings : List Setting)
    (command : Option (List Arg)) : Type 0 where
  pub used : List Arg
  pub rest : List Arg
  pub splits : args ≡ used ++ rest
  pub uses : Uses flags used settings
  pub ends : Ends command rest

-- A result is a setting before another one.
record Added (s : List Setting) (next : Outcome) (settings : List Setting)
    (command : Option (List Arg)) : Type 0 where
  later : List Setting
  before : next ≡ parsed later command
  joined : settings ≡ s ++ later

add_setting-Added :
    (name : List ℕ) (value : Value) (next : Outcome) (settings : List Setting)
    (command : Option (List Arg))
    → add_setting name value next ≡ parsed settings command
    → Added (record { name = name; value = value } ∷ []) next settings command
unfolding add_setting
add_setting-Added name value (failed e) settings command h = cc
add_setting-Added name value (parsed later c) settings command h = record {
  later = later;
  before = cc;
  joined = cc;
}

add_int-Added :
    (name : List ℕ) (r : IntResult) (next : Outcome) (settings : List Setting)
    (command : Option (List Arg))
    → add_int name r next ≡ parsed settings command
    → (w : ℕ) × (r ≡ word w)
      × Added (record { name = name; value = word_value w } ∷ []) next settings command
unfolding add_int
add_int-Added name invalid next settings command h = cc
add_int-Added name out_of_range next settings command h = cc
add_int-Added name (word w) next settings command h =
    (w, refl, add_setting-Added name (word_value w) next settings command h)

-- The inversion of the switch over the types.
set_parameter-Added :
    (type : FlagType) (f : Flag) (text : List ℕ) (next : Outcome) (settings : List Setting)
    (command : Option (List Arg))
    → f.type ≡ type
    → is_bool type ≡ false
    → set_parameter type f.name text next ≡ parsed settings command
    → (made : List Setting) × Parameter text f made × Added made next settings command
unfolding set_parameter
set_parameter-Added bool_flag f text next settings command t b h = cc
set_parameter-Added string_flag f text next settings command t b h =
    (_, text_parameter f t, add_setting-Added _ _ next settings command h)
set_parameter-Added unsigned_int_flag f text next settings command t b h =
    let (w, e, a) = add_int-Added f.name _ next settings command h in
    (_, unsigned_parameter f w t e, a)
set_parameter-Added int_flag f text next settings command t b h =
    let (w, e, a) = add_int-Added f.name _ next settings command h in (_, int_parameter f w t e, a)
set_parameter-Added api_pointer_flag f text next settings command t b h =
    ([], pointer_parameter f t, record { later = settings; before = h; joined = refl })

bool_only : (type : FlagType) → is_bool type ≡ true → type ≡ bool_flag
bool_only bool_flag h = refl
bool_only string_flag h = cc
bool_only unsigned_int_flag h = cc
bool_only int_flag h = cc
bool_only api_pointer_flag h = cc

Accepted-switch :
    (flags : List Flag) (a : Arg) (f : Flag) (args : List Arg) (settings : List Setting)
    (command : Option (List Arg))
    → starts_with b'-' a.text ≡ true
    → find_flag_for_name a.text flags ≡ some f
    → f.type ≡ bool_flag
    → Accepted flags args settings command
    → Accepted flags (a ∷ args) (record { name = f.name; value = is_set } ∷ settings) command
Accepted-switch flags a f args settings command dash found type v = record {
  used = a ∷ v.used;
  rest = v.rest;
  splits = ap (◌∷◌ a) v.splits;
  uses = switch a f dash found type v.uses;
  ends = v.ends;
}

Accepted-Parameter :
    (flags : List Flag) (a b : Arg) (f : Flag) (args : List Arg) (made settings : List Setting)
    (command : Option (List Arg))
    → starts_with b'-' a.text ≡ true
    → find_flag_for_name a.text flags ≡ some f
    → starts_with b'-' b.text ≡ false
    → Parameter b.text f made
    → Accepted flags args settings command
    → Accepted flags (a ∷ b ∷ args) (made ++ settings) command
Accepted-Parameter flags a b f args made settings command dash found plain p v = record {
  used = a ∷ b ∷ v.used;
  rest = v.rest;
  splits = ap (λ (l : List Arg). a ∷ b ∷ l) v.splits;
  uses = with_parameter a b f dash found plain p v.uses;
  ends = v.ends;
}

Accepted-command :
    (flags : List Flag) (a : Arg) (args : List Arg) (settings : List Setting)
    (command : Option (List Arg))
    → starts_with b'-' a.text ≡ false
    → parsed [] (some (a ∷ args)) ≡ parsed settings command
    → Accepted flags (a ∷ args) settings command
Accepted-command flags a args settings command plain h =
    let none_made : [] ≡ settings = cc in
    let all : some (a ∷ args) ≡ command = cc in
    subst (λ (s : List Setting). Accepted flags (a ∷ args) s command) none_made
      (subst (Accepted flags (a ∷ args) []) all (record {
        used = [];
        rest = a ∷ args;
        splits = refl;
        uses = nothing;
        ends = (refl, plain);
      }))

apply_flag-Accepted :
    (flags : List Flag) (a b : Arg) (f : Flag) (args : List Arg) (settings : List Setting)
    (command : Option (List Arg))
    → starts_with b'-' a.text ≡ true
    → find_flag_for_name a.text flags ≡ some f
    → ((s : List Setting)
        → parse_loop flags (b ∷ args) ≡ parsed s command
        → Accepted flags (b ∷ args) s command)
    → ((s : List Setting)
        → parse_loop flags args ≡ parsed s command
        → Accepted flags args s command)
    → apply_flag (some f) b.text (parse_loop flags (b ∷ args)) (parse_loop flags args)
      ≡ parsed settings command
    → Accepted flags (a ∷ b ∷ args) settings command
unfolding apply_flag
apply_flag-Accepted flags a b f args settings command dash found next behind h =
    elim (Bool-cases (is_bool f.type)) [
      | inl switched ↦
          let d = add_setting-Added f.name is_set _ settings command (rw switched at h) in
          rw d.joined (
            Accepted-switch flags a f (b ∷ args) d.later command dash found
              (bool_only f.type switched) (next d.later d.before))
      | inr valued ↦ elim (Bool-cases (starts_with b'-' b.text)) [
        | inl missing ↦
            let bad : failed no_value ≡ parsed settings command = rw (valued, missing) at h in cc
        | inr plain ↦
            let (made, p, d) =
              set_parameter-Added f.type f b.text _ settings command refl valued
                (rw (valued, plain) at h) in
            rw d.joined (
              Accepted-Parameter flags a b f args made d.later command dash found plain p
                (behind d.later d.before))
      ]
    ]

Accepted-nil :
    (flags : List Flag) (settings : List Setting) (command : Option (List Arg))
    → parsed [] none ≡ parsed settings command
    → Accepted flags [] settings command
Accepted-nil flags settings command h =
    let none_made : [] ≡ settings = cc in
    let all : none ≡ command = cc in
    subst (λ (s : List Setting). Accepted flags [] s command) none_made
      (subst (Accepted flags [] []) all
        (record { used = []; rest = []; splits = refl; uses = nothing; ends = refl }))

Accepted-last :
    (flags : List Flag) (a : Arg) (f : Flag) (settings : List Setting) (command : Option (List Arg))
    → starts_with b'-' a.text ≡ true
    → find_flag_for_name a.text flags ≡ some f
    → apply_last (some f) ≡ parsed settings command
    → Accepted flags (a ∷ []) settings command
unfolding apply_last
Accepted-last flags a f settings command dash found h = elim (Bool-cases (is_bool f.type)) [
  | inl switched ↦
      let d =
        add_setting-Added f.name is_set (parsed [] none) settings command (rw switched at h) in
      rw d.joined (
        Accepted-switch flags a f [] d.later command dash found (bool_only f.type switched)
          (Accepted-nil flags d.later command d.before))
  | inr valued ↦ let bad : failed no_value ≡ parsed settings command = rw valued at h in cc
]

-- Arguments that DoParseArgs' loop takes without an Error are a sequence of known flags, each with
-- a parameter of its type where it needs one, and then the command, which begins with no flag, or
-- nothing; the settings are just those that the flags make, in order.
pub parse_loop-Accepted :
    (flags : List Flag) (args : List Arg) (settings : List Setting) (command : Option (List Arg))
    → parse_loop flags args ≡ parsed settings command
    → Accepted flags args settings command
unfolding parse_loop
parse_loop-Accepted flags [] settings command h = Accepted-nil flags settings command h
parse_loop-Accepted flags (a ∷ []) settings command h =
    elim (Bool-cases (starts_with b'-' a.text)) [
      | inr plain ↦ Accepted-command flags a [] settings command plain (rw plain at h)
      | inl dash ↦ elim (Option-cases (find_flag_for_name a.text flags)) [
        | inl unknown ↦
            let bad : failed unknown_flag ≡ parsed settings command =
              unfold apply_last in (rw (dash, unknown) at h) in
            cc
        | inr (f, found) ↦
            Accepted-last flags a f settings command dash found (rw (dash, found) at h)
      ]
    ]
parse_loop-Accepted flags (a ∷ b ∷ args) settings command h =
    elim (Bool-cases (starts_with b'-' a.text)) [
      | inr plain ↦ Accepted-command flags a (b ∷ args) settings command plain (rw plain at h)
      | inl dash ↦ elim (Option-cases (find_flag_for_name a.text flags)) [
        | inl unknown ↦
            let bad : failed unknown_flag ≡ parsed settings command =
              unfold apply_flag in (rw (dash, unknown) at h) in
            cc
        | inr (f, found) ↦
            apply_flag-Accepted flags a b f args settings command dash found
              (λ s. parse_loop-Accepted flags (b ∷ args) s command)
              (λ s. parse_loop-Accepted flags args s command) (rw (dash, found) at h)
      ]
    ]
