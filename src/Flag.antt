-- ===== src/Flag.antt =====
-- lib/flag.c: the flags that a program registers, and the list of its command line's arguments. A text is
-- the list of its bytes. An array of arguments that ends in NULL is a list.
pub mod Response
pub mod Reorder
pub mod Number
pub mod Parse
mod Tests
use vanilla_utilities.Base.{
  ℕ, ◌+◌, ltb, leb, ◌==◌, if◌then◌else◌, Bool, true, false, ◌&&◌, List, [], ◌∷◌, ◌++◌, Option, none,
  some,
}

-- `enum flag_type`.
pub data FlagType : Type 0 where
  bool_flag string_flag unsigned_int_flag int_flag api_pointer_flag : FlagType

-- `struct flag`. The variable that it sets is known by the flag's name.
pub record Flag : Type 0 where
  pub type : FlagType
  pub name : List ℕ

-- An argument. `place` is the index in `argv` of an argument that was given by the user: what makes
-- two pointers to equal texts differ.
pub record Arg : Type 0 where
  pub text : List ℕ
  pub place : Option ℕ

abbrev pub is_bool : FlagType → Bool
is_bool bool_flag = true
is_bool _ = false

abbrev pub is_api_pointer : FlagType → Bool
is_api_pointer api_pointer_flag = true
is_api_pointer _ = false

-- `text[0] == c`, for a `c` that is not NUL.
unfoldable pub starts_with : ℕ → List ℕ → Bool
starts_with c [] = false
starts_with c (b ∷ text) = b == c

unfoldable pub to_lower : ℕ → ℕ
to_lower c = if leb b'A' c && leb c b'Z' then c + 32 else c

-- `!strcasecmp(a, b)`.
unfoldable pub same_name : List ℕ → List ℕ → Bool
unfolding to_lower
same_name [] [] = true
same_name [] (y ∷ ys) = false
same_name (x ∷ xs) [] = false
same_name (x ∷ xs) (y ∷ ys) = to_lower x == to_lower y && same_name xs ys

-- FindFlagForName.
pub find_flag_for_name : List ℕ → List Flag → Option Flag
find_flag_for_name name [] = none
find_flag_for_name name (f ∷ flags) =
    if same_name f.name name then some f else find_flag_for_name name flags
