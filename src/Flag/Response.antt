-- ===== src/Flag/Response.antt =====
-- lib/flag.c: response files. The file system is a function from names to contents.
pub mod RoundTrip
pub mod Limit
use vanilla_utilities.Base.{
  ℕ, zero, suc, ◌+◌, ◌-◌, ltb, leb, ◌==◌, length, get_or, take, drop, if◌then◌else◌, Bool, true,
  false, not, ◌&&◌, ◌||◌, List, [], ◌∷◌, ◌++◌, Option, none, some,
}
use vanilla_utilities.Flag.{Arg, starts_with}

abbrev pub max_command_line_len : ℕ
max_command_line_len = 126

abbrev pub Files : Type 0
Files = List ℕ → Option (List ℕ)

-- isspace.
unfoldable pub is_space : ℕ → Bool
is_space c = c == b' ' || leb 9 c && leb c 13

-- ReadResponseFile's loops over the file: is it inside of an argument, and the argument so far?
pub read_loop : Bool → List ℕ → List ℕ → List (List ℕ)
read_loop false arg [] = []
read_loop true arg [] = arg ∷ []
read_loop inside arg (c ∷ file) =
    let rest = read_loop (not (is_space c)) (if is_space c then [] else arg ++ c ∷ []) file in
    if inside && is_space c then arg ∷ rest else rest

pub read_response_file : List ℕ → List (List ℕ)
read_response_file file = read_loop false [] file

-- The growth of its buffer: the size once a byte is stored at index `arg_len`.
pub grow : ℕ → ℕ → ℕ
grow arg_len size = if ltb size (arg_len + 1) then size + 64 else size

-- The size when `k` more bytes of an argument are stored from index `arg_len` on.
pub buffer_loop : ℕ → ℕ → ℕ → ℕ
buffer_loop zero arg_len size = size
buffer_loop (suc k) arg_len size = buffer_loop k (arg_len + 1) (grow arg_len size)

abbrev pub from_file : List (List ℕ) → List Arg
from_file [] = []
from_file (text ∷ texts) = record { text = text; place = none } ∷ from_file texts

-- ExpandResponseArgs behind the program's name, with the file for an argument that names one.
pub expand_one : Arg → Files → Option (List Arg)
expand_one a files =
    if starts_with b'@' a.text
    then (elim (files (drop 1 a.text)) [
      | none ↦ none
      | some file ↦ some (from_file (read_response_file file))
    ])
    else some (a ∷ [])

pub join_expanded : Option (List Arg) → Option (List Arg) → Option (List Arg)
join_expanded none rest = none
join_expanded (some args) none = none
join_expanded (some args) (some rest) = some (args ++ rest)

pub expand_args : List Arg → Files → Option (List Arg)
expand_args [] files = some []
expand_args (a ∷ args) files = join_expanded (expand_one a files) (expand_args args files)

-- ExpandResponseArgs: `none` is the Error about a missing file. `args[0]` is not looked at.
pub expand_response_args : List Arg → Files → Option (List Arg)
expand_response_args [] files = some []
expand_response_args (a ∷ args) files = join_expanded (some (a ∷ [])) (expand_args args files)

abbrev pub no_arg : Arg
no_arg = record { text = []; place = none }

-- SquashToResponseFile's sum over the arguments.
pub line_length : List Arg → ℕ
line_length [] = 0
line_length (a ∷ args) = 1 + length a.text + line_length args

-- The loop that removes arguments, from index `i` down, on the length of the line: where to cut.
pub cut_loop : ℕ → ℕ → List Arg → ℕ
cut_loop zero len args = 0
cut_loop (suc zero) len args = 1
cut_loop (suc (suc i)) len args =
    let a = get_or args (suc (suc i)) no_arg in
    let shorter = len - (length a.text + 1) in
    let rest = cut_loop (suc i) shorter args in
    if starts_with b'-' a.text && ltb shorter max_command_line_len then suc (suc i) else rest

-- WriteResponseFile.
pub write_response_file : List Arg → List ℕ
write_response_file [] = []
write_response_file (a ∷ args) = a.text ++ (10 ∷ write_response_file args)

abbrev pub same_text : List ℕ → List ℕ → Bool
same_text [] [] = true
same_text [] (y ∷ ys) = false
same_text (x ∷ xs) [] = false
same_text (x ∷ xs) (y ∷ ys) = x == y && same_text xs ys

abbrev pub write_file : List ℕ → List ℕ → Files → Files
write_file name file files n = if same_text n name then some file else files n

-- SquashToResponseFile, with the name that tmpnam gave.
pub cut_args : ℕ → List ℕ → List Arg → Files → List Arg × Files
cut_args i name args files = (
  take i args ++ record { text = b'@' ∷ name; place = none } ∷ [],
  write_file name (write_response_file (drop i args)) files,
)

pub squash_to_response_file : List ℕ → List Arg → Files → List Arg × Files
squash_to_response_file name args files =
    let len = line_length args in
    if leb len max_command_line_len
    then (args, files)
    else cut_args (cut_loop (length args - 1) (len + (length name + 2)) args) name args files
