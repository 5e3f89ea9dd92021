-- ===== src/Vsetargs.antt =====
-- lib/vsetargs.c: the arguments that are baked into an executable.
-- A file is the list of its bytes.
pub mod Search
pub mod Store
mod Tests
use vanilla_utilities.Base.{
  ℕ, zero, suc, ◌+◌, ◌-◌, ◌==◌, ltb, length, take, drop, replicate, if◌then◌else◌, Bool, true,
  false, ◌&&◌, List, [], ◌∷◌, ◌++◌, Option, none, some,
}
use vanilla_utilities.Base.Words.{same_bytes}

-- BAKED_IN_MAGIC1 and BAKED_IN_MAGIC2, one behind the other.
abbrev pub magic : List ℕ
magic =
    b'_' ∷ b'-' ∷ b'_' ∷ b'v' ∷ b'U' ∷ b't' ∷ b'I' ∷ b'L' ∷ b'S' ∷ b'_' ∷ b'-' ∷ b'_' ∷ b'a' ∷ b'R'
    ∷ b'g' ∷ b'S' ∷ b'_' ∷ b'-' ∷ b'_' ∷ []

abbrev pub baked_in_max_len : ℕ
baked_in_max_len = 1024

-- `!strncmp(text, prefix, strlen(prefix))`.
pub has_prefix : List ℕ → List ℕ → Bool
has_prefix [] text = true
has_prefix (c ∷ prefix) [] = false
has_prefix (c ∷ prefix) (d ∷ text) = c == d && has_prefix prefix text

-- The inner loop of FindConfigPosition: `k` places are left, from `buf[i]` on, where `text` begins.
pub window : ℕ → ℕ → List ℕ → Option ℕ
window zero i text = none
window (suc k) i text = if has_prefix magic text then some i else window k (i + 1) (drop 1 text)

-- The outer loop, on fuel; `strlen(magic)` is 19: `buf`, ftell's result, and what is left to read.
pub find_loop : ℕ → List ℕ → ℕ → List ℕ → ℕ
find_loop zero buf pos rest = 0
find_loop (suc fuel) buf pos rest =
    let next = drop 19 buf ++ take 19 rest in
    let found = window 19 0 next in
    elim (ltb (length rest) 19) [
      | true ↦ 0
      | false ↦ elim found [
        | some i ↦ pos + 19 + i - 64
        | none ↦ find_loop fuel next (pos + 19) (drop 19 rest)
      ]
    ]

-- FindConfigPosition. Each round reads 19 bytes, so that as many rounds as there are bytes are enough.
pub find_config_position : List ℕ → ℕ
find_config_position file = find_loop (suc (length file)) (replicate 64 0) 0 file

-- `config.config` with the arguments in front, each one behind the other, and the NUL behind them.
pub write_args : List (List ℕ) → List ℕ
write_args [] = 0 ∷ []
write_args (a ∷ args) = a ++ (0 ∷ write_args args)

pub total_len : List (List ℕ) → ℕ
total_len [] = 1
total_len (a ∷ args) = (length a + 1) + total_len args

-- A single `-` clears the arguments.
pub kept_args : List (List ℕ) → List (List ℕ)
kept_args [] = []
kept_args (a ∷ []) = if same_bytes a (b'-' ∷ []) then [] else a ∷ []
kept_args (a ∷ b ∷ args) = a ∷ b ∷ args

-- SetConfig, on `config.config`; `none` where the arguments are too long.
pub set_config : List (List ℕ) → List ℕ → Option (List ℕ)
set_config args config =
    let kept = kept_args args in
    if ltb baked_in_max_len (total_len kept)
    then none
    else some (write_args kept ++ drop (total_len kept) config)

-- `sizeof(struct baked_in_config)`; its `magic` has 20 bytes.
abbrev pub sizeof_config : ℕ
sizeof_config = 1044

-- ReadConfig: the bytes of the structure; `none` where the file ends before.
pub read_config : List ℕ → ℕ → Option (List ℕ)
read_config file pos =
    let bytes = take sizeof_config (drop pos file) in
    if ltb (length bytes) sizeof_config then none else some bytes

-- WriteConfig.
pub write_config : List ℕ → ℕ → List ℕ → List ℕ
write_config file pos bytes = take pos file ++ (bytes ++ drop (pos + sizeof_config) file)

pub set_in : List (List ℕ) → List ℕ → ℕ → List ℕ → Option (List ℕ)
set_in args file pos bytes = elim (set_config args (drop 20 bytes)) [
  | none ↦ none
  | some config ↦ some (write_config file pos (take 20 bytes ++ config))
]

pub set_at : List (List ℕ) → List ℕ → ℕ → Option (List ℕ)
set_at args file pos = elim (read_config file pos) [
  | none ↦ none
  | some bytes ↦ set_in args file pos bytes
]

-- The program with arguments to set; `none` where it ends with an error.
pub set_baked_in_args : List (List ℕ) → List ℕ → Option (List ℕ)
set_baked_in_args args file =
    let pos = find_config_position file in if pos == 0 then none else set_at args file pos
