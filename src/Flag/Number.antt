-- ===== src/Flag/Number.antt =====
-- lib/flag.c: MustParseInt, with what `strtol` of the C library does for it. `long` has 32 bits, and
-- `int` 16.
use vanilla_utilities.Base.{
  ℕ, ◌+◌, ◌-◌, ◌*◌, ◌^◌, ◌%◌, ltb, leb, ◌==◌, if◌then◌else◌, Bool, true, false, not, ◌&&◌, ◌||◌,
  List, [], ◌∷◌, min,
}
use vanilla_utilities.Flag.{FlagType, unsigned_int_flag, starts_with}
use vanilla_utilities.Flag.Response.{is_space}

-- A `long`: is it negative, and its absolute value?
pub record Long : Type 0 where
  pub negative : Bool
  pub size : ℕ

-- The value of a digit in any base; 36 is none.
abbrev pub digit_value : ℕ → ℕ
digit_value c =
    if leb b'0' c && leb c b'9'
    then c - b'0'
    else if leb b'a' c && leb c b'z'
    then c - b'a' + 10
    else if leb b'A' c && leb c b'Z'
    then c - b'A' + 10
    else 36

-- The digits at the front of a text: their value behind `acc`, and what follows them.
pub scan_digits : ℕ → ℕ → List ℕ → ℕ × List ℕ
scan_digits base acc [] = (acc, [])
scan_digits base acc (c ∷ text) =
    let rest = scan_digits base (acc * base + digit_value c) text in
    if ltb (digit_value c) base then rest else (acc, c ∷ text)

pub skip_spaces : List ℕ → List ℕ
skip_spaces [] = []
skip_spaces (c ∷ text) = let rest = skip_spaces text in if is_space c then rest else c ∷ text

abbrev pub has_digit : ℕ → List ℕ → Bool
has_digit base [] = false
has_digit base (c ∷ text) = ltb (digit_value c) base

-- `strtol` behind the sign: is there a number, its value and what follows it. Base 0 is
-- read off the prefix.
pub scan_number : ℕ → List ℕ → Bool × ℕ × List ℕ
scan_number base text =
    let (value, rest) = scan_digits base 0 text in (has_digit base text, value, rest)

pub scan_prefixed : List ℕ → Bool × ℕ × List ℕ
scan_prefixed (z ∷ x ∷ text) =
    if z == b'0' && (x == b'x' || x == b'X') && has_digit 16 text
    then scan_number 16 text
    else if z == b'0'
    then scan_number 8 (z ∷ x ∷ text)
    else scan_number 10 (z ∷ x ∷ text)
scan_prefixed text = scan_number (if starts_with b'0' text then 8 else 10) text

-- Values out of range become LONG_MAX or LONG_MIN.
abbrev pub long_of : Bool → ℕ → Long
long_of negative value = record {
  negative = negative;
  size = min value (if negative then 2 ^ 31 else 2 ^ 31 - 1);
}

abbrev pub after_sign : (List ℕ → Bool × ℕ × List ℕ) → List ℕ → Bool × Long × List ℕ
after_sign scan [] = (false, long_of false 0, [])
after_sign scan (c ∷ text) =
    let (found, value, rest) = scan (if c == b'-' || c == b'+' then text else c ∷ text) in
    (found, long_of (c == b'-') value, rest)

-- `strtol(text, &endptr, 0)` and `strtol(text, NULL, 10)`.
pub strtol_0 : List ℕ → Bool × Long × List ℕ
strtol_0 text = after_sign scan_prefixed (skip_spaces text)

pub strtol_10 : List ℕ → Long
strtol_10 text = (after_sign (scan_number 10) (skip_spaces text)).1

pub data IntResult : Type 0 where
  invalid out_of_range : IntResult
  word : ℕ → IntResult

-- The range of a flag's type.
abbrev pub in_range : FlagType → Long → Bool
in_range unsigned_int_flag l = if l.negative then l.size == 0 else leb l.size 65535
in_range _ l = if l.negative then leb l.size 32768 else leb l.size 32767

abbrev pub is_end : List ℕ → Bool
is_end [] = true
is_end (c ∷ text) = false

-- MustParseInt, with the 16 bits of the `int`.
unfoldable pub must_parse_int : FlagType → List ℕ → IntResult
unfolding strtol_0 scan_prefixed scan_number scan_digits skip_spaces
must_parse_int type text =
    let (found, l, rest) = strtol_0 text in
    if not (found && is_end rest)
    then invalid
    else if in_range type l
    then word (if l.negative then (2 ^ 16 - l.size) % 2 ^ 16 else l.size)
    else out_of_range
