-- ===== src/Base/Words.antt =====
-- Bytes, 16-bit and 32-bit words in memory, and the comparisons of the C library.
use Prim.Native.Nat.{ℕ, ◌+◌, ◌*◌, ◌/◌, ◌%◌, ◌^◌}
use mathlib.Core.Path.{◌≡◌, refl}
use mathlib.Core.Bool.{Bool, true, false, not, ◌&&◌, ◌||◌}
use mathlib.Core.List.{List, [], ◌∷◌, ◌++◌}
use native.Mathlib.Omega.{arith}
use vanilla_utilities.Base.Tests.{ltb, ◌==◌}
use vanilla_utilities.Base.Lists.{get_or}

-- Words of 16 and 32 bits in a buffer, low byte first.
abbrev pub word16 : List ℕ → ℕ → ℕ
word16 bytes i = get_or bytes i 0 + get_or bytes (i + 1) 0 * 2 ^ 8

abbrev pub word32 : List ℕ → ℕ → ℕ
word32 bytes i = word16 bytes i + word16 bytes (i + 2) * 2 ^ 16

abbrev pub bytes16 : ℕ → List ℕ
bytes16 w = (w % 2 ^ 8) ∷ (w / 2 ^ 8 % 2 ^ 8) ∷ []

abbrev pub bytes32 : ℕ → List ℕ
bytes32 w = bytes16 w ++ bytes16 (w / 2 ^ 16)

-- `a < b` for 16-bit and for 32-bit signed words.
abbrev pub lt16 : ℕ → ℕ → Bool
lt16 a b = ltb ((a + 2 ^ 15) % 2 ^ 16) ((b + 2 ^ 15) % 2 ^ 16)

abbrev pub lt32 : ℕ → ℕ → Bool
lt32 a b = ltb ((a + 2 ^ 31) % 2 ^ 32) ((b + 2 ^ 31) % 2 ^ 32)

-- `memcmp(a, b, n) > 0` and `memcmp(a, b, n) == 0`, for the same number of bytes.
unfoldable pub memcmp_above : List ℕ → List ℕ → Bool
memcmp_above [] ys = false
memcmp_above (x ∷ xs) [] = true
memcmp_above (x ∷ xs) (y ∷ ys) = ltb y x || x == y && memcmp_above xs ys

unfoldable pub same_bytes : List ℕ → List ℕ → Bool
same_bytes [] [] = true
same_bytes [] (y ∷ ys) = false
same_bytes (x ∷ xs) [] = false
same_bytes (x ∷ xs) (y ∷ ys) = x == y && same_bytes xs ys

pub memcmp_above-not :
    (xs ys : List ℕ) → same_bytes xs ys ≡ false → memcmp_above ys xs ≡ not (memcmp_above xs ys)
unfolding memcmp_above same_bytes
memcmp_above-not [] [] h = absurd (ground arith)
memcmp_above-not [] (y ∷ ys) h = ground arith
memcmp_above-not (x ∷ xs) [] h = ground arith
memcmp_above-not (x ∷ xs) (y ∷ ys) h = ground (arith, memcmp_above-not xs ys)

pub memcmp_above_irrefl : (xs : List ℕ) → memcmp_above xs xs ≡ false
unfolding memcmp_above
memcmp_above_irrefl [] = ground arith
memcmp_above_irrefl (x ∷ xs) = ground (arith, memcmp_above_irrefl xs)

pub memcmp_above_trans :
    (xs ys zs : List ℕ)
    → memcmp_above xs ys ≡ true
    → memcmp_above ys zs ≡ true
    → memcmp_above xs zs ≡ true
unfolding memcmp_above
memcmp_above_trans [] ys zs h k = h
memcmp_above_trans (x ∷ xs) [] zs h k = absurd (ground arith)
memcmp_above_trans (x ∷ xs) (y ∷ ys) [] h k = ground arith
memcmp_above_trans (x ∷ xs) (y ∷ ys) (z ∷ zs) h k = ground (arith, memcmp_above_trans xs ys zs)

pub same_bytes-sym : (xs ys : List ℕ) → same_bytes xs ys ≡ same_bytes ys xs
unfolding same_bytes
same_bytes-sym [] [] = ground arith
same_bytes-sym [] (y ∷ ys) = ground arith
same_bytes-sym (x ∷ xs) [] = ground arith
same_bytes-sym (x ∷ xs) (y ∷ ys) = ground (arith, same_bytes-sym xs ys)

pub same_bytes-eq : (xs ys : List ℕ) → same_bytes xs ys ≡ true → xs ≡ ys
unfolding same_bytes
same_bytes-eq [] [] h = refl
same_bytes-eq [] (y ∷ ys) h = ground arith
same_bytes-eq (x ∷ xs) [] h = ground arith
same_bytes-eq (x ∷ xs) (y ∷ ys) h = ground (arith, same_bytes-eq xs ys)

pub same_bytes_refl : (xs : List ℕ) → same_bytes xs xs ≡ true
unfolding same_bytes
same_bytes_refl [] = refl
same_bytes_refl (x ∷ xs) = ground (arith, same_bytes_refl xs)
