-- ===== src/Sirsetup/Loss.antt =====
-- SerialMoreTXData's blocks of 16 bytes, and the byte that is lost at the end of one.
use vanilla_utilities.Base.{
  ℕ, zero, suc, ◌+◌, ◌≤◌, ◌≡◌, refl, ap, ◌∙◌, sym, false, ◌==◌, arith, leb, length, List, [], ◌∷◌,
  ◌++◌, Bool-cases, inl, inr, length-append, ◌⊎◌,
}
use vanilla_utilities.Sirsetup.{block_loop, frame_char}

abbrev pub Plain : List ℕ → Type 0
Plain [] = Unit {0}
Plain (c ∷ bytes) = ((c == 0x70) ≡ false) × Plain bytes

-- What the blocks of a packet put on the line together.
blocks : ℕ → List ℕ → List ℕ
blocks zero bytes = []
blocks (suc k) bytes = let (block, rest) = block_loop bytes 0 in block ++ blocks k rest

block_loop-plain :
    (bytes : List ℕ) (i : ℕ)
    → Plain bytes
    → i ≤ 16
    → let (block, rest) = block_loop bytes i in
      (block ++ rest ≡ bytes) × Plain rest × ((rest ≡ []) ⊎ (i + length block ≡ 16))
unfolding block_loop
block_loop-plain [] i h hi = (refl, tt, inl refl)
block_loop-plain (c ∷ bytes) i h hi = elim (Bool-cases (leb 16 i)) [
  | inl full ↦ rw full (refl, h, inr (ground arith))
  | inr room ↦
      let (e, p, d) = block_loop-plain bytes (i + 1) h.1 (ground arith) in
      rw (room, h.0) (ap (◌∷◌ c) e, p, ground arith)
]

-- A packet without the frame character goes out as it is in SerialMoreTXData's blocks, given as
-- many blocks as it has bytes.
blocks-plain : (k : ℕ) (bytes : List ℕ) → Plain bytes → length bytes ≤ k → blocks k bytes ≡ bytes
unfolding blocks
blocks-plain zero [] h l = refl
blocks-plain zero (c ∷ bytes) h l = absurd (omega arith)
blocks-plain (suc k) bytes h l =
    let (e, p, d) = block_loop-plain bytes 0 h (omega arith) in
    let sum : length (block_loop bytes 0).0 + length (block_loop bytes 0).1 ≡ length bytes =
      sym (length-append (block_loop bytes 0).0 (block_loop bytes 0).1) ∙ ap length e in
    let short : length (block_loop bytes 0).1 ≤ k = elim d [
      | inl none ↦ rw none (omega arith)
      | inr full ↦ omega arith
    ] in
    ap (λ (l : List ℕ). (block_loop bytes 0).0 ++ l) (blocks-plain k (block_loop bytes 0).1 p short)
    ∙ e

-- The bug: a frame character that comes where a block has one place left, behind plain bytes only,
-- is lost. The block ends before it, and the next block begins behind it.
pub block_loop-lost :
    (pre rest : List ℕ) (i : ℕ)
    → Plain pre
    → i + length pre ≡ 15
    → block_loop (pre ++ frame_char ∷ rest) i ≡ (pre, rest)
unfolding block_loop
block_loop-lost [] rest i h e = let at : i ≡ 15 = omega arith in rw at refl
block_loop-lost (c ∷ pre) rest i h e =
    let room : leb 16 i ≡ false = ground arith in
    rw (room, h.0, block_loop-lost pre rest (i + 1) h.1 (omega arith)) refl
