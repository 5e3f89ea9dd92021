-- ===== src/Vsetargs/Search.antt =====
-- FindConfigPosition of lib/vsetargs.c finds the first place of the magic text.
use vanilla_utilities.Base.{
  ℕ, zero, suc, ◌+◌, ◌-◌, ◌<◌, ◌≤◌, ◌≡◌, ◌==◌, refl, sym, ap, ◌∙◌, arith, ltb, length,
  length-append, length-take, length-drop, take, drop, take-append-drop, replicate, if◌then◌else◌,
  Bool, true, false, ◌&&◌, ◌⊎◌, Bool-cases, Option-cases, inl, inr, List, [], ◌∷◌, ◌++◌,
  append_assoc, Option, none, some,
}
use vanilla_utilities.Vsetargs.{magic, has_prefix, window, find_loop, find_config_position}

-- The first place of the magic text, where the text begins at place `i`.
unfoldable pub first_match : List ℕ → ℕ → Option ℕ
first_match [] i = none
first_match (c ∷ text) i = if has_prefix magic (c ∷ text) then some i else first_match text (i + 1)

has_prefix-append :
    (prefix text more : List ℕ)
    → length prefix ≤ length text
    → has_prefix prefix (text ++ more) ≡ has_prefix prefix text
unfolding has_prefix
has_prefix-append [] text more h = refl
has_prefix-append (c ∷ prefix) [] more h = absurd (omega arith)
has_prefix-append (c ∷ prefix) (d ∷ text) more h =
    ap (λ (b : Bool). c == d && b) (has_prefix-append prefix text more (omega arith))

drop-append_le : (n : ℕ) (xs ys : List ℕ) → n ≤ length xs → drop n (xs ++ ys) ≡ drop n xs ++ ys
drop-append_le zero xs ys h = refl
drop-append_le (suc n) [] ys h = absurd (omega arith)
drop-append_le (suc n) (x ∷ xs) ys h = drop-append_le n xs ys (omega arith)

first_match-le : (text : List ℕ) (i j : ℕ) → first_match text i ≡ some j → i ≤ j
unfolding first_match
first_match-le [] i j h = let bad : false ≡ true = cc in absurd (ground arith)
first_match-le (c ∷ text) i j h = elim (Bool-cases (has_prefix magic (c ∷ text))) [
  | inl here ↦ let h' : some i ≡ some j = rw here at h in let e : i ≡ j = cc in omega arith
  | inr other ↦ let l = first_match-le text (i + 1) j (rw other at h) in omega arith
]

first_match-shift :
    (text : List ℕ) (i j base : ℕ)
    → first_match text i ≡ some j
    → first_match text (base + i) ≡ some (base + j)
unfolding first_match
first_match-shift [] i j base h = cc
first_match-shift (c ∷ text) i j base h = elim (Bool-cases (has_prefix magic (c ∷ text))) [
  | inl here ↦ let h' : some i ≡ some j = rw here at h in rw here (let e : i ≡ j = cc in rw e refl)
  | inr other ↦
      let next : base + i + 1 ≡ base + (i + 1) = omega arith in
      rw (other, next) (first_match-shift text (i + 1) j base (rw other at h))
]

first_match-none :
    (text : List ℕ) (i base : ℕ) → first_match text i ≡ none → first_match text (base + i) ≡ none
unfolding first_match
first_match-none [] i base h = refl
first_match-none (c ∷ text) i base h = elim (Bool-cases (has_prefix magic (c ∷ text))) [
  | inl here ↦ let h' : some i ≡ none = rw here at h in cc
  | inr other ↦
      let next : base + i + 1 ≡ base + (i + 1) = omega arith in
      rw (other, next) (first_match-none text (i + 1) base (rw other at h))
]

-- The inner loop is the search at its first `k` places.
window-first :
    (k i base : ℕ) (text more : List ℕ)
    → k + 18 ≤ length text
    → ((j : ℕ) × (window k i text ≡ some j)
        × (first_match (text ++ more) (base + i) ≡ some (base + j)))
      ⊎ ((window k i text ≡ none)
          × (first_match (text ++ more) (base + i)
              ≡ first_match (drop k (text ++ more)) (base + i + k)))
unfolding window first_match
window-first zero i base text more h =
    let same : base + i + 0 ≡ base + i = omega arith in inr (refl, rw same refl)
window-first (suc k) i base [] more h = absurd (omega arith)
window-first (suc k) i base (c ∷ text) more h =
    let seen = has_prefix-append magic (c ∷ text) more (omega arith) in
    elim (Bool-cases (has_prefix magic (c ∷ text))) [
      | inl here ↦ rw (here, seen, here) (inl (i, refl, refl))
      | inr other ↦
          let next : base + i + 1 ≡ base + (i + 1) = omega arith in
          let last : base + (i + 1) + k ≡ base + i + suc k = omega arith in
          rw (other, seen, other, next, ← last)
            (window-first k (i + 1) base text more (omega arith))
    ]

module _ (buf rest : List ℕ) (full : length buf ≡ 64) where
  next_buf : List ℕ
  next_buf = drop 19 buf ++ take 19 rest

  next_buf-split : next_buf ++ drop 19 rest ≡ drop 19 (buf ++ rest)
  unfolding next_buf
  next_buf-split =
      append_assoc (drop 19 buf) (take 19 rest) (drop 19 rest)
      ∙ ap (λ (l : List ℕ). drop 19 buf ++ l) (take-append-drop 19 rest)
      ∙ sym (drop-append_le 19 buf rest (omega arith))

  next_buf-length : 19 ≤ length rest → length next_buf ≡ 64
  unfolding next_buf
  next_buf-length h =
      omega
        (arith, length-append (drop 19 buf) (take 19 rest), length-take 19 rest, length-drop 19 buf)

-- A place of the search with 64 zeros in front of the file, as a place of the file; 0 for none.
place_of : Option ℕ → ℕ
place_of none = 0
place_of (some j) = j - 64

find_loop-first :
    (fuel : ℕ) (buf : List ℕ) (pos : ℕ) (rest : List ℕ)
    → length buf ≡ 64
    → length rest < fuel
    → ((j : ℕ) → first_match (drop 19 (buf ++ rest)) (pos + 19) ≡ some j → j ≤ pos + length rest)
    → find_loop fuel buf pos rest ≡ place_of (first_match (drop 19 (buf ++ rest)) (pos + 19))
unfolding find_loop next_buf place_of
find_loop-first zero buf pos rest full l room = absurd (omega arith)
find_loop-first (suc fuel) buf pos rest full l room = elim (Bool-cases (ltb (length rest) 19)) [
  | inl short ↦ elim (Option-cases (first_match (drop 19 (buf ++ rest)) (pos + 19))) [
    | inl gone ↦ rw (find_loop, short, gone) refl
    | inr (j, m) ↦
        let least = first_match-le (drop 19 (buf ++ rest)) (pos + 19) j m in
        let most = room j m in absurd (ground arith)
  ]
  | inr enough ↦
      let enough' : 19 ≤ length rest = ground arith in
      let nb = next_buf buf rest full in
      let size = next_buf-length buf rest full enough' in
      let split = next_buf-split buf rest full in
      let plain : pos + 19 + 0 ≡ pos + 19 = omega arith in
      elim (window-first 19 0 (pos + 19) nb (drop 19 rest) (omega arith)) [
        | inl (i, w, m) ↦ let m' = rw (split, plain) at m in rw (find_loop, enough, w, m') refl
        | inr (w, m) ↦
            let plain' : pos + 19 + 0 + 19 ≡ pos + 19 + 19 = omega arith in
            let left = length-drop 19 rest in
            let m' : first_match (drop 19 (buf ++ rest)) (pos + 19)
                ≡ first_match (drop 19 (nb ++ drop 19 rest)) (pos + 19 + 19) =
              rw (← split, ← plain, m, plain') refl in
            rw (find_loop, enough, w, m')
              (find_loop-first fuel nb (pos + 19) (drop 19 rest) size (omega arith)
                (λ j h. let r = room j (m' ∙ h) in omega arith))
      ]
]

-- The first place of the magic text in a file, 0 where it is not in it.
pub first_place : List ℕ → ℕ
first_place file = elim (first_match file 0) [ none ↦ 0 | some p ↦ p ]

zeros_first : (file : List ℕ) → first_match (replicate 45 0 ++ file) 19 ≡ first_match file 64
unfolding first_match has_prefix
zeros_first file = refl

-- FindConfigPosition, which reads a file in pieces of 19 bytes into a window of 64, gives the
-- first place where the magic text begins, 0 if there is none, in a file that has 64 bytes from
-- that place on.
pub find_config_position-first :
    (file : List ℕ)
    → ((p : ℕ) → first_match file 0 ≡ some p → p + 64 ≤ length file)
    → find_config_position file ≡ first_place file
unfolding find_config_position first_place place_of
find_config_position-first file room = elim (Option-cases (first_match file 0)) [
  | inl gone ↦
      let z = zeros_first file ∙ first_match-none file 0 64 gone in
      let loop =
        find_loop-first (suc (length file)) (replicate 64 0) 0 file refl (omega arith)
          (λ j h. let bad : none ≡ some j = sym z ∙ h in absurd (cc)) in
      let value : first_place file ≡ 0 = rw (first_place, gone) refl in
      loop ∙ ap place_of z ∙ sym value
  | inr (p, m) ↦
      let z = zeros_first file ∙ first_match-shift file 0 p 64 m in
      let r = room p m in
      let loop =
        find_loop-first (suc (length file)) (replicate 64 0) 0 file refl (omega arith) (λ j h.
          let same : some (64 + p) ≡ some j = sym z ∙ h in
          let same' : 64 + p ≡ j = cc in omega arith) in
      let value : first_place file ≡ p = rw (first_place, m) refl in
      let e : 64 + p - 64 ≡ p = omega arith in loop ∙ ap place_of z ∙ e ∙ sym value
]
