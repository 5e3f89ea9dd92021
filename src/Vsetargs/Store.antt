-- ===== src/Vsetargs/Store.antt =====
-- lib/vsetargs.c and lib/flag.c: the arguments that SetConfig stores are those that
-- AppendBakedInArgs reads.
use vanilla_utilities.Base.{
  ℕ, zero, suc, ◌+◌, ◌<◌, ◌≤◌, ◌≡◌, ◌==◌, refl, sym, ap, ◌∙◌, arith, ltb, length, length-append,
  length-take, length-drop, take, drop, take-append, drop-append, take-add, take-append-drop,
  if◌then◌else◌, false, Bool-cases, inl, inr, List, [], ◌∷◌, ◌++◌, append_assoc, some,
}
use vanilla_utilities.Base.Words.{same_bytes}
use vanilla_utilities.Vsetargs.{
  write_args, total_len, kept_args, set_config, read_config, write_config, set_at, set_in,
}

-- `strlen(c)`, of a text that a NUL or the end of the array closes.
pub strlen : List ℕ → ℕ
strlen [] = 0
strlen (c ∷ text) = if c == 0 then 0 else suc (strlen text)

-- AppendBakedInArgs' loop, on fuel: the texts of the configuration.
pub baked_in_texts : ℕ → List ℕ → List (List ℕ)
baked_in_texts zero config = []
baked_in_texts (suc fuel) config =
    let rest = baked_in_texts fuel (drop (strlen config + 1) config) in
    if strlen config == 0 then [] else take (strlen config) config ∷ rest

-- A text of an argument: it has bytes, and none of them is NUL.
pub data IsText : List ℕ → Type 0 where
  last : (c : ℕ) → (c == 0) ≡ false → IsText (c ∷ [])
  more : {text : List ℕ} (c : ℕ) → (c == 0) ≡ false → IsText text → IsText (c ∷ text)

pub data AreTexts : List (List ℕ) → Type 0 where
  nil : AreTexts []
  cons : {a : List ℕ} {args : List (List ℕ)} → IsText a → AreTexts args → AreTexts (a ∷ args)

strlen-text : {a : List ℕ} (rest : List ℕ) → IsText a → strlen (a ++ (0 ∷ rest)) ≡ length a
unfolding strlen
strlen-text rest (last c h) = rw h refl
strlen-text rest (more c h t) = rw h (ap suc (strlen-text rest t))

text_fills : {a : List ℕ} → IsText a → 1 ≤ length a
text_fills (last c h) = omega arith
text_fills (more c h t) = omega arith

take-left : (xs ys : List ℕ) → take (length xs) (xs ++ ys) ≡ xs
take-left [] ys = refl
take-left (x ∷ xs) ys = ap (◌∷◌ x) (take-left xs ys)

drop-left : (xs ys : List ℕ) (y : ℕ) → drop (length xs + 1) (xs ++ (y ∷ ys)) ≡ ys
drop-left [] ys y = refl
drop-left (x ∷ xs) ys y =
    let next : suc (length xs) + 1 ≡ suc (length xs + 1) = omega arith in
    rw next (drop-left xs ys y)

-- What stands behind the last NUL is not read.
texts-write :
    (args : List (List ℕ)) (rest : List ℕ) (fuel : ℕ)
    → AreTexts args
    → length args < fuel
    → baked_in_texts fuel (write_args args ++ rest) ≡ args
unfolding baked_in_texts write_args strlen
texts-write args rest zero ok l = absurd (omega arith)
texts-write [] rest (suc fuel) ok l = refl
texts-write (a ∷ args) rest (suc fuel) (cons t ok) l =
    let shape = append_assoc a (0 ∷ write_args args) rest in
    let len = strlen-text (write_args args ++ rest) t in
    let some_bytes = text_fills t in
    let test : (length a == 0) ≡ false = ground arith in
    rw
      (
        shape,
        len,
        test,
        take-left a (0 ∷ (write_args args ++ rest)),
        drop-left a (write_args args ++ rest) 0,
      )
      (ap (◌∷◌ a) (texts-write args rest fuel ok (omega arith)))

length-write_args : (args : List (List ℕ)) → length (write_args args) ≡ total_len args
unfolding write_args total_len
length-write_args [] = refl
length-write_args (a ∷ args) =
    omega (arith, length-append a (0 ∷ write_args args), length-write_args args)

length-total_len : (args : List (List ℕ)) → length args < total_len args
unfolding total_len
length-total_len [] = omega arith
length-total_len (a ∷ args) = omega (arith, length-total_len args)

kept_args-AreTexts : {args : List (List ℕ)} → AreTexts args → AreTexts (kept_args args)
unfolding kept_args
kept_args-AreTexts nil = nil
kept_args-AreTexts (cons {a} t nil) = elim (Bool-cases (same_bytes a (b'-' ∷ []))) [
  | inl dash ↦ rw dash nil
  | inr other ↦ rw other (cons t nil)
]
kept_args-AreTexts (cons t (cons u ok)) = cons t (cons u ok)

take-take : (k n : ℕ) (xs : List ℕ) → k ≤ n → take k (take n xs) ≡ take k xs
take-take zero n xs h = refl
take-take (suc k) zero xs h = absurd (omega arith)
take-take (suc k) (suc n) [] h = refl
take-take (suc k) (suc n) (x ∷ xs) h = ap (◌∷◌ x) (take-take k n xs (omega arith))

module _ (args : List (List ℕ)) (file : List ℕ) (pos : ℕ) where
  old : List ℕ
  old = take 1044 (drop pos file)

  config : List ℕ
  config = write_args (kept_args args) ++ drop (total_len (kept_args args)) (drop 20 old)

  -- The file that is left.
  stored : List ℕ
  stored = take pos file ++ ((take 20 old ++ config) ++ drop (pos + 1044) file)

module _ (args : List (List ℕ)) (file : List ℕ) (pos : ℕ) (ok : AreTexts args)
    (inside : pos + 1044 ≤ length file) (fits : total_len (kept_args args) ≤ 1024) where
  old-length : length (old args file pos) ≡ 1044
  unfolding old
  old-length = omega (arith, length-take 1044 (drop pos file), length-drop pos file)

  config-length : length (config args file pos) ≡ 1024
  unfolding config
  config-length =
      let kept = kept_args args in
      omega (
        arith,
        old-length,
        length-append (write_args kept) (drop (total_len kept) (drop 20 (old args file pos))),
        length-drop (total_len kept) (drop 20 (old args file pos)),
        length-drop 20 (old args file pos),
        length-write_args kept,
      )

  read_config-old : read_config file pos ≡ some (old args file pos)
  unfolding read_config old
  read_config-old =
      let l = old-length in
      let whole : ltb (length (take 1044 (drop pos file))) 1044 ≡ false = ground arith in
      rw whole refl

  set_config-config : set_config args (drop 20 (old args file pos)) ≡ some (config args file pos)
  unfolding set_config config
  set_config-config =
      let short : ltb 1024 (total_len (kept_args args)) ≡ false = ground arith in rw short refl

  set_at-stored : set_at args file pos ≡ some (stored args file pos)
  unfolding set_at set_in write_config stored
  set_at-stored = rw (set_at, read_config-old, set_in, set_config-config) refl

  front-length : length (take pos file ++ take 20 (old args file pos)) ≡ pos + 20
  front-length = omega (
    arith,
    old-length,
    length-append (take pos file) (take 20 (old args file pos)),
    length-take pos file,
    length-take 20 (old args file pos),
  )

  stored-split :
      (stored args file pos)
      ≡ (take pos file ++ take 20 (old args file pos))
        ++ ((config args file pos) ++ drop (pos + 1044) file)
  unfolding stored
  stored-split =
      ap (λ (l : List ℕ). take pos file ++ l)
        (append_assoc (take 20 (old args file pos)) (config args file pos) (drop (pos + 1044) file))
      ∙ sym (
          append_assoc (take pos file) (take 20 (old args file pos))
            ((config args file pos) ++ drop (pos + 1044) file))

  stored-front : take (pos + 20) (stored args file pos) ≡ take (pos + 20) file
  unfolding old
  stored-front = rw stored-split (
      take-append (pos + 20) (take pos file ++ take 20 (old args file pos))
        ((config args file pos) ++ drop (pos + 1044) file) front-length
      ∙ ap (λ (l : List ℕ). take pos file ++ l) (take-take 20 1044 (drop pos file) (omega arith))
      ∙ sym (take-add pos 20 (take pos file) (drop pos file) (omega (arith, length-take pos file)))
      ∙ ap (take (pos + 20)) (take-append-drop pos file))

  stored-config :
      drop (pos + 20) (stored args file pos) ≡ (config args file pos) ++ drop (pos + 1044) file
  stored-config = rw stored-split (
      drop-append (pos + 20) (take pos file ++ take 20 (old args file pos))
        ((config args file pos) ++ drop (pos + 1044) file) front-length)

  stored-back : drop (pos + 1044) (stored args file pos) ≡ drop (pos + 1044) file
  stored-back =
      let front = take pos file ++ take 20 (old args file pos) in
      let size : length (front ++ (config args file pos)) ≡ pos + 1044 =
        omega (arith, length-append front (config args file pos), front-length, config-length) in
      rw (stored-split, ← append_assoc front (config args file pos) (drop (pos + 1044) file))
        (drop-append (pos + 1044) (front ++ (config args file pos)) (drop (pos + 1044) file) size)

  -- Arguments that are not empty and have no NUL, at most 1024 bytes with the NULs behind them,
  -- are set in a file with room for the configuration at `pos`. The program ends with a file from
  -- whose configuration the loop of AppendBakedInArgs reads the same arguments, none for a single
  -- `-`; the bytes before the configuration and behind it are those of the old file.
  pub set_at-texts :
      (file' : List ℕ) × (set_at args file pos ≡ some file')
      × (baked_in_texts 1024 (drop (pos + 20) file') ≡ kept_args args)
      × (take (pos + 20) file' ≡ take (pos + 20) file)
      × (drop (pos + 1044) file' ≡ drop (pos + 1044) file)
  unfolding config
  set_at-texts =
      let kept = kept_args args in
      let left = drop (total_len kept) (drop 20 (old args file pos)) in
      let few = length-total_len kept in
      let read = stored-config ∙ append_assoc (write_args kept) left (drop (pos + 1044) file) in
      let back =
        texts-write kept (left ++ drop (pos + 1044) file) 1024 (kept_args-AreTexts ok)
          (omega arith) in
      (
        stored args file pos,
        set_at-stored,
        ap (baked_in_texts 1024) read ∙ back,
        stored-front,
        stored-back,
      )
