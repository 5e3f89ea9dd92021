-- ===== src/Flag/Reorder/Keep.antt =====
-- The reordering for baked-in arguments moves arguments, and no more.
use vanilla_utilities.Base.{
  ℕ, ◌+◌, ◌≡◌, refl, ap, ◌∙◌, arith, Bool, false, not, ◌&&◌, ◌||◌, Bool-cases, inl, inr, List, [],
  ◌∷◌, ◌++◌, Option, none, some, count_if, count_if-append,
}
use vanilla_utilities.Flag.{Flag, Arg, find_flag_for_name}
use vanilla_utilities.Flag.Reorder.{
  is_known, takes_parameter, is_callee, behind_arg, find_callee, callee_first, move_callee,
  sort_args, reorder_args_for_baked_in,
}

-- What `find_callee` gives makes up the list.
Splits : List Arg → Option (Arg × List Arg × List Arg) → Type 0
Splits args none = Unit {0}
Splits args (some (c, before, behind)) = args ≡ before ++ (c ∷ behind)

Splits-behind_arg :
    (a : Arg) (args : List Arg) (r : Option (Arg × List Arg × List Arg))
    → Splits args r
    → Splits (a ∷ args) (behind_arg a r)
unfolding behind_arg Splits
Splits-behind_arg a args none h = tt
Splits-behind_arg a args (some (c, before, behind)) h = ap (◌∷◌ a) h

find_callee-Splits : (callee : ℕ) (args : List Arg) → Splits args (find_callee callee args)
unfolding find_callee Splits
find_callee-Splits callee [] = tt
find_callee-Splits callee (a ∷ args) = elim (Bool-cases (is_callee callee a.place)) [
  | inl here ↦ rw here refl
  | inr on ↦ rw on (Splits-behind_arg a args _ (find_callee-Splits callee args))
]

sort_args-count :
    (test : Arg → Bool) (flags : List Flag) (parameter : Bool) (args : List Arg)
    → let (own, callee_args) = sort_args flags parameter args in
      count_if test own + count_if test callee_args ≡ count_if test args
unfolding sort_args
sort_args-count test flags parameter [] = omega arith
sort_args-count test flags parameter (a ∷ args) =
    let f = find_flag_for_name a.text flags in
    let ih = sort_args-count test flags (not parameter && takes_parameter f) args in
    elim (Bool-cases (parameter || is_known f)) [
      | inl ours ↦ rw ours (omega arith)
      | inr theirs ↦ rw theirs (omega arith)
    ]

callee_first-count :
    (test : Arg → Bool) (args : List Arg) (r : Option (Arg × List Arg × List Arg))
    → Splits args r
    → count_if test (callee_first r args) ≡ count_if test args
unfolding callee_first Splits
callee_first-count test args none h = refl
callee_first-count test args (some (c, before, behind)) h = omega (
  arith,
  ap (count_if test) h,
  count_if-append test before behind,
  count_if-append test before (c ∷ behind),
)

move_callee-count :
    (test : Arg → Bool) (callee : Option ℕ) (args : List Arg)
    → count_if test (move_callee callee args) ≡ count_if test args
unfolding move_callee
move_callee-count test none args = refl
move_callee-count test (some callee) args =
    callee_first-count test args (find_callee callee args) (find_callee-Splits callee args)

-- ReorderArgsForBakedIn only reorders: as many arguments as before pass any given test.
reorder_args-count :
    (test : Arg → Bool) (flags : List Flag) (callee : Option ℕ) (args : List Arg)
    → count_if test (reorder_args_for_baked_in flags callee args) ≡ count_if test args
unfolding reorder_args_for_baked_in
reorder_args-count test flags callee args =
    let (own, callee_args) = sort_args flags false (move_callee callee args) in
    count_if-append test own callee_args
    ∙ sort_args-count test flags false (move_callee callee args)
    ∙ move_callee-count test callee args
