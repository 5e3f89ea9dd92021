-- ===== src/Flag/Response/RoundTrip.antt =====
-- What SquashToResponseFile moves to a file, ExpandResponseArgs of the next program reads back.
use vanilla_utilities.Base.{ℕ, ◌≡◌, true, false, List, [], ◌∷◌, map}
use vanilla_utilities.Flag.{Arg, starts_with}
use vanilla_utilities.Flag.Response.{is_space}

abbrev pub text_of : Arg → List ℕ
text_of a = a.text

abbrev pub texts : List Arg → List (List ℕ)
texts = map text_of

abbrev pub NoSpace : List ℕ → Type 0
NoSpace [] = Unit {0}
NoSpace (c ∷ text) = (is_space c ≡ false) × NoSpace text

abbrev pub NotEmpty : List ℕ → Type 0
NotEmpty [] = true ≡ false
NotEmpty (c ∷ text) = Unit {0}

-- Arguments that are neither empty nor response files, and have no blank.
abbrev pub Words : List Arg → Type 0
Words [] = Unit {0}
Words (a ∷ args) =
    (NotEmpty a.text × NoSpace a.text × (starts_with b'@' a.text ≡ false)) × Words args
