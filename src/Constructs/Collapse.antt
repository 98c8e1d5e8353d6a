-- ===== src/Constructs/Collapse.antt =====
-- The loops of `CheckForNonStandardConstructs` of scripts/cpplint.py that put back together the arguments
-- of a constructor which the commas of their own brackets cut in two.
use csci.Prelude.{
  ℕ, ◌+◌, Bool, true, false, ◌||◌, ◌==◌, ltb, List, [], ◌∷◌, ◌++◌, Option, some, none, Text,
  if◌then◌else◌,
}

-- `s.count(c)` for one character.
unfoldable pub occurrences : ℕ → Text → ℕ
occurrences c [] = 0
occurrences c (a ∷ s) = (if a == c then 1 else 0) + occurrences c s

-- The test of the inner loop: an angle bracket or a parenthesis of the argument is still open.
unfoldable pub is_cut : Text → Bool
unfolding occurrences
is_cut arg =
    ltb (occurrences b'>' arg) (occurrences b'<' arg)
    || ltb (occurrences b')' arg) (occurrences b'(' arg)

abbrev pub prepend : Text → Option (List Text) → Option (List Text)
prepend arg none = none
prepend arg (some args) = some (arg ∷ args)

-- Both loops, from the argument that is being put together on, with the ones behind it; `none` where the
-- index of the next argument is out of range.
unfoldable pub collapse_from : Text → List Text → Option (List Text)
unfolding is_cut
collapse_from arg [] = if is_cut arg then none else some (arg ∷ [])
collapse_from arg (next ∷ args) = elim (is_cut arg) [
  | true ↦ collapse_from (arg ++ b',' ∷ next) args
  | false ↦ prepend arg (collapse_from next args)
]

unfoldable pub collapse_arguments : List Text → Option (List Text)
unfolding collapse_from
collapse_arguments [] = some []
collapse_arguments (arg ∷ args) = collapse_from arg args
