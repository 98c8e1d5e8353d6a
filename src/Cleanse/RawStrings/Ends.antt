-- ===== src/Cleanse/RawStrings/Ends.antt =====
-- The inner loop of `CleanseRawStrings` ends.
use csci.Prelude.{
  ℕ, ◌+◌, ◌≡◌, ◌⊎◌, Bool, true, false, List, ◌++◌, Option, none, some, Text, text, length, drop,
  find,
}
use csci.Regex.{Regex, seq, alt, boundary, lit, chr, Cursor, Found, match, found, group_text}
use csci.Cleanse.RawStrings.{raw_string_start, in_line_comment, raw_loop}

-- What stands between the head of the line and the delimiter.
abbrev raw_quote : Regex
raw_quote = seq boundary (
    seq
      (alt (lit (text "R"))
        (alt (lit (text "u8R")) (alt (lit (text "uR")) (alt (lit (text "UR")) (lit (text "LR"))))))
      (chr b'"'))

abbrev groups_at : Cursor → List (ℕ × Text)
groups_at k = k.groups

abbrev left : Cursor → ℕ
left k = length k.rest

abbrev delimiter_of : Found → Text
delimiter_of m = text ")" ++ group_text 2 m ++ text "\""

-- The line with the raw string that ends at the index replaced.
abbrev replaced : Found → ℕ → Text
replaced m end =
    group_text 1 m ++ text "\"\"" ++ drop (end + length (delimiter_of m)) (group_text 3 m)

-- A round behind a match, with the results that it branches on as arguments.
abbrev round : ℕ → Text → Found → Bool → Option ℕ → Option (Text × Option Text)
round fuel line m in_comment ends = elim in_comment as (λ _. Option (Text × Option Text)) [
  | true ↦ some (line, none)
  | false ↦ elim ends as (λ _. Option (Text × Option Text)) [
    | some end ↦ raw_loop fuel (replaced m end)
    | none ↦ some (group_text 1 m ++ text "\"\"", some (delimiter_of m))
  ]
]

abbrev in_comment : Found → Bool
in_comment m = found (match in_line_comment (group_text 1 m))

-- What the tests that end the loop say of a line and its delimiter: no raw string begins on it, or one
-- that does begins in a comment, or the last one does not end on it.
abbrev pub IsCleansed : Text × Option Text → Type 0
IsCleansed (line, some delimiter) =
    (m : Found) × (delimiter ≡ delimiter_of m)
    × (find (group_text 3 m) delimiter ≡ none)
    × (line ≡ group_text 1 m ++ text "\"\"")
IsCleansed (line, none) =
    (match raw_string_start line ≡ none)
    ⊎ ((m : Found) × (match raw_string_start line ≡ some m) × (in_comment m ≡ true))

-- A result of the loop by its own tests.
abbrev Done : Option (Text × Option Text) → Type 0
Done o = (r : Text × Option Text) × (o ≡ some r) × IsCleansed r
