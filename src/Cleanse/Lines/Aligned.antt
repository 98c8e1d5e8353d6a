-- ===== src/Cleanse/Lines/Aligned.antt =====
-- The lists of a `CleansedLines` speak of the same lines.
use csci.Prelude.{◌≡◌, refl, ap, ◌∙◌, List, [], ◌∷◌, Option, none, Text, length, map, suc}
use csci.Cleanse.RawStrings.{cleanse_from, cleanse_raw_strings, raw_line, enter}
use csci.Cleanse.Lines.{CleansedLines, new_cleansed_lines}

length-cleanse_from :
    (delimiter : Option Text) (lines : List Text)
    → length (cleanse_from delimiter lines) ≡ length lines
unfolding cleanse_from
length-cleanse_from delimiter [] = refl
length-cleanse_from delimiter (line ∷ lines) =
    ap suc (length-cleanse_from (raw_line (enter delimiter line)).1 lines)

length-map : {A B : Type 0} (f : A → B) (xs : List A) → length (map f xs) ≡ length xs
length-map f [] = refl
length-map f (x ∷ xs) = ap suc (length-map f xs)

-- Every list has as many lines as the object counts.
abbrev pub IsAligned : CleansedLines → Type 0
IsAligned c =
    (length c.raw_lines ≡ c.num_lines)
    × (length c.lines_without_raw_strings ≡ c.num_lines)
    × (length c.lines ≡ c.num_lines)
    × (length c.elided ≡ c.num_lines)

-- The raw lines, those without raw strings, those without comments and the elided ones of a
-- `CleansedLines` are as many as the lines of the file.
pub new_cleansed_lines-IsAligned : (lines : List Text) → IsAligned (new_cleansed_lines lines)
unfolding new_cleansed_lines cleanse_raw_strings
new_cleansed_lines-IsAligned lines =
    let without_raw = length-cleanse_from none lines in
    (
      refl,
      without_raw,
      length-map _ (cleanse_raw_strings lines) ∙ without_raw,
      length-map _ (cleanse_raw_strings lines) ∙ without_raw,
    )
