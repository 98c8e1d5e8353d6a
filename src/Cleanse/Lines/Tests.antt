-- ===== src/Cleanse/Lines/Tests.antt =====
-- A file with a raw string over two lines.
use csci.Prelude.{◌≡◌, refl, List, [], ◌∷◌, Text, text}
use csci.Regex.{evaluation}
use csci.Cleanse.RawStrings.{
  cleanse_raw_strings, cleanse_from, raw_line, raw_loop, raw_end, raw_string_start, in_line_comment,
  leading_space,
}
use csci.Cleanse.Lines.{new_cleansed_lines}
use csci.Cleanse.Lines.Aligned.{IsAligned, new_cleansed_lines-IsAligned}

abbrev file : List Text
file = text "x = R\"a(one" ∷ text "  two)a\";" ∷ text "}" ∷ []

without_raw_strings : cleanse_raw_strings file ≡ text "x = \"\"" ∷ text "  \"\";" ∷ text "}" ∷ []
unfolding cleanse_raw_strings cleanse_from raw_line raw_loop raw_end raw_string_start
    in_line_comment leading_space evaluation
without_raw_strings = refl

new_cleansed_lines-IsAligned_example : IsAligned (new_cleansed_lines file)
new_cleansed_lines-IsAligned_example = new_cleansed_lines-IsAligned file
