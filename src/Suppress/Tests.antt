-- ===== src/Suppress/Tests.antt =====
-- Concrete lines and what they suppress.
use csci.Prelude.{◌≡◌, refl, true, false, ◌||◌, any, List, [], ◌∷◌, Text, text}
use csci.Categories.{error_categories}
use csci.Regex.{search_in, evaluation}
use csci.Suppress.{
  Suppressions, parse_nolint_suppressions, is_error_suppressed_by_nolint, nolint_pattern,
  process_global_suppressions,
}
use csci.Suppress.Lookup.{
  line_covers, parse_nolint-exact, suppressed_everywhere, line_suppresses, process_global-exact,
}

abbrev nothing : Suppressions
nothing = record { lines = []; everywhere = [] }

abbrev next_line : Text
next_line = text "f(x); // NOLINTNEXTLINE(runtime/int)"

next_line_is_read :
    (is_error_suppressed_by_nolint
        (parse_nolint_suppressions next_line 7 nothing).0
        (text "runtime/int")
        8
      ≡ true)
    × (is_error_suppressed_by_nolint
          (parse_nolint_suppressions next_line 7 nothing).0
          (text "runtime/int")
          7
        ≡ false)
    × (is_error_suppressed_by_nolint
          (parse_nolint_suppressions next_line 7 nothing).0
          (text "runtime/printf")
          8
        ≡ false)
unfolding is_error_suppressed_by_nolint parse_nolint_suppressions error_categories nolint_pattern
    evaluation
next_line_is_read = (refl, refl, refl)

parse_nolint-exact_example :
    is_error_suppressed_by_nolint
      (parse_nolint_suppressions next_line 7 nothing).0
      (text "runtime/int")
      8
    ≡ (is_error_suppressed_by_nolint nothing (text "runtime/int") 8
        || line_covers (search_in nolint_pattern next_line) 7 (text "runtime/int") 8)
parse_nolint-exact_example = parse_nolint-exact next_line 7 nothing (text "runtime/int") 8

abbrev mode_line : List Text
mode_line = text "// vim: filetype=c" ∷ []

process_global-exact_example :
    suppressed_everywhere
      (process_global_suppressions mode_line nothing)
      (text "readability/casting")
    ≡ (suppressed_everywhere nothing (text "readability/casting")
        || any (line_suppresses (text "readability/casting")) mode_line)
process_global-exact_example = process_global-exact mode_line nothing (text "readability/casting")
