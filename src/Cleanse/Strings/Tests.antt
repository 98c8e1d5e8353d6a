-- ===== src/Cleanse/Strings/Tests.antt =====
-- Concrete lines with strings and characters.
use csci.Prelude.{◌≡◌, refl, Text, text}
use csci.Regex.{evaluation}
use csci.Cleanse.Strings.{
  collapse_strings, collapse, collapse_step, first_quote, digits_at_end, literal_with_separators,
  line_escapes, include_pattern,
}

abbrev line : Text
line = text "f(\"http://\", 'x', 1'000);"

collapsed_line : collapse_strings line ≡ text "f(\"\", '', 1000);"
unfolding collapse_strings collapse collapse_step first_quote digits_at_end literal_with_separators
    line_escapes include_pattern evaluation
collapsed_line = refl
