-- ===== src/Checks/Tests.antt =====
-- Lines with missing and mismatching spaces.
use csci.Prelude.{◌≡◌, refl, [], ◌∷◌, ◌++◌, Text, text}
use csci.Regex.{evaluation}
use csci.Report.{report}
use csci.Cleanse.Lines.{CleansedLines}
use csci.Checks.Spacing.{
  no_space_before, spaced_condition, for_without_step, operator_comma, tight_comma, tight_semicolon,
  check_parenthesis_spacing, check_comma_spacing,
}

abbrev one_line : Text → CleansedLines
one_line s = record {
  elided = s ∷ [];
  lines = s ∷ [];
  raw_lines = s ∷ [];
  lines_without_raw_strings = s ∷ [];
  num_lines = 1;
}

mismatching :
    check_parenthesis_spacing (one_line (text "  if (  ab ) {")) 0
    ≡ report 0 (text "whitespace/parens") 5 (text "Mismatching spaces inside () in if")
      ++ report 0
          (text "whitespace/parens")
          5
          (text "Should have zero or one spaces inside ( and ) in if")
unfolding check_parenthesis_spacing no_space_before spaced_condition for_without_step evaluation
mismatching = refl

-- The pattern wants two characters between the spaces: for one, the first of the spaces before it is
-- taken for the other, and is not counted.
one_letter : check_parenthesis_spacing (one_line (text "  if ( a) {")) 0 ≡ []
unfolding check_parenthesis_spacing no_space_before spaced_condition for_without_step evaluation
one_letter = refl

without_step : check_parenthesis_spacing (one_line (text "  for (a; b; ) {")) 0 ≡ []
unfolding check_parenthesis_spacing no_space_before spaced_condition for_without_step evaluation
without_step = refl

own_comma : check_comma_spacing (one_line (text "T operator,(T a, T b);")) 0 ≡ []
unfolding check_comma_spacing operator_comma tight_comma tight_semicolon evaluation
own_comma = refl

tight :
    check_comma_spacing (one_line (text "f(a,b);")) 0
    ≡ report 0 (text "whitespace/comma") 3 (text "Missing space after ,")
unfolding check_comma_spacing operator_comma tight_comma tight_semicolon evaluation
tight = refl
