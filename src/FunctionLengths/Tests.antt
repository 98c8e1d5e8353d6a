-- ===== src/FunctionLengths/Tests.antt =====
-- A short function.
use csci.Prelude.{
  ◌*◌, ◌^◌, ◌≤◌, ◌<◌, ◌≡◌, ◌≢◌, refl, ◌↔◌, true, false, List, [], ◌∷◌, Text, text, All, min,
}
use csci.Regex.{evaluation}
use csci.Cleanse.Lines.{CleansedLines}
use csci.FunctionState.{new_function_state, base_trigger, begin, count_line}
use csci.FunctionLengths.{
  check_for_function_lengths, starts_function, declaration, macro_name, find_body, function_title,
  name_in_call, test_macro, parameters, function_end, blank_line,
}
use csci.FunctionLengths.Bodies.{
  line_of, check_lines, IsBodyLine, IsEndLine, Starts, code_lines, function_length_lem,
}

abbrev source : List Text
source = text "TEST(Clock, Ticks) {" ∷ text "  a();" ∷ [] ∷ text "  b();" ∷ text "}" ∷ []

abbrev file : CleansedLines
file = record {
  elided = source;
  lines = source;
  raw_lines = source;
  num_lines = 5;
  lines_without_raw_strings = source;
}

abbrev first_line : Text
first_line = text " TEST(Clock, Ticks) {"

starts : Starts file 0 first_line
unfolding starts_function declaration macro_name find_body evaluation
starts = (refl, refl)

inside : All (λ n. IsBodyLine (line_of file n)) (1 ∷ 2 ∷ 3 ∷ [])
unfolding starts_function declaration macro_name function_end evaluation
inside = ((refl, refl), ((refl, refl), ((refl, refl), tt)))

ends : IsEndLine (line_of file 4)
unfolding starts_function declaration macro_name function_end evaluation
ends = (refl, refl)

state_inside : (check_lines 0 file (0 ∷ 1 ∷ 2 ∷ 3 ∷ []) new_function_state).1 ≡ record {
  in_a_function = true;
  lines_in_function = 2;
  current_function = text "TEST(Clock, Ticks)";
}
unfolding check_for_function_lengths starts_function declaration macro_name find_body function_title
    name_in_call test_macro parameters function_end blank_line begin count_line evaluation
state_inside = refl

function_length_lem_example :
    (((check_lines 0 file (0 ∷ 1 ∷ 2 ∷ 3 ∷ 4 ∷ []) new_function_state).0 ≢ []) ↔ (
      base_trigger (function_title (line_of file 0) first_line) * 2 ^ 0
      < code_lines file (1 ∷ 2 ∷ 3 ∷ [])))
    × All
        (λ r. (r.linenum ≡ 4) × (min 0 5 ≤ r.confidence) × (r.confidence ≤ 5))
        (check_lines 0 file (0 ∷ 1 ∷ 2 ∷ 3 ∷ 4 ∷ []) new_function_state).0
    × ((check_lines 0 file (0 ∷ 1 ∷ 2 ∷ 3 ∷ 4 ∷ []) new_function_state).1.in_a_function ≡ false)
function_length_lem_example =
    function_length_lem 0 file 0 (1 ∷ 2 ∷ 3 ∷ []) 4 first_line new_function_state starts inside ends
