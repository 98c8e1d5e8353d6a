-- ===== src/Expression/Tests.antt =====
-- Concrete expressions and their ends.
use csci.Prelude.{◌+◌, ◌≡◌, refl, List, [], ◌∷◌, some, Text, text, length}
use csci.Regex.{evaluation}
use csci.Expression.{
  close_expression, reverse_close_expression, find_end_of_expression_in_line, closed, find_end,
  forward_action, operator_at_end, shift_or_compare, close_in_lines, find_start,
  find_start_of_expression_in_line, backward_action, compare_operator, pop_all, reverse_in_lines,
}
use csci.Expression.Balanced.{Balanced, nothing, plain, nest, find_end_lem}
use csci.Expression.Backward.{close_expression-reverse}
use csci.Expression.Close.{ClosedBy, close_expression_lem}

abbrev call : Text
call = text "f(g[1], h) + (2"

argument : Balanced (text "g[1], h")
unfolding text
argument = plain refl (
    nest b'[' b']' (text "1") (text ", h") refl refl (plain refl nothing)
      (plain refl (plain refl (plain refl nothing))))

find_end_lem_example :
    find_end_of_expression_in_line call 1 [] ≡ closed (1 + length (text "g[1], h") + 2)
unfolding evaluation
find_end_lem_example =
    find_end_lem call b'(' b')' (text "g[1], h") (text " + (2") 1 refl refl argument refl

abbrev lines : List Text
lines = text "if (a <" ∷ text "    b) {" ∷ text "}" ∷ []

end_of_condition : close_expression lines 0 3 ≡ some (text "    b) {", 1, some 6)
unfolding close_expression find_end_of_expression_in_line find_end forward_action operator_at_end
    shift_or_compare close_in_lines pop_all evaluation
end_of_condition = refl

start_of_condition : reverse_close_expression lines 1 5 ≡ some (text "if (a <", 0, some 3)
unfolding reverse_close_expression find_start_of_expression_in_line find_start backward_action
    operator_at_end compare_operator reverse_in_lines pop_all evaluation
start_of_condition = refl

close_expression_lem_example : ClosedBy lines 0 3 b'(' (text "    b) {") 1 6
unfolding text
close_expression_lem_example =
    close_expression_lem lines 0 3 (text "if (a <") b'(' refl refl refl (text "    b) {") 1 6
      end_of_condition

close_expression-reverse_example :
    (close_expression (call ∷ []) 0 1
      ≡ some (call, 0, some (length (text "f") + length (text "g[1], h") + 2)))
    × (reverse_close_expression (call ∷ []) 0 (length (text "f") + length (text "g[1], h") + 1)
        ≡ some (call, 0, some 1))
unfolding text
close_expression-reverse_example =
    close_expression-reverse (call ∷ []) 0 (text "f") b'(' b')' (text "g[1], h") (text " + (2") refl
      refl refl argument
