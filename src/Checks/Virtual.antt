-- ===== src/Checks/Virtual.antt =====
-- `CheckRedundantVirtual` and `CheckRedundantOverrideOrFinal` of scripts/cpplint.py.
use csci.Prelude.{
  ℕ, suc, not, List, Option, none, some, Text, text, ltb, if◌then◌else◌, length, take, drop, get_or,
  contains, is_space, is_word, text_keys, [], ◌∷◌, ◌++◌, ◌+◌, ◌-◌, ◌==◌, ◌&&◌, ◌||◌, nat_eq,
}
use csci.Regex.{
  Regex, Found, match, search_in, found, group_text, one, seq, alt, star, plus, group, chr, lit,
  dot, boundary, at_start, at_end,
}
use csci.Report.{Report, report, report_if}
use csci.Cleanse.Lines.{CleansedLines}
use csci.Expression.{Place, close_expression}

-- `^(.*)(\bvirtual\b)(.*)$`
unfoldable pub virtual_pattern : Regex
unfolding lit text
virtual_pattern = seq at_start (
    seq (group 1 (star dot)) (
      seq (group 2 (seq boundary (seq (lit (text "virtual")) boundary)))
        (seq (group 3 (star dot)) at_end)))

-- `\b(public|protected|private)\s+$`
unfoldable pub access_before : Regex
unfolding lit text
access_before = seq boundary (
    seq
      (group 1 (
        seq (chr b'p')
          (alt (lit (text "ublic")) (alt (lit (text "rotected")) (lit (text "rivate"))))))
      (seq (plus (one is_space)) at_end))

-- `^\s+(public|protected|private)\b`
unfoldable pub access_after : Regex
unfolding lit text
access_after = seq at_start (
    seq (plus (one is_space)) (
      seq
        (group 1 (
          seq (chr b'p')
            (alt (lit (text "ublic")) (alt (lit (text "rotected")) (lit (text "rivate"))))))
        boundary))

-- `^.*[^:]:[^:].*$`
unfoldable pub single_colon : Regex
single_colon = seq at_start (
    seq (star dot) (
      seq (one (λ c. not (c == b':')))
        (seq (chr b':') (seq (one (λ c. not (c == b':'))) (seq (star dot) at_end)))))

-- `^([^(]*)\(`
unfoldable pub parameter_list : Regex
parameter_list = seq at_start (seq (group 1 (star (one (λ c. not (c == b'('))))) (chr b'('))

-- `\b(override|final)\b`
unfoldable pub override_or_final : Regex
unfolding lit text
override_or_final =
    seq boundary (seq (group 1 (alt (lit (text "override")) (lit (text "final")))) boundary)

-- `[^\w]\s*$`
unfoldable pub declaration_stops : Regex
declaration_stops = seq (one (λ c. not (is_word c))) (seq (star (one is_space)) at_end)

-- The loop for the next opening parenthesis: its line and column.
unfoldable pub find_parameters : ℕ → ℕ → List Text → Option (ℕ × ℕ)
find_parameters start_line start_col [] = none
find_parameters start_line start_col (line ∷ lines) =
    elim (match parameter_list (drop start_col line)) [
      | some m ↦ some (start_line, start_col + length (group_text 1 m))
      | none ↦ find_parameters (suc start_line) 0 lines
    ]

abbrev pub inheritance_report : ℕ → Option Found → List Report
inheritance_report linenum none = []
inheritance_report linenum (some m) = report linenum (text "readability/inheritance") 4 (
    text "\"virtual\" is redundant since function is already declared as \""
    ++ group_text 1 m
    ++ text "\"")

-- The loop for `override` or `final` behind the parameters.
unfoldable pub find_specifiers : ℕ → ℕ → List Text → List Report
find_specifiers linenum end_col [] = []
find_specifiers linenum end_col (l ∷ lines) =
    let line = drop end_col l in
    let rest = find_specifiers linenum 0 lines in
    inheritance_report linenum (search_in override_or_final line)
    ++ (if found (search_in declaration_stops line) then [] else rest)

abbrev pub behind_parameters : ℕ → List Text → Option Place → List Report
behind_parameters linenum elided none = []
behind_parameters linenum elided (some (line, end_line, none)) = []
behind_parameters linenum elided (some (line, end_line, some end_col)) =
    find_specifiers linenum end_col (take 3 (drop end_line elided))

abbrev pub from_parameters : ℕ → List Text → Option (ℕ × ℕ) → List Report
from_parameters linenum elided none = []
from_parameters linenum elided (some (start_line, column)) =
    behind_parameters linenum elided (close_expression elided start_line column)

abbrev pub redundant_virtual_in : List Text → ℕ → Text → Option Found → List Report
redundant_virtual_in elided linenum line none = []
redundant_virtual_in elided linenum line (some m) =
    if found (search_in access_before (group_text 1 m))
      || found (match access_after (group_text 3 m))
    then []
    else if found (match single_colon line)
    then []
    else from_parameters linenum elided
        (find_parameters linenum (length (group_text 2 m)) (take 3 (drop linenum elided)))

-- `CheckRedundantVirtual`. The search for the parameters begins at the column that is the length of the
-- word `virtual`, as in the source.
unfoldable pub check_redundant_virtual : CleansedLines → ℕ → List Report
unfolding find_parameters find_specifiers
check_redundant_virtual clean_lines linenum =
    let line = get_or clean_lines.elided linenum [] in
    redundant_virtual_in clean_lines.elided linenum line (match virtual_pattern line)

-- `\boverride\b`
unfoldable pub override_word : Regex
unfolding lit text
override_word = seq boundary (seq (lit (text "override")) boundary)

-- `\bfinal\b`
unfoldable pub final_word : Regex
unfolding lit text
final_word = seq boundary (seq (lit (text "final")) boundary)

-- The text from the last closing parenthesis of a line on.
unfoldable pub from_last_parenthesis : Text → Option Text
from_last_parenthesis [] = none
from_last_parenthesis (c ∷ s) = elim (from_last_parenthesis s) [
  | some t ↦ some t
  | none ↦ if c == b')' then some (c ∷ s) else none
]

-- The part of the line in which the specifiers stand, if a declarator ends nearby.
abbrev pub fragment_of : List Text → ℕ → Text → Option Text → Option Text
fragment_of elided linenum line (some fragment) = some fragment
fragment_of elided linenum line none =
    if ltb 1 linenum && contains b')' (get_or elided (linenum - 1) []) then some line else none

abbrev pub both_specifiers : ℕ → Option Text → List Report
both_specifiers linenum none = []
both_specifiers linenum (some fragment) =
    report_if (found (search_in override_word fragment) && found (search_in final_word fragment)) (
      report linenum (text "readability/inheritance") 4 (
        text "\"override\" is redundant since function is "
        ++ text "already declared as \"final\""))

-- `CheckRedundantOverrideOrFinal`
unfoldable pub check_redundant_override_or_final : CleansedLines → ℕ → List Report
unfolding from_last_parenthesis
check_redundant_override_or_final clean_lines linenum =
    let line = get_or clean_lines.elided linenum [] in
    both_specifiers linenum
      (fragment_of clean_lines.elided linenum line (from_last_parenthesis line))
