-- ===== src/FunctionState.antt =====
-- scripts/cpplint.py: `_FunctionState`, the name of the function that is read and the lines of its
-- body. `int(math.log(n, 2))` is the integer logarithm; up to the cap of 5 the two agree.
pub mod Level
pub mod Tests
use csci.Prelude.{
  ℕ, zero, suc, ◌+◌, ◌*◌, ◌/◌, ◌^◌, Bool, true, false, List, [], ◌++◌, Text, text, ltb,
  if◌then◌else◌, decimal, min,
}
use csci.Regex.{Regex, seq, alt, group, chr, lit, match, found}
use csci.Report.{Report, report}

pub record FunctionState : Type 0 where
  pub in_a_function : Bool
  pub lines_in_function : ℕ
  pub current_function : Text

-- `_NORMAL_TRIGGER`, `_TEST_TRIGGER`
abbrev pub normal_trigger : ℕ
normal_trigger = 250

abbrev pub test_trigger : ℕ
test_trigger = 400

-- `__init__`
abbrev pub new_function_state : FunctionState
new_function_state = record { in_a_function = false; lines_in_function = 0; current_function = [] }

-- `Begin`
unfoldable pub begin : Text → FunctionState → FunctionState
begin function_name s = record {
  in_a_function = true;
  lines_in_function = 0;
  current_function = function_name;
}

-- `Count`
unfoldable pub count_line : FunctionState → FunctionState
count_line s = record s {
  lines_in_function = if s.in_a_function then s.lines_in_function + 1 else s.lines_in_function;
}

-- `T(EST|est)`
unfoldable pub test_name : Regex
unfolding lit text
test_name = seq (chr b'T') (group 1 (alt (lit (text "EST")) (lit (text "est"))))

-- The integer logarithm to the base 2; the first argument is fuel, and at least `n`.
unfoldable pub log2_fuel : ℕ → ℕ → ℕ
log2_fuel zero n = 0
log2_fuel (suc f) n = elim (ltb n 2) [ true ↦ 0 | false ↦ suc (log2_fuel f (n / 2)) ]

unfoldable pub log2 : ℕ → ℕ
unfolding log2_fuel
log2 n = log2_fuel n n

unfoldable pub base_trigger : Text → ℕ
base_trigger name = if found (match test_name name) then test_trigger else normal_trigger

-- `error_level`, with its cap.
unfoldable pub error_level : ℕ → ℕ → ℕ
error_level lines base = let level = log2 (lines / base) in if ltb 5 level then 5 else level

-- `Check`, at a verbosity.
unfoldable pub check : ℕ → ℕ → FunctionState → List Report
check verbose_level linenum s =
    let base = base_trigger s.current_function in
    let trigger = base * 2 ^ verbose_level in
    if s.in_a_function
    then (if ltb trigger s.lines_in_function
        then report linenum (text "readability/fn_size") (error_level s.lines_in_function base) (
            text "Small and focused functions are preferred: "
            ++ s.current_function
            ++ text " has "
            ++ decimal s.lines_in_function
            ++ text " non-comment lines (error triggered by exceeding "
            ++ decimal trigger
            ++ text " lines).")
        else [])
    else []

-- `End`
unfoldable pub end : FunctionState → FunctionState
end s = record s { in_a_function = false }
