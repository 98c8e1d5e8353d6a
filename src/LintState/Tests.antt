-- ===== src/LintState/Tests.antt =====
-- A run of the linter's state on concrete filters and reports.
use csci.Prelude.{◌↔◌, All, List, strip, split_on}
use csci.LintState.Added.{IsFilter, add_filters-IsFilter}
use csci.Prelude.{◌≤◌, ◌≡◌, refl, ◌↔◌, Bool, true, false, List, [], ◌∷◌, text, split_on}
use csci.Report.{Report}
use csci.Suppress.{Suppressions, is_error_suppressed_by_nolint}
use csci.Regex.{evaluation}
use csci.LintState.{
  LintState, returned, init, reset_error_counts, toplevel, add_filters, should_print_error, error,
  top_level, bump, print_error_counts, category_lines, filter_loop, increment_error_count,
}
use csci.LintState.Filters.{AllSigned, LastRejects, should_print_error_iff}
use csci.LintState.Log.{Call, run, printed, IsLogOf, reset-IsLogOf}
use csci.LintState.Counts.{Prints, Balanced, error-Balanced}

abbrev state : LintState
state = record init { counting = toplevel; filters = text "-runtime" ∷ text "+runtime/int" ∷ [] }

abbrev nothing : Suppressions
nothing = record { lines = []; everywhere = [] }

abbrev int_report : Report
int_report = record {
  linenum = 3;
  category = text "runtime/int";
  confidence = 4;
  message = text "Use int16";
}

abbrev printf_report : Report
printf_report = record {
  linenum = 5;
  category = text "runtime/printf";
  confidence = 4;
  message = text "Use snprintf";
}

state-Prints : Prints state nothing int_report
unfolding should_print_error filter_loop is_error_suppressed_by_nolint evaluation
state-Prints = refl

state_hides : ¬ Prints state nothing printf_report
unfolding should_print_error filter_loop is_error_suppressed_by_nolint evaluation
state_hides h = cc

statistic_after :
    print_error_counts (error nothing (text "a.cc") int_report state).1
    ≡ text "Category 'runtime' errors found: 1" ∷ text "Total errors found: 1" ∷ []
unfolding print_error_counts category_lines error increment_error_count bump top_level
    should_print_error filter_loop is_error_suppressed_by_nolint evaluation
statistic_after = refl

should_print_error_iff_example :
    ((r : Bool) × (should_print_error state nothing (text "runtime/int") 4 3 ≡ returned r))
    × ((should_print_error state nothing (text "runtime/int") 4 3 ≡ returned true) ↔ (
        (is_error_suppressed_by_nolint nothing (text "runtime/int") 3 ≡ false)
        × (state.verbose_level ≤ 4)
        × (¬ LastRejects (text "runtime/int") state.filters)))
unfolding evaluation
should_print_error_iff_example =
    should_print_error_iff state nothing (text "runtime/int") 4 3 (refl, (refl, tt))

error-Balanced_example : Balanced (error nothing (text "a.cc") int_report state).1
error-Balanced_example = error-Balanced state nothing (text "a.cc") int_report (λ h. cc) refl

abbrev calls : List Call
calls =
    record { suppressions = nothing; filename = text "a.cc"; found = int_report }
    ∷ record { suppressions = nothing; filename = text "a.cc"; found = printf_report }
    ∷ []

first_call_printed : printed state calls ≡ text "runtime/int" ∷ []
unfolding should_print_error filter_loop is_error_suppressed_by_nolint evaluation
first_call_printed = refl

reset-IsLogOf_example : IsLogOf (run calls (reset_error_counts state)) (printed state calls)
reset-IsLogOf_example = reset-IsLogOf calls state

add_filters-IsFilter_example : ((add_filters (text "+build, ,legal") state).0 ≡ returned tt) ↔ (
    AllSigned state.filters
    × All (λ part. IsFilter (strip part)) (split_on b',' (text "+build, ,legal")))
add_filters-IsFilter_example = add_filters-IsFilter (text "+build, ,legal") state
