-- ===== src/FunctionState/Tests.antt =====
-- A long function, concretely.
use csci.Prelude.{◌*◌, ◌^◌, ◌≤◌, ◌<◌, ◌≡◌, ◌≢◌, refl, ◌↔◌, true, [], ◌∷◌, text, min, All, map}
use csci.Regex.{evaluation}
use csci.Report.{Report}
use csci.FunctionState.{FunctionState, base_trigger, check, error_level, log2, log2_fuel, test_name}
use csci.FunctionState.Level.{check_lem}

abbrev long_function : FunctionState
long_function = record {
  in_a_function = true;
  lines_in_function = 1001;
  current_function = text "Run()";
}

check_lem_example :
    ((check 1 9 long_function ≢ []) ↔ (
      (long_function.in_a_function ≡ true)
      × (base_trigger long_function.current_function * 2 ^ 1 < long_function.lines_in_function)))
    × All
        (λ r. (r.linenum ≡ 9) × (min 1 5 ≤ r.confidence) × (r.confidence ≤ 5))
        (check 1 9 long_function)
check_lem_example = check_lem 1 9 long_function

confidence_of_long_function : map (λ (r : Report). r.confidence) (check 1 9 long_function) ≡ 2 ∷ []
unfolding check base_trigger error_level log2 log2_fuel test_name evaluation
confidence_of_long_function = refl
