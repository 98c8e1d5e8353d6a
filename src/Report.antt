-- ===== src/Report.antt =====
-- What a check hands to the `error` callback of scripts/cpplint.py. A check that only reports returns
-- the list of its calls, in order; the name of the file is the same in all of them.
use csci.Prelude.{ℕ, List, [], ◌∷◌, Bool, if◌then◌else◌, Text}

pub record Report : Type 0 where
  pub linenum : ℕ
  pub category : Text
  pub confidence : ℕ
  pub message : Text

abbrev pub report : ℕ → Text → ℕ → Text → List Report
report n category confidence message =
    record { linenum = n; category = category; confidence = confidence; message = message } ∷ []

abbrev pub report_if : Bool → List Report → List Report
report_if b r = if b then r else []
