-- ===== src/LintState/Log.antt =====
-- What the error statistic of `_CppLintState` promises, without its dictionary: a log of the
-- categories of the printed errors since the last `ResetErrorCounts`, in order.
use csci.Prelude.{
  subst, text_keys, ℕ, ◌+◌, ◌≡◌, refl, ap, Bool, true, false, List, [], ◌∷◌, ◌++◌, arith, Text,
  append_assoc, append-nil, Bool-cases, inl, inr, if◌then◌else◌, length, length-append,
}
use csci.Prelude.Dict.{get}
use csci.Report.{Report}
use csci.Suppress.{Suppressions}
use csci.LintState.{
  LintState, Outcome, returned, value_error, assertion_error, Counting, counted_as,
  should_print_error, log_if, error, reset_error_counts, increment_error_count,
}
use csci.LintState.Counts.{Prints, count_of, one_if_counted, error-printed, error-not_printed}

-- A call of `Error`: the suppressions at that time, the name of the file and the report.
pub record Call : Type 0 where
  pub suppressions : Suppressions
  pub filename : Text
  pub found : Report

abbrev is_yes : Outcome Bool → Bool
is_yes (returned b) = b
is_yes (value_error m) = false
is_yes assertion_error = false

-- Whether the call prints its error.
abbrev pub is_printed : LintState → Call → Bool
is_printed s c =
    is_yes (should_print_error s c.suppressions c.found.category c.found.confidence c.found.linenum)

-- The states: one call of `Error` after the other.
abbrev pub run : List Call → LintState → LintState
run [] s = s
run (c ∷ cs) s = run cs (error c.suppressions c.filename c.found s).1

-- The log: the categories of the printed errors.
abbrev pub printed : LintState → List Call → List Text
printed s [] = []
printed s (c ∷ cs) = (if is_printed s c then c.found.category ∷ [] else []) ++ printed s cs

-- How often the entries of the log count for a key.
abbrev pub occurrences : Counting → Text → List Text → ℕ
occurrences style j [] = 0
occurrences style j (category ∷ log) =
    one_if_counted (counted_as style category) j + occurrences style j log

-- The statistic stands for the log.
abbrev pub IsLogOf : LintState → List Text → Type 0
IsLogOf s log =
    (s.error_count ≡ length log) × ((j : Text) → count_of j s ≡ occurrences s.counting j log)

-- What decides whether an error is printed, and how it is counted.
abbrev SameSettings : LintState → LintState → Type 0
SameSettings s t =
    (s.verbose_level ≡ t.verbose_level) × (s.filters ≡ t.filters) × (s.counting ≡ t.counting)

log_if-SameSettings :
    (o : Outcome Bool) (filename : Text) (r : Report) (s : LintState)
    → SameSettings (log_if o filename r s).1 s
unfolding increment_error_count
log_if-SameSettings (returned true) filename r s = (refl, refl, refl)
log_if-SameSettings (returned false) filename r s = (refl, refl, refl)
log_if-SameSettings (value_error m) filename r s = (refl, refl, refl)
log_if-SameSettings assertion_error filename r s = (refl, refl, refl)

error-SameSettings :
    (sup : Suppressions) (filename : Text) (r : Report) (s : LintState)
    → SameSettings (error sup filename r s).1 s
unfolding error
error-SameSettings sup filename r s = log_if-SameSettings _ filename r s

is_printed-SameSettings :
    (s t : LintState) (c : Call) → SameSettings s t → is_printed s c ≡ is_printed t c
unfolding should_print_error
is_printed-SameSettings s t c (v, f, k) = rw (v, f)

printed-SameSettings :
    (s t : LintState) (cs : List Call) → SameSettings s t → printed s cs ≡ printed t cs
printed-SameSettings s t [] h = refl
printed-SameSettings s t (c ∷ cs) h =
    rw (is_printed-SameSettings s t c h, printed-SameSettings s t cs h)

occurrences-append :
    (style : Counting) (j : Text) (log more : List Text)
    → occurrences style j (log ++ more) ≡ occurrences style j log + occurrences style j more
occurrences-append style j [] more = omega arith
occurrences-append style j (category ∷ log) more =
    omega (arith, occurrences-append style j log more)

Prints-is_printed :
    (s : LintState) (c : Call) → is_printed s c ≡ true → Prints s c.suppressions c.found
Prints-is_printed s c = returned_of_yes _
  where
    returned_of_yes : (o : Outcome Bool) → is_yes o ≡ true → o ≡ returned true
    returned_of_yes (returned b) h = ap returned h
    returned_of_yes (value_error m) h = cc
    returned_of_yes assertion_error h = cc

not_printed :
    (s : LintState) (c : Call) → is_printed s c ≡ false → ¬ Prints s c.suppressions c.found
not_printed s c p h = let e : is_printed s c ≡ true = ap is_yes h in cc

-- One call, printed or not.
error-IsLogOf :
    (s : LintState) (log : List Text) (c : Call)
    → IsLogOf s log
    → IsLogOf (error c.suppressions c.filename c.found s).1 (log ++ printed s (c ∷ []))
error-IsLogOf s log c (total, each) = elim (Bool-cases (is_printed s c)) [
  | inl p ↦
      let (_, one_more, counts) =
        error-printed s c.suppressions c.filename c.found (Prints-is_printed s c p) in
      let (_, _, style) = error-SameSettings c.suppressions c.filename c.found s in
      rw (p, style)
        (
          omega (arith, one_more, length-append log (c.found.category ∷ [])),
          λ j. omega (
            arith,
            counts j,
            each j,
            occurrences-append s.counting j log (c.found.category ∷ []),
          ),
        )
  | inr p ↦
      rw (p, append-nil, error-not_printed s c.suppressions c.filename c.found (not_printed s c p))
        (total, each)
]

-- Any sequence of calls of `Error` refines appending to the log: from a statistic that stands for a
-- log, the calls lead to one that stands for that log followed by the categories of the errors that
-- the settings at the start let through.
pub run-IsLogOf :
    (cs : List Call) (s : LintState) (log : List Text)
    → IsLogOf s log
    → IsLogOf (run cs s) (log ++ printed s cs)
run-IsLogOf [] s log h = rw append-nil h
run-IsLogOf (c ∷ cs) s log h =
    let s' = (error c.suppressions c.filename c.found s).1 in
    let same =
      printed-SameSettings s' s cs (error-SameSettings c.suppressions c.filename c.found s) in
    subst (IsLogOf (run cs s')) (rw (same, append-nil) (append_assoc log _ (printed s cs)))
      (run-IsLogOf cs s' (log ++ printed s (c ∷ [])) (error-IsLogOf s log c h))

reset_error_counts-SameSettings : (s : LintState) → SameSettings (reset_error_counts s) s
unfolding reset_error_counts
reset_error_counts-SameSettings s = (refl, refl, refl)

reset_error_counts-IsLogOf : (s : LintState) → IsLogOf (reset_error_counts s) []
unfolding reset_error_counts get
reset_error_counts-IsLogOf s = (refl, λ j. refl)

-- After `ResetErrorCounts` the log is empty, and the calls that follow are all that it holds.
pub reset-IsLogOf :
    (cs : List Call) (s : LintState) → IsLogOf (run cs (reset_error_counts s)) (printed s cs)
reset-IsLogOf cs s =
    rw (← printed-SameSettings (reset_error_counts s) s cs (reset_error_counts-SameSettings s))
      (run-IsLogOf cs (reset_error_counts s) [] (reset_error_counts-IsLogOf s))
