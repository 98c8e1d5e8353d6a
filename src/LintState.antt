-- ===== src/LintState.antt =====
-- scripts/cpplint.py: `_CppLintState`, the module-wide state, the functions that wrap its methods, and
-- the way from a found error to its line on stderr (`_ShouldPrintError`, `Error`).
-- A method returns the new state. `AddFilters` changes the list of filters before it can raise, so
-- the state comes back beside the error.
pub mod Filters
pub mod Added
pub mod Counts
pub mod Log
pub mod Tests
use csci.Prelude.{
  ℕ, ◌+◌, Bool, true, false, not, ◌&&◌, ◌||◌, List, [], ◌∷◌, ◌++◌, Option, none, some, Text, text,
  ltb, if◌then◌else◌, drop, starts_with, text_eq, text_keys, strip, split_on, decimal,
}
use csci.Prelude.Dict.{Dict, get, put}
use csci.Categories.{default_filters}
use csci.Report.{Report}
use csci.Suppress.{Suppressions, is_error_suppressed_by_nolint}

-- `self.counting`: 'total', 'toplevel' or 'detailed'; `self.output_format` likewise.
pub data Counting : Type 0 where
  total toplevel detailed : Counting

pub data OutputFormat : Type 0 where
  emacs vs7 eclipse : OutputFormat

pub record LintState : Type 0 where
  pub verbose_level : ℕ
  pub error_count : ℕ
  pub filters : List Text
  pub filters_backup : List Text
  pub counting : Counting
  pub errors_by_category : Dict Text ℕ
  pub output_format : OutputFormat

-- What a call ends in: a value, or the exception that it raises.
pub data Outcome (A : Type 0) : Type 0 where
  returned : A → Outcome A
  value_error : Text → Outcome A
  assertion_error : Outcome A

-- `_CppLintState()`
abbrev pub init : LintState
init = record {
  verbose_level = 1;
  error_count = 0;
  filters = default_filters;
  filters_backup = default_filters;
  counting = total;
  errors_by_category = [];
  output_format = emacs;
}

-- `SetOutputFormat`
unfoldable pub set_output_format : OutputFormat → LintState → LintState
set_output_format f s = record s { output_format = f }

-- `SetVerboseLevel`, with the previous setting.
unfoldable pub set_verbose_level : ℕ → LintState → ℕ × LintState
set_verbose_level level s = (s.verbose_level, record s { verbose_level = level })

-- `SetCountingStyle`
unfoldable pub set_counting_style : Counting → LintState → LintState
set_counting_style c s = record s { counting = c }

-- The first loop of `AddFilters`: the parts of the text that are not blank, stripped.
unfoldable pub clean_filters : List Text → List Text
clean_filters [] = []
clean_filters (f ∷ fs) = elim (strip f) [
  | [] ↦ clean_filters fs
  | c ∷ t ↦ (c ∷ t) ∷ clean_filters fs
]

abbrev pub is_signed : Text → Bool
is_signed f = starts_with f (text "+") || starts_with f (text "-")

-- The second loop of `AddFilters`.
unfoldable pub check_filters : List Text → Outcome (Unit {0})
check_filters [] = returned tt
check_filters (f ∷ fs) =
    if not (is_signed f)
    then value_error
        (text "Every filter in --filters must start with + or - (" ++ f ++ text " does not)")
    else check_filters fs

-- `AddFilters`
unfoldable pub add_filters : Text → LintState → Outcome (Unit {0}) × LintState
unfolding clean_filters check_filters
add_filters filters s =
    let s' = record s { filters = s.filters ++ clean_filters (split_on b',' filters) } in
    (check_filters s'.filters, s')

-- `SetFilters`
unfoldable pub set_filters : Text → LintState → Outcome (Unit {0}) × LintState
set_filters filters s = add_filters filters (record s { filters = default_filters })

-- `BackupFilters`, `RestoreFilters`
unfoldable pub backup_filters : LintState → LintState
backup_filters s = record s { filters_backup = s.filters }

unfoldable pub restore_filters : LintState → LintState
restore_filters s = record s { filters = s.filters_backup }

-- `ResetErrorCounts`
unfoldable pub reset_error_counts : LintState → LintState
reset_error_counts s = record s { error_count = 0; errors_by_category = [] }

-- `category.split('/')[0]`
abbrev pub first_part : List Text → Text
first_part [] = []
first_part (p ∷ ps) = p

unfoldable pub top_level : Text → Text
top_level category = first_part (split_on b'/' category)

-- `if category not in d: d[category] = 0` and `d[category] += 1`
unfoldable pub bump : Text → Dict Text ℕ → Dict Text ℕ
bump k d = elim (get k d) [ none ↦ put k 1 d | some n ↦ put k (n + 1) d ]

-- The category under which an error is counted, if it is.
abbrev pub counted_as : Counting → Text → Option Text
counted_as total category = none
counted_as toplevel category = some (top_level category)
counted_as detailed category = some category

abbrev pub bump_if : Option Text → Dict Text ℕ → Dict Text ℕ
bump_if none d = d
bump_if (some k) d = bump k d

-- `IncrementErrorCount`
unfoldable pub increment_error_count : Text → LintState → LintState
increment_error_count category s = record s {
  error_count = s.error_count + 1;
  errors_by_category = bump_if (counted_as s.counting category) s.errors_by_category;
}

-- `PrintErrorCounts`: its lines on stderr.
unfoldable pub category_lines : Dict Text ℕ → List Text
category_lines [] = []
category_lines ((k, n) ∷ d) =
    (text "Category '" ++ k ++ text "' errors found: " ++ decimal n) ∷ category_lines d

unfoldable pub print_error_counts : LintState → List Text
unfolding category_lines
print_error_counts s =
    category_lines s.errors_by_category
    ++ (text "Total errors found: " ++ decimal s.error_count) ∷ []

-- The loop over the filters in `_ShouldPrintError`: the later filter wins.
unfoldable pub filter_loop : Text → List Text → Bool → Outcome Bool
filter_loop category [] is_filtered = returned is_filtered
filter_loop category (f ∷ fs) is_filtered =
    let rejected = filter_loop category fs (starts_with category (drop 1 f) || is_filtered) in
    let accepted = filter_loop category fs (not (starts_with category (drop 1 f)) && is_filtered) in
    if starts_with f (text "-")
    then rejected
    else if starts_with f (text "+")
    then accepted
    else assertion_error

abbrev pub not_filtered : Outcome Bool → Outcome Bool
not_filtered (returned b) = returned (not b)
not_filtered (value_error m) = value_error m
not_filtered assertion_error = assertion_error

-- `_ShouldPrintError`
unfoldable pub should_print_error : LintState → Suppressions → Text → ℕ → ℕ → Outcome Bool
should_print_error s sup category confidence linenum =
    if is_error_suppressed_by_nolint sup category linenum
    then returned false
    else if ltb confidence s.verbose_level
    then returned false
    else not_filtered (filter_loop category s.filters false)

-- The line that `Error` writes.
unfoldable pub error_line : OutputFormat → Text → Report → Text
error_line vs7 filename r =
    filename
    ++ text "("
    ++ decimal r.linenum
    ++ text "):  "
    ++ r.message
    ++ text "  ["
    ++ r.category
    ++ text "] ["
    ++ decimal r.confidence
    ++ text "]"
error_line eclipse filename r =
    filename
    ++ text ":"
    ++ decimal r.linenum
    ++ text ": warning: "
    ++ r.message
    ++ text "  ["
    ++ r.category
    ++ text "] ["
    ++ decimal r.confidence
    ++ text "]"
error_line emacs filename r =
    filename
    ++ text ":"
    ++ decimal r.linenum
    ++ text ":  "
    ++ r.message
    ++ text "  ["
    ++ r.category
    ++ text "] ["
    ++ decimal r.confidence
    ++ text "]"

abbrev pub log_if : Outcome Bool → Text → Report → LintState → Outcome (List Text) × LintState
log_if (returned true) filename r s =
    (returned (error_line s.output_format filename r ∷ []), increment_error_count r.category s)
log_if (returned false) filename r s = (returned [], s)
log_if (value_error m) filename r s = (value_error m, s)
log_if assertion_error filename r s = (assertion_error, s)

-- `Error`: the lines written to stderr, and the new state.
unfoldable pub error : Suppressions → Text → Report → LintState → Outcome (List Text) × LintState
error sup filename r s =
    log_if (should_print_error s sup r.category r.confidence r.linenum) filename r s
