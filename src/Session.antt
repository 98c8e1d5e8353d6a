-- ===== src/Session.antt =====
-- The module-wide state of scripts/cpplint.py, and the calls that change it: a call takes the state and
-- gives it back with what the call ends in, a value, an exception or the exit of the program.
pub mod Kept
pub mod Finished
pub mod Inverse
pub mod Returns
pub mod Property
use csci.Prelude.{ℕ, Bool, true, false, List, [], ◌∷◌, ◌++◌, Option, none, Text, text, map}
use csci.Prelude.Int.{ℤ, pos}
use csci.Report.{Report}
use csci.Suppress.{Suppressions}
use csci.LintState.{LintState, Outcome, returned, value_error, assertion_error, init}
use csci.LintState

pub record Session : Type 0 where
  -- `_cpplint_state`
  pub lint : LintState
  -- `_error_suppressions`, `_global_error_suppressions`
  pub suppressions : Suppressions
  -- `_line_length`
  pub line_length : ℤ
  -- `_valid_extensions`: the members of the set, each of them once.
  pub valid_extensions : List Text
  -- `_root`
  pub root : Option Text
  -- What is still unread of the standard input.
  pub input : Text
  -- What was written to stderr, the earliest first.
  pub written : List Text

-- The values at the start of the program.
unfoldable pub start_session : Text → Session
start_session input = record {
  lint = init;
  suppressions = record { lines = []; everywhere = [] };
  line_length = pos 80;
  valid_extensions = text "cc" ∷ text "h" ∷ text "cpp" ∷ text "cu" ∷ text "cuh" ∷ [];
  root = none;
  input = input;
  written = [];
}

-- ValueError, AssertionError, IndexError and `re.error`. The last constructor is no exception of the program: the
-- model does not follow it to a verbosity below 0.
pub data Exception : Type 0 where
  bad_value : Exception
  failed_assertion : Exception
  index_error : Exception
  bad_pattern : Exception
  negative_verbosity : Exception

-- `sys.exit` with a number, or with a message, which counts as 1.
pub data ExitCode : Type 0 where
  status : ℕ → ExitCode
  message : Text → ExitCode

pub data Ending (A : Type 0) : Type 0 where
  ended : A → Ending A
  raised : Exception → Ending A
  exited : ExitCode → Ending A
  -- The fuel for a loop that need not end ran out.
  unfinished : Ending A

abbrev pub Run : Type 0 → Type 0
Run A = Session → Ending A × Session

abbrev pub and_then : {A B : Type 0} → Ending A → Session → (A → Run B) → Ending B × Session
and_then (ended a) s f = f a s
and_then (raised e) s f = (raised e, s)
and_then (exited c) s f = (exited c, s)
and_then unfinished s f = (unfinished, s)

infixl 5 ◌>>=◌ ◌>>◌
abbrev pub ◌>>=◌ : {A B : Type 0} → Run A → (A → Run B) → Run B
◌>>=◌ m f s = and_then (m s).0 (m s).1 f

abbrev pub ◌>>◌ : {B : Type 0} → Run (Unit {0}) → Run B → Run B
m >> k = m >>= λ _. k

abbrev pub pass : {A : Type 0} → A → Run A
pass a s = (ended a, s)

-- `if b: m()`
abbrev pub when : Bool → Run (Unit {0}) → Run (Unit {0})
when true m = m
when false m = pass tt

abbrev pub raise : {A : Type 0} → Exception → Run A
raise e s = (raised e, s)

abbrev pub exit_with : {A : Type 0} → ExitCode → Run A
exit_with c s = (exited c, s)

-- A call that only changes the state.
abbrev pub change : (Session → Session) → Run (Unit {0})
change f s = (ended tt, f s)

-- `sys.stderr.write`
unfoldable pub say : Text → Run (Unit {0})
say t s = (ended tt, record s { written = s.written ++ t ∷ [] })

abbrev pub add_line_end : Text → Text
add_line_end l = l ++ text "\n"

-- What a method of the linter's state ends in, for the program.
abbrev pub as_ending : {A : Type 0} → Outcome A → Ending A
as_ending (returned a) = ended a
as_ending (value_error m) = raised bad_value
as_ending assertion_error = raised failed_assertion

abbrev pub written_by : Outcome (List Text) → List Text
written_by (returned lines) = map add_line_end lines
written_by (value_error m) = []
written_by assertion_error = []

abbrev pub without_value : {A : Type 0} → Ending A → Ending (Unit {0})
without_value (ended a) = ended tt
without_value (raised e) = raised e
without_value (exited c) = exited c
without_value unfinished = unfinished

-- One call of `Error`.
unfoldable pub report_error : Text → Report → Run (Unit {0})
report_error filename r s =
    let (o, lint) = LintState.error s.suppressions filename r s.lint in
    (without_value (as_ending o), record s { lint = lint; written = s.written ++ written_by o })

-- The calls of `Error` that a check makes.
unfoldable pub report_all : Text → List Report → Run (Unit {0})
report_all filename [] = pass tt
report_all filename (r ∷ rs) = do report_error filename r; report_all filename rs
