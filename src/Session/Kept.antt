-- ===== src/Session/Kept.antt =====
-- What a call leaves as it was: a view of the state that a `do` block keeps when its parts keep it.
use csci.Prelude.{ℕ, ◌≡◌, refl, ◌∙◌, Bool, true, false, List, [], ◌∷◌, Option, Text}
use csci.Prelude.Int.{ℤ}
use csci.Report.{Report}
use csci.LintState.{
  LintState, Outcome, returned, value_error, assertion_error, Counting, OutputFormat, log_if,
  increment_error_count, error, should_print_error,
}
use csci.Session.{
  Session, Ending, ended, raised, exited, unfinished, Run, and_then, ◌>>=◌, report_error,
  report_all,
}

module _ {V : Type 0} (view : Session → V) where
  -- The call keeps the view, however it ends.
  pub record Keeps {A : Type 0} (m : Run A) : Type 0 where
    pub holds : (s : Session) → view (m s).1 ≡ view s

  pub bind-Keeps :
      {A B : Type 0} (m : Run A) (f : A → Run B)
      → Keeps m
      → ((a : A) → Keeps (f a))
      → Keeps (m >>= f)
  bind-Keeps m f hm hf = record { holds = λ s. after s (m s).0 (m s).1 (hm.holds s) }
    where
      after :
          (s : Session) (e : Ending _) (t : Session)
          → view t ≡ view s
          → view (and_then e t f).1 ≡ view s
      after s (ended a) t h = (hf a).holds t ∙ h
      after s (raised x) t h = h
      after s (exited c) t h = h
      after s unfinished t h = h

-- The settings of the program: all of its state but the statistic of the errors, the suppressions, the
-- input and what was written.
pub record Settings : Type 0 where
  pub verbosity : ℕ
  pub filters : List Text
  pub filters_backup : List Text
  pub counting : Counting
  pub format : OutputFormat
  pub line_length : ℤ
  pub extensions : List Text
  pub root : Option Text

abbrev pub settings : Session → Settings
settings s = record {
  verbosity = s.lint.verbose_level;
  filters = s.lint.filters;
  filters_backup = s.lint.filters_backup;
  counting = s.lint.counting;
  format = s.lint.output_format;
  line_length = s.line_length;
  extensions = s.valid_extensions;
  root = s.root;
}

abbrev with_lint : Session → LintState → Session
with_lint s l = record s { lint = l }

log_if-settings :
    (o : Outcome Bool) (filename : Text) (r : Report) (s : Session)
    → settings (with_lint s (log_if o filename r s.lint).1) ≡ settings s
unfolding increment_error_count
log_if-settings (returned true) filename r s = refl
log_if-settings (returned false) filename r s = refl
log_if-settings (value_error m) filename r s = refl
log_if-settings assertion_error filename r s = refl

pub report_error-settings :
    (filename : Text) (r : Report) → Keeps settings (report_error filename r)
unfolding report_error error
report_error-settings filename r = record {
  holds = λ s.
      log_if-settings (should_print_error s.lint s.suppressions r.category r.confidence r.linenum)
        filename r s;
}

pub report_all-settings :
    (filename : Text) (rs : List Report) → Keeps settings (report_all filename rs)
unfolding report_all
report_all-settings filename [] = record { holds = λ s. refl }
report_all-settings filename (r ∷ rs) =
    bind-Keeps settings (report_error filename r) (λ _. report_all filename rs)
      (report_error-settings filename r) (λ _. report_all-settings filename rs)
