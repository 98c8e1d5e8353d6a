-- ===== src/Session/Finished.antt =====
-- Calls whose fuel never runs out.
use csci.Prelude.{◌≢◌, refl, List, [], ◌∷◌, Text}
use csci.Report.{Report}
use csci.LintState.{Outcome, returned, value_error, assertion_error}
use csci.Session.{
  Session, Ending, ended, raised, exited, unfinished, Run, and_then, ◌>>=◌, as_ending,
  without_value, pass, report_error, report_all,
}

abbrev pub Finishes : {A : Type 0} → Run A → Type 0
Finishes m = (s : Session) → (m s).0 ≢ unfinished

pub bind-Finishes :
    {A B : Type 0} (m : Run A) (f : A → Run B)
    → Finishes m
    → ((a : A) → Finishes (f a))
    → Finishes (m >>= f)
bind-Finishes m f hm hf s = after (m s).0 (m s).1 (hm s)
  where
    after : (e : Ending _) (t : Session) → e ≢ unfinished → (and_then e t f).0 ≢ unfinished
    after (ended a) t h = hf a t
    after (raised x) t h = λ e. cc
    after (exited c) t h = λ e. cc
    after unfinished t h = λ e. h refl

pub pass-Finishes : {A : Type 0} (a : A) → Finishes (pass a)
pass-Finishes a s e = cc

pub as_ending-ne-unfinished : {A : Type 0} (o : Outcome A) → as_ending o ≢ unfinished
as_ending-ne-unfinished (returned a) e = cc
as_ending-ne-unfinished (value_error m) e = cc
as_ending-ne-unfinished assertion_error e = cc

outcome_finishes : {A : Type 0} (o : Outcome A) → without_value (as_ending o) ≢ unfinished
outcome_finishes (returned a) e = cc
outcome_finishes (value_error m) e = cc
outcome_finishes assertion_error e = cc

pub report_all-Finishes : (filename : Text) (rs : List Report) → Finishes (report_all filename rs)
unfolding report_all report_error
report_all-Finishes filename [] = pass-Finishes tt
report_all-Finishes filename (r ∷ rs) =
    bind-Finishes (report_error filename r) (λ _. report_all filename rs) (λ s. outcome_finishes _)
      (λ _. report_all-Finishes filename rs)
