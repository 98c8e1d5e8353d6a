-- ===== src/Session/Returns.antt =====
-- Calls that return a value, from a state in which no filter can raise and no `--root` was given.
use csci.Prelude.{
  ◌≡◌, ◌⊎◌, inl, inr, refl, sym, subst, ap, ◌∙◌, Bool, true, false, List, [], ◌∷◌, none, Text,
}
use csci.Report.{Report}
use csci.LintState.{Outcome, returned, value_error, assertion_error, error, log_if}
use csci.LintState.Filters.{AllSigned, should_print_error_iff}
use csci.Session.{
  Session, Ending, ended, raised, index_error, exited, unfinished, Run, and_then, ◌>>=◌, pass, say,
  report_error, report_all, as_ending, without_value,
}
use csci.Session.Kept.{settings, Settings, report_error-settings}

abbrev pub IsReady : Session → Type 0
IsReady s = AllSigned s.lint.filters × AllSigned s.lint.filters_backup × (s.root ≡ none)

-- Coming back from a ready state: with a value and ready again, or by an IndexError that has its cause.
abbrev pub Comes : {A : Type 0} → Type 0 → Ending A × Session → Type 0
Comes {A} cause r = ((a : A) × (r.0 ≡ ended a) × IsReady r.1) ⊎ ((r.0 ≡ raised index_error) × cause)

pub record Returns (cause : Type 0) {A : Type 0} (m : Run A) : Type 0 where
  pub comes : (s : Session) → IsReady s → Comes cause (m s)

module _ (cause : Type 0) where
  pub and_then-Comes :
      {A B : Type 0} (r : Ending A × Session) (f : A → Run B)
      → Comes cause r
      → ((a : A) → Returns cause (f a))
      → Comes cause (and_then r.0 r.1 f)
  and_then-Comes (ended a', t) f (inl (a, e, ready)) hf = (hf a').comes t ready
  and_then-Comes (raised x, t) f (inl (a, e, ready)) hf = cc
  and_then-Comes (exited c, t) f (inl (a, e, ready)) hf = cc
  and_then-Comes (unfinished, t) f (inl (a, e, ready)) hf = cc
  and_then-Comes (ended a', t) f (inr (e, why)) hf = cc
  and_then-Comes (raised x, t) f (inr (e, why)) hf =
      let same : x ≡ index_error = cc in inr (ap raised same, why)
  and_then-Comes (exited c, t) f (inr (e, why)) hf = cc
  and_then-Comes (unfinished, t) f (inr (e, why)) hf = cc

  pub bind-Returns :
      {A B : Type 0} (m : Run A) (f : A → Run B)
      → Returns cause m
      → ((a : A) → Returns cause (f a))
      → Returns cause (m >>= f)
  bind-Returns m f hm hf = record { comes = λ s r. and_then-Comes (m s) f (hm.comes s r) hf }

  pub pass-Returns : {A : Type 0} (a : A) → Returns cause (pass a)
  pass-Returns a = record { comes = λ s r. inl (a, refl, r) }

  pub say-Returns : (t : Text) → Returns cause (say t)
  unfolding say
  say-Returns t = record { comes = λ s r. inl (tt, refl, r) }

-- A state with the settings of a ready one is ready.
pub IsReady-settings : (s t : Session) → settings t ≡ settings s → IsReady s → IsReady t
IsReady-settings s t same (signed, kept, no_root) = (
  subst AllSigned (sym (ap (λ (c : Settings). c.filters) same)) signed,
  subst AllSigned (sym (ap (λ (c : Settings). c.filters_backup) same)) kept,
  ap (λ (c : Settings). c.root) same ∙ no_root,
)

report_error-Returns :
    (cause : Type 0) (filename : Text) (r : Report) → Returns cause (report_error filename r)
unfolding report_error error
report_error-Returns cause filename r = record {
  comes = λ s ready.
      let (b, e) =
        (should_print_error_iff s.lint s.suppressions r.category r.confidence r.linenum
          ready.0).0 in
      inl (
        tt,
        printed_or_not s b _ e,
        IsReady-settings s (report_error filename r s).1
            ((report_error-settings filename r).holds s) ready,
      );
}
  where
    printed_or_not :
        (s : Session) (b : Bool) (o : Outcome Bool)
        → o ≡ returned b
        → without_value (as_ending (log_if o filename r s.lint).0) ≡ ended tt
    printed_or_not s b (returned true) e = refl
    printed_or_not s b (returned false) e = refl
    printed_or_not s b (value_error m) e = cc
    printed_or_not s b assertion_error e = cc

pub report_all-Returns :
    (cause : Type 0) (filename : Text) (rs : List Report) → Returns cause (report_all filename rs)
unfolding report_all
report_all-Returns cause filename [] = pass-Returns cause tt
report_all-Returns cause filename (r ∷ rs) =
    bind-Returns cause (report_error filename r) (λ _. report_all filename rs)
      (report_error-Returns cause filename r) (λ _. report_all-Returns cause filename rs)
