-- ===== src/Arguments/Signed.antt =====
-- What the program may rely on when `ParseArguments` has returned.
use csci.Prelude.{◌≡◌, ◌≢◌, refl, sym, subst, ap, ◌∙◌, List, [], ◌∷◌, none, some, Text}
use csci.LintState.{
  Outcome, returned, value_error, assertion_error, set_filters, set_output_format,
  set_verbose_level, set_counting_style,
}
use csci.LintState.Filters.{AllSigned, add_filters_iff}
use csci.Session.{Session, Ending, ended, pass, change, as_ending, say}
use csci.Session.Inverse.{bind-ended}
use csci.Arguments.Getopt.{Parsed, getopt}
use csci.Arguments.{
  long_options, Choices, choose_all, first_choices, set_session_filters, apply_choices, with_files,
  parsed_arguments, parse_arguments, print_usage,
}

-- A result of ParseArguments that the program goes on with.
abbrev pub IsReady : Ending (List Text) × Session → Type 0
IsReady r = (names : List Text) → r.0 ≡ ended names → (names ≢ []) × AllSigned r.1.lint.filters

signed_after :
    (filters : Text) (s : Session)
    → (set_session_filters filters s).0 ≡ ended tt
    → AllSigned (set_session_filters filters s).1.lint.filters
unfolding set_session_filters set_filters
signed_after filters s h = (add_filters_iff filters _).1.0 (returned_if _ h)
  where
    returned_if : (o : Outcome (Unit {0})) → as_ending o ≡ ended tt → o ≡ returned tt
    returned_if (returned u) h = refl
    returned_if (value_error m) h = cc
    returned_if assertion_error h = cc

apply_choices-AllSigned :
    (c : Choices) (s : Session)
    → (apply_choices c s).0 ≡ ended tt
    → AllSigned (apply_choices c s).1.lint.filters
unfolding apply_choices set_counting_style
apply_choices-AllSigned c s h =
    let s' = record s {
      lint = (set_verbose_level c.verbosity (set_output_format c.output_format s.lint)).1;
    } in
    let count = change (λ t. record t { lint = set_counting_style c.counting_style t.lint }) in
    let (u, e, same) = bind-ended (set_session_filters c.filters) (λ _. count) s' h in
    subst (λ (r : Ending (Unit {0}) × Session). AllSigned r.1.lint.filters) (sym same)
      (signed_after c.filters s' e)

print_usage-IsReady : (m : Text) (s : Session) → IsReady (print_usage (some m) s)
unfolding print_usage say
print_usage-IsReady m s names h = cc

with_files-IsReady :
    (names : List Text) (c : Choices) (s : Session) → IsReady (with_files names c s)
with_files-IsReady [] c s = print_usage-IsReady _ s
with_files-IsReady (f ∷ fs) c s = λ names h.
    let (u, e, same) = bind-ended (apply_choices c) (λ _. pass (f ∷ fs)) s h in
    let returned_names : ended (f ∷ fs) ≡ ended names =
      ap (λ (r : Ending (List Text) × Session). r.0) (sym same) ∙ h in
    (
      λ none_left. cc,
      subst (λ (r : Ending (List Text) × Session). AllSigned r.1.lint.filters) (sym same)
          (apply_choices-AllSigned c s e),
    )

-- When ParseArguments returns, there is a file to lint, and every filter starts with + or -, so that
-- `_ShouldPrintError` does not meet its assertion.
pub parse_arguments-IsReady : (args : List Text) (s : Session) → IsReady (parse_arguments args s)
unfolding parse_arguments
parse_arguments-IsReady args s = of (getopt long_options args)
  where
    of : (p : Parsed) → IsReady (parsed_arguments p s)
    of none = print_usage-IsReady _ s
    of (some (opts, filenames)) = λ names h.
        let (c, e, same) =
          bind-ended (choose_all opts (first_choices s)) (with_files filenames) s h in
        subst IsReady (sym same) (with_files-IsReady filenames c _) names h
