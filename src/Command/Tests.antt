-- ===== src/Command/Tests.antt =====
-- A run of the whole program on one file.
use csci.Prelude.{
  ◌≡◌, ◌⊎◌, refl, List, [], ◌∷◌, none, Text, text, ltb, if◌then◌else◌, strip, rstrip,
}
use csci.Regex.{evaluation}
use csci.Categories.{default_filters}
use csci.LintState.{
  reset_error_counts, print_error_counts, set_filters, add_filters, clean_filters, check_filters,
}
use csci.Session.{Session, ended, raised, index_error, exited, status, start_session}
use csci.FileData.Samples.{silent_checks, plain_files}
use csci.Arguments.Getopt.{getopt}
use csci.Arguments.{long_options, parse_arguments, choose_all, apply_choices}
use csci.LintFile.Samples.{plain_files-IsPlain}
use csci.Command.{lint_files, main}
use csci.Command.Exit.{with_written, main_lem}

abbrev arguments : List Text
arguments = text "--filter=-build" ∷ text "a.cc" ∷ []

abbrev start : Session
start = start_session []

arguments_name : (parse_arguments arguments start).0 ≡ ended (text "a.cc" ∷ [])
unfolding parse_arguments getopt long_options choose_all apply_choices set_filters add_filters
    clean_filters check_filters strip rstrip start_session default_filters evaluation
arguments_name = refl

arguments_root : (parse_arguments arguments start).1.root ≡ none
unfolding parse_arguments getopt long_options choose_all apply_choices set_filters add_filters
    clean_filters check_filters strip rstrip start_session default_filters evaluation
arguments_root = refl

main_lem_example :
    let t = (parse_arguments arguments start).1 in
    let r =
      lint_files silent_checks plain_files 9
        (text "a.cc" ∷ [])
        (record t { lint = reset_error_counts t.lint }) in
    ((r.0 ≡ ended tt)
      × (main silent_checks plain_files 9 arguments start ≡ (
        exited (status (if ltb 0 r.1.lint.error_count then 1 else 0)),
        with_written (print_error_counts r.1.lint) r.1,
      )))
    ⊎ ((r.0 ≡ raised index_error)
        × (main silent_checks plain_files 9 arguments start ≡ (raised index_error, r.1)))
main_lem_example =
    main_lem silent_checks plain_files 9 plain_files-IsPlain arguments (text "a.cc" ∷ []) start
      arguments_name arguments_root
