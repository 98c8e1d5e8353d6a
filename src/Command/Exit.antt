-- ===== src/Command/Exit.antt =====
-- How `main` ends.
use csci.Prelude.{
  ◌≡◌, ◌⊎◌, inl, inr, subst, refl, sym, ap, ◌∙◌, ℕ, zero, suc, ltb, arith, if◌then◌else◌, List, [],
  ◌∷◌, ◌++◌, none, Text, map, append-nil, append_assoc,
}
use csci.LintState.{reset_error_counts, print_error_counts}
use csci.LintState.Filters.{AllSigned}
use csci.Files.{Files}
use csci.Session.{
  Session, Ending, ended, raised, index_error, exited, status, Run, and_then, ◌>>◌, say,
  add_line_end,
}
use csci.FileData.{OtherChecks}
use csci.LintFile.{change_lint}
use csci.LintFile.Ends.{IsPlain, process_file_lem}
use csci.Arguments.{parse_arguments}
use csci.Arguments.Signed.{parse_arguments-IsReady}
use csci.Command.{say_all, say_counts, exit_status, exit_by_count, lint_file, lint_files, main}

-- What the lines of the statistic do to the state.
abbrev pub with_written : List Text → Session → Session
with_written ls s = record s { written = s.written ++ map add_line_end ls }

abbrev written_to : Session → List Text → Ending (Unit {0}) × Session
written_to s w = (ended tt, record s { written = w })

say_all_lem : (ls : List Text) (s : Session) → say_all ls s ≡ (ended tt, with_written ls s)
unfolding say_all say
say_all_lem [] s = ap (written_to s) (sym (append-nil s.written))
say_all_lem (l ∷ ls) s =
    say_all_lem ls (record s { written = s.written ++ add_line_end l ∷ [] })
    ∙ ap (written_to s) (append_assoc s.written (add_line_end l ∷ []) (map add_line_end ls))

exit_status_lem : (n : ℕ) → exit_status n ≡ (if ltb 0 n then 1 else 0)
exit_status_lem zero = refl
exit_status_lem (suc n) = ground arith

abbrev exit_as : ℕ → Session → Ending (Unit {0}) × Session
exit_as n s = (exited (status n), s)

module _ (others : OtherChecks) (files : Files) (fuel : ℕ) (plain : IsPlain files) where
  lint_files_lem :
      (filenames : List Text) (s : Session)
      → AllSigned s.lint.filters
      → s.root ≡ none
      → let e = (lint_files others files fuel filenames s).0 in
        (e ≡ ended tt) ⊎ (e ≡ raised index_error)
  unfolding lint_files
  lint_files_lem [] s signed no_root = inl refl
  lint_files_lem (f ∷ fs) s signed no_root =
      let r = lint_file others files fuel f s in
      let rest =
        λ (x : Ending (Unit {0})). (and_then x r.1 (λ _. lint_files others files fuel fs)).0 in
      elim (process_file_lem others files fuel plain f s.lint.verbose_level s signed no_root) [
        | inl (e, ready) ↦
            subst (λ x. (rest x ≡ ended tt) ⊎ (rest x ≡ raised index_error)) (sym e)
              (lint_files_lem fs r.1 ready.0 ready.2)
        | inr (e, why) ↦ inr (ap rest e)
      ]

  -- The end of `main` behind the files.
  abbrev finish : Run (Unit {0})
  finish = say_counts >> exit_by_count

  finish_lem :
      (r : Session)
      → finish r ≡ (
        exited (status (if ltb 0 r.lint.error_count then 1 else 0)),
        with_written (print_error_counts r.lint) r,
      )
  finish_lem r =
      ap (λ (x : Ending (Unit {0}) × Session). and_then x.0 x.1 (λ _. exit_by_count))
        (say_all_lem (print_error_counts r.lint) r)
      ∙ ap (λ n. exit_as n (with_written (print_error_counts r.lint) r))
          (exit_status_lem r.lint.error_count)

  -- When the arguments name files and set no --root, in a file system without CPPLINT.cfg files and
  -- Subversion checkouts, `main` lints the files from a statistic of 0. Either all of them return; then it
  -- writes the statistic that they leave, and exits with status 1 if it counts an error and 0 if not. Or an
  -- IndexError comes out of one of them; then `main` ends in it, and writes nothing more. It is assumed that the
  -- checks that are not modelled raise nothing.
  pub main_lem :
      (args names : List Text) (s : Session)
      → (parse_arguments args s).0 ≡ ended names
      → (parse_arguments args s).1.root ≡ none
      → let t = (parse_arguments args s).1 in
        let r =
          lint_files others files fuel names (record t { lint = reset_error_counts t.lint }) in
        ((r.0 ≡ ended tt)
          × (main others files fuel args s ≡ (
            exited (status (if ltb 0 r.1.lint.error_count then 1 else 0)),
            with_written (print_error_counts r.1.lint) r.1,
          )))
        ⊎ ((r.0 ≡ raised index_error) × (main others files fuel args s ≡ (raised index_error, r.1)))
  unfolding main reset_error_counts
  main_lem args names s parsed no_root =
      let t = (parse_arguments args s).1 in
      let r = lint_files others files fuel names (record t { lint = reset_error_counts t.lint }) in
      let signed = (parse_arguments-IsReady args s names parsed).1 in
      let start =
        ap
          (λ (e : Ending (List Text)). and_then e t (λ filenames.
            change_lint reset_error_counts >> (lint_files others files fuel filenames >> finish)))
          parsed in
      let next = λ (e : Ending (Unit {0})). and_then e r.1 (λ _. finish) in
      elim (lint_files_lem names (record t { lint = reset_error_counts t.lint }) signed no_root) [
        | inl e ↦ inl (e, start ∙ ap next e ∙ finish_lem r.1)
        | inr e ↦ inr (e, start ∙ ap next e)
      ]
