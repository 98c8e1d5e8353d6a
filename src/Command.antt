-- ===== src/Command.antt =====
-- `main` of scripts/cpplint.py.
pub mod AllFiles
pub mod Exit
pub mod Tests
use csci.Prelude.{ℕ, zero, suc, Bool, List, [], ◌∷◌, ◌++◌, Text, text, map}
use csci.LintState.{LintState, reset_error_counts, print_error_counts}
use csci.Files.{Files}
use csci.Session.{Session, Run, ◌>>=◌, ◌>>◌, pass, change, say, add_line_end, exit_with, status}
use csci.FileData.{OtherChecks}
use csci.LintFile.{change_lint, process_file}
use csci.Arguments.{parse_arguments}

-- The lines of `PrintErrorCounts`, each written by one call.
unfoldable pub say_all : List Text → Run (Unit {0})
say_all [] = pass tt
say_all (l ∷ ls) = do say (add_line_end l); say_all ls

abbrev pub say_counts : Run (Unit {0})
say_counts s = say_all (print_error_counts s.lint) s

-- `sys.exit(_cpplint_state.error_count > 0)`
abbrev pub exit_status : ℕ → ℕ
exit_status zero = 0
exit_status (suc n) = 1

abbrev pub exit_by_count : Run (Unit {0})
exit_by_count s = exit_with (status (exit_status s.lint.error_count)) s

module _ (others : OtherChecks) (files : Files) (fuel : ℕ) where
  -- `ProcessFile(filename, _cpplint_state.verbose_level)`
  abbrev pub lint_file : Text → Run (Unit {0})
  lint_file filename s = process_file others files fuel filename s.lint.verbose_level s

  unfoldable pub lint_files : List Text → Run (Unit {0})
  lint_files [] = pass tt
  lint_files (f ∷ fs) = do lint_file f; lint_files fs

  -- `main`, with the arguments behind the name of the program.
  unfoldable pub main : List Text → Run (Unit {0})
  unfolding lint_files say_all
  main args = do
    filenames ← parse_arguments args
    change_lint reset_error_counts
    lint_files filenames
    say_counts
    exit_by_count
