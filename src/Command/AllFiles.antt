-- ===== src/Command/AllFiles.antt =====
-- The loop of `main` over the files.
use csci.Prelude.{◌≡◌, refl, sym, ap, ◌∙◌, ℕ, List, [], ◌∷◌, Text}
use csci.Files.{Files}
use csci.Session.{Session, Ending, ended}
use csci.Session.Inverse.{bind-ended}
use csci.FileData.{OtherChecks}
use csci.LintFile.Restored.{process_file-restored}
use csci.Command.{lint_file, lint_files}

-- Over any number of files that are linted in one run, each starts with the filters that the command
-- line has set: while the calls return, the filters behind them are those before them.
pub lint_files-restored :
    (others : OtherChecks) (files : Files) (fuel : ℕ) (filenames : List Text) (s : Session)
    → (lint_files others files fuel filenames s).0 ≡ ended tt
    → (lint_files others files fuel filenames s).1.lint.filters ≡ s.lint.filters
unfolding lint_files
lint_files-restored others files fuel [] s h = refl
lint_files-restored others files fuel (f ∷ fs) s h =
    let (u, e, same) =
      bind-ended (lint_file others files fuel f) (λ _. lint_files others files fuel fs) s h in
    let t = (lint_file others files fuel f s).1 in
    let rest = ap (λ (r : Ending (Unit {0}) × Session). r.0) (sym same) ∙ h in
    ap (λ (r : Ending (Unit {0}) × Session). r.1.lint.filters) same
    ∙ lint_files-restored others files fuel fs t rest
    ∙ process_file-restored others files fuel f s.lint.verbose_level s e
