-- ===== src/LintFile.antt =====
-- `ProcessFile` of scripts/cpplint.py: the filters of a file's directories, its lines and their ends, and
-- the checks.
pub mod Restored
pub mod LineLength
pub mod Ends
pub mod Carriage
pub mod Samples
pub mod Tests
use csci.Prelude.{
  ℕ, suc, Bool, true, false, not, ◌&&◌, List, [], ◌∷◌, ◌++◌, Option, none, some, Text, text, ◌==◌,
  if◌then◌else◌, text_eq, text_keys, contains, join, split_on, ends_with,
}
use csci.Report.{Report, report}
use csci.LintState.{LintState, set_verbose_level, backup_filters, restore_filters}
use csci.Files.{Files}
use csci.Paths.{split_last, strip_end}
use csci.Session.{Session, Ending, ended, Run, ◌>>=◌, ◌>>◌, pass, change, when, say, report_all}
use csci.Config.{process_config_overrides}
use csci.FileData.{OtherChecks, process_file_data}

-- A change of the linter's state.
abbrev pub change_lint : (LintState → LintState) → Run (Unit {0})
change_lint f = change (λ s. record s { lint = f s.lint })

-- The text of the file, or of the standard input for "-"; `none` is the IOError.
unfoldable pub read_file : Files → Text → Run (Option Text)
read_file files filename s =
    if text_eq filename (text "-")
    then (ended (some s.input), record s { input = [] })
    else (ended (files.contents filename), s)

-- `lines`, `lf_lines` and `crlf_lines`.
pub record LineEnds : Type 0 where
  pub lines : List Text
  pub lf_lines : List ℕ
  pub crlf_lines : List ℕ

-- The loop over all lines but the last, from a line number on.
unfoldable pub strip_returns : ℕ → List Text → LineEnds
strip_returns linenum [] = record { lines = []; lf_lines = []; crlf_lines = [] }
strip_returns linenum (line ∷ []) = record { lines = line ∷ []; lf_lines = []; crlf_lines = [] }
strip_returns linenum (line ∷ next ∷ lines) =
    let rest = strip_returns (suc linenum) (next ∷ lines) in
    if ends_with line (13 ∷ [])
    then record rest {
      lines = strip_end 13 line ∷ rest.lines;
      crlf_lines = linenum ∷ rest.crlf_lines;
    }
    else record rest { lines = line ∷ rest.lines; lf_lines = linenum ∷ rest.lf_lines }

abbrev pub behind_last : Text → Option (Text × Text) → Text
behind_last s none = s
behind_last s (some (a, b)) = b

-- `filename[filename.rfind('.') + 1:]`
unfoldable pub file_extension_of : Text → Text
unfolding split_last
file_extension_of filename = behind_last filename (split_last b'.' filename)

-- The warnings on the ends of lines, if both kinds occur.
unfoldable pub newline_reports : List ℕ → List Report
newline_reports [] = []
newline_reports (linenum ∷ crlf_lines) =
    report linenum (text "whitespace/newline") 1
      (text "Unexpected \\r (^M) found; better to use only \\n")
    ++ newline_reports crlf_lines

abbrev pub mixed_reports : LineEnds → List Report
mixed_reports e = elim e.lf_lines [ [] ↦ [] | n ∷ l ↦ newline_reports e.crlf_lines ]

-- What is said of a file with another extension. The set of extensions is printed in the order of the
-- model's list.
abbrev pub ignore : Text → Run (Unit {0})
ignore filename s =
    say
      (text "Ignoring "
        ++ filename
        ++ text "; not a valid file name ("
        ++ join (text ", ") s.valid_extensions
        ++ text ")\n")
      s

abbrev pub is_accepted : Text → Session → Bool
is_accepted filename s =
    if text_eq filename (text "-")
    then true
    else contains (file_extension_of filename) s.valid_extensions

module _ (others : OtherChecks) (files : Files) (fuel : ℕ) where
  -- The checks of the lines that were read.
  unfoldable pub lint_lines : Text → LineEnds → Run (Unit {0})
  unfolding newline_reports
  lint_lines filename e = do
    process_file_data others files fuel filename (file_extension_of filename) e.lines
    report_all filename (mixed_reports e)

  abbrev pub lint_or_ignore : Text → LineEnds → Run (Unit {0})
  lint_or_ignore filename e s =
      (if is_accepted filename s then lint_lines filename e else ignore filename) s

  -- From the contents of the file to the end of `ProcessFile`.
  unfoldable pub finish_file : Text → Option Text → Run (Unit {0})
  unfolding lint_lines strip_returns
  finish_file filename none = do
    say (text "Skipping input '" ++ filename ++ text "': Can't open for reading\n")
    change_lint restore_filters
  finish_file filename (some contents) = do
    lint_or_ignore filename (strip_returns 1 (split_on 10 contents))
    say (text "Done processing " ++ filename ++ text "\n")
    change_lint restore_filters

  abbrev pub unless_excluded : Text → Bool → Run (Unit {0})
  unless_excluded filename false = change_lint restore_filters
  unless_excluded filename true = do
    contents ← read_file files filename
    finish_file filename contents

  -- `ProcessFile`
  unfoldable pub process_file : Text → ℕ → Run (Unit {0})
  unfolding read_file finish_file
  process_file filename vlevel = do
    change_lint (λ l. (set_verbose_level vlevel l).1)
    change_lint backup_filters
    wanted ← process_config_overrides files filename
    unless_excluded filename wanted
