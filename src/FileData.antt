-- ===== src/FileData.antt =====
-- `ProcessFileData` and `ProcessLine` of scripts/cpplint.py: the checks of one file, in their order.
pub mod Included
pub mod Rules
pub mod Frame
pub mod Samples
use csci.Prelude.{
  ℕ, zero, suc, Bool, true, false, List, [], ◌∷◌, ◌++◌, Option, none, some, Text, text,
  if◌then◌else◌, text_eq, length,
}
use csci.Prelude.Int.{ℤ}
use csci.Report.{Report}
use csci.Suppress.{reset_nolint_suppressions, process_global_suppressions}
use csci.Cleanse.MultiLine.{remove_multi_line_comments}
use csci.Cleanse.Lines.{CleansedLines, new_cleansed_lines, num_lines_of}
use csci.IncludeState.{IncludeState, new_include_state}
use csci.FunctionState.{FunctionState}
use csci.FunctionLengths.{check_for_function_lengths}
use csci.Nesting.State.{NestingState, new_nesting_state, in_asm_block, check_completed_blocks}
use csci.Nesting.Braces.{update}
use csci.Checks.File.{check_for_copyright, check_for_bad_characters, check_for_newline_at_eof}
use csci.Checks.Line.{
  check_for_multiline_comments_and_strings, check_vlog_arguments, check_invalid_increment,
  check_make_pair_uses_deduction,
}
use csci.Checks.Threads.{check_posix_threading}
use csci.Checks.Virtual.{check_redundant_virtual, check_redundant_override_or_final}
use csci.Checks.Cxx11.{flag_cxx11_features}
use csci.Constructs.{check_for_non_standard_constructs}
use csci.Files.{Files}
use csci.FileInfo.{is_source_extension}
use csci.Session.{Session, Run, ◌>>=◌, ◌>>◌, pass, when, change, report_all, raise, index_error}
use csci.HeaderGuard.Check.{parse_nolint, check_for_header_guard}
use csci.FileData.Included.{check_header_file_included}

-- The checks of scripts/cpplint.py that are not modelled, whatever they report, if they raise nothing: `CheckForNamespaceIndentation`,
-- `CheckStyle`, `CheckLanguage`, `CheckForNonConstReference` and `CheckForIncludeWhatYouUse`. The texts are the name of the file and its extension.
pub record OtherChecks : Type 0 where
  pub namespace_indentation : NestingState → CleansedLines → ℕ → List Report
  pub style : Text → Text → ℤ → NestingState → CleansedLines → ℕ → List Report
  pub language :
      Text → Text → NestingState → CleansedLines → ℕ → IncludeState → List Report × IncludeState
  pub non_const_reference : NestingState → CleansedLines → ℕ → List Report
  pub include_what_you_use : Text → CleansedLines → IncludeState → List Report

-- The three objects that `ProcessFileData` makes for a file.
pub record FileState : Type 0 where
  pub includes : IncludeState
  pub function : FunctionState
  pub nesting : NestingState

abbrev pub new_file_state : FileState
new_file_state = record {
  includes = new_include_state;
  function = record { in_a_function = false; lines_in_function = 0; current_function = [] };
  nesting = new_nesting_state;
}

-- The checks behind `CheckForNonStandardConstructs` in `ProcessLine`.
unfoldable pub late_checks : CleansedLines → ℕ → List Report
late_checks clean_lines line =
    check_vlog_arguments clean_lines line
    ++ (check_posix_threading clean_lines line
        ++ (check_invalid_increment clean_lines line
            ++ (check_make_pair_uses_deduction clean_lines line
                ++ (check_redundant_virtual clean_lines line
                    ++ check_redundant_override_or_final clean_lines line))))

-- The part of `CheckForNonStandardConstructs` that is about a class, with its IndexError.
abbrev pub report_class : Text → Option (List Report) → Run (Unit {0})
report_class filename none = raise index_error
report_class filename (some rs) = report_all filename rs

-- The lines with the two markers.
unfoldable pub with_markers : List Text → List Text
with_markers lines =
    text "// marker so line numbers and indices both start at 1"
    ∷ (lines ++ text "// marker so line numbers end in a known way" ∷ [])

module _ (others : OtherChecks) (files : Files) (fuel : ℕ) (filename file_extension : Text) where
  -- The checks of `ProcessLine` in front of `CheckForNonStandardConstructs`, for a line outside of inline
  -- assembly, with the verbosity and the line length.
  unfoldable pub early_checks : CleansedLines → ℕ → ℕ → ℤ → FileState → List Report × FileState
  early_checks clean_lines line verbosity line_length st =
      let lengths = check_for_function_lengths verbosity clean_lines line st.function in
      let language =
        others.language filename file_extension st.nesting clean_lines line st.includes in
      (
        lengths.0
            ++ (check_for_multiline_comments_and_strings clean_lines line
                ++ (others.style filename file_extension line_length st.nesting clean_lines line
                    ++ (language.0 ++ others.non_const_reference st.nesting clean_lines line))),
        record st { includes = language.1; function = lengths.1 },
      )

  abbrev pub checked_line : CleansedLines → ℕ → FileState → Run FileState
  checked_line clean_lines line st s =
      let early = early_checks clean_lines line s.lint.verbose_level s.line_length st in
      let constructs = check_for_non_standard_constructs st.nesting clean_lines line in
      (do
        report_all filename early.0
        report_all filename constructs.0
        report_class filename constructs.1
        report_all filename (late_checks clean_lines line)
        pass early.1)
        s

  -- `ProcessLine`
  unfoldable pub process_line : CleansedLines → ℕ → FileState → Run FileState
  unfolding early_checks late_checks
  process_line clean_lines line st = do
    parse_nolint filename clean_lines.raw_lines line
    let nested = update clean_lines line st.nesting
    report_all filename nested.1
    report_all filename (others.namespace_indentation nested.0 clean_lines line)
    let st' = record st { nesting = nested.0 }
    if in_asm_block nested.0 then pass st' else checked_line clean_lines line st'

  -- The loop over the lines: those that are left, and the number of the next one.
  unfoldable pub process_lines : CleansedLines → ℕ → ℕ → FileState → Run FileState
  unfolding process_line
  process_lines clean_lines zero line st = pass st
  process_lines clean_lines (suc left) line st = do
    st' ← process_line clean_lines line st
    report_all filename (flag_cxx11_features clean_lines line)
    process_lines clean_lines left (suc line) st'

  -- What follows the removal of comments.
  unfoldable pub process_cleansed : List Text → CleansedLines → Run (Unit {0})
  unfolding process_lines
  process_cleansed lines clean_lines = do
    when (text_eq file_extension (text "h"))
        (check_for_header_guard files fuel filename clean_lines)
    st ← process_lines clean_lines (num_lines_of clean_lines) 0 new_file_state
    report_all filename (check_completed_blocks st.nesting.stack)
    report_all filename (others.include_what_you_use filename clean_lines st.includes)
    when (is_source_extension file_extension)
        (check_header_file_included files fuel filename st.includes)
    report_all filename (check_for_bad_characters lines)
    report_all filename (check_for_newline_at_eof lines)

  -- `ProcessFileData`
  unfoldable pub process_file_data : List Text → Run (Unit {0})
  unfolding process_cleansed with_markers
  process_file_data file_lines = do
    let lines = with_markers file_lines
    change (λ s. record s { suppressions = reset_nolint_suppressions s.suppressions })
    report_all filename (check_for_copyright lines)
    change (λ s. record s { suppressions = process_global_suppressions lines s.suppressions })
    let removed = remove_multi_line_comments lines
    report_all filename removed.1
    process_cleansed removed.0 (new_cleansed_lines removed.0)
