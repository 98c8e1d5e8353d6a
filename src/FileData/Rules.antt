-- ===== src/FileData/Rules.antt =====
-- One walk over `ProcessFileData` for every property that its parts have: how the file's name is looked up
-- is all that is asked of the property.
use csci.Constructs.{check_for_non_standard_constructs}
use csci.Report.{Report}
use csci.Nesting.State.{NestingState}
use csci.Prelude.{
  ◌≡◌, refl, ℕ, zero, suc, not, List, [], Option, none, some, Text, text, text_eq, any, get_or,
}
use csci.Prelude.Int.{ℤ}
use csci.Regex.{search_in, found}
use csci.Suppress.{
  Suppressions, reset_nolint_suppressions, parse_nolint_suppressions, process_global_suppressions,
}
use csci.Checks.Cxx11.{flag_cxx11_features}
use csci.Checks.File.{check_for_copyright, check_for_bad_characters}
use csci.Cleanse.Lines.{CleansedLines, new_cleansed_lines, num_lines_of}
use csci.Cleanse.MultiLine.{remove_multi_line_comments}
use csci.IncludeState.{IncludeState}
use csci.Nesting.State.{in_asm_block, check_completed_blocks}
use csci.Nesting.Braces.{update}
use csci.Files.{Files}
use csci.FileInfo.{is_source_extension}
use csci.Session.{◌>>◌, pass, when, report_all, raise, index_error}
use csci.Session.Property.{Property, suppress_by, chain, follow, choice, choice_to_do}
use csci.HeaderGuard.Scan.{Guard}
use csci.HeaderGuard.Check.{
  parse_nolint, is_guarded, check_style, check_guard, ask_guard, check_for_header_guard,
  guard_nolint,
}
use csci.FileData.Included.{
  check_header_file_included, check_own_header, header_of, ask_name, own_header_report,
}
use csci.FileData.{
  OtherChecks, FileState, new_file_state, early_checks, late_checks, report_class, checked_line,
  process_line, process_lines, process_cleansed, with_markers, process_file_data,
}

module _ (p : Property) where
  parse_nolint-Has :
      (filename : Text) (lines : List Text) (n : ℕ) → p.Has Unit (parse_nolint filename lines n)
  unfolding parse_nolint
  parse_nolint-Has filename lines n =
      let parse = λ (sup : Suppressions). parse_nolint_suppressions (get_or lines n []) n sup in
      p.reads Suppressions Unit (λ s. s.suppressions)
        (λ sup. suppress_by (λ _. (parse sup).0) >> report_all filename (parse sup).1)
        (λ sup.
          chain p (suppress_by (λ _. (parse sup).0)) _ (p.suppresses _)
            (λ _. p.reports filename (parse sup).1))

  check_style-Has :
      (filename : Text) (lines : List Text) (g : Guard) (cppvar : Text)
      → p.Has Unit (check_style filename lines g cppvar)
  unfolding check_style
  check_style-Has filename lines g cppvar =
      chain p (parse_nolint filename lines g.ifndef_linenum) _
        (parse_nolint-Has filename lines g.ifndef_linenum) (λ _. p.reports filename _)

  check_guard-Has :
      (filename : Text) (lines : List Text) (g : Guard) (cppvar : Text)
      → p.Has Unit (check_guard filename lines g cppvar)
  unfolding check_guard
  check_guard-Has filename lines g cppvar =
      choice p (not (is_guarded g)) _ _ (p.reports filename _) (
        chain p (when (not (text_eq g.ifndef cppvar)) (check_style filename lines g cppvar)) _
          (choice_to_do p _ (check_style filename lines g cppvar)
            (check_style-Has filename lines g cppvar))
          (λ _.
            chain p (parse_nolint filename lines g.endif_linenum) _
              (parse_nolint-Has filename lines g.endif_linenum) (λ _. p.reports filename _)))

  own_header_report-Has :
      (filename name headername : Text) (o : Option ℕ)
      → p.Has Unit (own_header_report filename name headername o)
  own_header_report-Has filename name headername none = p.passes Unit tt
  own_header_report-Has filename name headername (some n) = p.reports filename _

-- The lines of a file as `ProcessFileData` hands them to the checks.
unfoldable pub cleansed : List Text → CleansedLines
cleansed file_lines = new_cleansed_lines (remove_multi_line_comments (with_markers file_lines)).0

-- The property of a raised IndexError, wherever a line of these makes `CheckForNonStandardConstructs` raise.
abbrev pub FailsOn : Property → CleansedLines → Type 0
FailsOn p clean_lines =
    (st : NestingState) (line : ℕ)
    → (check_for_non_standard_constructs st clean_lines line).1 ≡ none
    → p.Has Unit (raise index_error)

module _ (p : Property) (others : OtherChecks) (files : Files) (fuel : ℕ)
    (filename file_extension : Text) (guarded : p.Has Text (ask_guard files fuel filename))
    (named : (name : Text) → p.Has Text (ask_name files fuel name)) where
  check_for_header_guard-Has :
      (clean_lines : CleansedLines)
      → p.Has Unit (check_for_header_guard files fuel filename clean_lines)
  unfolding check_for_header_guard
  check_for_header_guard-Has clean_lines =
      choice p
        (any (λ line. found (search_in guard_nolint line)) clean_lines.lines_without_raw_strings) _
        _ (p.passes Unit tt)
        (chain p (ask_guard files fuel filename) _ guarded
          (λ cppvar. check_guard-Has p filename clean_lines.lines_without_raw_strings _ cppvar))

  check_own_header-Has :
      (name headerfile : Text) (includes : IncludeState)
      → p.Has Unit (check_own_header files fuel filename name headerfile includes)
  unfolding check_own_header
  check_own_header-Has name headerfile includes =
      chain p (ask_name files fuel headerfile) _ (named headerfile)
        (λ headername. own_header_report-Has p filename name headername _)

  check_header_file_included-Has :
      (includes : IncludeState)
      → p.Has Unit (check_header_file_included files fuel filename includes)
  unfolding check_header_file_included
  check_header_file_included-Has includes =
      chain p (ask_name files fuel filename) _ (named filename) (λ name.
        choice_to_do p _
          (check_own_header files fuel filename name (header_of filename name) includes)
          (check_own_header-Has name (header_of filename name) includes))

  report_class-Has :
      (o : Option (List Report))
      → (o ≡ none → p.Has Unit (raise index_error))
      → p.Has Unit (report_class filename o)
  report_class-Has none fails = fails refl
  report_class-Has (some rs) fails = p.reports filename rs

  checked_line-Has :
      (clean_lines : CleansedLines)
      → FailsOn p clean_lines
      → (line : ℕ) (st : FileState)
      → p.Has FileState (checked_line others files fuel filename file_extension clean_lines line st)
  checked_line-Has clean_lines fails line st =
      let checks = λ (v : ℕ × ℤ).
        early_checks others files fuel filename file_extension clean_lines line v.0 v.1 st in
      let constructs = check_for_non_standard_constructs st.nesting clean_lines line in
      let late = report_all filename (late_checks clean_lines line) in
      p.reads (ℕ × ℤ) FileState (λ s. (s.lint.verbose_level, s.line_length))
        (λ v.
          report_all filename (checks v).0
          >> (report_all filename constructs.0
              >> (report_class filename constructs.1 >> (late >> pass (checks v).1))))
        (λ v. follow p _ _ (p.reports filename (checks v).0) (
          follow p _ _ (p.reports filename constructs.0) (
            follow p _ _ (report_class-Has constructs.1 (fails st.nesting line)) (
              follow p _ _ (p.reports filename (late_checks clean_lines line))
                (p.passes FileState (checks v).1)))))

  process_line-Has :
      (clean_lines : CleansedLines)
      → FailsOn p clean_lines
      → (line : ℕ) (st : FileState)
      → p.Has FileState (process_line others files fuel filename file_extension clean_lines line st)
  unfolding process_line
  process_line-Has clean_lines fails line st =
      let nested = update clean_lines line st.nesting in
      chain p (parse_nolint filename clean_lines.raw_lines line) _
        (parse_nolint-Has p filename clean_lines.raw_lines line)
        (λ _. chain p (report_all filename nested.1) _ (p.reports filename nested.1) (λ _.
          chain p (report_all filename (others.namespace_indentation nested.0 clean_lines line)) _
            (p.reports filename _)
            (λ _.
              choice p (in_asm_block nested.0) _ _ (p.passes FileState _)
                (checked_line-Has clean_lines fails line (record st { nesting = nested.0 })))))

  process_lines-Has :
      (clean_lines : CleansedLines)
      → FailsOn p clean_lines
      → (left line : ℕ) (st : FileState)
      → p.Has FileState
          (process_lines others files fuel filename file_extension clean_lines left line st)
  unfolding process_lines
  process_lines-Has clean_lines fails zero line st = p.passes FileState st
  process_lines-Has clean_lines fails (suc left) line st =
      chain p (process_line others files fuel filename file_extension clean_lines line st) _
        (process_line-Has clean_lines fails line st)
        (λ st'.
          chain p (report_all filename (flag_cxx11_features clean_lines line)) _
            (p.reports filename _) (λ _. process_lines-Has clean_lines fails left (suc line) st'))

  process_cleansed-Has :
      (lines : List Text) (clean_lines : CleansedLines)
      → FailsOn p clean_lines
      → p.Has Unit (process_cleansed others files fuel filename file_extension lines clean_lines)
  unfolding process_cleansed
  process_cleansed-Has lines clean_lines fails =
      chain p
        (when (text_eq file_extension (text "h"))
          (check_for_header_guard files fuel filename clean_lines))
        _ (choice_to_do p _ _ (check_for_header_guard-Has clean_lines))
        (λ _.
          chain p
            (process_lines others files fuel filename file_extension clean_lines
              (num_lines_of clean_lines) 0 new_file_state)
            _ (process_lines-Has clean_lines fails (num_lines_of clean_lines) 0 new_file_state)
            (λ st.
              chain p (report_all filename (check_completed_blocks st.nesting.stack)) _
                (p.reports filename _)
                (λ _.
                  chain p
                    (report_all filename
                      (others.include_what_you_use filename clean_lines st.includes))
                    _ (p.reports filename _)
                    (λ _.
                      chain p
                        (when (is_source_extension file_extension)
                          (check_header_file_included files fuel filename st.includes))
                        _ (choice_to_do p _ _ (check_header_file_included-Has st.includes))
                        (λ _.
                          chain p (report_all filename (check_for_bad_characters lines)) _
                            (p.reports filename _) (λ _. p.reports filename _))))))

  pub process_file_data-Has :
      (file_lines : List Text)
      → FailsOn p (cleansed file_lines)
      → p.Has Unit (process_file_data others files fuel filename file_extension file_lines)
  unfolding process_file_data cleansed
  process_file_data-Has file_lines fails =
      let lines = with_markers file_lines in
      let removed = remove_multi_line_comments lines in
      chain p (suppress_by reset_nolint_suppressions) _ (p.suppresses reset_nolint_suppressions)
        (λ _.
          chain p (report_all filename (check_for_copyright lines)) _ (p.reports filename _) (λ _.
            chain p (suppress_by (process_global_suppressions lines)) _
              (p.suppresses (process_global_suppressions lines))
              (λ _.
                chain p (report_all filename removed.1) _ (p.reports filename _)
                  (λ _. process_cleansed-Has removed.0 (new_cleansed_lines removed.0) fails))))
