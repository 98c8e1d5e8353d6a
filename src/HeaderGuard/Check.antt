-- ===== src/HeaderGuard/Check.antt =====
-- `CheckForHeaderGuard` of scripts/cpplint.py.
use csci.Prelude.{
  ℕ, Bool, false, not, List, Option, none, some, Text, text, if◌then◌else◌, length, take, drop,
  get_or, text_eq, is_space, any, [], ◌∷◌, ◌++◌, ◌-◌, ◌==◌, ◌||◌,
}
use csci.Regex.{
  Regex, Found, match, search_in, found, group_text, one, seq, alt, star, opt, group, chr, lit,
  boundary, at_start,
}
use csci.Report.{Report, report, report_if}
use csci.Suppress.{parse_nolint_suppressions}
use csci.Cleanse.Lines.{CleansedLines}
use csci.Files.{Files}
use csci.Session.{Run, ◌>>=◌, ◌>>◌, pass, when, report_all}
use csci.HeaderGuard.{get_header_guard_cpp_variable}
use csci.HeaderGuard.Scan.{Guard, no_guard, find_guard}

-- `//\s*NOLINT\(build/header_guard\)`
unfoldable pub guard_nolint : Regex
unfolding lit text
guard_nolint =
    seq (lit (text "//")) (seq (star (one is_space)) (lit (text "NOLINT(build/header_guard)")))

-- `^(?:(?:\'(?:\.|[^\'])*\')|(?:"(?:\.|[^"])*")|[^\'"])*//`
unfoldable pub line_comment_start : Regex
unfolding lit text
line_comment_start = seq at_start (
    seq
      (star (
        alt
          (seq (chr b'\'') (seq (star (alt (chr b'.') (one (λ c. not (c == b'\''))))) (chr b'\'')))
          (alt
            (seq (chr b'"') (seq (star (alt (chr b'.') (one (λ c. not (c == b'"'))))) (chr b'"')))
            (one (λ c. not (c == b'\'' || c == b'"'))))))
      (lit (text "//")))

-- `#endif\s*//\s*` + cppvar + `(_)?\b`, and the same for a comment `/* .. */`.
unfoldable pub endif_line_comment : Text → Regex
endif_line_comment cppvar = seq (lit (text "#endif")) (
    seq (star (one is_space)) (
      seq (lit (text "//"))
        (seq (star (one is_space)) (seq (lit cppvar) (seq (opt (group 1 (chr b'_'))) boundary)))))

unfoldable pub endif_block_comment : Text → Regex
endif_block_comment cppvar = seq (lit (text "#endif")) (
    seq (star (one is_space)) (
      seq (lit (text "/*")) (
        seq (star (one is_space)) (
          seq (lit cppvar)
            (seq (opt (group 1 (chr b'_'))) (seq (star (one is_space)) (lit (text "*/"))))))))

-- `ParseNolintSuppressions` on a line of the file.
unfoldable pub parse_nolint : Text → List Text → ℕ → Run (Unit {0})
parse_nolint filename raw_lines linenum s =
    let (suppressions, reports) =
      parse_nolint_suppressions (get_or raw_lines linenum []) linenum s.suppressions in
    report_all filename reports (record s { suppressions = suppressions })

abbrev pub guard_report : ℕ → ℕ → Text → List Report
guard_report linenum level message = report linenum (text "build/header_guard") level message

abbrev pub style_report : Guard → Text → List Report
style_report g cppvar =
    guard_report g.ifndef_linenum (if text_eq g.ifndef (cppvar ++ text "_") then 0 else 5)
      (text "#ifndef header guard has wrong style, please use: " ++ cppvar)

-- The report for a guard whose comment has one more underscore.
abbrev pub underscore_report : Guard → Text → Found → List Report
underscore_report g message m =
    report_if (text_eq (group_text 1 m) (text "_")) (guard_report g.endif_linenum 0 message)

abbrev pub line_message : Text → Text
line_message cppvar = text "#endif line should be \"#endif  // " ++ cppvar ++ text "\""

abbrev pub block_message : Text → Text
block_message cppvar = text "#endif line should be \"#endif  /* " ++ cppvar ++ text " */\""

-- `no_single_line_comments`: over the lines but the first and the last.
abbrev pub has_line_comment : List Text → Bool
has_line_comment raw_lines =
    any (λ line. found (match line_comment_start line))
      (take (length raw_lines - 2) (drop 1 raw_lines))

abbrev pub block_reports : Guard → Text → Option Found → List Report
block_reports g cppvar none = guard_report g.endif_linenum 5 (line_message cppvar)
block_reports g cppvar (some m) = underscore_report g (block_message cppvar) m

-- The reports on the line of the last #endif.
abbrev pub endif_reports : List Text → Guard → Text → Option Found → List Report
endif_reports raw_lines g cppvar (some m) = underscore_report g (line_message cppvar) m
endif_reports raw_lines g cppvar none =
    if has_line_comment raw_lines
    then guard_report g.endif_linenum 5 (line_message cppvar)
    else block_reports g cppvar (match (endif_block_comment cppvar) g.endif)

-- Whether the file has a guard at all.
abbrev pub is_guarded : Guard → Bool
is_guarded g = elim g.ifndef [ [] ↦ false | c ∷ t ↦ text_eq (c ∷ t) g.define ]

-- A guard with another name than the expected one.
unfoldable pub check_style : Text → List Text → Guard → Text → Run (Unit {0})
check_style filename raw_lines g cppvar = do
  parse_nolint filename raw_lines g.ifndef_linenum
  report_all filename (style_report g cppvar)

-- The checks of the guard that was found, in the order of the source.
unfoldable pub check_guard : Text → List Text → Guard → Text → Run (Unit {0})
unfolding check_style
check_guard filename raw_lines g cppvar =
    if not (is_guarded g)
    then report_all filename (
        guard_report 0 5
          (text "No #ifndef header guard found, suggested CPP variable is: " ++ cppvar))
    else (do
      when (not (text_eq g.ifndef cppvar)) (check_style filename raw_lines g cppvar)
      parse_nolint filename raw_lines g.endif_linenum
      report_all filename
          (endif_reports raw_lines g cppvar (match (endif_line_comment cppvar) g.endif)))

abbrev pub ask_guard : Files → ℕ → Text → Run Text
ask_guard files fuel filename s = (get_header_guard_cpp_variable files fuel s.root filename, s)

-- `CheckForHeaderGuard`
unfoldable pub check_for_header_guard : Files → ℕ → Text → CleansedLines → Run (Unit {0})
unfolding check_guard
check_for_header_guard files fuel filename clean_lines =
    let raw_lines = clean_lines.lines_without_raw_strings in
    if any (λ line. found (search_in guard_nolint line)) raw_lines then pass tt else do
      cppvar ← ask_guard files fuel filename
      check_guard filename raw_lines (find_guard 0 raw_lines no_guard) cppvar
