-- ===== src/Checks/Line.antt =====
-- The checks of scripts/cpplint.py that read one elided line and no state.
use csci.Prelude.{
  ℕ, not, List, text, ltb, get_or, count, replace, is_space, is_word, [], ◌++◌, ◌-◌, ◌%◌, ◌==◌,
}
use csci.Regex.{
  Regex, match, search_in, found, one, seq, alt, star, plus, group, chr, lit, boundary, at_start,
}
use csci.Report.{Report, report, report_if}
use csci.Cleanse.Lines.{CleansedLines}

-- `CheckForMultilineCommentsAndStrings`
unfoldable pub check_for_multiline_comments_and_strings : CleansedLines → ℕ → List Report
check_for_multiline_comments_and_strings clean_lines linenum =
    let line = replace (get_or clean_lines.elided linenum []) (text "\\\\") [] in
    report_if (ltb (count line (text "*/")) (count line (text "/*"))) (
      report linenum (text "readability/multiline_comment") 5 (
        text "Complex multi-line /*...*/-style comment found. "
        ++ text "Lint may give bogus warnings.  "
        ++ text "Consider replacing these with //-style comments, "
        ++ text "with #if 0...#endif, "
        ++ text "or with more clearly structured multi-line comments."))
    ++ report_if (not ((count line (text "\"") - count line (text "\\\"")) % 2 == 0)) (
        report linenum (text "readability/multiline_string") 5 (
          text "Multi-line string (\"...\") found.  This lint script doesn't "
          ++ text "do well with such strings, and may give bogus warnings.  "
          ++ text "Use C++11 raw strings or concatenation instead."))

-- `\bVLOG\((INFO|ERROR|WARNING|DFATAL|FATAL)\)`
unfoldable pub vlog_pattern : Regex
unfolding lit text
vlog_pattern = seq boundary (
    seq (lit (text "VLOG(")) (
      seq
        (group 1 (
          alt (lit (text "INFO")) (
            alt (lit (text "ERROR"))
              (alt (lit (text "WARNING")) (alt (lit (text "DFATAL")) (lit (text "FATAL")))))))
        (chr b')')))

-- `CheckVlogArguments`
unfoldable pub check_vlog_arguments : CleansedLines → ℕ → List Report
check_vlog_arguments clean_lines linenum =
    report_if (found (search_in vlog_pattern (get_or clean_lines.elided linenum []))) (
      report linenum (text "runtime/vlog") 5 (
        text "VLOG() should be used with numeric verbosity level.  "
        ++ text "Use LOG() if you want symbolic severity levels."))

-- `_RE_PATTERN_INVALID_INCREMENT`: `^\s*\*\w+(\+\+|--);`
unfoldable pub invalid_increment : Regex
unfolding lit text
invalid_increment = seq at_start (
    seq (star (one is_space)) (
      seq (chr b'*') (
        seq (plus (one is_word))
          (seq (group 1 (alt (lit (text "++")) (lit (text "--")))) (chr b';')))))

-- `CheckInvalidIncrement`
unfoldable pub check_invalid_increment : CleansedLines → ℕ → List Report
check_invalid_increment clean_lines linenum =
    report_if (found (match invalid_increment (get_or clean_lines.elided linenum []))) (
      report linenum (text "runtime/invalid_increment") 5
        (text "Changing pointer instead of value (or unused value of operator*)."))

-- `_RE_PATTERN_EXPLICIT_MAKEPAIR`: `\bmake_pair\s*<`
unfoldable pub explicit_make_pair : Regex
unfolding lit text
explicit_make_pair =
    seq boundary (seq (lit (text "make_pair")) (seq (star (one is_space)) (chr b'<')))

-- `CheckMakePairUsesDeduction`
unfoldable pub check_make_pair_uses_deduction : CleansedLines → ℕ → List Report
check_make_pair_uses_deduction clean_lines linenum =
    report_if (found (search_in explicit_make_pair (get_or clean_lines.elided linenum []))) (
      report linenum (text "build/explicit_make_pair") 4 (
        text "For C++11-compatibility, omit template arguments from make_pair"
        ++ text " OR use pair directly OR if appropriate, construct a pair directly"))
