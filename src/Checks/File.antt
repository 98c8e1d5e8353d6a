-- ===== src/Checks/File.antt =====
-- The checks of scripts/cpplint.py that read the lines of the whole file.
use csci.Prelude.{
  ℕ, suc, Bool, true, false, not, List, Text, text, ltb, if◌then◌else◌, length, take, drop, get_or,
  contains, any, text_keys, [], ◌∷◌, ◌++◌, ◌-◌, ◌==◌, ◌||◌, nat_eq,
}
use csci.Regex.{Regex, search_in, found, empty, one, seq}
use csci.Report.{Report, report, report_if}

-- A word in lower case, matched in any case.
unfoldable pub any_case : Text → Regex
any_case [] = empty
any_case (c ∷ w) = seq (one (λ x. x == c || x == c - 32)) (any_case w)

abbrev pub is_blank : Text → Bool
is_blank [] = true
is_blank (c ∷ s) = false

-- `Copyright` with `re.I`
unfoldable pub copyright_pattern : Regex
unfolding any_case text
copyright_pattern = any_case (text "copyright")

-- `CheckForCopyright`: over the lines 1 to 10, since line 0 is the marker.
unfoldable pub check_for_copyright : List Text → List Report
check_for_copyright lines =
    if any (λ line. found (search_in copyright_pattern line)) (take 10 (drop 1 lines))
    then []
    else report 0 (text "legal/copyright") 5 (
        text "No copyright message found.  "
        ++ text "You should have a line: \"Copyright [year] <Copyright Owner>\"")

-- The reports for one line: the replacement character, and the NUL.
abbrev pub bad_characters_in : ℕ → Text → List Report
bad_characters_in linenum line =
    report_if (contains 0xFFFD line) (
      report linenum (text "readability/utf8") 5
        (text "Line contains invalid UTF-8 (or Unicode replacement character)."))
    ++ report_if (contains 0 line)
        (report linenum (text "readability/nul") 5 (text "Line contains NUL byte."))

-- `CheckForBadCharacters`, from a line number on.
unfoldable pub bad_characters_from : ℕ → List Text → List Report
bad_characters_from linenum [] = []
bad_characters_from linenum (line ∷ lines) =
    bad_characters_in linenum line ++ bad_characters_from (suc linenum) lines

unfoldable pub check_for_bad_characters : List Text → List Report
unfolding bad_characters_from
check_for_bad_characters lines = bad_characters_from 0 lines

-- `CheckForNewlineAtEOF`. The list has the two markers, so that it is never shorter than two lines.
unfoldable pub check_for_newline_at_eof : List Text → List Report
check_for_newline_at_eof lines =
    report_if (ltb (length lines) 3 || not (is_blank (get_or lines (length lines - 2) []))) (
      report (length lines - 2) (text "whitespace/ending_newline") 5
        (text "Could not find a newline character at the end of the file."))
