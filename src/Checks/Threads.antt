-- ===== src/Checks/Threads.antt =====
-- `CheckPosixThreading` of scripts/cpplint.py and its table of functions that are not thread-safe.
use csci.Prelude.{ℕ, not, List, Text, text, get_or, is_space, [], ◌∷◌, ◌++◌, ◌==◌, ◌||◌}
use csci.Regex.{Regex, search_in, found, one, seq, alt, star, plus, chr, lit}
use csci.Report.{Report, report, report_if}
use csci.Cleanse.Lines.{CleansedLines}

-- `_UNSAFE_FUNC_PREFIX`
unfoldable pub unsafe_func_prefix : Regex
unsafe_func_prefix =
    alt
      (seq
        (one (λ c.
          c == b'-'
          || (c == b'+'
              || (c == b'*'
                  || (c == b'/'
                      || (c == b'='
                          || (c == b'%'
                              || (c == b'^'
                                  || (c == b'&' || (c == b'|' || (c == b'(' || c == b'<')))))))))))
        (star (one is_space)))
      (seq (chr b'>') (plus (one is_space)))

-- A row of `_THREADING_LIST`: the name of the function, with its parenthesis, and the parameters that
-- the pattern wants: `[^)]+\)` or `\)`.
pub record ThreadRow : Type 0 where
  pub single_thread_func : Text
  pub multithread_safe_func : Text
  pub pattern : Regex

abbrev pub some_parameters : Regex
some_parameters = seq (plus (one (λ c. not (c == b')')))) (chr b')')

abbrev pub no_parameters : Regex
no_parameters = chr b')'

abbrev pub thread_row : Text → Text → Regex → ThreadRow
thread_row name safe parameters = record {
  single_thread_func = name;
  multithread_safe_func = safe;
  pattern = seq unsafe_func_prefix (seq (lit name) parameters);
}

-- `_THREADING_LIST`
unfoldable pub threading_list : List ThreadRow
threading_list =
    thread_row (text "asctime(") (text "asctime_r(") some_parameters
    ∷ thread_row (text "ctime(") (text "ctime_r(") some_parameters
    ∷ thread_row (text "getgrgid(") (text "getgrgid_r(") some_parameters
    ∷ thread_row (text "getgrnam(") (text "getgrnam_r(") some_parameters
    ∷ thread_row (text "getlogin(") (text "getlogin_r(") no_parameters
    ∷ thread_row (text "getpwnam(") (text "getpwnam_r(") some_parameters
    ∷ thread_row (text "getpwuid(") (text "getpwuid_r(") some_parameters
    ∷ thread_row (text "gmtime(") (text "gmtime_r(") some_parameters
    ∷ thread_row (text "localtime(") (text "localtime_r(") some_parameters
    ∷ thread_row (text "rand(") (text "rand_r(") no_parameters
    ∷ thread_row (text "strtok(") (text "strtok_r(") some_parameters
    ∷ thread_row (text "ttyname(") (text "ttyname_r(") some_parameters
    ∷ []

-- The loop of `CheckPosixThreading`.
unfoldable pub threading_reports : ℕ → Text → List ThreadRow → List Report
threading_reports linenum line [] = []
threading_reports linenum line (row ∷ rows) =
    report_if (found (search_in row.pattern line)) (
      report linenum (text "runtime/threadsafe_fn") 2 (
        text "Consider using "
        ++ row.multithread_safe_func
        ++ text "...) instead of "
        ++ row.single_thread_func
        ++ text "...) for improved thread safety."))
    ++ threading_reports linenum line rows

-- `CheckPosixThreading`
unfoldable pub check_posix_threading : CleansedLines → ℕ → List Report
unfolding threading_reports threading_list
check_posix_threading clean_lines linenum =
    threading_reports linenum (get_or clean_lines.elided linenum []) threading_list
