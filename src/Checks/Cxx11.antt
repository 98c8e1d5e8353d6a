-- ===== src/Checks/Cxx11.antt =====
-- `FlagCxx11Features` and `FlagCxx14Features` of scripts/cpplint.py.
use csci.Prelude.{
  ℕ, not, List, Option, none, some, Text, text, if◌then◌else◌, get_or, starts_with, contains,
  is_space, text_keys, [], ◌∷◌, ◌++◌, ◌==◌, ◌&&◌, ◌||◌,
}
use csci.Regex.{
  Regex, Found, match, search_in, found, group_text, one, seq, star, plus, group, chr, lit,
  boundary,
}
use csci.Report.{Report, report, report_if}
use csci.Cleanse.Lines.{CleansedLines}

-- `\s*#\s*include\s+[<"]([^<"]+)[">]`
unfoldable pub include_directive : Regex
unfolding lit text
include_directive = seq (star (one is_space)) (
    seq (chr b'#') (
      seq (star (one is_space)) (
        seq (lit (text "include")) (
          seq (plus (one is_space)) (
            seq (one (λ c. c == b'<' || c == b'"')) (
              seq (group 1 (plus (one (λ c. not (c == b'<' || c == b'"')))))
                (one (λ c. c == b'"' || c == b'>'))))))))

-- `\s*#`
unfoldable pub directive_start : Regex
directive_start = seq (star (one is_space)) (chr b'#')

-- `\s*#\s*define\b`
unfoldable pub define_directive : Regex
unfolding lit text
define_directive =
    seq (star (one is_space))
      (seq (chr b'#') (seq (star (one is_space)) (seq (lit (text "define")) boundary)))

-- The C++11 headers that are not approved.
unfoldable pub cxx11_headers : List Text
cxx11_headers =
    text "cfenv"
    ∷ text "condition_variable"
    ∷ text "fenv.h"
    ∷ text "future"
    ∷ text "mutex"
    ∷ text "thread"
    ∷ text "chrono"
    ∷ text "ratio"
    ∷ text "regex"
    ∷ text "system_error"
    ∷ []

-- The two reports on an included header.
abbrev pub header_reports : ℕ → Option Found → List Report
header_reports linenum none = []
header_reports linenum (some m) =
    let header = group_text 1 m in
    report_if (starts_with header (text "tr1/")) (
      report linenum (text "build/c++tr1") 5
        (text "C++ TR1 headers such as <" ++ header ++ text "> are unapproved."))
    ++ report_if (contains header cxx11_headers) (
        report linenum (text "build/c++11") 5
          (text "<" ++ header ++ text "> is an unapproved C++11 header."))

-- `\bstd::%s\b` for a name.
abbrev pub std_name : Text → Regex
std_name name = seq boundary (seq (lit (text "std::")) (seq (lit name) boundary))

-- The loop over the names of classes and functions.
unfoldable pub std_reports : ℕ → Text → List Text → List Report
std_reports linenum line [] = []
std_reports linenum line (name ∷ names) =
    report_if (found (search_in (std_name name) line)) (
      report linenum (text "build/c++11") 5 (
        text "std::"
        ++ name
        ++ text " is an unapproved C++11 class or function.  Send c-style "
        ++ text "an example of where it would make your code more readable, and "
        ++ text "they may let you use it."))
    ++ std_reports linenum line names

-- `FlagCxx11Features`
unfoldable pub flag_cxx11_features : CleansedLines → ℕ → List Report
unfolding std_reports cxx11_headers
flag_cxx11_features clean_lines linenum =
    let line = get_or clean_lines.elided linenum [] in
    header_reports linenum (match include_directive line)
    ++ (if found (match directive_start line) && not (found (match define_directive line))
        then []
        else std_reports linenum line (text "alignment_of" ∷ text "aligned_union" ∷ []))

abbrev pub cxx14_reports : ℕ → Option Found → List Report
cxx14_reports linenum none = []
cxx14_reports linenum (some m) =
    report_if (contains (group_text 1 m) (text "scoped_allocator" ∷ text "shared_mutex" ∷ [])) (
      report linenum (text "build/c++14") 5
        (text "<" ++ group_text 1 m ++ text "> is an unapproved C++14 header."))

-- `FlagCxx14Features`, which nothing in the program calls.
unfoldable pub flag_cxx14_features : CleansedLines → ℕ → List Report
flag_cxx14_features clean_lines linenum =
    cxx14_reports linenum (match include_directive (get_or clean_lines.elided linenum []))
