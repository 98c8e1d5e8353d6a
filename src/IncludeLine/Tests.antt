-- ===== src/IncludeLine/Tests.antt =====
-- Two lines that include the same header.
use csci.Prelude.{ℕ, ◌≡◌, refl, false, [], ◌∷◌, ◌++◌, some, text}
use mathlib.Core.List.{reverse}
use csci.Regex.{evaluation, Found, match, search_in}
use csci.Cleanse.Lines.{CleansedLines}
use csci.Cleanse.Strings.{include_pattern}
use csci.IncludeState.{likely_my_header, IncludeState, initial, find_header}
use csci.Paths.{split, split_ext}
use csci.Categories.{cpp_headers}
use csci.IncludeLine.{
  classify_include, drop_common_suffixes, without_extension, normpath, check_include_line,
  bare_reports, bare_include, duplicate_report, third_party_headers, first_component,
}
use csci.IncludeLine.Listed.{check_include_line-again}

my_header : classify_include (text "foo/foo_test.cc") (text "foo/foo.h") false ≡ likely_my_header
unfolding classify_include drop_common_suffixes without_extension normpath split split_ext
    first_component cpp_headers evaluation
my_header = refl

public_path : normpath (text "a/b/../public") ≡ text "a/public"
unfolding normpath evaluation
public_path = refl

abbrev lines : CleansedLines
lines = record {
  elided = text "#include \"b/a.h\"" ∷ text "#include \"b/a.h\"" ∷ [];
  lines = text "#include \"b/a.h\"" ∷ text "#include \"b/a.h\"" ∷ [];
  raw_lines = text "#include \"b/a.h\"" ∷ text "#include \"b/a.h\"" ∷ [];
  num_lines = 2;
  lines_without_raw_strings = text "#include \"b/a.h\"" ∷ text "#include \"b/a.h\"" ∷ [];
}

abbrev no_includes : IncludeState
no_includes = record { include_list = [] ∷ []; section = initial; last_header = [] }

abbrev line_match : Found
line_match = record {
  from = record { before = []; rest = text "#include \"b/a.h\""; groups = [] };
  to = record {
    before = reverse (text "#include \"b/a.h\"");
    rest = [];
    groups = (2, text "b/a.h") ∷ (1, text "\"") ∷ [];
  };
}

line_matches : search_in include_pattern (text "#include \"b/a.h\"") ≡ some line_match
unfolding include_pattern evaluation
line_matches = refl

check_include_line-again_example :
    let s' = (check_include_line (text "b/c.cc") (text "b/c.cc") lines 0 no_includes).1 in
    (d : ℕ) × (find_header (text "b/a.h") s' ≡ some d)
    × (check_include_line (text "b/c.cc") (text "b/c.cc") lines 1 s' ≡ (
      bare_reports 1 (match bare_include (text "#include \"b/a.h\""))
          ++ duplicate_report (text "b/c.cc") 1 (text "b/a.h") d,
      s',
    ))
unfolding evaluation third_party_headers
check_include_line-again_example =
    check_include_line-again (text "b/c.cc") (text "b/c.cc") lines 0 1 no_includes line_match
      line_match (λ e. cc) line_matches line_matches refl refl refl
