-- ===== src/IncludeLine.antt =====
-- `CheckIncludeLine` of scripts/cpplint.py, with `_ClassifyInclude` and `_DropCommonSuffixes`. The name of
-- the file in its repository, `FileInfo(filename).RepositoryName()`, is an argument.
pub mod Listed
pub mod Branch
pub mod Tests
use csci.Prelude.{
  ℕ, ◌-◌, Bool, true, false, not, ◌&&◌, ◌||◌, List, [], ◌∷◌, ◌++◌, Option, none, some, Text, text,
  ◌==◌, ltb, if◌then◌else◌, length, take, get_or, starts_with, ends_with, text_eq, text_keys,
  contains, split_on, join, decimal, is_upper, is_space,
}
use mathlib.Core.List.{reverse}
use csci.Regex.{
  Regex, seq, alt, star, one, plus, at_start, at_end, chr, lit, group, Found, match, search_in,
  found, group_text, whole,
}
use csci.Report.{Report, report, report_if}
use csci.Categories.{cpp_headers}
use csci.Cleanse.Lines.{CleansedLines}
use csci.Cleanse.Strings.{include_pattern}
use csci.Paths.{split, dirname, split_last, split_ext}
use csci.FileInfo.{base_name}
use csci.IncludeState.{
  HeaderType, c_sys_header, cpp_sys_header, likely_my_header, possible_my_header, other_header,
  IncludeState, find_header, check_next_include_order, canonicalize_alphabetical_order,
  is_in_alphabetical_order, set_last_header,
}

abbrev pub root_of : Text → Option (Text × Text) → Text
root_of p none = (split_ext p).0
root_of p (some (a, b)) = a ++ b'/' ∷ (split_ext b).0

-- `os.path.splitext(filename)[0]` of a path.
unfoldable pub without_extension : Text → Text
without_extension p = root_of p (split_last b'/' p)

-- The suffixes of `_DropCommonSuffixes`.
unfoldable pub common_suffixes : List Text
common_suffixes =
    text "test.cc"
    ∷ text "regtest.cc"
    ∷ text "unittest.cc"
    ∷ text "inl.h"
    ∷ text "impl.h"
    ∷ text "internal.h"
    ∷ []

-- `filename.endswith(suffix)` behind a dash or an underscore.
abbrev pub has_suffix : Text → Text → Bool
has_suffix filename suffix =
    ends_with filename suffix
    && (ltb (length suffix) (length filename)
        && contains (get_or filename (length filename - length suffix - 1) 0 ∷ [])
            (text "-" ∷ text "_" ∷ []))

unfoldable pub drop_suffix : Text → List Text → Text
unfolding without_extension
drop_suffix filename [] = without_extension filename
drop_suffix filename (suffix ∷ suffixes) =
    if has_suffix filename suffix
    then take (length filename - length suffix - 1) filename
    else drop_suffix filename suffixes

-- `_DropCommonSuffixes`
unfoldable pub drop_common_suffixes : Text → Text
unfolding drop_suffix common_suffixes
drop_common_suffixes filename = drop_suffix filename common_suffixes

-- The loop of `os.path.normpath` over the components, the last one first.
abbrev pub ends_in_parent : List Text → Bool
ends_in_parent [] = false
ends_in_parent (c ∷ cs) = text_eq c (text "..")

abbrev pub is_none_left : List Text → Bool
is_none_left [] = true
is_none_left (c ∷ cs) = false

abbrev pub parent_of : List Text → List Text
parent_of [] = []
parent_of (c ∷ cs) = cs

unfoldable pub normal_components : Bool → List Text → List Text → List Text
normal_components rooted [] cs = cs
normal_components rooted (c ∷ rest) cs = normal_components rooted rest (
    if contains c ([] ∷ text "." ∷ [])
    then cs
    else if not (text_eq c (text "..")) || (not rooted && is_none_left cs || ends_in_parent cs)
    then c ∷ cs
    else parent_of cs)

abbrev pub initial_slashes : Text → Text
initial_slashes p =
    if starts_with p (text "//") && not (starts_with p (text "///"))
    then text "//"
    else if starts_with p (text "/")
    then text "/"
    else []

abbrev pub or_dot : Text → Text
or_dot [] = text "."
or_dot (c ∷ p) = c ∷ p

-- `os.path.normpath`
unfoldable pub normpath : Text → Text
unfolding normal_components
normpath p = or_dot (
    initial_slashes p
    ++ join (text "/")
        (reverse (normal_components (starts_with p (text "/")) (split_on b'/' p) [])))

-- `_RE_FIRST_COMPONENT`: `^[^-_.]+`
unfoldable pub first_component : Regex
first_component = seq at_start (plus (one (λ c. not (c == b'-' || (c == b'_' || c == b'.')))))

abbrev pub same_component : Option Found → Option Found → Bool
same_component none m = false
same_component (some l) none = false
same_component (some l) (some m) = text_eq (whole l) (whole m)

-- `_ClassifyInclude`
unfoldable pub classify_include : Text → Text → Bool → HeaderType
unfolding drop_common_suffixes normpath cpp_headers
classify_include name include is_system =
    let target = split (drop_common_suffixes name) in
    let header = split (drop_common_suffixes include) in
    if is_system
    then (if contains include cpp_headers then cpp_sys_header else c_sys_header)
    else if text_eq target.1 header.1
        && (text_eq header.0 target.0
            || text_eq header.0 (normpath (target.0 ++ text "/../public")))
    then likely_my_header
    else if same_component (match first_component target.1) (match first_component header.1)
    then possible_my_header
    else other_header

-- `_THIRD_PARTY_HEADERS_PATTERN`
unfoldable pub third_party_headers : Regex
unfolding lit text
third_party_headers = seq at_start (
    seq
      (alt
        (seq (star (one (λ c. not (c == b'/'))))
          (seq (one is_upper) (seq (star (one (λ c. not (c == b'/')))) (lit (text ".h")))))
        (alt (lit (text "lua.h")) (alt (lit (text "lauxlib.h")) (lit (text "lualib.h")))))
      at_end)

-- `#include\s*"([^/]+\.h)"`
unfoldable pub bare_include : Regex
unfolding lit text
bare_include = seq (lit (text "#include")) (
    seq (star (one is_space)) (
      seq (chr b'"')
        (seq (group 1 (seq (plus (one (λ c. not (c == b'/')))) (lit (text ".h")))) (chr b'"'))))

abbrev pub bare_reports : ℕ → Option Found → List Report
bare_reports linenum none = []
bare_reports linenum (some m) =
    report_if (not (found (match third_party_headers (group_text 1 m))))
      (report linenum (text "build/include") 4 (text "Include the directory when naming .h files"))

-- `include_state.include_list[-1].append(..)`
unfoldable pub append_last : Text × ℕ → List (List (Text × ℕ)) → List (List (Text × ℕ))
append_last x [] = []
append_last x (l ∷ []) = (l ++ x ∷ []) ∷ []
append_last x (l ∷ k ∷ ls) = l ∷ append_last x (k ∷ ls)

abbrev pub order_reports : Text → ℕ → Text → List Report
order_reports name linenum [] = []
order_reports name linenum (c ∷ error_message) = report linenum (text "build/include_order") 4 (
    (c ∷ error_message)
    ++ text ". Should be: "
    ++ base_name name
    ++ text ".h, c system, c++ system, other.")

-- A header that is neither a duplicate nor foreign: it is recorded, and its order is checked.
unfoldable pub add_include :
    Text → CleansedLines → ℕ → Text → Bool → IncludeState → List Report × IncludeState
unfolding classify_include
add_include name clean_lines linenum include is_system s =
    let listed = record s { include_list = append_last (include, linenum) s.include_list } in
    let ordered = check_next_include_order (classify_include name include is_system) listed in
    let canonical_include = canonicalize_alphabetical_order include in
    (
      order_reports name linenum ordered.0
          ++ report_if
              (not
                (is_in_alphabetical_order clean_lines.elided linenum canonical_include ordered.1))
              (report linenum (text "build/include_alpha") 4
                (text "Include \"" ++ include ++ text "\" not in alphabetical order")),
      set_last_header canonical_include ordered.1,
    )

abbrev pub duplicate_report : Text → ℕ → Text → ℕ → List Report
duplicate_report filename linenum include duplicate_line = report linenum (text "build/include") 4 (
    text "\""
    ++ include
    ++ text "\" already included at "
    ++ filename
    ++ text ":"
    ++ decimal duplicate_line)

-- A header that is included for the first time.
abbrev pub new_include :
    Text → CleansedLines → ℕ → Text → Bool → IncludeState → List Report × IncludeState
new_include name clean_lines linenum include is_system s =
    if ends_with include (text ".cc") && not (text_eq (dirname name) (dirname include))
    then (
      report linenum (text "build/include") 4 (text "Do not include .cc files from other packages"),
      s,
    )
    else if not (found (match third_party_headers include))
    then add_include name clean_lines linenum include is_system s
    else ([], s)

-- An included header, and whether it stands in angle brackets.
unfoldable pub include_named :
    Text → Text → CleansedLines → ℕ → Text → Bool → IncludeState → List Report × IncludeState
unfolding add_include append_last
include_named filename name clean_lines linenum include is_system s = elim (find_header include s) [
  | some duplicate_line ↦ (duplicate_report filename linenum include duplicate_line, s)
  | none ↦ new_include name clean_lines linenum include is_system s
]

abbrev pub include_found :
    Text → Text → CleansedLines → ℕ → Option Found → IncludeState → List Report × IncludeState
include_found filename name clean_lines linenum none s = ([], s)
include_found filename name clean_lines linenum (some m) s =
    include_named filename name clean_lines linenum (group_text 2 m)
      (text_eq (group_text 1 m) (text "<")) s

-- `CheckIncludeLine`
unfoldable pub check_include_line :
    Text → Text → CleansedLines → ℕ → IncludeState → List Report × IncludeState
unfolding include_named
check_include_line filename name clean_lines linenum s =
    let line = get_or clean_lines.lines linenum [] in
    let r = include_found filename name clean_lines linenum (search_in include_pattern line) s in
    (bare_reports linenum (match bare_include line) ++ r.0, r.1)
