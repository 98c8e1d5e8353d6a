-- ===== src/Suppress.antt =====
-- scripts/cpplint.py: NOLINT comments and the two maps of suppressed errors, `_error_suppressions` and
-- `_global_error_suppressions`. A set of lines is a list without repetitions.
pub mod Lookup
pub mod Tests
use csci.Prelude.{
  ℕ, ◌+◌, ◌-◌, Bool, true, false, not, ◌&&◌, ◌||◌, List, [], ◌∷◌, ◌++◌, Option, none, some, Text,
  text, ◌==◌, if◌then◌else◌, length, take, drop, contains, starts_with, ends_with, text_eq,
  text_keys, option_eq, nat_eq, is_space,
}
use csci.Prelude.Dict.{Dict, get, put}
use csci.Regex.{
  Regex, empty, one, seq, alt, star, group, at_end, boundary, Found, search_in, found, group_of,
  opt, plus, chr, dot, lit,
}
use csci.Report.{Report, report}
use csci.Categories.{
  error_categories, legacy_error_categories, default_c_suppressed, default_kernel_suppressed,
}

pub record Suppressions : Type 0 where
  pub lines : Dict (Option Text) (List ℕ)
  pub everywhere : Dict Text Bool

-- `ResetNolintSuppressions`
unfoldable pub reset_nolint_suppressions : Suppressions → Suppressions
reset_nolint_suppressions s = record { lines = []; everywhere = [] }

-- `\bNOLINT(NEXTLINE)?\b(\([^)]+\))?`
unfoldable pub nolint_pattern : Regex
unfolding lit text
nolint_pattern = seq boundary (
    seq (lit (text "NOLINT")) (
      seq (opt (group 1 (lit (text "NEXTLINE")))) (
        seq boundary
          (opt (group 2 (seq (chr b'(') (seq (plus (one (λ c. not (c == b')')))) (chr b')'))))))))

abbrev pub or_empty : Option (List ℕ) → List ℕ
or_empty none = []
or_empty (some l) = l

abbrev pub add_line : ℕ → List ℕ → List ℕ
add_line n l = if contains n l then l else n ∷ l

-- `_error_suppressions.setdefault(key, set()).add(n)`
unfoldable pub suppress : Option Text → ℕ → Suppressions → Suppressions
suppress key n s = record s { lines = put key (add_line n (or_empty (get key s.lines))) s.lines }

-- `category[1:-1]`
abbrev pub inner : Text → Text
inner t = take (length t - 2) (drop 1 t)

-- The part of `ParseNolintSuppressions` for a NOLINT with a category in parentheses.
unfoldable pub parse_category : Text → ℕ → ℕ → Suppressions → Suppressions × List Report
parse_category category target linenum s =
    if text_eq category (text "(*)")
    then (suppress none target s, [])
    else if starts_with category (text "(") && ends_with category (text ")")
    then (if contains (inner category) error_categories
        then (suppress (some (inner category)) target s, [])
        else if not (contains (inner category) legacy_error_categories)
        then (
          s,
          report linenum (text "readability/nolint") 5
              (text "Unknown NOLINT error category: " ++ inner category),
        )
        else (s, []))
    else (s, [])

abbrev pub suppressed_line : Found → ℕ → ℕ
suppressed_line m linenum = elim (group_of 1 m) [ some t ↦ linenum + 1 | none ↦ linenum ]

abbrev pub parse_matched : Option Found → ℕ → Suppressions → Suppressions × List Report
parse_matched none linenum s = (s, [])
parse_matched (some m) linenum s =
    let target : ℕ = suppressed_line m linenum in
    elim (group_of 2 m) [
      | none ↦ (suppress none target s, [])
      | some category ↦ parse_category category target linenum s
    ]

-- `ParseNolintSuppressions`
unfoldable pub parse_nolint_suppressions : Text → ℕ → Suppressions → Suppressions × List Report
unfolding parse_category suppress
parse_nolint_suppressions raw_line linenum s =
    parse_matched (search_in nolint_pattern raw_line) linenum s

-- `\b(?:LINT_C_FILE|vim?:\s*.*(\s*|:)filetype=c(\s*|:|$))`
unfoldable pub c_file_pattern : Regex
unfolding lit text
c_file_pattern = seq boundary (
    alt (lit (text "LINT_C_FILE")) (
      seq (lit (text "vi")) (
        seq (opt (chr b'm')) (
          seq (chr b':') (
            seq (star (one is_space)) (
              seq (star dot) (
                seq (group 1 (alt (star (one is_space)) (chr b':'))) (
                  seq (lit (text "filetype=c"))
                    (group 2 (alt (star (one is_space)) (alt (chr b':') at_end)))))))))))

-- `\b(?:LINT_KERNEL_FILE)`
unfoldable pub kernel_file_pattern : Regex
unfolding lit text
kernel_file_pattern = seq boundary (lit (text "LINT_KERNEL_FILE"))

abbrev pub put_all : List Text → Suppressions → Suppressions
put_all [] s = s
put_all (c ∷ cs) s = put_all cs (record s { everywhere = put c true s.everywhere })

-- One round of `ProcessGlobalSuppresions`.
unfoldable pub process_global_line : Text → Suppressions → Suppressions
process_global_line line s =
    let s' = if found (search_in c_file_pattern line) then put_all default_c_suppressed s else s in
    if found (search_in kernel_file_pattern line) then put_all default_kernel_suppressed s' else s'

-- `ProcessGlobalSuppresions`
unfoldable pub process_global_suppressions : List Text → Suppressions → Suppressions
process_global_suppressions [] s = s
process_global_suppressions (line ∷ lines) s =
    process_global_suppressions lines (process_global_line line s)

abbrev pub is_true : Option Bool → Bool
is_true none = false
is_true (some b) = b

-- `IsErrorSuppressedByNolint`
unfoldable pub is_error_suppressed_by_nolint : Suppressions → Text → ℕ → Bool
is_error_suppressed_by_nolint s category linenum =
    is_true (get category s.everywhere)
    || (contains linenum (or_empty (get (some category) s.lines))
        || contains linenum (or_empty (get none s.lines)))
