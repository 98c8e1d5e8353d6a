-- ===== src/Suppress/Lookup.antt =====
-- What a NOLINT comment and a global directive suppress, through `IsErrorSuppressedByNolint`.
use csci.Prelude.{
  ℕ, ◌≡◌, refl, inl, inr, Bool, true, false, ◌&&◌, ◌||◌, List, [], ◌∷◌, Option, none, some, arith,
  Text, text, ◌==◌, ==_iff, contains, starts_with, ends_with, text_eq, text_eq_iff, any, Bool-cases,
  Option-cases, text_keys, option_eq, nat_eq,
}
use csci.Prelude.Dict.{get, put, get-put}
use csci.Regex.{Found, search_in, found, group_of}
use csci.Categories.{error_categories, default_c_suppressed, default_kernel_suppressed}
use csci.Suppress.{
  Suppressions, suppress, add_line, or_empty, inner, parse_category, suppressed_line, parse_matched,
  parse_nolint_suppressions, nolint_pattern, is_true, is_error_suppressed_by_nolint, put_all,
  process_global_line, process_global_suppressions, c_file_pattern, kernel_file_pattern,
}

contains-add_line : (n k : ℕ) (l : List ℕ) → contains n (add_line k l) ≡ (contains n l || n == k)
contains-add_line n k l = elim (Bool-cases (contains k l)) [
  | inl e ↦ rw e (known e)
  | inr e ↦ rw e (ground arith)
]
  where
    known : contains k l ≡ true → contains n l ≡ (contains n l || n == k)
    known e = elim (Bool-cases (n == k)) [
      | inl q ↦ rw (q, (==_iff n k).0 q, e)
      | inr q ↦ ground arith
    ]

-- The key of `_error_suppressions` under which a category is found, or the one for all of them.
abbrev pub key_covers : Option Text → Text → Bool
key_covers none c = true
key_covers (some k) c = text_eq k c

suppressed-suppress :
    (key : Option Text) (k : ℕ) (s : Suppressions) (c : Text) (n : ℕ)
    → is_error_suppressed_by_nolint (suppress key k s) c n
      ≡ (is_error_suppressed_by_nolint s c n || (key_covers key c && n == k))
unfolding is_error_suppressed_by_nolint suppress
suppressed-suppress none k s c n =
    rw
      (
        get-put none (some c) (add_line k (or_empty (get none s.lines))) s.lines,
        get-put none none (add_line k (or_empty (get none s.lines))) s.lines,
        contains-add_line n k (or_empty (get none s.lines)),
      )
      (ground arith)
suppressed-suppress (some j) k s c n =
    let l = add_line k (or_empty (get (some j) s.lines)) in
    rw (get-put (some j) (some c) l s.lines, get-put (some j) none l s.lines)
      (elim (Bool-cases (text_eq j c)) [
        | inl e ↦
            rw (e, contains-add_line n k (or_empty (get (some j) s.lines)), (text_eq_iff j c).0 e)
              (ground arith)
        | inr e ↦ rw e (ground arith)
      ])

-- What the NOLINT comment `m` says of a category: all of them, or the known one between parentheses.
abbrev pub nolint_covers : Found → Text → Bool
nolint_covers m c = elim (group_of 2 m) [
  | none ↦ true
  | some t ↦
      text_eq t (text "(*)")
      || (starts_with t (text "(")
          && (ends_with t (text ")") && (text_eq (inner t) c && contains c error_categories)))
]

abbrev pub line_covers : Option Found → ℕ → Text → ℕ → Bool
line_covers none linenum c n = false
line_covers (some m) linenum c n = nolint_covers m c && n == suppressed_line m linenum

parse_category-covers :
    (t : Text) (k linenum : ℕ) (s : Suppressions) (c : Text) (n : ℕ)
    → is_error_suppressed_by_nolint (parse_category t k linenum s).0 c n ≡ (
        is_error_suppressed_by_nolint s c n
        || ((text_eq t (text "(*)")
              || (starts_with t (text "(")
                  && (ends_with t (text ")")
                      && (text_eq (inner t) c && contains c error_categories))))
            && n == k))
unfolding parse_category
parse_category-covers t k linenum s c n = elim (Bool-cases (text_eq (inner t) c)) [
  | inl e ↦ rw (← (text_eq_iff (inner t) c).0 e) (
      ground (
        arith,
        suppressed-suppress none k s (inner t) n,
        suppressed-suppress (some (inner t)) k s (inner t) n,
        (text_eq_iff (inner t) (inner t)).1 refl,
      ))
  | inr e ↦
      ground (arith, suppressed-suppress none k s c n, suppressed-suppress (some (inner t)) k s c n)
]

-- After a line is read, an error is suppressed exactly if it was before, or the line has a NOLINT that
-- covers its category and its line is the one meant: this one, or the next for NOLINTNEXTLINE.
pub parse_nolint-exact :
    (raw_line : Text) (linenum : ℕ) (s : Suppressions) (c : Text) (n : ℕ)
    → is_error_suppressed_by_nolint (parse_nolint_suppressions raw_line linenum s).0 c n ≡ (
        is_error_suppressed_by_nolint s c n
        || line_covers (search_in nolint_pattern raw_line) linenum c n)
unfolding parse_nolint_suppressions
parse_nolint-exact raw_line linenum s c n = go (search_in nolint_pattern raw_line)
  where
    go :
        (o : Option Found)
        → is_error_suppressed_by_nolint (parse_matched o linenum s).0 c n
          ≡ (is_error_suppressed_by_nolint s c n || line_covers o linenum c n)
    go none = ground arith
    go (some m) = elim (Option-cases (group_of 2 m)) [
      | inl e ↦ ground (arith, suppressed-suppress none (suppressed_line m linenum) s c n)
      | inr (t, e) ↦
          ground (arith, parse_category-covers t (suppressed_line m linenum) linenum s c n)
    ]

abbrev pub suppressed_everywhere : Suppressions → Text → Bool
suppressed_everywhere s c = is_true (get c s.everywhere)

everywhere-put_all :
    (cs : List Text) (s : Suppressions) (c : Text)
    → suppressed_everywhere (put_all cs s) c ≡ (suppressed_everywhere s c || contains c cs)
everywhere-put_all [] s c = ground arith
everywhere-put_all (d ∷ cs) s c = ground (
  arith,
  everywhere-put_all cs (record s { everywhere = put d true s.everywhere }) c,
  get-put d c true s.everywhere,
  text_eq_iff d c,
  text_eq_iff c d,
)

-- What one line says of a category: it names a C file or a kernel file.
abbrev pub line_suppresses : Text → Text → Bool
line_suppresses c line =
    (found (search_in c_file_pattern line) && contains c default_c_suppressed)
    || (found (search_in kernel_file_pattern line) && contains c default_kernel_suppressed)

process_global_line-exact :
    (line : Text) (s : Suppressions) (c : Text)
    → suppressed_everywhere (process_global_line line s) c
      ≡ (suppressed_everywhere s c || line_suppresses c line)
unfolding process_global_line
process_global_line-exact line s c = ground (
  arith,
  everywhere-put_all default_c_suppressed s c,
  everywhere-put_all default_kernel_suppressed s c,
  everywhere-put_all default_kernel_suppressed (put_all default_c_suppressed s) c,
)

-- A file-wide suppression is there exactly if it was before, or some line of the file asks for it.
pub process_global-exact :
    (lines : List Text) (s : Suppressions) (c : Text)
    → suppressed_everywhere (process_global_suppressions lines s) c
      ≡ (suppressed_everywhere s c || any (line_suppresses c) lines)
unfolding process_global_suppressions
process_global-exact [] s c = ground arith
process_global-exact (line ∷ lines) s c = ground (
  arith,
  process_global-exact lines (process_global_line line s) c,
  process_global_line-exact line s c,
)
