-- ===== src/IncludeLine/Listed.antt =====
-- The headers that `CheckIncludeLine` records, as `FindHeader` sees them.
use csci.Prelude.{
  ℕ, ◌≡◌, ◌≢◌, refl, sym, subst, ap, ◌∙◌, inl, inr, Bool, false, List, [], ◌∷◌, ◌++◌, Option, none,
  some, arith, Text, text, if◌then◌else◌, text_eq, text_eq_iff, ends_with, get_or, Option-cases,
  Bool-cases,
}
use csci.Regex.{Found, match, search_in, found, group_text}
use csci.Report.{Report}
use csci.Cleanse.Lines.{CleansedLines}
use csci.Cleanse.Strings.{include_pattern}
use csci.IncludeState.{
  HeaderType, IncludeState, find_in_list, find_in_lists, find_header, next_section,
  check_next_include_order, set_last_header,
}
use csci.IncludeLine.{
  append_last, add_include, new_include, include_named, include_found, check_include_line,
  classify_include, third_party_headers, bare_include, bare_reports, duplicate_report,
}

abbrev or_new : Option ℕ → Option ℕ → Option ℕ
or_new none o = o
or_new (some n) o = some n

find_in_list-append :
    (k h : Text) (n : ℕ) (l : List (Text × ℕ))
    → find_in_list k (l ++ (h, n) ∷ [])
      ≡ or_new (find_in_list k l) (if text_eq h k then some n else none)
unfolding find_in_list
find_in_list-append k h n [] = refl
find_in_list-append k h n ((j, m) ∷ l) = elim (Bool-cases (text_eq j k)) [
  | inl e ↦ rw e refl
  | inr e ↦ rw e (find_in_list-append k h n l)
]

find_in_lists-append_last :
    (k h : Text) (n : ℕ) (ls : List (List (Text × ℕ)))
    → ls ≢ []
    → find_in_lists k (append_last (h, n) ls)
      ≡ or_new (find_in_lists k ls) (if text_eq h k then some n else none)
unfolding find_in_lists append_last
find_in_lists-append_last k h n [] given = absurd (given refl)
find_in_lists-append_last k h n (l ∷ []) given = ground (arith, find_in_list-append k h n l)
find_in_lists-append_last k h n (l ∷ r ∷ ls) given =
    ground (arith, find_in_lists-append_last k h n (r ∷ ls) (λ e. cc))

check_next_include_order-listed :
    (t : HeaderType) (s : IncludeState)
    → (check_next_include_order t s).1.include_list ≡ s.include_list
unfolding check_next_include_order
check_next_include_order-listed t s = elim (Option-cases (next_section t s.section)) [
  | inl e ↦ rw (e, check_next_include_order)
  | inr (x, e) ↦ rw (e, check_next_include_order)
]

-- Adding a header answers for that header where nothing did, and for no other.
add_include-find_header :
    (k name : Text) (c : CleansedLines) (linenum : ℕ) (include : Text) (is_system : Bool)
    (s : IncludeState)
    → s.include_list ≢ []
    → find_header k (add_include name c linenum include is_system s).1
      ≡ or_new (find_header k s) (if text_eq include k then some linenum else none)
unfolding add_include find_header set_last_header
add_include-find_header k name c linenum include is_system s given =
    let listed = record s { include_list = append_last (include, linenum) s.include_list } in
    ap (find_in_lists k)
      (check_next_include_order-listed (classify_include name include is_system) listed)
    ∙ find_in_lists-append_last k include linenum s.include_list given

-- Behind its line, a header of the program's own is listed.
include_named-listed :
    (filename name : Text) (c : CleansedLines) (linenum : ℕ) (include : Text) (is_system : Bool)
    (s : IncludeState)
    → s.include_list ≢ []
    → found (match third_party_headers include) ≡ false
    → ends_with include (text ".cc") ≡ false
    → (d : ℕ) × (find_header include (include_named filename name c linenum include is_system s).1
        ≡ some d)
unfolding include_named
include_named-listed filename name c linenum include is_system s given own no_cc =
    elim (Option-cases (find_header include s)) [
      | inr (d, e) ↦ (d, rw (e, include_named) e)
      | inl e ↦ (
        linenum,
        rw (e, include_named, new_include, no_cc, own)
            (add_include-find_header include name c linenum include is_system s given
              ∙ rw (e, (text_eq_iff include include).1 refl) refl),
      )
    ]

include_named-again :
    (filename name : Text) (c : CleansedLines) (linenum : ℕ) (include : Text) (is_system : Bool)
    (s : IncludeState) (d : ℕ)
    → find_header include s ≡ some d
    → include_named filename name c linenum include is_system s
      ≡ (duplicate_report filename linenum include d, s)
unfolding include_named
include_named-again filename name c linenum include is_system s d e = rw (e, include_named)

abbrev with_bare : List Report → List Report × IncludeState → List Report × IncludeState
with_bare bare r = (bare ++ r.0, r.1)

-- A header that CheckIncludeLine has recorded is reported when another line includes it: the report
-- names the line that FindHeader gives, and the state stays as it is.
pub check_include_line-again :
    (filename name : Text) (c : CleansedLines) (first second : ℕ) (s : IncludeState) (m m' : Found)
    → s.include_list ≢ []
    → search_in include_pattern (get_or c.lines first []) ≡ some m
    → search_in include_pattern (get_or c.lines second []) ≡ some m'
    → group_text 2 m' ≡ group_text 2 m
    → found (match third_party_headers (group_text 2 m)) ≡ false
    → ends_with (group_text 2 m) (text ".cc") ≡ false
    → let s' = (check_include_line filename name c first s).1 in
      (d : ℕ) × (find_header (group_text 2 m) s' ≡ some d)
      × (check_include_line filename name c second s' ≡ (
        bare_reports second (match bare_include (get_or c.lines second []))
            ++ duplicate_report filename second (group_text 2 m) d,
        s',
      ))
unfolding check_include_line
check_include_line-again filename name c first second s m m' given e e' same own no_cc =
    let s0 = (include_found filename name c first (some m) s).1 in
    let bare = bare_reports second (match bare_include (get_or c.lines second [])) in
    let (d, h) =
      include_named-listed filename name c first (group_text 2 m)
        (text_eq (group_text 1 m) (text "<")) s given own no_cc in
    subst
      (λ (s' : IncludeState).
        (d : ℕ) × (find_header (group_text 2 m) s' ≡ some d)
        × (check_include_line filename name c second s'
            ≡ (bare ++ duplicate_report filename second (group_text 2 m) d, s')))
      (sym (ap (λ (o : Option Found). (include_found filename name c first o s).1) e))
      (
        d,
        h,
        ap (with_bare bare) (
            ap (λ (o : Option Found). include_found filename name c second o s0) e'
            ∙ ap
                (λ (i : Text).
                  include_named filename name c second i (text_eq (group_text 1 m') (text "<")) s0)
                same
            ∙ include_named-again filename name c second (group_text 2 m)
                (text_eq (group_text 1 m') (text "<")) s0 d h),
      )
