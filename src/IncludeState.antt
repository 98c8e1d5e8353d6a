-- ===== src/IncludeState.antt =====
-- scripts/cpplint.py: `_IncludeState`, the includes of a file and the section that they have reached.
pub mod Order
pub mod Headers
pub mod Canonical
pub mod Tests
use csci.Prelude.{
  ℕ, zero, suc, ◌-◌, Bool, true, false, not, ◌&&◌, List, [], ◌∷◌, ◌++◌, Option, none, some, Text,
  text, leb, if◌then◌else◌, length, get_or, text_eq, text_lt, replace, lower, is_space, contains,
  text_keys,
}
use csci.Regex.{Regex, seq, star, one, at_start, boundary, chr, lit, match, found}

-- `_C_SYS_HEADER` .. `_OTHER_HEADER`
pub data HeaderType : Type 0 where
  c_sys_header cpp_sys_header likely_my_header possible_my_header other_header : HeaderType

-- `_INITIAL_SECTION` .. `_OTHER_H_SECTION`
pub data Section : Type 0 where
  initial my_h c_system cpp_system other_h : Section

-- The number of a section.
abbrev pub rank : Section → ℕ
rank initial = 0
rank my_h = 1
rank c_system = 2
rank cpp_system = 3
rank other_h = 4

abbrev pub at_most : Section → Section → Bool
at_most s t = leb (rank s) (rank t)

abbrev pub same_section : Section → Section → Bool
same_section s t = at_most s t && at_most t s

-- `_TYPE_NAMES`
unfoldable pub type_name : HeaderType → Text
type_name c_sys_header = text "C system header"
type_name cpp_sys_header = text "C++ system header"
type_name likely_my_header = text "header this file implements"
type_name possible_my_header = text "header this file may implement"
type_name other_header = text "other header"

-- `_SECTION_NAMES`
unfoldable pub section_name : Section → Text
section_name initial = text "... nothing. (This can't be an error.)"
section_name my_h = text "a header this file implements"
section_name c_system = text "C system header"
section_name cpp_system = text "C++ system header"
section_name other_h = text "other header"

-- The lists of (header, line number) are kept apart for the branches of a preprocessor condition.
pub record IncludeState : Type 0 where
  pub include_list : List (List (Text × ℕ))
  pub section : Section
  pub last_header : Text

-- `self.include_list[-1] = l`
abbrev pub set_last : {A : Type 0} → A → List A → List A
set_last l [] = []
set_last l (x ∷ []) = l ∷ []
set_last l (x ∷ y ∷ ys) = x ∷ set_last l (y ∷ ys)

abbrev pub opens_branch : Text → Bool
opens_branch directive = contains directive (text "if" ∷ text "ifdef" ∷ text "ifndef" ∷ [])

abbrev pub changes_branch : Text → Bool
changes_branch directive = contains directive (text "else" ∷ text "elif" ∷ [])

-- `ResetSection`
unfoldable pub reset_section : Text → IncludeState → IncludeState
reset_section directive s = record {
  include_list =
      if opens_branch directive
      then s.include_list ++ [] ∷ []
      else if changes_branch directive
      then set_last [] s.include_list
      else s.include_list;
  section = initial;
  last_header = [];
}

-- `__init__`
unfoldable pub new_include_state : IncludeState
unfolding reset_section
new_include_state =
    reset_section [] (record { include_list = [] ∷ []; section = initial; last_header = [] })

-- The inner loop of `FindHeader`.
unfoldable pub find_in_list : Text → List (Text × ℕ) → Option ℕ
find_in_list header [] = none
find_in_list header ((h, n) ∷ l) = if text_eq h header then some n else find_in_list header l

unfoldable pub find_in_lists : Text → List (List (Text × ℕ)) → Option ℕ
unfolding find_in_list
find_in_lists header [] = none
find_in_lists header (l ∷ ls) = elim (find_in_list header l) [
  | some n ↦ some n
  | none ↦ find_in_lists header ls
]

-- `FindHeader`, where `none` is the -1.
unfoldable pub find_header : Text → IncludeState → Option ℕ
unfolding find_in_lists
find_header header s = find_in_lists header s.include_list

-- `SetLastHeader`
unfoldable pub set_last_header : Text → IncludeState → IncludeState
set_last_header path s = record s { last_header = path }

-- `CanonicalizeAlphabeticalOrder`
unfoldable pub canonicalize_alphabetical_order : Text → Text
canonicalize_alphabetical_order header_path =
    lower (replace (replace header_path (text "-inl.h") (text ".h")) (text "-") (text "_"))

-- `^\s*#\s*include\b`
unfoldable pub include_start : Regex
unfolding lit text
include_start = seq at_start (
    seq (star (one is_space))
      (seq (chr b'#') (seq (star (one is_space)) (seq (lit (text "include")) boundary))))

-- `lines[linenum - 1]`, where index -1 is the last line.
abbrev pub previous_line : List Text → ℕ → Text
previous_line lines zero = get_or lines (length lines - 1) []
previous_line lines (suc n) = get_or lines n []

-- `IsInAlphabeticalOrder` over the elided lines.
unfoldable pub is_in_alphabetical_order : List Text → ℕ → Text → IncludeState → Bool
is_in_alphabetical_order elided linenum header_path s =
    if text_lt header_path s.last_header
      && found (match include_start (previous_line elided linenum))
    then false
    else true

-- The next section, if the header may stand here.
abbrev pub next_section : HeaderType → Section → Option Section
next_section c_sys_header s = if at_most s c_system then some c_system else none
next_section cpp_sys_header s = if at_most s cpp_system then some cpp_system else none
next_section likely_my_header s = if at_most s my_h then some my_h else some other_h
next_section possible_my_header s = if at_most s my_h then some my_h else some other_h
next_section other_header s = some other_h

-- `CheckNextIncludeOrder`: the empty text for a header in its place, an error message for one that is not.
unfoldable pub check_next_include_order : HeaderType → IncludeState → Text × IncludeState
check_next_include_order t s = elim (next_section t s.section) [
  | none ↦ (
    text "Found " ++ type_name t ++ text " after " ++ section_name s.section,
    record s { last_header = [] },
  )
  | some section ↦ (
    [],
    record s {
      section = section;
      last_header = if same_section s.section section then s.last_header else [];
    },
  )
]
