-- ===== src/Config/Line.antt =====
-- The lines of a CPPLINT.cfg file, and `int` of a text.
use csci.Prelude.{
  ℕ, ◌+◌, ◌-◌, ◌*◌, zero, suc, Bool, false, List, [], ◌∷◌, ◌++◌, Option, none, some, Text, text,
  ◌==◌, if◌then◌else◌, text_eq, is_digit, strip,
}
use csci.Prelude.Int.{ℤ, pos, negsuc}
use csci.Regex.{Regex, match, found}
use csci.Files.{Files}
use csci.Session.{bad_pattern, Run, ◌>>=◌, ◌>>◌, pass, raise, change, say}

-- The digits of a number, after those that were read.
unfoldable pub digits_value : ℕ → Text → Option ℕ
digits_value n [] = some n
digits_value n (c ∷ s) = if is_digit c then digits_value (n * 10 + (c - b'0')) s else none

abbrev pub number_of : Text → Option ℕ
number_of [] = none
number_of (c ∷ s) = digits_value 0 (c ∷ s)

abbrev pub negative : Option ℕ → Option ℤ
negative none = none
negative (some n) = some (elim n [ zero ↦ pos 0 | suc k ↦ negsuc k ])

abbrev pub positive : Option ℕ → Option ℤ
positive none = none
positive (some n) = some (pos n)

abbrev pub signed_number : Text → Option ℤ
signed_number [] = none
signed_number (c ∷ s) =
    if c == b'-'
    then negative (number_of s)
    else if c == b'+'
    then positive (number_of s)
    else positive (number_of (c ∷ s))

-- `int(val)` of a text, where `none` is the ValueError.
unfoldable pub parse_int : Text → Option ℤ
unfolding digits_value
parse_int val = signed_number (strip val)

-- The variables of `ProcessConfigOverrides` that its loops change.
pub record Looking : Type 0 where
  pub cfg_filters : List Text
  pub keep_looking : Bool

-- `line.partition(c)`: the parts before and behind the first occurrence.
unfoldable pub before_first : ℕ → Text → Text
before_first c [] = []
before_first c (x ∷ s) = if x == c then [] else x ∷ before_first c s

unfoldable pub behind_first : ℕ → Text → Text
behind_first c [] = []
behind_first c (x ∷ s) = if x == c then s else behind_first c s

-- `_line_length = int(val)`
abbrev pub set_line_length : Option ℤ → Run (Unit {0})
set_line_length none = say (text "Line length must be numeric.")
set_line_length (some n) = change (λ s. record s { line_length = n })

-- `return False`, with its message.
abbrev pub exclude : Text → Text → Text → Text → Run (Option Looking)
exclude filename cfg_file base_name val = do
  say (
      text "Ignoring \""
      ++ filename
      ++ text "\": file excluded by \""
      ++ cfg_file
      ++ text "\". File path component \""
      ++ base_name
      ++ text "\" matches pattern \""
      ++ val
      ++ text "\"\n")
  pass none

-- `exclude_files`, where the name is never empty: whether the pattern matches.
abbrev pub exclude_files : Text → Text → Text → Text → Option Regex → Looking → Run (Option Looking)
exclude_files filename cfg_file base_name val none k = raise bad_pattern
exclude_files filename cfg_file base_name val (some pattern) k =
    if found (match pattern base_name)
    then exclude filename cfg_file base_name val
    else pass (some k)

-- An option with its value.
unfoldable pub config_option :
    Files → Text → Text → Text → Text → Text → Looking → Run (Option Looking)
config_option files filename cfg_file base_name name val k =
    if text_eq name (text "set noparent")
    then pass (some (record k { keep_looking = false }))
    else if text_eq name (text "filter")
    then pass (some (record k { cfg_filters = k.cfg_filters ++ val ∷ [] }))
    else if text_eq name (text "exclude_files")
    then exclude_files filename cfg_file base_name val (files.compile val) k
    else if text_eq name (text "linelength")
    then (do set_line_length (parse_int val); pass (some k))
    else do
      say (
          text "Invalid configuration option ("
          ++ name
          ++ text ") in file "
          ++ cfg_file
          ++ text "\n")
      pass (some k)

-- One line: comments go, and blank lines are passed over.
unfoldable pub config_line : Files → Text → Text → Text → Text → Looking → Run (Option Looking)
unfolding config_option before_first behind_first
config_line files filename cfg_file base_name line k =
    let text_of_line = before_first b'#' line in
    elim (strip text_of_line) [
      | [] ↦ pass (some k)
      | c ∷ t ↦
          config_option files filename cfg_file base_name (strip (before_first b'=' text_of_line))
            (strip (behind_first b'=' text_of_line)) k
    ]

-- Behind a part that may have returned early.
abbrev pub go_on : Option Looking → (Looking → Run (Option Looking)) → Run (Option Looking)
go_on none f = pass none
go_on (some k) f = f k

-- The lines of a file; `none` is the early `return False`.
unfoldable pub config_lines :
    Files → Text → Text → Text → List Text → Looking → Run (Option Looking)
unfolding config_line
config_lines files filename cfg_file base_name [] k = pass (some k)
config_lines files filename cfg_file base_name (line ∷ lines) k = do
  r ← config_line files filename cfg_file base_name line k
  go_on r (λ k'. config_lines files filename cfg_file base_name lines k')
