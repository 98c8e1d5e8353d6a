-- ===== src/IncludeDict.antt =====
-- `UpdateIncludeState` of scripts/cpplint.py. Its argument `io` opens a file: it gives the lines with
-- their ends, or `none` for an IOError.
pub mod First
pub mod Tests
use csci.Prelude.{ℕ, suc, Bool, true, false, Option, some, none, List, [], ◌∷◌, Text, text_keys}
use csci.Prelude.Dict.{Dict, get, put}
use csci.Regex.{Found, search_in, group_text}
use csci.Cleanse.Line.{cleanse_comments}
use csci.Cleanse.Strings.{include_pattern}

-- `d.setdefault(k, v)`
unfoldable pub set_default : Text → ℕ → Dict Text ℕ → Dict Text ℕ
set_default k v d = elim (get k d) [ some w ↦ d | none ↦ put k v d ]

abbrev pub included_by : Option Found → Option Text
included_by none = none
included_by (some m) = some (group_text 2 m)

-- The header that a line of the file includes.
unfoldable pub included : Text → Option Text
included line = included_by (search_in include_pattern (cleanse_comments line))

abbrev pub add_included : ℕ → Option Text → Dict Text ℕ → Dict Text ℕ
add_included linenum none d = d
add_included linenum (some header) d = set_default header linenum d

-- The loop over the lines, from the number of the last one on.
unfoldable pub add_lines : ℕ → List Text → Dict Text ℕ → Dict Text ℕ
add_lines linenum [] d = d
add_lines linenum (line ∷ lines) d =
    add_lines (suc linenum) lines (add_included (suc linenum) (included line) d)

-- `UpdateIncludeState`: whether the header was read, and the dictionary.
unfoldable pub update_include_state :
    (Text → Option (List Text)) → Text → Dict Text ℕ → Bool × Dict Text ℕ
unfolding add_lines
update_include_state io_open filename include_dict = elim (io_open filename) [
  | none ↦ (false, include_dict)
  | some lines ↦ (true, add_lines 0 lines include_dict)
]
