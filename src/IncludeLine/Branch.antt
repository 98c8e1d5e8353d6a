-- ===== src/IncludeLine/Branch.antt =====
-- The headers that are recorded inside of a preprocessor condition.
use csci.Prelude.{ℕ, List, [], ◌∷◌, Text}
use csci.IncludeState.{IncludeState}
use csci.IncludeLine.{append_last}

-- The headers with their lines, recorded one after the other.
unfoldable pub record_all : List (Text × ℕ) → IncludeState → IncludeState
record_all [] s = s
record_all (x ∷ xs) s = record_all xs (record s { include_list = append_last x s.include_list })
