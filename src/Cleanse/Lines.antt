-- ===== src/Cleanse/Lines.antt =====
-- `CleansedLines`: four copies of the lines of a file.
pub mod Aligned
pub mod Tests
use csci.Prelude.{ℕ, List, map, Text, length}
use csci.Cleanse.RawStrings.{cleanse_raw_strings}
use csci.Cleanse.Line.{cleanse_comments}
use csci.Cleanse.Strings.{collapse_strings}

pub record CleansedLines : Type 0 where
  pub elided : List Text
  pub lines : List Text
  pub raw_lines : List Text
  pub num_lines : ℕ
  pub lines_without_raw_strings : List Text

-- `__init__`
unfoldable pub new_cleansed_lines : List Text → CleansedLines
new_cleansed_lines lines =
    let without_raw = cleanse_raw_strings lines in
    record {
      elided = map (λ line. cleanse_comments (collapse_strings line)) without_raw;
      lines = map cleanse_comments without_raw;
      raw_lines = lines;
      num_lines = length lines;
      lines_without_raw_strings = without_raw;
    }

-- `NumLines`
unfoldable pub num_lines_of : CleansedLines → ℕ
num_lines_of c = c.num_lines
