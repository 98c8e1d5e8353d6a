-- ===== src/Cleanse/MultiLine.antt =====
-- Comments over several lines (`FindNextMultiLineCommentStart` .. `RemoveMultiLineComments`).
pub mod Blanked
pub mod Rounds
pub mod Ends
pub mod Tests
use csci.Prelude.{
  ℕ, zero, suc, ◌+◌, ◌-◌, Bool, true, false, not, ◌&&◌, List, [], ◌∷◌, ◌++◌, Option, none, some,
  Text, text, leb, if◌then◌else◌, length, take, drop, get_or, strip, starts_with, ends_with, find,
}
use csci.Report.{Report, report}

-- `line.strip().startswith('/*')` and `line.strip().find('*/', 2) < 0`: the comment goes on.
unfoldable pub opens_comment : Text → Bool
opens_comment line =
    starts_with (strip line) (text "/*")
    && (elim (find (drop 2 (strip line)) (text "*/")) [ none ↦ true | some i ↦ false ])

-- `line.strip().endswith('*/')`
unfoldable pub closes_comment : Text → Bool
closes_comment line = ends_with (strip line) (text "*/")

-- The index from `lineix` on of the first line that passes the test, or the number of lines. The
-- first argument is `lines[lineix:]`.
unfoldable pub find_line : (Text → Bool) → List Text → ℕ → ℕ
find_line p [] lineix = lineix
find_line p (l ∷ ls) lineix = elim (p l) [ true ↦ lineix | false ↦ find_line p ls (lineix + 1) ]

-- `FindNextMultiLineCommentStart`
unfoldable pub find_next_multi_line_comment_start : List Text → ℕ → ℕ
unfolding find_line
find_next_multi_line_comment_start lines lineix = find_line opens_comment (drop lineix lines) lineix

-- `FindNextMultiLineCommentEnd`
unfoldable pub find_next_multi_line_comment_end : List Text → ℕ → ℕ
unfolding find_line
find_next_multi_line_comment_end lines lineix = find_line closes_comment (drop lineix lines) lineix

-- `RemoveMultiLineCommentsFromRange`: the lines from `begin` and before `end`, for `begin ≤ end`.
unfoldable pub remove_multi_line_comments_from_range : List Text → ℕ → ℕ → List Text
remove_multi_line_comments_from_range [] begin end = []
remove_multi_line_comments_from_range (l ∷ ls) (suc begin) end =
    l ∷ remove_multi_line_comments_from_range ls begin (end - 1)
remove_multi_line_comments_from_range (l ∷ ls) zero zero = l ∷ ls
remove_multi_line_comments_from_range (l ∷ ls) zero (suc end) =
    text "/**/" ∷ remove_multi_line_comments_from_range ls zero end

-- A round of `RemoveMultiLineComments`, once the begin and the end of a comment are found: the lines and
-- the index at which it goes on, or the result.
pub data Round : Type 0 where
  finished : List Text → List Report → Round
  again : List Text → ℕ → Round

unfoldable pub comment_round : List Text → ℕ → ℕ → Round
comment_round lines begin end =
    if leb (length lines) begin
    then finished lines []
    else if leb (length lines) end
    then finished lines (
        report (begin + 1) (text "readability/multiline_comment") 5
          (text "Could not find end of multi-line comment"))
    else again (remove_multi_line_comments_from_range lines begin (end + 1)) (end + 1)

-- `RemoveMultiLineComments`, from line `lineix` on. Each round reads a line at least, so the number of
-- lines is fuel enough.
unfoldable pub remove_from : ℕ → List Text → ℕ → List Text × List Report
remove_from zero lines lineix = (lines, [])
remove_from (suc fuel) lines lineix =
    let begin = find_next_multi_line_comment_start lines lineix in
    elim (comment_round lines begin (find_next_multi_line_comment_end lines begin)) [
      | finished lines' reports ↦ (lines', reports)
      | again lines' lineix' ↦ remove_from fuel lines' lineix'
    ]

unfoldable pub remove_multi_line_comments : List Text → List Text × List Report
unfolding remove_from
remove_multi_line_comments lines = remove_from (length lines + 1) lines 0
