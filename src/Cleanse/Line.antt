-- ===== src/Cleanse/Line.antt =====
-- Comments on one line (`IsCppString`, `CleanseComments`) and the patterns that they use.
use csci.Prelude.{
  ◌+◌, ◌%◌, Bool, not, [], none, some, Text, text, ◌==◌, if◌then◌else◌, take, find, replace, count,
  rstrip, is_space, is_word,
}
use csci.Regex.{
  Regex, one, seq, alt, star, group, followed_by, not_followed_by, at_end, replace_all, plus, chr,
  lit,
}

-- `/\*(?:[^*]|\*(?!/))*\*/`
unfoldable pub c_comments : Regex
unfolding lit text
c_comments = seq (lit (text "/*")) (
    seq (star (alt (one (λ c. not (c == b'*'))) (seq (chr b'*') (not_followed_by (chr b'/')))))
      (lit (text "*/")))

-- `(\s*C\s*$|C\s+|\s+C(?=\W)|C)`, for the pattern `C` above.
unfoldable pub cleanse_line_c_comments : Regex
unfolding c_comments
cleanse_line_c_comments =
    let spaces = star (one is_space) in
    group 1 (
      alt (seq spaces (seq c_comments (seq spaces at_end))) (
        alt (seq c_comments (plus (one is_space))) (
          alt
            (seq (plus (one is_space)) (seq c_comments (followed_by (one (λ c. not (is_word c))))))
            c_comments)))

-- `IsCppString`: the difference of the counts is odd exactly if their sum is.
unfoldable pub is_cpp_string : Text → Bool
is_cpp_string line =
    let s = replace line (text "\\\\") (text "XX") in
    (count s (text "\"") + count s (text "\\\"") + count s (text "'\"'")) % 2 == 1

-- `CleanseComments`
unfoldable pub cleanse_comments : Text → Text
cleanse_comments line =
    let cut = elim (find line (text "//")) as (λ _. Text) [
      | none ↦ line
      | some i ↦ if not (is_cpp_string (take i line)) then rstrip (take i line) else line
    ] in
    replace_all cleanse_line_c_comments [] cut
