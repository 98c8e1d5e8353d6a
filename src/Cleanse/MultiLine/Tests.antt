-- ===== src/Cleanse/MultiLine/Tests.antt =====
-- Comments over several lines, concretely.
use csci.Prelude.{◌≡◌, refl, false, List, [], ◌∷◌, Text, text}
use csci.Regex.{evaluation}
use csci.Cleanse.MultiLine.{
  remove_multi_line_comments, remove_from, comment_round, find_next_multi_line_comment_start,
  find_next_multi_line_comment_end, find_line, opens_comment, closes_comment,
  remove_multi_line_comments_from_range,
}
use csci.Cleanse.MultiLine.Blanked.{blanked, unterminated, reported}
use csci.Cleanse.MultiLine.Ends.{remove_multi_line_comments_lem}

abbrev lines : List Text
lines =
    text "int a;" ∷ text "/* one" ∷ text "two */" ∷ text "int b; /* three" ∷ text " /* four" ∷ []

blanked_lines :
    (remove_multi_line_comments lines).0
    ≡ text "int a;" ∷ text "/**/" ∷ text "/**/" ∷ text "int b; /* three" ∷ text " /* four" ∷ []
unfolding remove_multi_line_comments remove_from comment_round find_next_multi_line_comment_start
    find_next_multi_line_comment_end find_line opens_comment closes_comment
    remove_multi_line_comments_from_range evaluation
blanked_lines = refl

remove_multi_line_comments_lem_example :
    ((remove_multi_line_comments lines).0 ≡ blanked false lines)
    × (reported (remove_multi_line_comments lines).1 ≡ unterminated false lines)
remove_multi_line_comments_lem_example = remove_multi_line_comments_lem lines
