-- ===== src/Regex/Tests.antt =====
-- Concrete searches.
use csci.Prelude.{◌≡◌, refl, [], ◌∷◌, none, some, Text, text, is_space, is_word}
use csci.Regex.{
  Regex, seq, star, group, one, boundary, chr, plus, search_in, replace_all, Found, evaluation,
}

-- `\b(\w+)\s*;`
abbrev statement : Regex
statement = seq boundary (seq (group 1 (plus (one is_word))) (seq (star (one is_space)) (chr b';')))

abbrev line : Text
line = text "int x ;"

abbrev statement_found : Found
statement_found = record {
  from = record { before = text " tni"; rest = text "x ;"; groups = [] };
  to = record { before = text "; x tni"; rest = []; groups = (1, text "x") ∷ [] };
}

search_line : search_in statement line ≡ some statement_found
unfolding evaluation
search_line = refl

replace_spaces : replace_all (plus (one is_space)) (text "_") (text "a  b c") ≡ text "a_b_c"
unfolding evaluation
replace_spaces = refl

no_statement : search_in statement (text "int x") ≡ none
unfolding evaluation
no_statement = refl
