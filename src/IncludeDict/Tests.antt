-- ===== src/IncludeDict/Tests.antt =====
-- A header that includes one file twice.
use csci.Prelude.{◌≡◌, refl, true, some, none, List, [], ◌∷◌, ◌++◌, Text, text, text_keys}
use csci.Prelude.Dict.{get}
use csci.Regex.{evaluation}
use csci.Cleanse.Strings.{include_pattern}
use csci.Cleanse.Line.{cleanse_comments, is_cpp_string, cleanse_line_c_comments}
use csci.IncludeDict.{included, update_include_state}
use csci.IncludeDict.First.{first_include, or_else, update_include_state-first}

abbrev header_lines : List Text
header_lines =
    (text "// #include \"b.h\"" ++ 10 ∷ [])
    ∷ (text "#include \"b.h\"  // b" ++ 10 ∷ [])
    ∷ text "#include \"b.h\""
    ∷ []

included-comment : included (text "// #include \"b.h\"") ≡ none
unfolding included include_pattern cleanse_comments is_cpp_string cleanse_line_c_comments evaluation
included-comment = refl

update_include_state-first_example :
    let result =
      update_include_state (λ f. some header_lines) (text "a.h") ((text "c.h", 7) ∷ []) in
    (result.0 ≡ true)
    × (get (text "b.h") result.1
        ≡ or_else
            (get (text "b.h") ((text "c.h", 7) ∷ []))
            (first_include (text "b.h") 0 header_lines))
update_include_state-first_example =
    update_include_state-first (λ f. some header_lines) (text "a.h") header_lines
      ((text "c.h", 7) ∷ []) (text "b.h") refl
