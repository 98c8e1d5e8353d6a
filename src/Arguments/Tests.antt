-- ===== src/Arguments/Tests.antt =====
-- Command lines that are accepted and rejected.
use csci.Prelude.{◌≡◌, refl, [], ◌∷◌, none, some, text}
use csci.Regex.{evaluation}
use csci.Session.{start_session}
use csci.Arguments.Getopt.{getopt}
use csci.Arguments.{long_options, parse_arguments}
use csci.Arguments.Signed.{IsReady, parse_arguments-IsReady}

-- A prefix stands for an option if no other one has it, and a value may be the next argument.
parsed_prefix :
    getopt long_options (text "--verb=3" ∷ text "--root" ∷ text "src" ∷ text "a.cc" ∷ [])
    ≡ some ((text "verbose", text "3") ∷ (text "root", text "src") ∷ [], text "a.cc" ∷ [])
unfolding getopt long_options evaluation
parsed_prefix = refl

short_option : getopt long_options (text "-v" ∷ text "a.cc" ∷ []) ≡ none
unfolding getopt long_options evaluation
short_option = refl

parse_arguments-IsReady_example :
    IsReady (parse_arguments (text "--filter=-build" ∷ text "a.cc" ∷ []) (start_session []))
parse_arguments-IsReady_example =
    parse_arguments-IsReady (text "--filter=-build" ∷ text "a.cc" ∷ []) (start_session [])
