-- ===== src/IncludeState/Tests.antt =====
-- Concrete sequences of includes.
use csci.Prelude.{◌≤◌, ◌≡◌, refl, [], ◌∷◌, none, text}
use csci.Regex.{evaluation}
use csci.IncludeState.{
  c_sys_header, cpp_sys_header, likely_my_header, other_header, initial, rank, IncludeState,
  reset_section, find_header, find_in_lists, find_in_list, canonicalize_alphabetical_order,
  check_next_include_order, new_include_state, type_name, section_name,
}
use csci.IncludeState.Order.{at_least, messages, AllBelow, Silent-order}

abbrev state : IncludeState
state = record {
  include_list = ((text "a.h", 3) ∷ []) ∷ ((text "b.h", 7) ∷ []) ∷ [];
  section = initial;
  last_header = text "b.h";
}

late_message :
    messages (likely_my_header ∷ cpp_sys_header ∷ c_sys_header ∷ []) new_include_state
    ≡ [] ∷ [] ∷ text "Found C system header after C++ system header" ∷ []
unfolding check_next_include_order type_name section_name new_include_state evaluation
late_message = refl

Silent-order_example :
    (rank state.section ≤ at_least cpp_sys_header)
    × AllBelow (at_least cpp_sys_header) (likely_my_header ∷ c_sys_header ∷ [])
unfolding check_next_include_order
Silent-order_example =
    Silent-order (likely_my_header ∷ c_sys_header ∷ []) cpp_sys_header (other_header ∷ []) state tt
      (refl, (refl, (refl, (refl, tt))))

forgotten_header : find_header (text "b.h") (reset_section (text "else") state) ≡ none
unfolding find_header reset_section find_in_lists find_in_list evaluation
forgotten_header = refl

canonical_path : canonicalize_alphabetical_order (text "Foo-Bar-inl.h") ≡ text "foo_bar.h"
unfolding canonicalize_alphabetical_order evaluation
canonical_path = refl
