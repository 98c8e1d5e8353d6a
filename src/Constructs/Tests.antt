-- ===== src/Constructs/Tests.antt =====
-- Constructors of a class: arguments with a template, a comparison, and no word `explicit`.
use mathlib.Core.List.{reverse}
use csci.Prelude.{◌<◌, arith, ◌≡◌, refl, true, false, [], ◌∷◌, some, none, text, All}
use csci.Regex.{Found, match, evaluation}
use csci.Report.{report}
use csci.Cleanse.Lines.{CleansedLines}
use csci.Nesting.Block.{new_class, Block}
use csci.Nesting.State.{NestingState, innermost_class, new_nesting_state}
use csci.Constructs.Collapse.{occurrences, collapse_arguments}
use csci.Constructs.Joined.{comma_join, IsWhole, collapse_arguments-IsWhole}
use csci.Constructs.Raises.{check_for_non_standard_constructs-none}
use csci.Constructs.{
  base_classname, explicit_constructor, explicit_reports, initializer_list, copy_argument,
  check_for_non_standard_constructs,
}

abbrev lines : CleansedLines
lines = record {
  elided = text "  Foo(bool b = 1 < 2);" ∷ text "  Foo(int x);" ∷ text "  explicit Foo();" ∷ [];
  lines = text "  Foo(bool b = 1 < 2);" ∷ text "  Foo(int x);" ∷ text "  explicit Foo();" ∷ [];
  raw_lines = text "  Foo(bool b = 1 < 2);" ∷ text "  Foo(int x);" ∷ text "  explicit Foo();" ∷ [];
  lines_without_raw_strings = [];
  num_lines = 3;
}

abbrev in_class : Block
in_class = record (new_class (text "n::Foo") false lines 0) { seen_open_brace = true }

abbrev state : NestingState
state = record new_nesting_state { stack = in_class ∷ [] }

-- The match of the constructor on the first line.
abbrev compared : Found
compared = record {
  from = record { before = []; rest = text "  Foo(bool b = 1 < 2);"; groups = [] };
  to = record {
    before = reverse (text "  Foo(bool b = 1 < 2)");
    rest = text ";";
    groups = (2, text "bool b = 1 < 2") ∷ [];
  };
}

base : base_classname (text "n::Foo") ≡ text "Foo"
unfolding base_classname evaluation
base = refl

angles : occurrences b'>' (text "bool b = 1 < 2") < occurrences b'<' (text "bool b = 1 < 2")
unfolding occurrences evaluation
angles = omega arith

compared-found :
    match (explicit_constructor (base_classname (text "n::Foo"))) (text "  Foo(bool b = 1 < 2);")
    ≡ some compared
unfolding base_classname explicit_constructor evaluation
compared-found = refl

not_marked :
    (check_for_non_standard_constructs state lines 1).1
    ≡ some (
        report 1
          (text "runtime/explicit")
          5
          (text "Single-parameter constructors should be marked explicit."))
unfolding check_for_non_standard_constructs innermost_class base_classname explicit_constructor
    collapse_arguments explicit_reports copy_argument initializer_list new_class evaluation
not_marked = refl

marked :
    (check_for_non_standard_constructs state lines 2).1
    ≡ some (
        report 2
          (text "runtime/explicit")
          5
          (text "Zero-parameter constructors should not be marked explicit."))
unfolding check_for_non_standard_constructs innermost_class base_classname explicit_constructor
    collapse_arguments explicit_reports copy_argument initializer_list new_class evaluation
marked = refl

check_for_non_standard_constructs-none_example :
    (check_for_non_standard_constructs state lines 0).1 ≡ none
unfolding innermost_class new_class evaluation
check_for_non_standard_constructs-none_example =
    check_for_non_standard_constructs-none state lines 0 in_class compared refl refl compared-found
      angles

collapse_arguments-IsWhole_example :
    let args = text "std::map<int" ∷ text " int> m" ∷ text " int n" ∷ [] in
    let out = text "std::map<int, int> m" ∷ text " int n" ∷ [] in
    (comma_join out ≡ comma_join args) × All IsWhole out × (collapse_arguments out ≡ some out)
unfolding collapse_arguments evaluation
collapse_arguments-IsWhole_example =
    collapse_arguments-IsWhole (text "std::map<int" ∷ text " int> m" ∷ text " int n" ∷ [])
      (text "std::map<int, int> m" ∷ text " int n" ∷ []) refl
