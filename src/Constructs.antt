-- ===== src/Constructs.antt =====
-- `CheckForNonStandardConstructs` of scripts/cpplint.py.
pub mod Collapse
pub mod Plain
pub mod Joined
pub mod Raises
pub mod Tests
use csci.Prelude.{
  ℕ, Bool, true, false, not, List, Option, none, some, Text, text, ltb, leb, if◌then◌else◌, length,
  get_or, text_eq, contains, is_space, is_word, strip, split_on, text_keys, [], ◌∷◌, ◌++◌, ◌-◌,
  ◌==◌, ◌&&◌, ◌||◌, nat_eq,
}
use csci.Regex.{
  Regex, Found, match, search_in, found, group_text, one, seq, alt, star, opt, plus, group, chr,
  lit, boundary,
}
use csci.Report.{Report, report, report_if}
use csci.Cleanse.Lines.{CleansedLines}
use csci.Nesting.Block.{Kind, class_info, Block}
use csci.Nesting.State.{NestingState, innermost_class}
use csci.Constructs.Collapse.{collapse_arguments}
use csci.Constructs.Plain.{plain_constructs}

-- A constructor of the class: the word `explicit`, and the arguments.
unfoldable pub explicit_constructor : Text → Regex
unfolding lit text
explicit_constructor name = seq (plus (one is_space)) (
    seq (opt (seq (lit (text "inline")) (plus (one is_space)))) (
      seq (opt (group 1 (seq (lit (text "explicit")) (plus (one is_space))))) (
        seq (opt (seq (lit (text "inline")) (plus (one is_space)))) (
          seq (lit name) (
            seq (star (one is_space)) (
              seq (chr b'(') (
                seq
                  (group 2 (
                    star (
                      alt (one (λ c. not (c == b'(' || c == b')'))) (
                        seq (chr b'(')
                          (seq (star (one (λ c. not (c == b'(' || c == b')')))) (chr b')'))))))
                  (chr b')'))))))))

-- `\bstd\s*::\s*initializer_list\b`
unfoldable pub initializer_list : Regex
unfolding lit text
initializer_list = seq boundary (
    seq (lit (text "std")) (
      seq (star (one is_space)) (
        seq (lit (text "::"))
          (seq (star (one is_space)) (seq (lit (text "initializer_list")) boundary)))))

-- A reference to the class itself.
unfoldable pub copy_argument : Text → Regex
unfolding lit text
copy_argument name = seq (opt (group 1 (seq (lit (text "const")) (plus (one is_space))))) (
    seq (lit name) (
      seq
        (opt (
          group 2 (
            seq (star (one is_space))
              (seq (chr b'<') (seq (star (one (λ c. not (c == b'>')))) (chr b'>'))))))
        (seq (opt (group 3 (seq (plus (one is_space)) (lit (text "const"))))) (
          seq (star (one is_space)) (
            seq
              (opt
                (seq (chr b'<') (seq (plus (one is_word)) (seq (chr b'>') (star (one is_space))))))
              (chr b'&'))))))

-- `name.split('::')[-1]`: whether the last character is the first colon of a pair, and the part so far.
abbrev pub base_step : Bool × Text → ℕ → Bool × Text
base_step (true, part) c = if c == b':' then (false, []) else (false, part ++ b':' ∷ c ∷ [])
base_step (false, part) c = if c == b':' then (true, part) else (false, part ++ c ∷ [])

unfoldable pub base_from : Bool × Text → Text → Text
base_from (colon, part) [] = if colon then part ++ b':' ∷ [] else part
base_from state (c ∷ name) = base_from (base_step state c) name

unfoldable pub base_classname : Text → Text
unfolding base_from
base_classname name = base_from (false, []) name

abbrev pub constructor_arguments : Text → List Text
constructor_arguments arguments = if length arguments == 0 then [] else split_on b',' arguments

-- `defaulted_args`
abbrev pub defaulted_arguments : List Text → List Text
defaulted_arguments [] = []
defaulted_arguments (arg ∷ args) =
    let rest = defaulted_arguments args in if contains b'=' arg then arg ∷ rest else rest

-- `noarg_constructor`
unfoldable pub is_noarg : List Text → Bool
is_noarg [] = true
is_noarg (arg ∷ []) = text_eq (strip arg) (text "void")
is_noarg (arg ∷ _ ∷ args) = false

-- `onearg_constructor`
unfoldable pub is_onearg : List Text → Bool
unfolding is_noarg
is_onearg args =
    (length args == 1 && not (is_noarg args))
    || (leb 1 (length args)
        && (not (is_noarg args) && leb (length args - 1) (length (defaulted_arguments args))))

-- What the check says of a constructor with these arguments, and of the word `explicit` in front of it.
unfoldable pub explicit_reports : ℕ → Text → Bool → List Text → List Report
unfolding is_onearg
explicit_reports linenum name is_marked args =
    let first = strip (get_or args 0 []) in
    let onearg = is_onearg args in
    let list_constructor = onearg && found (search_in initializer_list (get_or args 0 [])) in
    let copy_constructor = onearg && found (match (copy_argument name) first) in
    if not is_marked && (onearg && (not list_constructor && not copy_constructor))
    then (if length (defaulted_arguments args) == 0
        then report linenum (text "runtime/explicit") 5
            (text "Single-parameter constructors should be marked explicit.")
        else report linenum (text "runtime/explicit") 5
            (text "Constructors callable with one argument " ++ text "should be marked explicit."))
    else report_if (is_marked && (not onearg && is_noarg args)) (
        report linenum (text "runtime/explicit") 5
          (text "Zero-parameter constructors should not be marked explicit."))

-- `none` where the arguments cannot be put together, so that the source raises an IndexError.
abbrev pub with_arguments : ℕ → Text → Bool → Option (List Text) → Option (List Report)
with_arguments linenum name is_marked none = none
with_arguments linenum name is_marked (some args) =
    some (explicit_reports linenum name is_marked args)

abbrev pub constructor_found : ℕ → Text → Option Found → Option (List Report)
constructor_found linenum name none = some []
constructor_found linenum name (some m) =
    with_arguments linenum name (ltb 0 (length (group_text 1 m)))
      (collapse_arguments (constructor_arguments (group_text 2 m)))

-- The name of the block that `InnermostClass` returns, which is always a class.
abbrev pub class_name : Kind → Text
class_name (class_info c) = c.name
class_name _ = []

-- The part of the check for a line of the class on top of the stack of blocks.
unfoldable pub class_constructs : ℕ → Text → Option Block → Option (List Report)
class_constructs linenum line none = some []
class_constructs linenum line (some b) =
    let name = base_classname (class_name b.kind) in
    if b.seen_open_brace
    then constructor_found linenum name (match (explicit_constructor name) line)
    else some []

-- `CheckForNonStandardConstructs`: the calls of `error` for the line alone, and those for its class,
-- which are `none` where the source raises an IndexError behind the first ones.
unfoldable pub check_for_non_standard_constructs :
    NestingState → CleansedLines → ℕ → List Report × Option (List Report)
unfolding plain_constructs class_constructs
check_for_non_standard_constructs s clean_lines linenum =
    let elided = get_or clean_lines.elided linenum [] in
    (
      plain_constructs linenum (get_or clean_lines.lines linenum []) elided,
      class_constructs linenum elided (innermost_class s.stack),
    )
