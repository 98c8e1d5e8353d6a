-- ===== src/Nesting/Tests.antt =====
-- A small class and a condition, line by line.
use csci.Prelude.{
  ℕ, Bool, some, ◌+◌, ◌≡◌, refl, true, false, List, [], ◌∷◌, Text, text, length, any, ◌==◌, arith,
}
use csci.Regex.{evaluation}
use csci.Cleanse.Lines.{CleansedLines}
use csci.Nesting.Block.{new_block}
use csci.Nesting.State.{
  BlockStack, new_nesting_state, if_directive, else_directive, endif_directive,
}
use csci.Nesting.Braces.{brace_loop}
use csci.Nesting.Template.{template_loop, template_step, argument_step, template_token, size}
use csci.Nesting.Template.Ends.{template_loop_lem}
use csci.Nesting.Update.{namespace_loop, namespace_decl}
use csci.Nesting.Namespaces.{Consumed, namespace_loop_lem}
use csci.Nesting.Branches.{
  update_all, moved, Nested, section, branches, no_lines, plain_line, endif_line, else_line, IsIf,
  IsElse, line_at, condition-Nested, else-Nested,
}
use csci.Nesting.Tokens.{IsOneLine}
use csci.Nesting.Depth.{scan, depth_after, AllOpen, brace_loop_lem, brace_loop-depth}

abbrev source : List Text
source =
    text "#ifdef SWIG"
    ∷ text "struct A {"
    ∷ text "#else"
    ∷ text "struct A : public B {"
    ∷ text "#endif"
    ∷ text "};"
    ∷ []

abbrev file : CleansedLines
file = record {
  elided = source;
  lines = source;
  raw_lines = source;
  num_lines = 6;
  lines_without_raw_strings = source;
}

first_branch : Nested file section (1 ∷ [])
unfolding if_directive else_directive endif_directive evaluation
first_branch = plain_line 1 [] (refl, refl, refl) no_lines

opens_condition : IsIf (line_at file 0)
unfolding if_directive evaluation
opens_condition = refl

changes_branch : IsElse (line_at file 2)
unfolding if_directive else_directive evaluation
changes_branch = (refl, refl)

second_branch : Nested file (branches 4) (2 ∷ 3 ∷ 4 ∷ [])
unfolding if_directive else_directive endif_directive evaluation
second_branch =
    else_line 2 (3 ∷ []) (4 ∷ []) 4 changes_branch (plain_line 3 [] (refl, refl, refl) no_lines)
      (endif_line 4 (refl, refl, refl))

condition-Nested_example :
    ((update_all file (0 ∷ 1 ∷ 2 ∷ 3 ∷ 4 ∷ []) new_nesting_state).stack
      ≡ moved file 4 (update_all file (0 ∷ 1 ∷ []) new_nesting_state).stack)
    × ((update_all file (0 ∷ 1 ∷ 2 ∷ 3 ∷ 4 ∷ []) new_nesting_state).pp_stack
        ≡ new_nesting_state.pp_stack)
condition-Nested_example =
    condition-Nested file 0 (1 ∷ []) (2 ∷ 3 ∷ 4 ∷ []) 4 new_nesting_state opens_condition
      first_branch second_branch

else-Nested_example :
    (update_all file (0 ∷ 1 ∷ 2 ∷ []) new_nesting_state).stack
    ≡ moved file 2 new_nesting_state.stack
else-Nested_example =
    else-Nested file 0 (1 ∷ []) 2 new_nesting_state opens_condition first_branch changes_branch

abbrev line : Text
line = text "if (a) { b(); } else {"

no_break-IsOneLine : (s : Text) → any (λ x. x == 10) s ≡ false → IsOneLine s
no_break-IsOneLine [] h = tt
no_break-IsOneLine (x ∷ s) h = (ground arith, no_break-IsOneLine s (ground arith))

abbrev stack : BlockStack
stack = new_block 1 true ∷ []

brace_loop_lem_example :
    brace_loop (length line + 1) file 3 line stack ≡ scan file 3 line line stack
unfolding text
brace_loop_lem_example = brace_loop_lem file 3 line stack (no_break-IsOneLine line refl)

brace_loop-depth_example :
    AllOpen (brace_loop (length line + 1) file 3 line stack).0
    × (length (brace_loop (length line + 1) file 3 line stack).0 ≡ depth_after line (length stack))
unfolding text
brace_loop-depth_example =
    brace_loop-depth file 3 line stack (no_break-IsOneLine line refl) (refl, tt)

abbrev namespaces : Text
namespaces = text "namespace a { namespace b { class C; } }"

namespace_loop_lem_example :
    Consumed 3 stack (namespace_loop (length namespaces + 1) 3 namespaces stack)
namespace_loop_lem_example = namespace_loop_lem 3 namespaces stack

rest_of_namespaces :
    (namespace_loop (length namespaces + 1) 3 namespaces stack).0 ≡ text " class C; } }"
unfolding namespace_loop namespace_decl evaluation
rest_of_namespaces = refl

abbrev template_lines : List Text
template_lines =
    text "template <class A," ∷ text "          class B = C<A> >" ∷ text "class D {" ∷ []

template_loop_lem_example :
    (b : Bool) × ((k : ℕ) → template_loop (size template_lines + k) template_lines 0 17 ≡ some b)
template_loop_lem_example = template_loop_lem template_lines 0 17

inside_template : template_loop (size template_lines) template_lines 0 17 ≡ some true
unfolding template_loop template_step argument_step template_token evaluation
inside_template = refl
