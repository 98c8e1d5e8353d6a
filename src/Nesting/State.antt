-- ===== src/Nesting/State.antt =====
-- The state of `NestingState`, its questions, and `UpdatePreprocessor`.
use csci.Prelude.{
  Bool, true, false, not, List, [], ◌∷◌, ◌++◌, Option, none, some, Text, text, if◌then◌else◌,
  is_space,
}
use csci.Regex.{Regex, one, seq, alt, star, group, at_start, boundary, match, found, chr, lit}
use csci.Report.{Report, report}
use csci.Nesting.Block.{Asm, no_asm, Kind, block_info, extern_c, class_info, namespace_info, Block}

abbrev pub BlockStack : Type 0
BlockStack = List Block

-- `_PreprocessorInfo`
pub record PreprocessorInfo : Type 0 where
  pub stack_before_if : BlockStack
  pub stack_before_else : BlockStack
  pub seen_else : Bool

abbrev pub new_preprocessor_info : BlockStack → PreprocessorInfo
new_preprocessor_info stack = record {
  stack_before_if = stack;
  stack_before_else = [];
  seen_else = false;
}

pub record NestingState : Type 0 where
  pub stack : BlockStack
  pub previous_stack_top : Option Block
  pub pp_stack : List PreprocessorInfo

abbrev pub new_nesting_state : NestingState
new_nesting_state = record { stack = []; previous_stack_top = none; pp_stack = [] }

abbrev pub top_is : (Block → Bool) → BlockStack → Bool
top_is p [] = false
top_is p (b ∷ stack) = p b

-- `SeenOpenBrace`
unfoldable pub seen_open_brace_in : BlockStack → Bool
seen_open_brace_in [] = true
seen_open_brace_in (b ∷ stack) = b.seen_open_brace

abbrev pub is_namespace : Kind → Bool
is_namespace (namespace_info name) = true
is_namespace _ = false

abbrev pub is_extern_c : Kind → Bool
is_extern_c extern_c = true
is_extern_c _ = false

abbrev pub is_class : Kind → Bool
is_class (class_info c) = true
is_class _ = false

abbrev pub is_no_asm : Asm → Bool
is_no_asm no_asm = true
is_no_asm _ = false

-- `InNamespaceBody`, `InExternC`, `InClassDeclaration`, `InAsmBlock`
unfoldable pub in_namespace_body : NestingState → Bool
in_namespace_body s = top_is (λ b. is_namespace b.kind) s.stack

unfoldable pub in_extern_c : NestingState → Bool
in_extern_c s = top_is (λ b. is_extern_c b.kind) s.stack

unfoldable pub in_class_declaration : NestingState → Bool
in_class_declaration s = top_is (λ b. is_class b.kind) s.stack

unfoldable pub in_asm_block : NestingState → Bool
in_asm_block s = top_is (λ b. not (is_no_asm b.inline_asm)) s.stack

-- `InnermostClass`
unfoldable pub innermost_class : BlockStack → Option Block
innermost_class [] = none
innermost_class (b ∷ stack) = if is_class b.kind then some b else innermost_class stack

-- `^\s*#\s*(..)\b`
unfoldable pub directive : Regex → Regex
directive names =
    seq at_start
      (seq (star (one is_space)) (seq (chr b'#') (seq (star (one is_space)) (seq names boundary))))

unfoldable pub if_directive : Regex
unfolding directive lit text
if_directive =
    directive (group 1 (alt (lit (text "if")) (alt (lit (text "ifdef")) (lit (text "ifndef")))))

unfoldable pub else_directive : Regex
unfolding directive lit text
else_directive = directive (group 1 (alt (lit (text "else")) (lit (text "elif"))))

unfoldable pub endif_directive : Regex
unfolding directive lit text
endif_directive = directive (lit (text "endif"))

-- The three kinds of directives, as `UpdatePreprocessor` tells them apart.
abbrev pub enter_if : NestingState → NestingState
enter_if s = record s { pp_stack = new_preprocessor_info s.stack ∷ s.pp_stack }

abbrev pub else_in : List PreprocessorInfo → NestingState → NestingState
else_in [] s = s
else_in (p ∷ pp) s = record s {
  stack = p.stack_before_if;
  pp_stack =
      (if p.seen_else then p else record p { seen_else = true; stack_before_else = s.stack }) ∷ pp;
}

abbrev pub endif_in : List PreprocessorInfo → NestingState → NestingState
endif_in [] s = s
endif_in (p ∷ pp) s = record s {
  stack = if p.seen_else then p.stack_before_else else s.stack;
  pp_stack = pp;
}

-- `UpdatePreprocessor`
unfoldable pub update_preprocessor : Text → NestingState → NestingState
update_preprocessor line s =
    if found (match if_directive line)
    then enter_if s
    else if found (match else_directive line)
    then else_in s.pp_stack s
    else if found (match endif_directive line)
    then endif_in s.pp_stack s
    else s

-- `CheckCompletedBlocks`: the reports for the blocks that are still open, the outermost first.
unfoldable pub completed_report : Block → List Report
completed_report b = elim b.kind [
  | block_info ↦ []
  | extern_c ↦ []
  | class_info c ↦
      report b.starting_linenum (text "build/class") 5
        (text "Failed to find complete declaration of class " ++ c.name)
  | namespace_info name ↦
      report b.starting_linenum (text "build/namespaces") 5
        (text "Failed to find complete declaration of namespace " ++ name)
]

unfoldable pub check_completed_blocks : BlockStack → List Report
unfolding completed_report
check_completed_blocks [] = []
check_completed_blocks (b ∷ stack) = check_completed_blocks stack ++ completed_report b
