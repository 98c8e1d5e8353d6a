-- ===== src/Nesting/Braces.antt =====
-- The last loop of `NestingState.Update`, over braces, semicolons and closing parentheses, and `Update`.
use csci.Prelude.{
  ℕ, zero, suc, ◌+◌, Bool, true, not, ◌||◌, List, [], ◌∷◌, ◌++◌, none, some, Text, text, ◌==◌,
  if◌then◌else◌, length, get_or, text_eq, is_space,
}
use mathlib.Core.List.{head?}
use csci.Regex.{
  Regex, one, seq, star, group, at_start, at_end, match, found, group_text, chr, dot, lit,
}
use csci.Report.{Report}
use csci.Cleanse.Lines.{CleansedLines}
use csci.Nesting.Block.{Block, block_asm, new_block, new_extern_c}
use csci.Nesting.NamespaceEnd.{check_end}
use csci.Nesting.State.{NestingState, BlockStack, seen_open_brace_in, update_preprocessor}
use csci.Nesting.Update.{
  match_asm, count_parentheses, namespace_loop, class_step, begin_step, access_step,
}

abbrev pub is_token : ℕ → Bool
is_token c = c == b'{' || (c == b';' || (c == b')' || c == b'}'))

-- `^[^{;)}]*([{;)}])(.*)$`
unfoldable pub token_pattern : Regex
token_pattern = seq at_start (
    seq (star (one (λ c. not (is_token c))))
      (seq (group 1 (one is_token)) (seq (group 2 (star dot)) at_end)))

-- `^extern\s*"[^"]*"\s*\{`
unfoldable pub extern_pattern : Regex
unfolding lit text
extern_pattern =
    let spaces = star (one is_space) in
    seq at_start (
      seq (lit (text "extern")) (
        seq spaces (
          seq (chr b'"')
            (seq (star (one (λ c. not (c == b'"')))) (seq (chr b'"') (seq spaces (chr b'{')))))))

-- The three tokens; a closing parenthesis does what a semicolon does.
pub data Token : Type 0 where
  open_brace end_statement close_brace : Token

abbrev pub token_of : Text → Token
token_of t =
    if text_eq t (text "{")
    then open_brace
    else if text_eq t (text ";") || text_eq t (text ")")
    then end_statement
    else close_brace

-- The block that an opening brace begins, if the block on top is not waiting for it.
unfoldable pub block_of_brace : ℕ → Text → Block
block_of_brace linenum line =
    if found (match extern_pattern line)
    then new_extern_c linenum
    else if found (match match_asm line)
    then record (new_block linenum true) { inline_asm = block_asm }
    else new_block linenum true

abbrev pub mark_seen : BlockStack → BlockStack
mark_seen [] = []
mark_seen (b ∷ stack) = record b { seen_open_brace = true } ∷ stack

abbrev pub pop : BlockStack → BlockStack
pop [] = []
pop (b ∷ stack) = stack

abbrev pub end_reports : CleansedLines → ℕ → BlockStack → List Report
end_reports clean_lines linenum [] = []
end_reports clean_lines linenum (b ∷ stack) = check_end clean_lines linenum b

-- One round of the loop.
unfoldable pub token_step : CleansedLines → ℕ → Token → Text → BlockStack → BlockStack × List Report
token_step clean_lines linenum open_brace line stack =
    if not (seen_open_brace_in stack)
    then (mark_seen stack, [])
    else (block_of_brace linenum line ∷ stack, [])
token_step clean_lines linenum end_statement line stack =
    if not (seen_open_brace_in stack) then (pop stack, []) else (stack, [])
token_step clean_lines linenum close_brace line stack =
    (pop stack, end_reports clean_lines linenum stack)

-- The loop. What follows a token is shorter than the line, so its length is fuel enough.
unfoldable pub brace_loop : ℕ → CleansedLines → ℕ → Text → BlockStack → BlockStack × List Report
brace_loop zero clean_lines linenum line stack = (stack, [])
brace_loop (suc fuel) clean_lines linenum line stack = elim (match token_pattern line) [
  | none ↦ (stack, [])
  | some m ↦
      let (stack', reports) =
        token_step clean_lines linenum (token_of (group_text 1 m)) line stack in
      let (stack'', more) = brace_loop fuel clean_lines linenum (group_text 2 m) stack' in
      (stack'', reports ++ more)
]

-- `Update`, behind `UpdatePreprocessor`: the new stack and the reports.
unfoldable pub update_stack : CleansedLines → ℕ → Text → BlockStack → BlockStack × List Report
update_stack clean_lines linenum line stack =
    let counted = count_parentheses line stack in
    let (after_namespaces, in_namespaces) = namespace_loop (length line + 1) linenum line counted in
    let (after_class, in_class) = class_step clean_lines linenum after_namespaces in_namespaces in
    let (with_access, access_reports) =
      access_step linenum after_class (begin_step clean_lines linenum in_class) in
    let (final, brace_reports) =
      brace_loop (length after_class + 1) clean_lines linenum after_class with_access in
    (final, access_reports ++ brace_reports)

-- `Update`
unfoldable pub update : CleansedLines → ℕ → NestingState → NestingState × List Report
unfolding update_stack
update clean_lines linenum s =
    let line = get_or clean_lines.elided linenum [] in
    let s' = update_preprocessor line (record s { previous_stack_top = head? s.stack }) in
    let (stack, reports) = update_stack clean_lines linenum line s'.stack in
    (record s' { stack = stack }, reports)
