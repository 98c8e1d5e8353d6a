-- ===== src/Nesting/Update.antt =====
-- `NestingState.Update`, in the order of its parts: parentheses and inline assembly, namespaces, a
-- class, access specifiers, and then the braces and semicolons that are left of the line.
use csci.Prelude.{
  ℕ, zero, suc, ◌+◌, Bool, true, not, ◌&&◌, ◌||◌, List, [], ◌∷◌, ◌++◌, Option, none, some, Text,
  text, ◌==◌, if◌then◌else◌, length, drop, count, find, text_eq, is_space, is_word, is_upper,
}
use csci.Prelude.Int.{ℤ, sub_ℕ, ◌+ℤ◌, is_number}
use csci.Regex.{
  Regex, one, seq, alt, star, group, at_start, at_end, boundary, Found, match, found, group_text,
  chr, dot, lit, plus, opt,
}
use csci.Report.{Report, report}
use csci.Cleanse.Lines.{CleansedLines}
use csci.Nesting.Block.{
  Asm, no_asm, inside_asm, end_asm, block_asm, block_info, extern_c, class_info, namespace_info,
  ClassInfo, Block, new_namespace, new_class, check_begin, parent_name, blank,
}
use csci.Nesting.Template.{in_template_argument_list}
use csci.Nesting.State.{BlockStack}

-- `^\s*(?:asm|_asm|__asm|__asm__)(?:\s+(volatile|__volatile__))?\s*[{(]`
unfoldable pub match_asm : Regex
unfolding lit text
match_asm =
    let spaces = star (one is_space) in
    seq at_start (
      seq spaces (
        seq
          (alt (lit (text "asm"))
            (alt (lit (text "_asm")) (alt (lit (text "__asm")) (lit (text "__asm__")))))
          (seq
            (opt (
              seq (plus (one is_space))
                (group 1 (alt (lit (text "volatile")) (lit (text "__volatile__"))))))
            (seq spaces (one (λ c. c == b'{' || c == b'('))))))

-- The next state of inline assembly, from the change of depth, the depth and whether the line begins
-- an assembly block.
abbrev pub next_asm : Asm → ℤ → ℤ → Bool → Asm
next_asm no_asm change depth starts =
    if not (is_number change 0) && (is_number depth 1 && starts) then inside_asm else no_asm
next_asm end_asm change depth starts =
    if not (is_number change 0) && (is_number depth 1 && starts) then inside_asm else no_asm
next_asm inside_asm change depth starts = if is_number depth 0 then end_asm else inside_asm
next_asm block_asm change depth starts = block_asm

-- `if self.stack: inner_block.open_parentheses += ...`
unfoldable pub count_parentheses : Text → BlockStack → BlockStack
count_parentheses line [] = []
count_parentheses line (b ∷ stack) =
    let change = sub_ℕ (count line (text "(")) (count line (text ")")) in
    let depth = b.open_parentheses +ℤ change in
    record b {
      open_parentheses = depth;
      inline_asm = next_asm b.inline_asm change depth (found (match match_asm line));
    }
    ∷ stack

-- `^\s*namespace\b\s*([:\w]+)?(.*)$`
unfoldable pub namespace_decl : Regex
unfolding lit text
namespace_decl =
    let spaces = star (one is_space) in
    seq at_start (
      seq spaces (
        seq (lit (text "namespace")) (
          seq boundary (
            seq spaces (
              seq (opt (group 1 (plus (one (λ c. c == b':' || is_word c)))))
                (seq (group 2 (star dot)) at_end))))))

-- The loop over the namespaces at the beginning of the line. A round takes the word `namespace` from
-- the line, so its length is fuel enough.
unfoldable pub namespace_loop : ℕ → ℕ → Text → BlockStack → Text × BlockStack
namespace_loop zero linenum line stack = (line, stack)
namespace_loop (suc fuel) linenum line stack = elim (match namespace_decl line) [
  | none ↦ (line, stack)
  | some m ↦
      let b = new_namespace (group_text 1 m) linenum in
      elim (find (group_text 2 m) (text "{")) [
        | none ↦ namespace_loop fuel linenum (group_text 2 m) (b ∷ stack)
        | some i ↦
            namespace_loop fuel linenum (drop (i + 1) (group_text 2 m))
              (record b { seen_open_brace = true } ∷ stack)
      ]
]

-- `^(\s*(?:template\s*<[\w\s<>,:]*>\s*)?(class|struct)\s+(?:[A-Z_]+\s+)*(\w+(?:::\w+)*))(.*)$`
unfoldable pub class_decl : Regex
unfolding lit text
class_decl =
    let spaces = star (one is_space) in
    let in_angles =
      one (λ c.
        is_word c || (is_space c || (c == b'<' || (c == b'>' || (c == b',' || c == b':'))))) in
    let word = plus (one is_word) in
    seq at_start (
      seq
        (group 1 (
          seq spaces (
            seq
              (opt (
                seq (lit (text "template"))
                  (seq spaces (seq (chr b'<') (seq (star in_angles) (seq (chr b'>') spaces))))))
              (seq (group 2 (alt (lit (text "class")) (lit (text "struct")))) (
                seq (plus (one is_space)) (
                  seq (star (seq (plus (one (λ c. is_upper c || c == b'_'))) (plus (one is_space))))
                    (group 3 (seq word (star (seq (lit (text "::")) word))))))))))
        (seq (group 4 (star dot)) at_end))

abbrev pub no_open_parentheses : BlockStack → Bool
no_open_parentheses [] = true
no_open_parentheses (b ∷ stack) = is_number b.open_parentheses 0

abbrev pub class_from : CleansedLines → ℕ → Option Found → Text → BlockStack → Text × BlockStack
class_from clean_lines linenum none line stack = (line, stack)
class_from clean_lines linenum (some m) line stack =
    if no_open_parentheses stack
      && not (in_template_argument_list clean_lines linenum (length (group_text 1 m)))
    then (
      group_text 4 m,
      new_class (group_text 3 m) (text_eq (group_text 2 m) (text "struct")) clean_lines linenum
          ∷ stack,
    )
    else (line, stack)

-- The class declaration, if the rest of the line begins with one.
unfoldable pub class_step : CleansedLines → ℕ → Text → BlockStack → Text × BlockStack
class_step clean_lines linenum line stack =
    class_from clean_lines linenum (match class_decl line) line stack

-- `if not self.SeenOpenBrace(): self.stack[-1].CheckBegin(..)`
unfoldable pub begin_step : CleansedLines → ℕ → BlockStack → BlockStack
begin_step clean_lines linenum [] = []
begin_step clean_lines linenum (b ∷ stack) =
    (if b.seen_open_brace then b else check_begin clean_lines linenum b) ∷ stack

-- `^(.*)\b(public|private|protected|signals)(\s+(?:slots\s*)?)?:(?:[^:]|$)`
unfoldable pub access_pattern : Regex
unfolding lit text
access_pattern =
    let spaces = star (one is_space) in
    seq at_start (
      seq (group 1 (star dot)) (
        seq boundary (
          seq
            (group 2 (
              alt (lit (text "public"))
                (alt (lit (text "private")) (alt (lit (text "protected")) (lit (text "signals"))))))
            (seq (opt (group 3 (seq (plus (one is_space)) (opt (seq (lit (text "slots")) spaces)))))
              (seq (chr b':') (alt (one (λ c. not (c == b':'))) at_end))))))

abbrev pub access_report : ℕ → Found → ClassInfo → List Report
access_report linenum m c =
    let indent = group_text 1 m in
    if not (length indent == c.class_indent + 1) && found (match blank indent)
    then report linenum (text "whitespace/indent") 3 (
        group_text 2 m
        ++ group_text 3 m
        ++ text ": should be indented +1 space inside "
        ++ parent_name c)
    else []

abbrev pub access_in : ℕ → Option Found → Block → BlockStack → BlockStack × List Report
access_in linenum none b stack = (b ∷ stack, [])
access_in linenum (some m) b stack = elim b.kind [
  | block_info ↦ (b ∷ stack, [])
  | extern_c ↦ (b ∷ stack, [])
  | namespace_info name ↦ (b ∷ stack, [])
  | class_info c ↦ (
    record b { kind = class_info (record c { access = group_text 2 m }) } ∷ stack,
    access_report linenum m c,
  )
]

-- The access specifier of a line inside of a class.
unfoldable pub access_step : ℕ → Text → BlockStack → BlockStack × List Report
access_step linenum line [] = ([], [])
access_step linenum line (b ∷ stack) = access_in linenum (match access_pattern line) b stack
