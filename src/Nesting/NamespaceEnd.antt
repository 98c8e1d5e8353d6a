-- ===== src/Nesting/NamespaceEnd.antt =====
-- `_NamespaceInfo.CheckEnd`: the comment behind the end of a namespace; and `CheckEnd` of any block.
use csci.Prelude.{
  ℕ, ◌-◌, Bool, true, false, not, ◌&&◌, ◌||◌, List, [], ◌∷◌, ◌++◌, Text, text, ltb, ◌==◌,
  if◌then◌else◌, get_or, is_space,
}
use csci.Regex.{
  Regex, one, seq, alt, star, group, at_start, at_end, boundary, match, found, chr, dot, lit, plus,
}
use csci.Report.{Report, report}
use csci.Cleanse.Lines.{CleansedLines}
use csci.Nesting.Block.{Block, block_info, extern_c, class_info, namespace_info, class_check_end}

-- `^\s*};*\s*(//|/\*).*\bnamespace`, and what follows it.
unfoldable pub end_comment : Regex → Regex
unfolding lit text
end_comment rest =
    let spaces = star (one is_space) in
    seq at_start (
      seq spaces (
        seq (chr b'}') (
          seq (star (chr b';')) (
            seq spaces (
              seq (group 1 (alt (lit (text "//")) (lit (text "/*"))))
                (seq (star dot) (seq boundary (seq (lit (text "namespace")) rest))))))))

-- `[\*/\.\\\s]*$`
abbrev pub comment_tail : Regex
comment_tail =
    seq (star (one (λ c. c == b'*' || (c == b'/' || (c == b'.' || (c == b'\\' || is_space c))))))
      at_end

-- `^\s*};*\s*(//|/\*).*\bnamespace\b`
unfoldable pub any_end_comment : Regex
unfolding end_comment
any_end_comment = end_comment boundary

-- `^\s*};*\s*(//|/\*).*\bnamespace\s+NAME[\*/\.\\\s]*$`
unfoldable pub named_end_comment : Text → Regex
unfolding end_comment lit
named_end_comment name = end_comment (seq (plus (one is_space)) (seq (lit name) comment_tail))

-- `^\s*};*\s*(//|/\*).*\bnamespace[\*/\.\\\s]*$`
unfoldable pub anonymous_end_comment : Regex
unfolding end_comment
anonymous_end_comment = end_comment comment_tail

-- `^\s*}.*\b(namespace anonymous|anonymous namespace)\b`
unfoldable pub anonymous_mention : Regex
unfolding lit text
anonymous_mention = seq at_start (
    seq (star (one is_space)) (
      seq (chr b'}') (
        seq (star dot) (
          seq boundary (
            seq
              (group 1 (alt (lit (text "namespace anonymous")) (lit (text "anonymous namespace"))))
              boundary)))))

abbrev pub is_named : Text → Bool
is_named [] = false
is_named (c ∷ name) = true

-- `_NamespaceInfo.CheckEnd`
unfoldable pub namespace_check_end : CleansedLines → ℕ → ℕ → Text → List Report
namespace_check_end clean_lines linenum starting name =
    let line = get_or clean_lines.raw_lines linenum [] in
    if ltb (linenum - starting) 10 && not (found (match any_end_comment line))
    then []
    else if is_named name
    then (if not (found (match (named_end_comment name) line))
        then report linenum (text "readability/namespace") 5
            (text "Namespace should be terminated with \"// namespace " ++ name ++ text "\"")
        else [])
    else if not (found (match anonymous_end_comment line))
    then (if found (match anonymous_mention line)
        then report linenum (text "readability/namespace") 5 (
            text
              "Anonymous namespace should be terminated with \"// namespace\" or \"// anonymous namespace\"")
        else report linenum (text "readability/namespace") 5
            (text "Anonymous namespace should be terminated with \"// namespace\""))
    else []

-- `CheckEnd`, by the class of the block.
unfoldable pub check_end : CleansedLines → ℕ → Block → List Report
check_end clean_lines linenum b = elim b.kind [
  | block_info ↦ []
  | extern_c ↦ []
  | class_info c ↦ class_check_end clean_lines linenum b.starting_linenum c
  | namespace_info name ↦ namespace_check_end clean_lines linenum b.starting_linenum name
]
