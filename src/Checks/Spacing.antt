-- ===== src/Checks/Spacing.antt =====
-- `CheckParenthesisSpacing` and `CheckCommaSpacing` of scripts/cpplint.py.
use csci.Prelude.{
  ℕ, Bool, not, List, Option, none, some, Text, text, ltb, length, get_or, text_eq, is_space, [],
  ◌++◌, ◌+◌, ◌==◌, ◌&&◌, ◌||◌, nat_eq,
}
use csci.Regex.{
  Regex, Found, search_in, replace_all, found, group_text, one, seq, alt, star, plus, group, chr,
  lit, dot, boundary, at_end,
}
use csci.Report.{Report, report, report_if}
use csci.Cleanse.Lines.{CleansedLines}

-- ` (if\(|for\(|while\(|switch\()`
unfoldable pub no_space_before : Regex
unfolding lit text
no_space_before = seq (chr 32) (
    group 1 (
      alt (lit (text "if("))
        (alt (lit (text "for(")) (alt (lit (text "while(")) (lit (text "switch("))))))

-- `\b(if|for|while|switch)\s*\(([ ]*)(.).*[^ ]+([ ]*)\)\s*{\s*$`
unfoldable pub spaced_condition : Regex
unfolding lit text
spaced_condition = seq boundary (
    seq
      (group 1 (
        alt (lit (text "if"))
          (alt (lit (text "for")) (alt (lit (text "while")) (lit (text "switch"))))))
      (seq (star (one is_space)) (
        seq (chr b'(') (
          seq (group 2 (star (chr 32))) (
            seq (group 3 dot) (
              seq (star dot) (
                seq (plus (one (λ c. not (c == 32)))) (
                  seq (group 4 (star (chr 32))) (
                    seq (chr b')') (
                      seq (star (one is_space))
                        (seq (chr b'{') (seq (star (one is_space)) at_end))))))))))))

-- `\bfor\s*\(.*; \)`
unfoldable pub for_without_step : Regex
unfolding lit text
for_without_step = seq boundary (
    seq (lit (text "for"))
      (seq (star (one is_space)) (seq (chr b'(') (seq (star dot) (lit (text "; )"))))))

-- `\boperator\s*,\s*\(`
unfoldable pub operator_comma : Regex
unfolding lit text
operator_comma = seq boundary (
    seq (lit (text "operator"))
      (seq (star (one is_space)) (seq (chr b',') (seq (star (one is_space)) (chr b'(')))))

-- `,[^,\s]`
unfoldable pub tight_comma : Regex
tight_comma = seq (chr b',') (one (λ c. not (c == b',' || is_space c)))

-- `;[^\s};\\)/]`
unfoldable pub tight_semicolon : Regex
tight_semicolon = seq (chr b';') (
    one (λ c.
      not (is_space c || (c == b'}' || (c == b';' || (c == b'\\' || (c == b')' || c == b'/')))))))

abbrev pub missing_space : ℕ → Option Found → List Report
missing_space linenum none = []
missing_space linenum (some m) =
    report linenum (text "whitespace/parens") 5
      (text "Missing space before ( in " ++ group_text 1 m)

-- The exceptions from the rule that both sides have equally many spaces: `for ( ; foo; bar)` and
-- `for (foo; bar; )`.
abbrev pub may_differ : Text → Found → Bool
may_differ line m =
    (text_eq (group_text 3 m) (text ";")
      && (length (group_text 2 m) == 1 + length (group_text 4 m)))
    || (length (group_text 2 m) == 0 && found (search_in for_without_step line))

abbrev pub condition_reports : ℕ → Text → Option Found → List Report
condition_reports linenum line none = []
condition_reports linenum line (some m) =
    report_if (not (length (group_text 2 m) == length (group_text 4 m)) && not (may_differ line m))
      (report linenum (text "whitespace/parens") 5
        (text "Mismatching spaces inside () in " ++ group_text 1 m))
    ++ report_if (ltb 1 (length (group_text 2 m))) (
        report linenum (text "whitespace/parens") 5
          (text "Should have zero or one spaces inside ( and ) in " ++ group_text 1 m))

-- `CheckParenthesisSpacing`
unfoldable pub check_parenthesis_spacing : CleansedLines → ℕ → List Report
check_parenthesis_spacing clean_lines linenum =
    let line = get_or clean_lines.elided linenum [] in
    missing_space linenum (search_in no_space_before line)
    ++ condition_reports linenum line (search_in spaced_condition line)

-- `CheckCommaSpacing`
unfoldable pub check_comma_spacing : CleansedLines → ℕ → List Report
check_comma_spacing clean_lines linenum =
    let line = get_or clean_lines.elided linenum [] in
    let raw = get_or clean_lines.lines_without_raw_strings linenum [] in
    report_if
      (found (search_in tight_comma (replace_all operator_comma (text "F(") line))
        && found (search_in tight_comma raw))
      (report linenum (text "whitespace/comma") 3 (text "Missing space after ,"))
    ++ report_if (found (search_in tight_semicolon line))
        (report linenum (text "whitespace/semicolon") 3 (text "Missing space after ;"))
