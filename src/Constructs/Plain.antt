-- ===== src/Constructs/Plain.antt =====
-- The part of `CheckForNonStandardConstructs` of scripts/cpplint.py that looks at a line alone.
use csci.Prelude.{
  ℕ, not, List, Text, text, replace, is_space, is_word, is_digit, [], ◌++◌, ◌==◌, ◌||◌,
}
use csci.Regex.{
  Regex, match, search_in, found, one, seq, alt, star, opt, plus, group, chr, lit, dot, boundary,
  at_start,
}
use csci.Report.{Report, report, report_if}

-- `printf\s*\(.*".*%[-+ ]?\d*q`
unfoldable pub quad_format : Regex
unfolding lit text
quad_format = seq (lit (text "printf")) (
    seq (star (one is_space)) (
      seq (chr b'(') (
        seq (star dot) (
          seq (chr b'"') (
            seq (star dot) (
              seq (chr b'%') (
                seq (opt (one (λ c. c == b'-' || (c == b'+' || c == 32))))
                  (seq (star (one is_digit)) (chr b'q')))))))))

-- `printf\s*\(.*".*%\d+\$`
unfoldable pub positional_format : Regex
unfolding lit text
positional_format = seq (lit (text "printf")) (
    seq (star (one is_space)) (
      seq (chr b'(') (
        seq (star dot) (
          seq (chr b'"')
            (seq (star dot) (seq (chr b'%') (seq (plus (one is_digit)) (chr b'$'))))))))

-- `("|\').*\\(%|\[|\(|{)`
unfoldable pub undefined_escape : Regex
undefined_escape = seq (group 1 (one (λ c. c == b'"' || c == b'\''))) (
    seq (star dot)
      (seq (chr b'\\') (group 2 (one (λ c. c == b'%' || (c == b'[' || (c == b'(' || c == b'{')))))))

-- The types and qualifiers that stand before a storage class.
unfoldable pub late_storage_class : Regex
unfolding lit text
late_storage_class = seq boundary (
    seq
      (group 1 (
        alt (lit (text "const")) (
          alt (lit (text "volatile")) (
            alt (lit (text "void")) (
              alt (lit (text "char")) (
                alt (lit (text "short")) (
                  alt (lit (text "int")) (
                    alt (lit (text "long")) (
                      alt (lit (text "float")) (
                        alt (lit (text "double")) (
                          alt (lit (text "signed")) (
                            alt (lit (text "unsigned")) (
                              alt (lit (text "schar")) (
                                alt (seq (opt (chr b'u')) (lit (text "int8"))) (
                                  alt (seq (opt (chr b'u')) (lit (text "int16"))) (
                                    alt (seq (opt (chr b'u')) (lit (text "int32")))
                                      (seq (opt (chr b'u')) (lit (text "int64")))))))))))))))))))
      (seq (plus (one is_space)) (
        seq
          (group 2 (
            alt (lit (text "register"))
              (alt (lit (text "static")) (alt (lit (text "extern")) (lit (text "typedef"))))))
          boundary)))

-- `\s*#\s*endif\s*[^/\s]+`
unfoldable pub endif_text : Regex
unfolding lit text
endif_text = seq (star (one is_space)) (
    seq (chr b'#') (
      seq (star (one is_space)) (
        seq (lit (text "endif"))
          (seq (star (one is_space)) (plus (one (λ c. not (c == b'/' || is_space c))))))))

-- `\s*class\s+(\w+\s*::\s*)+\w+\s*;`
unfoldable pub inner_forward : Regex
unfolding lit text
inner_forward = seq (star (one is_space)) (
    seq (lit (text "class")) (
      seq (plus (one is_space)) (
        seq
          (plus (
            group 1 (
              seq (plus (one is_word))
                (seq (star (one is_space)) (seq (lit (text "::")) (star (one is_space)))))))
          (seq (plus (one is_word)) (seq (star (one is_space)) (chr b';'))))))

-- `(\w+|[+-]?\d+(\.\d*)?)\s*(<|>)\?=?\s*(\w+|[+-]?\d+)(\.\d*)?`
unfoldable pub max_operator : Regex
max_operator =
    seq
      (group 1 (
        alt (plus (one is_word)) (
          seq (opt (one (λ c. c == b'+' || c == b'-')))
            (seq (plus (one is_digit)) (opt (group 2 (seq (chr b'.') (star (one is_digit)))))))))
      (seq (star (one is_space)) (
        seq (group 3 (one (λ c. c == b'<' || c == b'>'))) (
          seq (chr b'?') (
            seq (opt (chr b'=')) (
              seq (star (one is_space)) (
                seq
                  (group 4 (
                    alt (plus (one is_word))
                      (seq (opt (one (λ c. c == b'+' || c == b'-'))) (plus (one is_digit)))))
                  (opt (group 5 (seq (chr b'.') (star (one is_digit)))))))))))

-- `^\s*const\s*string\s*&\s*\w+\s*;`
unfoldable pub string_member : Regex
unfolding lit text
string_member = seq at_start (
    seq (star (one is_space)) (
      seq (lit (text "const")) (
        seq (star (one is_space)) (
          seq (lit (text "string")) (
            seq (star (one is_space)) (
              seq (chr b'&') (
                seq (star (one is_space))
                  (seq (plus (one is_word)) (seq (star (one is_space)) (chr b';'))))))))))

-- The part of the check that needs no class: the calls of `error` for a line.
unfoldable pub plain_constructs : ℕ → Text → Text → List Report
plain_constructs linenum line elided =
    let unescaped = replace line (text "\\\\") [] in
    report_if (found (search_in quad_format line)) (
      report linenum (text "runtime/printf_format") 3
        (text "%q in format strings is deprecated.  Use %ll instead."))
    ++ (report_if (found (search_in positional_format line)) (
          report linenum (text "runtime/printf_format") 2
            (text "%N$ formats are unconventional.  Try rewriting to avoid them."))
        ++ (report_if (found (search_in undefined_escape unescaped)) (
              report linenum (text "build/printf_format") 3
                (text "%, [, (, and { are undefined character escapes.  Unescape them."))
            ++ (report_if (found (search_in late_storage_class elided)) (
                  report linenum (text "build/storage_class") 5 (
                    text "Storage-class specifier (static, extern, typedef, etc) should be "
                    ++ text "at the beginning of the declaration."))
                ++ (report_if (found (match endif_text elided)) (
                      report linenum (text "build/endif_comment") 5
                        (text "Uncommented text after #endif is non-standard.  Use a comment."))
                    ++ (report_if (found (match inner_forward elided)) (
                          report linenum (text "build/forward_decl") 5 (
                            text
                              "Inner-style forward declarations are invalid.  Remove this line."))
                        ++ (report_if (found (search_in max_operator elided)) (
                              report linenum (text "build/deprecated") 3 (
                                text
                                  ">? and <? (max and min) operators are non-standard and deprecated."))
                            ++ report_if (found (search_in string_member elided)) (
                                report linenum (text "runtime/member_string_references") 2 (
                                  text
                                    "const string& members are dangerous. It is much better to use "
                                  ++ text
                                      "alternatives, such as pointers or simple constants."))))))))
