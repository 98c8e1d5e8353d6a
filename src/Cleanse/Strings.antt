-- ===== src/Cleanse/Strings.antt =====
-- `CleansedLines._CollapseStrings`: strings and characters become "" and ''.
pub mod Ends
pub mod Tests
use csci.Prelude.{
  ℕ, zero, suc, ◌+◌, ◌*◌, Bool, not, ◌&&◌, ◌||◌, [], ◌++◌, Option, none, some, Text, text, leb,
  ◌==◌, if◌then◌else◌, length, drop, find, replace, is_space, is_digit, is_word, text_eq, contains,
  nat_eq,
}
use csci.Regex.{
  Regex, one, seq, alt, star, group, at_start, at_end, boundary, Found, match, search_in, found,
  group_text, replace_all, plus, chr, opt, dot, lit,
}

-- `^\s*#\s*include\s*([<"])([^>"]*)[>"].*$`
unfoldable pub include_pattern : Regex
unfolding lit text
include_pattern =
    let spaces = star (one is_space) in
    seq at_start (
      seq spaces (
        seq (chr b'#') (
          seq spaces (
            seq (lit (text "include")) (
              seq spaces (
                seq (group 1 (one (λ c. c == b'<' || c == b'"'))) (
                  seq (group 2 (star (one (λ c. not (c == b'>' || c == b'"')))))
                    (seq (one (λ c. c == b'>' || c == b'"')) (seq (star dot) at_end)))))))))

abbrev pub is_hex : ℕ → Bool
is_hex c = is_digit c || ((leb b'a' c && leb c b'f') || (leb b'A' c && leb c b'F'))

-- `\\([abfnrtv?"\\\']|\d+|x[0-9a-fA-F]+)`
unfoldable pub line_escapes : Regex
unfolding text
line_escapes = seq (chr b'\\') (
    group 1 (
      alt (one (λ c. contains c (text "abfnrtv?\"\\'")))
        (alt (plus (one is_digit)) (seq (chr b'x') (plus (one is_hex))))))

-- `^([^\'"]*)([\'"])(.*)$`
unfoldable pub first_quote : Regex
first_quote =
    let is_quote = λ (c : ℕ). c == b'\'' || c == b'"' in
    seq at_start (
      seq (group 1 (star (one (λ c. not (is_quote c)))))
        (seq (group 2 (one is_quote)) (seq (group 3 (star dot)) at_end)))

-- `\b(?:0[bBxX]?|[1-9])[0-9a-fA-F]*$`
unfoldable pub digits_at_end : Regex
unfolding text
digits_at_end = seq boundary (
    seq
      (alt (seq (chr b'0') (opt (one (λ c. contains c (text "bBxX")))))
        (one (λ c. leb b'1' c && leb c b'9')))
      (seq (star (one is_hex)) at_end))

-- `^((?:\'?[0-9a-zA-Z_])*)(.*)$`
unfoldable pub literal_with_separators : Regex
literal_with_separators =
    seq at_start
      (seq (group 1 (star (seq (opt (chr b'\'')) (one is_word)))) (seq (group 2 (star dot)) at_end))

-- What a round of the loop appends to `collapsed`, and the text that is left if the loop goes on.
unfoldable pub collapse_step : Text → Found → Text × Option Text
collapse_step elided m =
    let head = group_text 1 m in
    let tail = group_text 3 m in
    if text_eq (group_text 2 m) (text "\"")
    then elim (find tail (text "\"")) as (λ _. Text × Option Text) [
      | some i ↦ (head ++ text "\"\"", some (drop (i + 1) tail))
      | none ↦ (elided, none)
    ]
    else if found (search_in digits_at_end head)
    then elim (match literal_with_separators (text "'" ++ tail)) as (λ _. Text × Option Text) [
      | some l ↦ (head ++ replace (group_text 1 l) (text "'") [], some (group_text 2 l))
      | none ↦ (head, some (text "'" ++ tail))
    ]
    else elim (find tail (text "'")) as (λ _. Text × Option Text) [
      | some i ↦ (head ++ text "''", some (drop (i + 1) tail))
      | none ↦ (elided, none)
    ]

-- The loop. Each round takes a character of the text at least, so its length and one more is fuel enough.
unfoldable pub collapse : ℕ → Text → Text → Text
collapse zero elided collapsed = collapsed ++ elided
collapse (suc fuel) elided collapsed = elim (match first_quote elided) [
  | none ↦ collapsed ++ elided
  | some m ↦
      let (out, next) = collapse_step elided m in
      elim next [ none ↦ collapsed ++ out | some rest ↦ collapse fuel rest (collapsed ++ out) ]
]

-- `_CollapseStrings`
unfoldable pub collapse_strings : Text → Text
unfolding collapse
collapse_strings elided =
    if found (match include_pattern elided)
    then elided
    else (let s = replace_all line_escapes [] elided in collapse (length s + 1) s [])
