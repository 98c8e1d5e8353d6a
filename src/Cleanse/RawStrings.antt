-- ===== src/Cleanse/RawStrings.antt =====
-- `CleanseRawStrings`: C++11 raw strings become empty strings.
pub mod Ends
pub mod Tests
use csci.Prelude.{
  ℕ, zero, suc, ◌+◌, true, false, not, ◌||◌, List, [], ◌∷◌, ◌++◌, Option, none, some, Text, text,
  ◌==◌, length, drop, find, is_space,
}
use csci.Regex.{
  Regex, one, seq, alt, star, lazy, group, at_start, at_end, boundary, Found, match, found,
  group_text, chr, dot, lit,
}

-- `^(\s*)\S`
unfoldable pub leading_space : Regex
leading_space = seq at_start (seq (group 1 (star (one is_space))) (one (λ c. not (is_space c))))

-- `^(.*?)\b(?:R|u8R|uR|UR|LR)"([^\s\\()]*)\((.*)$`
unfoldable pub raw_string_start : Regex
unfolding lit text
raw_string_start =
    let prefix =
      alt (lit (text "R")) (
        alt (lit (text "u8R")) (alt (lit (text "uR")) (alt (lit (text "UR")) (lit (text "LR"))))) in
    let delimiter_char = one (λ c. not (is_space c || (c == b'\\' || (c == b'(' || c == b')')))) in
    seq at_start (
      seq (group 1 (lazy dot)) (
        seq boundary (
          seq prefix (
            seq (chr b'"') (
              seq (group 2 (star delimiter_char))
                (seq (chr b'(') (seq (group 3 (star dot)) at_end)))))))

-- `^([^\'"]|\'(\\.|[^\'])*\'|"(\\.|[^"])*")*//`
unfoldable pub in_line_comment : Regex
unfolding lit text
in_line_comment =
    let quoted = λ (q : ℕ).
      seq (chr q)
        (seq (star (group 2 (alt (seq (chr b'\\') dot) (one (λ c. not (c == q)))))) (chr q)) in
    seq at_start (
      seq
        (star (
          group 1
            (alt (one (λ c. not (c == b'\'' || c == b'"'))) (alt (quoted b'\'') (quoted b'"')))))
        (lit (text "//")))

-- The inner loop: raw strings that begin on the line, and the delimiter if the last does not end on
-- it. A round makes the line shorter, so its length is fuel enough; `none` is fuel that ran out.
unfoldable pub raw_loop : ℕ → Text → Option (Text × Option Text)
raw_loop zero line = none
raw_loop (suc fuel) line = elim (match raw_string_start line) [
  | none ↦ some (line, none)
  | some m ↦ elim (found (match in_line_comment (group_text 1 m))) [
    | true ↦ some (line, none)
    | false ↦
        let delimiter = text ")" ++ group_text 2 m ++ text "\"" in
        elim (find (group_text 3 m) delimiter) [
          | some end ↦
              raw_loop fuel
                (group_text 1 m ++ text "\"\"" ++ drop (end + length delimiter) (group_text 3 m))
          | none ↦ some (group_text 1 m ++ text "\"\"", some delimiter)
        ]
  ]
]

abbrev pub group_or_empty : Option Found → Text
group_or_empty none = []
group_or_empty (some m) = group_text 1 m

-- A line inside of a raw string: what is left of it, and whether the string goes on. The delimiter is
-- no blank, so where it is found `leading_space` matches.
unfoldable pub raw_end : Text → Text → Text × Option Text
raw_end delimiter line = elim (find line delimiter) [
  | some end ↦ (
    group_or_empty (match leading_space line) ++ text "\"\"" ++ drop (end + length delimiter) line,
    none,
  )
  | none ↦ (text "\"\"", some delimiter)
]

-- The result of the loop, which has fuel enough.
abbrev pub or_line : Text → Option (Text × Option Text) → Text × Option Text
or_line line none = (line, none)
or_line line (some r) = r

unfoldable pub raw_line : Text × Option Text → Text × Option Text
unfolding raw_loop
raw_line (line, some delimiter) = (line, some delimiter)
raw_line (line, none) = or_line line (raw_loop (length line + 1) line)

abbrev pub enter : Option Text → Text → Text × Option Text
enter none line = (line, none)
enter (some delimiter) line = raw_end delimiter line

-- The outer loop over the lines, with the delimiter of the raw string that is open.
unfoldable pub cleanse_from : Option Text → List Text → List Text
unfolding raw_line raw_end
cleanse_from delimiter [] = []
cleanse_from delimiter (line ∷ lines) =
    let (line', delimiter') = raw_line (enter delimiter line) in
    line' ∷ cleanse_from delimiter' lines

-- `CleanseRawStrings`
unfoldable pub cleanse_raw_strings : List Text → List Text
unfolding cleanse_from
cleanse_raw_strings raw_lines = cleanse_from none raw_lines
