-- ===== src/Expression.antt =====
-- scripts/cpplint.py: the search for the other end of a bracketed expression, forwards and backwards,
-- in a line and over the elided lines of a file. The nesting stack is a list with its top first.
pub mod Forward
pub mod Balanced
pub mod Close
pub mod Onward
pub mod Backward
pub mod Tests
use csci.Prelude.{
  ℕ, zero, suc, ◌+◌, ◌-◌, Bool, true, false, not, ◌&&◌, ◌||◌, List, [], ◌∷◌, ◌++◌, Option, none,
  some, Text, text, ltb, ◌==◌, if◌then◌else◌, length, take, drop, get_elem?, is_space,
}
use mathlib.Core.List.{reverse}
use csci.Regex.{
  Regex, seq, alt, star, one, at_end, boundary, chr, lit, match, search_in, found, head_is,
}

abbrev pub Stack : Type 0
Stack = List ℕ

-- The end of a scan: found at an index; given up; or the end of the line, with what is still open.
pub data Scan : Type 0 where
  closed : ℕ → Scan
  broken : Scan
  unclosed : Stack → Scan

-- What a character does: the scan ends, goes on with a stack, or goes on behind one more character.
pub data Action : Type 0 where
  stop : Scan → Action
  go : Stack → Action
  skip : Stack → Action

-- `\boperator\s*$`
unfoldable pub operator_at_end : Regex
unfolding lit text
operator_at_end = seq boundary (seq (lit (text "operator")) (seq (star (one is_space)) at_end))

abbrev pub is_opener : ℕ → Bool
is_opener c = c == b'(' || (c == b'[' || c == b'{')

abbrev pub is_closer : ℕ → Bool
is_closer c = c == b')' || (c == b']' || c == b'}')

-- `left` and `right` are the two ends of an expression.
abbrev pub is_pair : ℕ → ℕ → Bool
is_pair left right =
    (left == b'(' && right == b')')
    || ((left == b'[' && right == b']') || (left == b'{' && right == b'}'))

-- `while stack and stack[-1] == c: stack.pop()`
unfoldable pub pop_all : ℕ → Stack → Stack
pop_all c [] = []
pop_all c (t ∷ stack) = if t == c then pop_all c stack else t ∷ stack

abbrev pub is_empty : Stack → Bool
is_empty [] = true
is_empty (t ∷ stack) = false

-- Pop the top if the test holds of it, and stop with the scan if nothing is left.
abbrev pub pop_or : (ℕ → Bool) → Action → Scan → Stack → Action
pop_or p other scan [] = other
pop_or p other scan (t ∷ stack) =
    if p t then (if is_empty stack then stop scan else go stack) else other

-- One round of `FindEndOfExpressionInLine`, at index `i`: the characters before it, nearest first.
unfoldable pub forward_action : ℕ → ℕ → Text → Stack → Action
unfolding pop_all
forward_action i char before stack =
    if is_opener char
    then go (char ∷ stack)
    else if char == b'<'
    then (if head_is (λ c. c == b'<') before
        then pop_or (λ t. t == b'<') (go stack) broken stack
        else if ltb 0 i && found (search_in operator_at_end (reverse before))
        then go stack
        else go (b'<' ∷ stack))
    else if is_closer char
    then pop_or (λ t. is_pair t char) (stop broken) (closed (i + 1)) (pop_all b'<' stack)
    else if char == b'>'
    then (if ltb 0 i
          && (head_is (λ c. c == b'-') before
              || found (search_in operator_at_end (reverse (drop 1 before))))
        then go stack
        else pop_or (λ t. t == b'<') (go stack) (closed (i + 1)) stack)
    else if char == b';'
    then (if is_empty (pop_all b'<' stack) then stop broken else go (pop_all b'<' stack))
    else go stack

unfoldable pub find_end : ℕ → Text → Text → Stack → Scan
find_end i before [] stack = unclosed stack
find_end i before (char ∷ rest) stack = elim (forward_action i char before stack) [
  | stop scan ↦ scan
  | go stack' ↦ find_end (i + 1) (char ∷ before) rest stack'
  | skip stack' ↦ find_end (i + 1) (char ∷ before) rest stack'
]

-- `FindEndOfExpressionInLine`
unfoldable pub find_end_of_expression_in_line : Text → ℕ → Stack → Scan
unfolding find_end
find_end_of_expression_in_line line startpos stack =
    find_end startpos (reverse (take startpos line)) (drop startpos line) stack

-- The line, its number and the position; position `none` is the -1 of the source.
abbrev pub Place : Type 0
Place = Text × ℕ × Option ℕ

-- The loop over the next lines: the lines to come, the last line read and its number.
unfoldable pub close_in_lines : List Text → Text → ℕ → ℕ → Stack → Place
unfolding find_end_of_expression_in_line
close_in_lines lines line linenum total [] = (line, total, none)
close_in_lines [] line linenum total (t ∷ stack) = (line, total, none)
close_in_lines (next ∷ lines) line linenum total (t ∷ stack) =
    elim (find_end_of_expression_in_line next 0 (t ∷ stack)) [
      | closed pos ↦ (next, linenum + 1, some pos)
      | broken ↦ (next, total, none)
      | unclosed stack' ↦ close_in_lines lines next (linenum + 1) total stack'
    ]

-- `<[<=]`
unfoldable pub shift_or_compare : Regex
shift_or_compare = seq (chr b'<') (one (λ c. c == b'<' || c == b'='))

abbrev pub close_from : List Text → Text → ℕ → ℕ → Scan → Place
close_from elided line linenum pos (closed end_pos) = (line, linenum, some end_pos)
close_from elided line linenum pos broken = (line, length elided, none)
close_from elided line linenum pos (unclosed stack) =
    close_in_lines (drop (linenum + 1) elided) line linenum (length elided) stack

abbrev pub close_at : List Text → Text → ℕ → ℕ → ℕ → Place
close_at elided line linenum pos char =
    if not (is_opener char || char == b'<') || found (match shift_or_compare (drop pos line))
    then (line, length elided, none)
    else close_from elided line linenum pos (find_end_of_expression_in_line line pos [])

-- `CloseExpression`, with `none` for an index out of range.
unfoldable pub close_expression : List Text → ℕ → ℕ → Option Place
close_expression elided linenum pos = elim (get_elem? elided linenum) [
  | none ↦ none
  | some line ↦ elim (get_elem? line pos) [
    | none ↦ none
    | some char ↦ some (close_at elided line linenum pos char)
  ]
]

-- `\s>=\s`
unfoldable pub compare_operator : Regex
compare_operator = seq (one is_space) (seq (chr b'>') (seq (chr b'=') (one is_space)))

-- One round of `FindStartOfExpressionInLine`: the character, those before it, nearest first, and those
-- behind it.
unfoldable pub backward_action : ℕ → Text → Text → Stack → Action
unfolding pop_all
backward_action char before after stack =
    let i = length before in
    if is_closer char
    then go (char ∷ stack)
    else if char == b'>'
    then (if ltb 0 i
          && (head_is (λ c. c == b'-') before
              || (found (match compare_operator (take 1 before ++ char ∷ after))
                  || found (search_in operator_at_end (reverse before))))
        then skip stack
        else go (b'>' ∷ stack))
    else if char == b'<'
    then (if head_is (λ c. c == b'<') before
        then skip stack
        else pop_or (λ t. t == b'>') (go stack) (closed i) stack)
    else if is_opener char
    then pop_or (λ t. is_pair char t) (stop broken) (closed i) (pop_all b'>' stack)
    else if char == b';'
    then (if is_empty (pop_all b'>' stack) then stop broken else go (pop_all b'>' stack))
    else go stack

-- The characters from the index down to the first; the flag says that the next one is skipped.
unfoldable pub find_start : Bool → Text → Text → Stack → Scan
find_start skipping [] after stack = unclosed stack
find_start true (char ∷ before) after stack = find_start false before (char ∷ after) stack
find_start false (char ∷ before) after stack = elim (backward_action char before after stack) [
  | stop scan ↦ scan
  | go stack' ↦ find_start false before (char ∷ after) stack'
  | skip stack' ↦ find_start true before (char ∷ after) stack'
]

-- `FindStartOfExpressionInLine`, for an `endpos` on the line: the characters up to it are scanned.
unfoldable pub find_start_of_expression_in_line : Text → ℕ → Stack → Scan
unfolding find_start
find_start_of_expression_in_line line count stack =
    find_start false (reverse (take count line)) (drop count line) stack

-- The loop over the lines before, nearest first.
unfoldable pub reverse_in_lines : List Text → Text → ℕ → Stack → Place
unfolding find_start_of_expression_in_line
reverse_in_lines lines line linenum [] = (line, 0, none)
reverse_in_lines [] line linenum (t ∷ stack) = (line, 0, none)
reverse_in_lines (previous ∷ lines) line linenum (t ∷ stack) =
    elim (find_start_of_expression_in_line previous (length previous) (t ∷ stack)) [
      | closed pos ↦ (previous, linenum - 1, some pos)
      | broken ↦ (previous, 0, none)
      | unclosed stack' ↦ reverse_in_lines lines previous (linenum - 1) stack'
    ]

abbrev pub reverse_from : List Text → Text → ℕ → Scan → Place
reverse_from elided line linenum (closed start_pos) = (line, linenum, some start_pos)
reverse_from elided line linenum broken = (line, 0, none)
reverse_from elided line linenum (unclosed stack) =
    reverse_in_lines (reverse (take linenum elided)) line linenum stack

-- `ReverseCloseExpression`, with `none` for an index out of range.
unfoldable pub reverse_close_expression : List Text → ℕ → ℕ → Option Place
reverse_close_expression elided linenum pos = elim (get_elem? elided linenum) [
  | none ↦ none
  | some line ↦ elim (get_elem? line pos) [
    | none ↦ none
    | some char ↦ some (
        if is_closer char || char == b'>'
        then reverse_from elided line linenum (find_start_of_expression_in_line line (pos + 1) [])
        else (line, 0, none))
  ]
]
