-- ===== src/Nesting/Template.antt =====
-- `NestingState.InTemplateArgumentList`.
pub mod Room
pub mod Ends
use csci.Prelude.{
  ℕ, zero, suc, ◌+◌, ◌-◌, Bool, true, false, not, ◌||◌, List, [], ◌∷◌, Option, none, some, Text,
  ltb, leb, ◌==◌, if◌then◌else◌, length, drop, get_or, nat_eq,
}
use csci.Regex.{Regex, one, seq, star, group, at_start, match, group_text, whole, dot}
use csci.Cleanse.Lines.{CleansedLines}
use csci.Expression.{Place, close_expression}

-- `[^{};=\[\]\.<>]`
abbrev pub stops_here : ℕ → Bool
stops_here c =
    c == b'{'
    || (c == b'}'
        || (c == b';'
            || (c == b'='
                || (c == b'[' || (c == b']' || (c == b'.' || (c == b'<' || c == b'>')))))))

-- `^[^{};=\[\]\.<>]*(.)`
unfoldable pub template_token : Regex
template_token = seq at_start (seq (star (one (λ c. not (stops_here c)))) (group 1 dot))

-- What a round of the loop comes to: an answer, or the next line number and position.
pub data Next : Type 0 where
  answer : Bool → Next
  at : ℕ → ℕ → Next

abbrev pub head_or_zero : Text → ℕ
head_or_zero [] = 0
head_or_zero (c ∷ s) = c

abbrev pub after_close : Option Place → Next
after_close none = answer false
after_close (some (line, linenum, none)) = answer false
after_close (some (line, linenum, some pos)) = at linenum pos

-- A round behind a token, with `pos` just after it.
unfoldable pub argument_step : List Text → Text → ℕ → ℕ → ℕ → Next
argument_step elided line linenum pos token =
    if token == b'{' || (token == b'}' || token == b';')
    then answer false
    else if token == b'>' || (token == b'=' || (token == b'[' || (token == b']' || token == b'.')))
    then answer true
    else if not (token == b'<')
    then (if leb (length line) (pos + 1) then at (linenum + 1) 0 else at linenum (pos + 1))
    else after_close (close_expression elided linenum (pos - 1))

unfoldable pub template_step : List Text → ℕ → ℕ → Next
unfolding argument_step
template_step elided linenum pos =
    let line = get_or elided linenum [] in
    elim (match template_token (drop pos line)) [
      | none ↦ at (linenum + 1) 0
      | some m ↦
          argument_step elided line linenum (pos + length (whole m)) (head_or_zero (group_text 1 m))
    ]

-- The loop; `none` is fuel that ran out.
unfoldable pub template_loop : ℕ → List Text → ℕ → ℕ → Option Bool
template_loop zero elided linenum pos = none
template_loop (suc fuel) elided linenum pos = elim (ltb linenum (length elided)) [
  | false ↦ some false
  | true ↦ elim (template_step elided linenum pos) [
    | answer b ↦ some b
    | at linenum' pos' ↦ template_loop fuel elided linenum' pos'
  ]
]

-- The characters of the file and one more for each line: every round goes on at least by one.
abbrev pub size : List Text → ℕ
size [] = 1
size (line ∷ lines) = length line + 1 + size lines

-- The answer of the loop, which has fuel enough.
abbrev pub is_yes : Option Bool → Bool
is_yes none = false
is_yes (some b) = b

-- `InTemplateArgumentList`
unfoldable pub in_template_argument_list : CleansedLines → ℕ → ℕ → Bool
unfolding template_loop template_step
in_template_argument_list clean_lines linenum pos =
    is_yes (template_loop (size clean_lines.elided) clean_lines.elided linenum pos)
