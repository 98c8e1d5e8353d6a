-- ===== src/FunctionLengths.antt =====
-- scripts/cpplint.py: `CheckForFunctionLengths`, which follows function bodies line by line with a
-- `_FunctionState`.
pub mod Bodies
pub mod Tests
use csci.Prelude.{
  ℕ, Bool, true, false, not, ◌||◌, List, [], ◌∷◌, ◌++◌, Option, none, some, Text, text, ◌==◌,
  if◌then◌else◌, drop, get_or, text_eq, is_space, is_word, is_upper, lstrip, split_words,
}
use csci.Regex.{
  Regex, one, seq, alt, star, group, at_start, at_end, Found, match, search_in, found, group_text,
  chr, lit, dot, plus,
}
use csci.Report.{Report, report}
use csci.Cleanse.Lines.{CleansedLines}
use csci.FunctionState.{FunctionState, begin, count_line, check, end}

-- `(\w(\w|::|\*|\&|\s)*)\(`
unfoldable pub declaration : Regex
unfolding lit text
declaration =
    seq
      (group 1 (
        seq (one is_word) (
          star (
            group 2 (
              alt (one is_word)
                (alt (lit (text "::")) (alt (chr b'*') (alt (chr b'&') (one is_space)))))))))
      (chr b'(')

-- `[A-Z_]+$`
unfoldable pub macro_name : Regex
macro_name = seq (plus (one (λ c. is_upper c || c == b'_'))) at_end

-- `words[-1]`
abbrev pub last_word : List Text → Text
last_word [] = []
last_word (w ∷ []) = w
last_word (w ∷ v ∷ ws) = last_word (v ∷ ws)

abbrev pub is_function_name : Text → Bool
is_function_name name =
    text_eq name (text "TEST")
    || (text_eq name (text "TEST_F") || not (found (match macro_name name)))

abbrev pub names_function : Option Found → Bool
names_function none = false
names_function (some m) = is_function_name (last_word (split_words (group_text 1 m)))

-- `starting_func`
unfoldable pub starts_function : Text → Bool
starts_function line = names_function (match declaration line)

-- What the search for the body comes to: nothing, a declaration or trivial function, or a body, with the
-- joined lines up to it.
pub data BodyStart : Type 0 where
  no_body : BodyStart
  trivial : BodyStart
  body : Text → BodyStart

-- `(;|})` and `{`
abbrev pub declaration_end : Regex
declaration_end = group 1 (alt (chr b';') (chr b'}'))

abbrev pub body_start : Regex
body_start = chr b'{'

-- The loop over the lines from the start of the function on.
unfoldable pub find_body : List Text → Text → BodyStart
find_body [] joined_line = no_body
find_body (start_line ∷ lines) joined_line =
    let joined = joined_line ++ text " " ++ lstrip start_line in
    let rest = find_body lines joined in
    if found (search_in declaration_end start_line)
    then trivial
    else if found (search_in body_start start_line)
    then body joined
    else rest

-- `((\w|:)*)\(`, `TEST` and `(\(.*\))`
unfoldable pub name_in_call : Regex
name_in_call = seq (group 1 (star (group 2 (alt (one is_word) (chr b':'))))) (chr b'(')

unfoldable pub test_macro : Regex
unfolding lit text
test_macro = lit (text "TEST")

unfoldable pub parameters : Regex
parameters = group 1 (seq (chr b'(') (seq (star dot) (chr b')')))

abbrev pub group_one : Option Found → Text
group_one none = []
group_one (some m) = group_text 1 m

-- The name under which the function is reported.
unfoldable pub function_title : Text → Text → Text
function_title line joined_line =
    let function = group_one (search_in name_in_call line) in
    if found (match test_macro function)
    then function ++ group_one (search_in parameters joined_line)
    else function ++ text "()"

-- `^\}\s*$` and `^\s*$`
unfoldable pub function_end : Regex
function_end = seq at_start (seq (chr b'}') (seq (star (one is_space)) at_end))

unfoldable pub blank_line : Regex
blank_line = seq at_start (seq (star (one is_space)) at_end)

abbrev pub begin_body : ℕ → Text → BodyStart → FunctionState → List Report × FunctionState
begin_body linenum line no_body s = (
  report linenum (text "readability/fn_size") 5
      (text "Lint failed to find start of function body."),
  s,
)
begin_body linenum line trivial s = ([], s)
begin_body linenum line (body joined_line) s = ([], begin (function_title line joined_line) s)

-- `CheckForFunctionLengths`; the first argument is the verbosity.
unfoldable pub check_for_function_lengths :
    ℕ → CleansedLines → ℕ → FunctionState → List Report × FunctionState
check_for_function_lengths verbosity clean_lines linenum s =
    let line = get_or clean_lines.lines linenum [] in
    if starts_function line
    then begin_body linenum line (find_body (drop linenum clean_lines.lines) []) s
    else if found (match function_end line)
    then (check verbosity linenum s, end s)
    else if not (found (match blank_line line))
    then ([], count_line s)
    else ([], s)
