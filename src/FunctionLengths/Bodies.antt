-- ===== src/FunctionLengths/Bodies.antt =====
-- `CheckForFunctionLengths` over the lines of a function.
use csci.Prelude.{
  ℕ, ◌+◌, ◌*◌, ◌^◌, ◌≤◌, ◌<◌, ◌≡◌, ◌≢◌, refl, ap, sym, ◌∙◌, ◌↔◌, subst, true, false, List, [], ◌∷◌,
  ◌++◌, append_assoc, append-nil, arith, Text, get_or, drop, if◌then◌else◌, All, Bool-cases, inl,
  inr, min,
}
use csci.Regex.{match, found}
use csci.Report.{Report}
use csci.Cleanse.Lines.{CleansedLines}
use csci.FunctionState.{FunctionState, begin, count_line, check, end, base_trigger}
use csci.FunctionState.Level.{check_lem}
use csci.FunctionLengths.{
  starts_function, find_body, body, function_title, function_end, blank_line,
  check_for_function_lengths,
}

abbrev pub line_of : CleansedLines → ℕ → Text
line_of clean_lines linenum = get_or clean_lines.lines linenum []

-- `CheckForFunctionLengths` for line after line.
abbrev pub check_lines : ℕ → CleansedLines → List ℕ → FunctionState → List Report × FunctionState
check_lines v clean_lines [] s = ([], s)
check_lines v clean_lines (n ∷ ns) s =
    let step = check_for_function_lengths v clean_lines n s in
    let rest = check_lines v clean_lines ns step.1 in (step.0 ++ rest.0, rest.1)

-- The line neither starts nor ends a function.
abbrev pub IsBodyLine : Text → Type 0
IsBodyLine line = (starts_function line ≡ false) × (found (match function_end line) ≡ false)

abbrev pub IsEndLine : Text → Type 0
IsEndLine line = (starts_function line ≡ false) × (found (match function_end line) ≡ true)

-- A function starts on the line and its body is found.
abbrev pub Starts : CleansedLines → ℕ → Text → Type 0
Starts clean_lines linenum joined_line =
    (starts_function (line_of clean_lines linenum) ≡ true)
    × (find_body (drop linenum clean_lines.lines) [] ≡ body joined_line)

-- The lines that are not blank.
abbrev pub code_lines : CleansedLines → List ℕ → ℕ
code_lines c [] = 0
code_lines c (n ∷ ns) = (if found (match blank_line (line_of c n)) then 0 else 1) + code_lines c ns

abbrev with_lines : FunctionState → ℕ → FunctionState
with_lines s m = record s { lines_in_function = m }

abbrev counted : ℕ → FunctionState → FunctionState
counted n s = with_lines s (s.lines_in_function + n)

-- What the check of a line comes to, and then that of the lines behind it.
abbrev joined :
    List Report × FunctionState → List Report × FunctionState → List Report × FunctionState
joined a b = (a.0 ++ b.0, b.1)

module _ (v : ℕ) (c : CleansedLines) where
  body_step :
      (n : ℕ) (s : FunctionState)
      → IsBodyLine (line_of c n)
      → s.in_a_function ≡ true
      → check_for_function_lengths v c n s
        ≡ ([], counted (if found (match blank_line (line_of c n)) then 0 else 1) s)
  unfolding check_for_function_lengths count_line
  body_step n s (a, b) h = elim (Bool-cases (found (match blank_line (line_of c n)))) [
    | inl e ↦ rw (a, b, e) (ap (λ m. ([], with_lines s m)) (omega arith))
    | inr e ↦ rw (a, b, e, h) refl
  ]

  body_lines :
      (ns : List ℕ) (s : FunctionState)
      → All (λ n. IsBodyLine (line_of c n)) ns
      → s.in_a_function ≡ true
      → check_lines v c ns s ≡ ([], counted (code_lines c ns) s)
  body_lines [] s h i = ap (λ m. ([], with_lines s m)) (omega arith)
  body_lines (n ∷ ns) s (l, h) i =
      let k = if found (match blank_line (line_of c n)) then 0 else 1 in
      ap (λ (r : List Report × FunctionState). joined r (check_lines v c ns r.1))
        (body_step n s l i)
      ∙ (body_lines ns (counted k s) h i
          ∙ ap (λ m. ([], with_lines s m)) {x = s.lines_in_function + k + code_lines c ns}
              (omega arith))

  check_lines-append :
      (ns ms : List ℕ) (s : FunctionState)
      → check_lines v c (ns ++ ms) s
        ≡ joined (check_lines v c ns s) (check_lines v c ms (check_lines v c ns s).1)
  check_lines-append [] ms s = refl
  check_lines-append (n ∷ ns) ms s =
      let step = check_for_function_lengths v c n s in
      let rest = check_lines v c ns step.1 in
      ap (joined step) (check_lines-append ns ms step.1)
      ∙ ap (λ r. (r, (check_lines v c ms rest.1).1))
          (sym (append_assoc step.0 rest.0 (check_lines v c ms rest.1).0))

  start_step :
      (n : ℕ) (s : FunctionState) (joined_line : Text)
      → Starts c n joined_line
      → check_for_function_lengths v c n s
        ≡ ([], begin (function_title (line_of c n) joined_line) s)
  unfolding check_for_function_lengths
  start_step n s joined_line (a, b) = rw (a, b) refl

  end_step :
      (m : ℕ) (s : FunctionState)
      → IsEndLine (line_of c m)
      → check_for_function_lengths v c m s ≡ (check v m s, end s)
  unfolding check_for_function_lengths
  end_step m s (a, b) = rw (a, b) refl

  whole_function :
      (n : ℕ) (ns : List ℕ) (m : ℕ) (joined_line : Text) (s : FunctionState)
      → Starts c n joined_line
      → All (λ k. IsBodyLine (line_of c k)) ns
      → IsEndLine (line_of c m)
      → check_lines v c (n ∷ (ns ++ m ∷ [])) s ≡ (
        check v m (counted (code_lines c ns) (begin (function_title (line_of c n) joined_line) s))
            ++ [],
        end (counted (code_lines c ns) (begin (function_title (line_of c n) joined_line) s)),
      )
  unfolding begin
  whole_function n ns m joined_line s a h b =
      let inside = begin (function_title (line_of c n) joined_line) s in
      let at_end = counted (code_lines c ns) inside in
      ap (λ (r : List Report × FunctionState). joined r (check_lines v c (ns ++ m ∷ []) r.1))
        (start_step n s joined_line a)
      ∙ (check_lines-append ns (m ∷ []) inside
          ∙ (ap (λ (r : List Report × FunctionState). joined r (check_lines v c (m ∷ []) r.1))
                (body_lines ns inside h refl)
              ∙ ap (λ (r : List Report × FunctionState). joined r ([], r.1)) (end_step m at_end b)))

-- A function that starts on one line, goes on over lines that neither start nor end a function, and
-- ends on a line with its closing brace, is reported exactly if its lines that are not blank are more
-- than its trigger: the base of its kind, doubled once for each step of the verbosity. The reports
-- stand at the closing brace, with a confidence of at most 5 that is not below the verbosity if that
-- is at most 5. Behind the brace no function is read.
pub function_length_lem :
    (v : ℕ) (c : CleansedLines) (n : ℕ) (ns : List ℕ) (m : ℕ) (joined_line : Text)
    (s : FunctionState)
    → Starts c n joined_line
    → All (λ k. IsBodyLine (line_of c k)) ns
    → IsEndLine (line_of c m)
    → (((check_lines v c (n ∷ (ns ++ m ∷ [])) s).0 ≢ [])
        ↔ (base_trigger (function_title (line_of c n) joined_line) * 2 ^ v < code_lines c ns))
      × All
          (λ r. (r.linenum ≡ m) × (min v 5 ≤ r.confidence) × (r.confidence ≤ 5))
          (check_lines v c (n ∷ (ns ++ m ∷ [])) s).0
      × ((check_lines v c (n ∷ (ns ++ m ∷ [])) s).1.in_a_function ≡ false)
unfolding begin end
function_length_lem v c n ns m joined_line s a h b =
    let name = function_title (line_of c n) joined_line in
    let at_end = counted (code_lines c ns) (begin name s) in
    let (reports, all) = check_lem v m at_end in
    let whole =
      whole_function v c n ns m joined_line s a h b
      ∙ ap (λ r. (r, end at_end)) (append-nil (check v m at_end)) in
    subst
      (λ (r : List Report × FunctionState).
        ((r.0 ≢ []) ↔ (base_trigger name * 2 ^ v < code_lines c ns))
        × All (λ r. (r.linenum ≡ m) × (min v 5 ≤ r.confidence) × (r.confidence ≤ 5)) r.0
        × (r.1.in_a_function ≡ false))
      (sym whole)
      ((λ q. omega (arith, (reports.0 q).1), λ q. reports.1 (refl, omega arith)), all, refl)
