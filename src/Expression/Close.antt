-- ===== src/Expression/Close.antt =====
-- `CloseExpression` over the lines of a file.
use csci.Prelude.{
  ◌++◌, false, Bool, if◌then◌else◌, ℕ, suc, ◌+◌, ◌≤◌, ◌<◌, ◌≡◌, refl, ap, sym, ◌∙◌, true, not, ◌||◌,
  List, [], ◌∷◌, none, some, arith, Text, ◌==◌, length, take, drop, get_elem?, get_elem?-drop,
  drop-eq-cons, drop-of-get_elem?, subst,
}
use mathlib.Core.List.{reverse}
use csci.Regex.{match, found}
use csci.Expression.{
  Stack, Scan, closed, broken, unclosed, Action, stop, go, skip, is_opener, is_pair, forward_action,
  find_end, find_end_of_expression_in_line, Place, close_in_lines, close_from, close_at,
  close_expression, shift_or_compare,
}
use csci.Expression.Forward.{Partner, Bottom, Fine, forward_action-Fine, if_holds}
use csci.Expression.Balanced.{Balanced, find_end_lem, opener_step, find_end_go}

-- The scan from index `i` ends behind a partner of `c`, gives up, or goes on with `c` still open.
abbrev Ends : ℕ → ℕ → Text → Scan → Type 0
Ends c i rest (closed j) =
    (k : ℕ) × (char : ℕ) × (j ≡ i + k + 1) × (get_elem? rest k ≡ some char) × Partner c char
Ends c i rest broken = Unit
Ends c i rest (unclosed stack) = Bottom c stack

Ends-cons :
    (c i char : ℕ) (rest : Text) (scan : Scan)
    → Ends c (i + 1) rest scan
    → Ends c i (char ∷ rest) scan
Ends-cons c i char rest (closed j) (k, char', e, g, p) = (suc k, char', omega arith, g, p)
Ends-cons c i char rest broken h = tt
Ends-cons c i char rest (unclosed stack) h = h

Ends-action :
    (c i char : ℕ) (rest : Text) (a : Action) (next : Stack → Scan)
    → Fine c i char a
    → ((stack : Stack) → Bottom c stack → Ends c (i + 1) rest (next stack))
    → Ends c i
        (char ∷ rest)
        (elim a [ stop scan ↦ scan | go stack ↦ next stack | skip stack ↦ next stack ])
Ends-action c i char rest (stop (closed j)) next (e, p) on = (0, char, omega arith, refl, p)
Ends-action c i char rest (stop broken) next h on = tt
Ends-action c i char rest (stop (unclosed stack)) next h on = absurd h
Ends-action c i char rest (go stack) next h on = Ends-cons c i char rest (next stack) (on stack h)
Ends-action c i char rest (skip stack) next h on = absurd h

find_end-Ends :
    (c i : ℕ) (before rest : Text) (stack : Stack)
    → Bottom c stack
    → Ends c i rest (find_end i before rest stack)
unfolding find_end
find_end-Ends c i before [] stack h = h
find_end-Ends c i before (char ∷ rest) stack h =
    Ends-action c i char rest (forward_action i char before stack)
      (λ stack'. find_end (i + 1) (char ∷ before) rest stack')
      (forward_action-Fine c i char before stack h)
      (λ stack' b. find_end-Ends c (i + 1) (char ∷ before) rest stack' b)

-- The place is behind the position on that line of the file, or on a later line, and just behind a
-- partner of `c`.
abbrev pub ClosedBy : List Text → ℕ → ℕ → ℕ → Text → ℕ → ℕ → Type 0
ClosedBy elided first pos c line linenum end_pos =
    (char : ℕ) × (j : ℕ) × (first ≤ linenum)
    × (linenum ≡ first → pos < j)
    × (get_elem? elided linenum ≡ some line)
    × (end_pos ≡ j + 1)
    × (get_elem? line j ≡ some char)
    × Partner c char

abbrev PlaceFine : List Text → ℕ → ℕ → ℕ → Place → Type 0
PlaceFine elided first pos c (line, linenum, none) = Unit
PlaceFine elided first pos c (line, linenum, some end_pos) =
    ClosedBy elided first pos c line linenum end_pos

scan_place :
    (elided : List Text) (next : Text) (linenum first pos total c : ℕ) (s : Scan)
    (on : Stack → Place)
    → first < linenum
    → get_elem? elided linenum ≡ some next
    → Ends c 0 next s
    → ((stack : Stack) → Bottom c stack → PlaceFine elided first pos c (on stack))
    → PlaceFine elided first pos c (elim s [
      | closed end ↦ (next, linenum, some end)
      | broken ↦ (next, total, none)
      | unclosed stack ↦ on stack
    ])
scan_place elided next linenum first pos total c (closed end) on le g (k, char, e, q, p) rest =
    (char, k, omega arith, λ same. absurd (omega arith), g, omega arith, q, p)
scan_place elided next linenum first pos total c broken on le g h rest = tt
scan_place elided next linenum first pos total c (unclosed stack) on le g h rest = rest stack h

close_in_lines-Fine :
    (elided lines : List Text) (line : Text) (linenum first pos total c : ℕ) (stack : Stack)
    → first ≤ linenum
    → drop (linenum + 1) elided ≡ lines
    → Bottom c stack
    → PlaceFine elided first pos c (close_in_lines lines line linenum total stack)
unfolding close_in_lines
close_in_lines-Fine elided lines line linenum first pos total c [] le e h = absurd h
close_in_lines-Fine elided [] line linenum first pos total c (t ∷ stack) le e h = tt
close_in_lines-Fine elided (next ∷ lines) line linenum first pos total c (t ∷ stack) le e h =
    let (g, tail) = drop-eq-cons (linenum + 1) elided e in
    scan_place elided next (linenum + 1) first pos total c (find_end 0 [] next (t ∷ stack))
      (λ stack'. close_in_lines lines next (linenum + 1) total stack') (omega arith) g
      (find_end-Ends c 0 [] next (t ∷ stack) h)
      (λ stack' b.
        close_in_lines-Fine elided lines next (linenum + 1) first pos total c stack' (omega arith)
          (ap (λ n. drop n elided) {x = linenum + 1 + 1} {y = suc (linenum + 1)} (omega arith)
            ∙ tail)
          b)

close_from-Fine :
    (elided : List Text) (line rest : Text) (linenum pos c : ℕ) (s : Scan)
    → get_elem? elided linenum ≡ some line
    → drop (suc pos) line ≡ rest
    → Ends c (pos + 1) rest s
    → PlaceFine elided linenum pos c (close_from elided line linenum pos s)
close_from-Fine elided line rest linenum pos c (closed end) g d (k, char, e, q, p) = (
  char,
  pos + 1 + k,
  omega arith,
  λ _. omega arith,
  g,
  e,
  ap (λ n. get_elem? line n) {x = pos + 1 + k} {y = suc pos + k} (omega arith)
      ∙ (sym (get_elem?-drop (suc pos) k line) ∙ (ap (λ r. get_elem? r k) d ∙ q)),
  p,
)
close_from-Fine elided line rest linenum pos c broken g d h = tt
close_from-Fine elided line rest linenum pos c (unclosed stack) g d h =
    close_in_lines-Fine elided (drop (linenum + 1) elided) line linenum linenum pos (length elided)
      c stack (omega arith) refl h

close_at-Fine :
    (elided : List Text) (line : Text) (linenum pos char : ℕ)
    → get_elem? elided linenum ≡ some line
    → drop pos line ≡ char ∷ drop (suc pos) line
    → is_opener char ≡ true
    → PlaceFine elided linenum pos char (close_at elided line linenum pos char)
unfolding find_end_of_expression_in_line
close_at-Fine elided line linenum pos char g d o =
    let rest = drop (suc pos) line in
    let before = reverse (take pos line) in
    if_holds (PlaceFine elided linenum pos char)
      (not (is_opener char || char == b'<') || found (match shift_or_compare (drop pos line)))
      (line, length elided, none)
      (close_from elided line linenum pos (find_end_of_expression_in_line line pos [])) (λ _. tt)
      (λ _.
        close_from-Fine elided line rest linenum pos char
          (find_end_of_expression_in_line line pos []) g refl
          (rw
            (d, find_end_go pos before char rest [] (char ∷ []) (opener_step pos before [] char o))
            (find_end-Ends char (pos + 1) (char ∷ before) rest (char ∷ []) refl)))

close_expression_eq :
    (elided : List Text) (linenum pos : ℕ) (line : Text) (char : ℕ)
    → get_elem? elided linenum ≡ some line
    → get_elem? line pos ≡ some char
    → close_expression elided linenum pos ≡ some (close_at elided line linenum pos char)
unfolding close_expression
close_expression_eq elided linenum pos line char g q = rw (g, close_expression, q)

-- Started at a round, square or curly bracket, an end that `CloseExpression` finds is further on in the
-- line or on a later line of the file, and just behind a bracket that closes one of that kind.
pub close_expression_lem :
    (elided : List Text) (linenum pos : ℕ) (line : Text) (char : ℕ)
    → get_elem? elided linenum ≡ some line
    → get_elem? line pos ≡ some char
    → is_opener char ≡ true
    → (end_line : Text) (end_linenum end_pos : ℕ)
    → close_expression elided linenum pos ≡ some (end_line, end_linenum, some end_pos)
    → ClosedBy elided linenum pos char end_line end_linenum end_pos
unfolding close_expression
close_expression_lem elided linenum pos line char g q o end_line end_linenum end_pos h =
    let same : close_at elided line linenum pos char ≡ (end_line, end_linenum, some end_pos) =
      cc (close_expression_eq elided linenum pos line char g q) in
    subst (PlaceFine elided linenum pos char) same
      (close_at-Fine elided line linenum pos char g (drop-of-get_elem? pos line q) o)

no_shift :
    (char : ℕ) (s : Text)
    → is_opener char ≡ true
    → found (match shift_or_compare (char ∷ s)) ≡ false
unfolding shift_or_compare match
no_shift char s o = ground arith

close_at-opener :
    (elided : List Text) (line : Text) (linenum pos char : ℕ) (s : Text)
    → is_opener char ≡ true
    → drop pos line ≡ char ∷ s
    → close_at elided line linenum pos char
      ≡ close_from elided line linenum pos (find_end_of_expression_in_line line pos [])
close_at-opener elided line linenum pos char s o d =
    let no_match : found (match shift_or_compare (drop pos line)) ≡ false =
      ap (λ u. found (match shift_or_compare u)) d ∙ no_shift char s o in
    if_false _ _ (is_opener char) (char == b'<') (found (match shift_or_compare (drop pos line))) o
      no_match
  where
    if_false :
        (x y : Place) (a b c : Bool)
        → a ≡ true
        → c ≡ false
        → (if not (a || b) || c then x else y) ≡ y
    if_false x y true b false e q = refl
    if_false x y true b true e q = absurd (cc)
    if_false x y false b c e q = absurd (cc)

-- Started at an opening bracket behind which balanced text and then the bracket's partner stand,
-- `CloseExpression` returns the place just behind the partner on the same line.
pub close_expression-Balanced :
    (elided : List Text) (linenum pos : ℕ) (line : Text) (left right : ℕ) (t rest : Text)
    → get_elem? elided linenum ≡ some line
    → is_opener left ≡ true
    → is_pair left right ≡ true
    → Balanced t
    → drop pos line ≡ left ∷ (t ++ right ∷ rest)
    → close_expression elided linenum pos ≡ some (line, linenum, some (pos + length t + 2))
close_expression-Balanced elided linenum pos line left right t rest g o p b d =
    close_expression_eq elided linenum pos line left g (drop-eq-cons pos line d).0
    ∙ ap some (
        close_at-opener elided line linenum pos left (t ++ right ∷ rest) o d
        ∙ ap (close_from elided line linenum pos) (find_end_lem line left right t rest pos o p b d))
