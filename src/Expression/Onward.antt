-- ===== src/Expression/Onward.antt =====
-- An end that `CloseExpression` finds is further on in the file, whatever it starts from.
use csci.Prelude.{
  ℕ, ◌+◌, ◌≤◌, ◌<◌, ◌≡◌, refl, Bool, not, ◌&&◌, ◌||◌, List, [], ◌∷◌, Option, none, some, arith,
  Text, ◌==◌, ltb, length, take, drop, get_elem?, ◌⊎◌, inl, inr,
}
use mathlib.Core.List.{reverse}
use csci.Regex.{search_in, match, found, head_is}
use csci.Expression.{
  Stack, Scan, closed, broken, unclosed, Action, stop, go, skip, is_opener, is_closer, is_pair,
  is_empty, pop_all, pop_or, forward_action, operator_at_end, find_end,
  find_end_of_expression_in_line, Place, close_in_lines, close_from, close_at, close_expression,
  shift_or_compare,
}
use csci.Expression.Forward.{if_holds}

-- An action that ends the scan with a place ends it just behind the index.
abbrev StopsBehind : ℕ → Action → Type 0
StopsBehind i (stop (closed j)) = i < j
StopsBehind i _ = Unit

pop_or-StopsBehind :
    (i : ℕ) (p : ℕ → Bool) (other : Action) (scan : Scan) (stack : Stack)
    → StopsBehind i other
    → StopsBehind i (stop scan)
    → StopsBehind i (pop_or p other scan stack)
pop_or-StopsBehind i p other scan [] h k = h
pop_or-StopsBehind i p other scan (t ∷ stack) h k =
    if_holds (StopsBehind i) (p t) _ other
      (λ _. if_holds (StopsBehind i) (is_empty stack) (stop scan) (go stack) (λ _. k) (λ _. tt))
      (λ _. h)

forward_action-StopsBehind :
    (i c : ℕ) (before : Text) (stack : Stack) → StopsBehind i (forward_action i c before stack)
unfolding forward_action
forward_action-StopsBehind i c before stack =
    let P = StopsBehind i in
    let behind : i < i + 1 = omega arith in
    if_holds P (is_opener c) _ _ (λ _. tt)
      (λ _.
        if_holds P (c == b'<') _ _
          (λ _.
            if_holds P (head_is (λ c. c == b'<') before) _ _
              (λ _. pop_or-StopsBehind i (λ t. t == b'<') (go stack) broken stack tt tt)
              (λ _.
                if_holds P (ltb 0 i && found (search_in operator_at_end (reverse before))) _ _
                  (λ _. tt) (λ _. tt)))
          (λ _.
            if_holds P (is_closer c) _ _
              (λ _.
                pop_or-StopsBehind i (λ t. is_pair t c) (stop broken) (closed (i + 1))
                  (pop_all b'<' stack) tt behind)
              (λ _.
                if_holds P (c == b'>') _ _
                  (λ _.
                    if_holds P
                      (ltb 0 i
                        && (head_is (λ c. c == b'-') before
                            || found (search_in operator_at_end (reverse (drop 1 before)))))
                      (go stack) _ (λ _. tt)
                      (λ _.
                        pop_or-StopsBehind i (λ t. t == b'<') (go stack) (closed (i + 1)) stack tt
                          behind))
                  (λ _.
                    if_holds P (c == b';') _ _
                      (λ _. if_holds P (is_empty (pop_all b'<' stack)) _ _ (λ _. tt) (λ _. tt))
                      (λ _. tt)))))

abbrev ScanBehind : ℕ → Scan → Type 0
ScanBehind i (closed j) = i < j
ScanBehind i _ = Unit

later : (i : ℕ) (s : Scan) → ScanBehind (i + 1) s → ScanBehind i s
later i (closed j) h = omega arith
later i broken h = tt
later i (unclosed stack) h = tt

by_action :
    (i : ℕ) (a : Action) (next : Stack → Scan)
    → StopsBehind i a
    → ((stack : Stack) → ScanBehind (i + 1) (next stack))
    → ScanBehind i (elim a [ stop scan ↦ scan | go stack ↦ next stack | skip stack ↦ next stack ])
by_action i (stop (closed j)) next h on = h
by_action i (stop broken) next h on = tt
by_action i (stop (unclosed stack)) next h on = tt
by_action i (go stack) next h on = later i (next stack) (on stack)
by_action i (skip stack) next h on = later i (next stack) (on stack)

find_end-ScanBehind :
    (i : ℕ) (before rest : Text) (stack : Stack) → ScanBehind i (find_end i before rest stack)
unfolding find_end
find_end-ScanBehind i before [] stack = tt
find_end-ScanBehind i before (c ∷ rest) stack =
    by_action i (forward_action i c before stack) (λ s. find_end (i + 1) (c ∷ before) rest s)
      (forward_action-StopsBehind i c before stack)
      (λ s. find_end-ScanBehind (i + 1) (c ∷ before) rest s)

-- The place is on a later line, or behind the position on the line.
abbrev pub Onward : ℕ → ℕ → Place → Type 0
Onward linenum pos (line, linenum', none) = Unit
Onward linenum pos (line, linenum', some pos') =
    (linenum < linenum') ⊎ ((linenum ≡ linenum') × (pos < pos'))

by_scan :
    (linenum first pos total : ℕ) (next : Text) (s : Scan) (on : Stack → Place)
    → first < linenum
    → ((stack : Stack) → Onward first pos (on stack))
    → Onward first pos (elim s [
      | closed end ↦ (next, linenum, some end)
      | broken ↦ (next, total, none)
      | unclosed stack ↦ on stack
    ])
by_scan linenum first pos total next (closed end) on lt h = inl lt
by_scan linenum first pos total next broken on lt h = tt
by_scan linenum first pos total next (unclosed stack) on lt h = h stack

close_in_lines-Onward :
    (lines : List Text) (line : Text) (linenum first pos total : ℕ) (stack : Stack)
    → first ≤ linenum
    → Onward first pos (close_in_lines lines line linenum total stack)
unfolding close_in_lines
close_in_lines-Onward lines line linenum first pos total [] le = tt
close_in_lines-Onward [] line linenum first pos total (t ∷ stack) le = tt
close_in_lines-Onward (next ∷ lines) line linenum first pos total (t ∷ stack) le =
    by_scan (linenum + 1) first pos total next (find_end_of_expression_in_line next 0 (t ∷ stack))
      (λ s. close_in_lines lines next (linenum + 1) total s) (omega arith)
      (λ s. close_in_lines-Onward lines next (linenum + 1) first pos total s (omega arith))

close_from-Onward :
    (elided : List Text) (line : Text) (linenum pos : ℕ) (s : Scan)
    → ScanBehind pos s
    → Onward linenum pos (close_from elided line linenum pos s)
close_from-Onward elided line linenum pos (closed end) h = inr (refl, h)
close_from-Onward elided line linenum pos broken h = tt
close_from-Onward elided line linenum pos (unclosed stack) h =
    close_in_lines-Onward (drop (linenum + 1) elided) line linenum linenum pos (length elided) stack
      (omega arith)

close_at-Onward :
    (elided : List Text) (line : Text) (linenum pos c : ℕ)
    → Onward linenum pos (close_at elided line linenum pos c)
unfolding find_end_of_expression_in_line
close_at-Onward elided line linenum pos c =
    if_holds (Onward linenum pos)
      (not (is_opener c || c == b'<') || found (match shift_or_compare (drop pos line))) _
      (close_from elided line linenum pos (find_end_of_expression_in_line line pos [])) (λ _. tt)
      (λ _.
        close_from-Onward elided line linenum pos (find_end_of_expression_in_line line pos [])
          (find_end-ScanBehind pos (reverse (take pos line)) (drop pos line) []))

abbrev pub FoundOnward : ℕ → ℕ → Option Place → Type 0
FoundOnward linenum pos none = Unit
FoundOnward linenum pos (some place) = Onward linenum pos place

by_line :
    (elided : List Text) (linenum pos : ℕ) (line : Text) (o : Option ℕ)
    → FoundOnward linenum pos
        (elim o [ none ↦ none | some c ↦ some (close_at elided line linenum pos c) ])
by_line elided linenum pos line none = tt
by_line elided linenum pos line (some c) = close_at-Onward elided line linenum pos c

-- The place that `CloseExpression` finds, if it finds one, is on a later line or further on in the line.
pub close_expression-FoundOnward :
    (elided : List Text) (linenum pos : ℕ)
    → FoundOnward linenum pos (close_expression elided linenum pos)
unfolding close_expression
close_expression-FoundOnward elided linenum pos = by_elided (get_elem? elided linenum)
  where
    by_elided :
        (o : Option Text)
        → FoundOnward linenum pos (elim o [
          | none ↦ none
          | some line ↦ elim (get_elem? line pos) [
            | none ↦ none
            | some c ↦ some (close_at elided line linenum pos c)
          ]
        ])
    by_elided none = tt
    by_elided (some line) = by_line elided linenum pos line (get_elem? line pos)
