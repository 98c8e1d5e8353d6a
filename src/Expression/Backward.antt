-- ===== src/Expression/Backward.antt =====
-- `ReverseCloseExpression` on balanced text, and the way there and back.
use csci.Prelude.{
  ℕ, suc, ◌+◌, ◌≡◌, refl, ap, sym, ◌∙◌, true, false, List, [], ◌∷◌, ◌++◌, append_assoc, some, arith,
  Text, length, length-append, ap₂, take, drop, get_elem?,
}
use mathlib.Core.List.{reverse, reverse_aux, reverse_aux-append}
use csci.Expression.{
  Stack, Scan, closed, stop, go, is_opener, is_closer, is_pair, backward_action, find_start,
  find_start_of_expression_in_line, reverse_from, reverse_close_expression, close_expression,
}
use csci.Expression.Balanced.{is_plain, Balanced, nothing, plain, nest}
use csci.Expression.Close.{close_expression-Balanced}

module _ (before after : Text) (stack : Stack) where
  plain_back : (c : ℕ) → is_plain c ≡ true → backward_action c before after stack ≡ go stack
  unfolding backward_action
  plain_back c h = ground arith

  closer_back :
      (left right : ℕ)
      → is_pair left right ≡ true
      → backward_action right before after stack ≡ go (right ∷ stack)
  unfolding backward_action
  closer_back left right h = ground arith

  opener_back :
      (left right s : ℕ)
      → is_pair left right ≡ true
      → backward_action left before after (right ∷ s ∷ stack) ≡ go (s ∷ stack)
  unfolding backward_action
  opener_back left right s h = ground arith

  last_back :
      (left right : ℕ)
      → is_pair left right ≡ true
      → backward_action left before after (right ∷ []) ≡ stop (closed (length before))
  unfolding backward_action
  last_back left right h = ground arith

find_start_stop :
    (c : ℕ) (before after : Text) (stack : Stack) (r : Scan)
    → backward_action c before after stack ≡ stop r
    → find_start false (c ∷ before) after stack ≡ r
unfolding find_start
find_start_stop c before after stack r e = rw (e, find_start) refl

find_start_go :
    (c : ℕ) (before after : Text) (stack stack' : Stack)
    → backward_action c before after stack ≡ go stack'
    → find_start false (c ∷ before) after stack ≡ find_start false before (c ∷ after) stack'
unfolding find_start
find_start_go c before after stack stack' e = rw (e, find_start) refl

-- Inside of an expression, balanced text is read backwards and leaves the stack as it was.
find_start-Balanced :
    (t before after : Text) (s : ℕ) (stack : Stack)
    → Balanced t
    → (after' : Text) × (find_start false (reverse_aux t before) after (s ∷ stack)
        ≡ find_start false before after' (s ∷ stack))
find_start-Balanced t before after s stack nothing = (after, refl)
find_start-Balanced t before after s stack (plain {c = c} {t = t'} h b) =
    let (mid, e) = find_start-Balanced t' (c ∷ before) after s stack b in
    (
      c ∷ mid,
      e
          ∙ find_start_go c before mid (s ∷ stack) (s ∷ stack)
              (plain_back before mid (s ∷ stack) c h),
    )
find_start-Balanced t before after s stack (nest left right v u o p b d) =
    let inner = reverse_aux v (left ∷ before) in
    let (a1, e1) = find_start-Balanced u (right ∷ inner) after s stack d in
    let (a2, e2) = find_start-Balanced v (left ∷ before) (right ∷ a1) right (s ∷ stack) b in
    (
      left ∷ a2,
      ap (λ r. find_start false r after (s ∷ stack))
            (reverse_aux-append v (right ∷ u) (left ∷ before))
          ∙ (e1
              ∙ (find_start_go right inner a1 (s ∷ stack) (right ∷ s ∷ stack)
                    (closer_back inner a1 (s ∷ stack) left right p)
                  ∙ (e2
                      ∙ find_start_go left before a2 (right ∷ s ∷ stack) (s ∷ stack)
                          (opener_back before a2 stack left right s p)))),
    )

length-reverse_aux : (s t : Text) → length (reverse_aux s t) ≡ length s + length t
length-reverse_aux [] t = omega arith
length-reverse_aux (c ∷ s) t = omega (arith, length-reverse_aux s (c ∷ t))

get_elem?-append : (s : Text) (c : ℕ) (t : Text) → get_elem? (s ++ c ∷ t) (length s) ≡ some c
get_elem?-append [] c t = refl
get_elem?-append (x ∷ s) c t = get_elem?-append s c t

take-append : (s : Text) (c : ℕ) (t : Text) → take (suc (length s)) (s ++ c ∷ t) ≡ s ++ c ∷ []
take-append [] c t = refl
take-append (x ∷ s) c t = ap (λ u. x ∷ u) (take-append s c t)

drop-append : (s t : Text) → drop (length s) (s ++ t) ≡ t
drop-append [] t = refl
drop-append (x ∷ s) t = drop-append s t

-- From the partner of a bracket back to it, over balanced text.
back_to_opener :
    (head : Text) (left right : ℕ) (t after : Text)
    → is_pair left right ≡ true
    → Balanced t
    → find_start false (right ∷ reverse_aux t (left ∷ reverse head)) after [] ≡ closed (length head)
back_to_opener head left right t after p b =
    let rest = left ∷ reverse head in
    let (mid, e) = find_start-Balanced t rest (right ∷ after) right [] b in
    find_start_go right (reverse_aux t rest) after [] (right ∷ [])
      (closer_back (reverse_aux t rest) after [] left right p)
    ∙ (e
        ∙ (find_start_stop left (reverse head) mid (right ∷ []) _
              (last_back (reverse head) mid [] left right p)
            ∙ ap closed (omega (arith, length-reverse_aux head []))))

reverse_in_line :
    (head : Text) (left right : ℕ) (t rest : Text)
    → is_pair left right ≡ true
    → Balanced t
    → find_start_of_expression_in_line
        ((head ++ left ∷ t) ++ right ∷ rest)
        (suc (length (head ++ left ∷ t)))
        []
      ≡ closed (length head)
unfolding find_start_of_expression_in_line
reverse_in_line head left right t rest p b =
    let line = (head ++ left ∷ t) ++ right ∷ rest in
    let after = drop (suc (length (head ++ left ∷ t))) line in
    ap (λ s. find_start false (reverse s) after []) (take-append (head ++ left ∷ t) right rest)
    ∙ (ap (λ s. find_start false s after [])
          (reverse_aux-append (head ++ left ∷ t) (right ∷ []) []
            ∙ ap (λ s. right ∷ s) (reverse_aux-append head (left ∷ t) []))
        ∙ back_to_opener head left right t after p b)

reverse_close_eq :
    (elided : List Text) (linenum pos : ℕ) (line : Text) (left right : ℕ)
    → get_elem? elided linenum ≡ some line
    → get_elem? line pos ≡ some right
    → is_pair left right ≡ true
    → reverse_close_expression elided linenum pos
      ≡ some (reverse_from elided line linenum (find_start_of_expression_in_line line (pos + 1) []))
unfolding reverse_close_expression
reverse_close_eq elided linenum pos line left right g q p =
    let closes : is_closer right ≡ true = ground arith in
    rw (g, reverse_close_expression, q, closes) refl

-- On a line on which balanced text and then its partner stand behind an opening bracket, whatever stands
-- before and behind, `CloseExpression` goes from the bracket to the place just behind the partner, and
-- `ReverseCloseExpression` goes from the partner back to the bracket.
pub close_expression-reverse :
    (elided : List Text) (linenum : ℕ) (head : Text) (left right : ℕ) (t rest : Text)
    → get_elem? elided linenum ≡ some (head ++ left ∷ (t ++ right ∷ rest))
    → is_opener left ≡ true
    → is_pair left right ≡ true
    → Balanced t
    → (close_expression elided linenum (length head)
        ≡ some (head ++ left ∷ (t ++ right ∷ rest), linenum, some (length head + length t + 2)))
      × (reverse_close_expression elided linenum (length head + length t + 1)
          ≡ some (head ++ left ∷ (t ++ right ∷ rest), linenum, some (length head)))
close_expression-reverse elided linenum head left right t rest g o p b =
    let line = head ++ left ∷ (t ++ right ∷ rest) in
    let front = head ++ left ∷ t in
    let split : line ≡ front ++ right ∷ rest = sym (append_assoc head (left ∷ t) (right ∷ rest)) in
    let pos : length front ≡ length head + length t + 1 =
      omega (arith, length-append {0} head (left ∷ t)) in
    let at_right : get_elem? line (length head + length t + 1) ≡ some right =
      ap (λ n. get_elem? line n) (sym pos)
      ∙ (ap (λ s. get_elem? s (length front)) split ∙ get_elem?-append front right rest) in
    let behind : length head + length t + 1 + 1 ≡ suc (length front) = omega (arith, pos) in
    let scanned : find_start_of_expression_in_line line (length head + length t + 1 + 1) []
        ≡ closed (length head) =
      ap₂ (λ s n. find_start_of_expression_in_line s n []) split behind
      ∙ reverse_in_line head left right t rest p b in
    (
      close_expression-Balanced elided linenum (length head) line left right t rest g o p b
          (drop-append head (left ∷ (t ++ right ∷ rest))),
      reverse_close_eq elided linenum (length head + length t + 1) line left right g at_right p
          ∙ ap (λ s. some (reverse_from elided line linenum s)) scanned,
    )
