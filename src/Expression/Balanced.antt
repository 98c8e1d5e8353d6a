-- ===== src/Expression/Balanced.antt =====
-- Balanced text is read to its matching bracket.
use csci.Prelude.{
  ℕ, ◌+◌, ◌≡◌, ap, ◌∙◌, Bool, true, not, ◌||◌, [], ◌∷◌, ◌++◌, append_assoc, arith, Text, ◌==◌,
  length, length-append, take, drop,
}
use mathlib.Core.List.{reverse}
use csci.Expression.{
  Stack, Scan, closed, stop, go, is_opener, is_closer, is_pair, forward_action, find_end,
  find_end_of_expression_in_line,
}

-- No bracket, and none of the characters that the scan treats apart.
abbrev pub is_plain : ℕ → Bool
is_plain c = not (is_opener c || (is_closer c || (c == b'<' || (c == b'>' || c == b';'))))

-- Text whose brackets match.
pub data Balanced : Text → Type 0 where
  nothing : Balanced []
  plain : {c : ℕ} {t : Text} → is_plain c ≡ true → Balanced t → Balanced (c ∷ t)
  nest :
      (left right : ℕ) (t u : Text)
      → is_opener left ≡ true
      → is_pair left right ≡ true
      → Balanced t
      → Balanced u
      → Balanced (left ∷ (t ++ right ∷ u))

module _ (i : ℕ) (before : Text) (stack : Stack) where
  plain_step : (c : ℕ) → is_plain c ≡ true → forward_action i c before stack ≡ go stack
  unfolding forward_action
  plain_step c h = ground arith

  pub opener_step : (c : ℕ) → is_opener c ≡ true → forward_action i c before stack ≡ go (c ∷ stack)
  unfolding forward_action
  opener_step c h = ground arith

  closer_step :
      (left right s : ℕ)
      → is_pair left right ≡ true
      → forward_action i right before (left ∷ s ∷ stack) ≡ go (s ∷ stack)
  unfolding forward_action
  closer_step left right s h = ground arith

  last_step :
      (left right : ℕ)
      → is_pair left right ≡ true
      → forward_action i right before (left ∷ []) ≡ stop (closed (i + 1))
  unfolding forward_action
  last_step left right h = ground arith

find_end_stop :
    (i : ℕ) (before : Text) (c : ℕ) (rest : Text) (stack : Stack) (r : Scan)
    → forward_action i c before stack ≡ stop r
    → find_end i before (c ∷ rest) stack ≡ r
unfolding find_end
find_end_stop i before c rest stack r e = rw (e, find_end)

pub find_end_go :
    (i : ℕ) (before : Text) (c : ℕ) (rest : Text) (stack stack' : Stack)
    → forward_action i c before stack ≡ go stack'
    → find_end i before (c ∷ rest) stack ≡ find_end (i + 1) (c ∷ before) rest stack'
unfolding find_end
find_end_go i before c rest stack stack' e = rw (e, find_end)

-- Inside of an expression, balanced text is read and leaves the stack as it was.
find_end-Balanced :
    (t rest : Text) (i : ℕ) (before : Text) (s : ℕ) (stack : Stack)
    → Balanced t
    → (before' : Text) × (find_end i before (t ++ rest) (s ∷ stack)
        ≡ find_end (i + length t) before' rest (s ∷ stack))
find_end-Balanced t rest i before s stack nothing =
    (before, ap (λ n. find_end n before rest (s ∷ stack)) (omega arith))
find_end-Balanced t rest i before s stack (plain {c = c} {t = t'} h b) =
    let (before', e) = find_end-Balanced t' rest (i + 1) (c ∷ before) s stack b in
    (
      before',
      find_end_go i before c (t' ++ rest) (s ∷ stack) (s ∷ stack)
            (plain_step i before (s ∷ stack) c h)
          ∙ (e ∙ ap (λ n. find_end n before' rest (s ∷ stack)) (omega arith)),
    )
find_end-Balanced t rest i before s stack (nest left right v u o p b d) =
    let (mid, e) =
      find_end-Balanced v (right ∷ (u ++ rest)) (i + 1) (left ∷ before) left (s ∷ stack) b in
    let (before', e') = find_end-Balanced u rest (i + 1 + length v + 1) (right ∷ mid) s stack d in
    (
      before',
      ap (λ r. find_end i before (left ∷ r) (s ∷ stack)) (append_assoc v (right ∷ u) rest)
          ∙ (find_end_go i before left (v ++ right ∷ (u ++ rest)) (s ∷ stack) (left ∷ s ∷ stack)
                (opener_step i before (s ∷ stack) left o)
              ∙ (e
                  ∙ (find_end_go (i + 1 + length v) mid right (u ++ rest) (left ∷ s ∷ stack)
                        (s ∷ stack) (closer_step (i + 1 + length v) mid stack left right s p)
                      ∙ (e'
                          ∙ ap (λ n. find_end n before' rest (s ∷ stack))
                              (omega (arith, length-append {0} v (right ∷ u))))))),
    )

-- `FindEndOfExpressionInLine`, started at an opening bracket behind which balanced text and then the
-- bracket's partner stand, returns the index just after the partner, whatever follows.
pub find_end_lem :
    (line : Text) (left right : ℕ) (t rest : Text) (pos : ℕ)
    → is_opener left ≡ true
    → is_pair left right ≡ true
    → Balanced t
    → drop pos line ≡ left ∷ (t ++ right ∷ rest)
    → find_end_of_expression_in_line line pos [] ≡ closed (pos + length t + 2)
unfolding find_end_of_expression_in_line
find_end_lem line left right t rest pos o p b e =
    let before = reverse (take pos line) in
    let (mid, q) = find_end-Balanced t (right ∷ rest) (pos + 1) (left ∷ before) left [] b in
    rw e (
      find_end_go pos before left (t ++ right ∷ rest) [] (left ∷ [])
        (opener_step pos before [] left o)
      ∙ (q
          ∙ (find_end_stop (pos + 1 + length t) mid right rest (left ∷ []) _
                (last_step (pos + 1 + length t) mid [] left right p)
              ∙ ap closed (omega arith))))
