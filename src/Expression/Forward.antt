-- ===== src/Expression/Forward.antt =====
-- What `FindEndOfExpressionInLine` and `CloseExpression` find is the partner of the bracket at which
-- they start.
use csci.Prelude.{
  ℕ, ◌+◌, ◌≡◌, refl, ◌⊎◌, inl, inr, Bool, true, false, ◌&&◌, ◌||◌, [], ◌∷◌, arith, Text, ◌==◌, ltb,
  drop, if◌then◌else◌, Bool-cases,
}
use mathlib.Core.List.{reverse}
use csci.Regex.{search_in, found, head_is}
use csci.Expression.{
  Stack, Scan, closed, broken, unclosed, Action, stop, go, skip, is_opener, is_closer, is_pair,
  is_empty, pop_all, pop_or, forward_action, operator_at_end,
}

-- The character closes an expression that the other one opens.
abbrev pub Partner : ℕ → ℕ → Type 0
Partner left right = (is_pair left right ≡ true) ⊎ ((left ≡ b'<') × (right ≡ b'>'))

-- The oldest entry of the stack.
abbrev pub Bottom : ℕ → Stack → Type 0
Bottom c [] = ⊥
Bottom c (t ∷ []) = t ≡ c
Bottom c (t ∷ u ∷ stack) = Bottom c (u ∷ stack)

-- What a round may do when the oldest open bracket is `c`.
abbrev pub Fine : ℕ → ℕ → ℕ → Action → Type 0
Fine c i char (stop (closed j)) = (j ≡ i + 1) × Partner c char
Fine c i char (stop broken) = Unit
Fine c i char (stop (unclosed stack)) = ⊥
Fine c i char (go stack) = Bottom c stack
Fine c i char (skip stack) = ⊥

pub if_holds :
    {A : Type 0} (P : A → Type 0) (b : Bool) (x y : A)
    → (b ≡ true → P x)
    → (b ≡ false → P y)
    → P (if b then x else y)
if_holds P true x y hx hy = hx refl
if_holds P false x y hx hy = hy refl

Bottom-push : (c d : ℕ) (stack : Stack) → Bottom c stack → Bottom c (d ∷ stack)
Bottom-push c d [] h = absurd h
Bottom-push c d (t ∷ stack) h = h

Bottom-pop_all :
    (c d : ℕ) (stack : Stack) → Bottom c stack → (pop_all d stack ≡ []) ⊎ Bottom c (pop_all d stack)
unfolding pop_all
Bottom-pop_all c d [] h = absurd h
Bottom-pop_all c d (t ∷ []) h = ground arith
Bottom-pop_all c d (t ∷ u ∷ stack) h = elim (Bool-cases (t == d)) [
  | inl e ↦ rw (e, pop_all) (Bottom-pop_all c d (u ∷ stack) h)
  | inr e ↦ rw (e, pop_all) (inr h)
]

module _ (c i char : ℕ) (p : ℕ → Bool) (other : Action) (scan : Scan) where
  Fine-pop_or :
      (stack : Stack)
      → Bottom c stack ⊎ (stack ≡ [])
      → Fine c i char other
      → (p c ≡ true → Fine c i char (stop scan))
      → Fine c i char (pop_or p other scan stack)
  Fine-pop_or [] h o s = o
  Fine-pop_or (t ∷ []) (inr h) o s = cc
  Fine-pop_or (t ∷ []) (inl h) o s =
      if_holds (Fine c i char) (p t) (stop scan) other (λ e. s (rw h at e)) (λ _. o)
  Fine-pop_or (t ∷ u ∷ stack) (inr h) o s = cc
  Fine-pop_or (t ∷ u ∷ stack) (inl h) o s =
      if_holds (Fine c i char) (p t) (go (u ∷ stack)) other (λ _. h) (λ _. o)

flip_cases : {A B : Type 0} → A ⊎ B → B ⊎ A
flip_cases (inl a) = inr a
flip_cases (inr b) = inl b

semicolon :
    (c i char : ℕ) (stack : Stack)
    → Bottom c stack
    → Fine c i char (if is_empty stack then stop broken else go stack)
semicolon c i char [] h = absurd h
semicolon c i char (t ∷ stack) h = h

pub forward_action-Fine :
    (c i char : ℕ) (before : Text) (stack : Stack)
    → Bottom c stack
    → Fine c i char (forward_action i char before stack)
unfolding forward_action
forward_action-Fine c i char before stack h =
    let fine = Fine c i char in
    if_holds fine (is_opener char) _ _ (λ _. Bottom-push c char stack h)
      λ _.
        if_holds fine (char == b'<') _ _
          (λ _.
            if_holds fine (head_is (λ x. x == b'<') before) _ _
              (λ _.
                Fine-pop_or c i char (λ t. t == b'<') (go stack) broken stack (inl h) h (λ _. tt))
              (λ _.
                if_holds fine (ltb 0 i && found (search_in operator_at_end (reverse before))) _ _
                  (λ _. h) (λ _. Bottom-push c b'<' stack h)))
          λ _.
            if_holds fine (is_closer char) _ _
              (λ _.
                Fine-pop_or c i char (λ t. is_pair t char) (stop broken) (closed (i + 1))
                  (pop_all b'<' stack) (flip_cases (Bottom-pop_all c b'<' stack h)) tt
                  (λ e. (refl, inl e)))
              λ _.
                if_holds fine (char == b'>') _ _
                  (λ gt.
                    if_holds fine
                      (ltb 0 i
                        && (head_is (λ x. x == b'-') before
                            || found (search_in operator_at_end (reverse (drop 1 before)))))
                      _ _ (λ _. h)
                      (λ _.
                        Fine-pop_or c i char (λ t. t == b'<') (go stack) (closed (i + 1)) stack
                          (inl h) h (λ e. (refl, inr (ground arith, ground arith)))))
                  λ _.
                    if_holds fine (char == b';') _ _
                      (λ _. elim (Bottom-pop_all c b'<' stack h) [
                        | inl e ↦ rw e tt
                        | inr b ↦ semicolon c i char (pop_all b'<' stack) b
                      ])
                      (λ _. h)
