-- ===== src/Nesting/Template/Ends.antt =====
-- The loop of `InTemplateArgumentList` ends.
use csci.Prelude.{
  ℕ, zero, suc, ◌+◌, ◌-◌, ◌≤◌, ◌<◌, ◌≡◌, refl, ap, sym, ◌∙◌, subst, Bool, true, false, not, ◌||◌,
  List, [], Option, none, some, arith, Text, ◌==◌, ltb, leb, ltb→lt, length, length-take,
  length-drop, drop, get_or, Bool-cases, inl, inr,
}
use csci.Regex.{Cursor, cursor_at_start, Found, match, whole, group_text}
use csci.Regex.Search.{match_at-some}
use csci.Regex.Width.{Matches-width}
use csci.Expression.{Place, close_expression}
use csci.Expression.Forward.{if_holds}
use csci.Expression.Onward.{FoundOnward, close_expression-FoundOnward}
use csci.Nesting.Template.Room.{
  room, room_from, room_from-le, room-drop, room-drop_le, size-room, drop_at,
}
use csci.Nesting.Template.{
  template_token, Next, answer, at, head_or_zero, after_close, argument_step, template_step,
  template_loop, size,
}

-- If the round goes on, it leaves less room than `n`.
abbrev Below : List Text → ℕ → Next → Type 0
Below elided n (answer b) = Unit
Below elided n (at linenum pos) = room_from (drop linenum elided) pos < n

module _ (elided : List Text) (linenum pos : ℕ) (inside : linenum < length elided) where
  abbrev here : ℕ
  here = room_from (drop linenum elided) pos

  here_eq : here ≡ (length (get_or elided linenum []) - pos) + 1 + room (drop (suc linenum) elided)
  here_eq = ap (λ ls. room_from ls pos) (drop_at linenum elided inside)

  later_line : (linenum' pos' : ℕ) → linenum < linenum' → Below elided here (at linenum' pos')
  later_line linenum' pos' lt = omega (
    arith,
    here_eq,
    room_from-le (drop linenum' elided) pos',
    room-drop_le (suc linenum) linenum' elided (omega arith),
  )

  further_on :
      (pos' : ℕ)
      → pos < length (get_or elided linenum [])
      → pos < pos'
      → Below elided here (at linenum pos')
  further_on pos' lt le =
      omega (arith, here_eq, ap (λ ls. room_from ls pos') (drop_at linenum elided inside))

  after_close-Below :
      (q : ℕ) (o : Option Place)
      → pos < length (get_or elided linenum [])
      → pos ≤ q
      → FoundOnward linenum q o
      → Below elided here (after_close o)
  after_close-Below q none lt le h = tt
  after_close-Below q (some (line, linenum', none)) lt le h = tt
  after_close-Below q (some (line, linenum', some pos')) lt le (inl h) = later_line linenum' pos' h
  after_close-Below q (some (line, linenum', some pos')) lt le (inr (e, h)) =
      subst (λ n. Below elided here (at n pos')) e (further_on pos' lt (omega arith))

  argument_step-Below :
      (q token : ℕ)
      → pos < length (get_or elided linenum [])
      → pos < q
      → Below elided here (argument_step elided (get_or elided linenum []) linenum q token)
  unfolding argument_step
  argument_step-Below q token lt le =
      let P = Below elided here in
      let line = get_or elided linenum [] in
      if_holds P (token == b'{' || (token == b'}' || token == b';')) (answer false) _ (λ _. tt)
        (λ _.
          if_holds P
            (token == b'>'
              || (token == b'=' || (token == b'[' || (token == b']' || token == b'.'))))
            (answer true) _ (λ _. tt)
            (λ _.
              if_holds P (not (token == b'<')) _
                (after_close (close_expression elided linenum (q - 1)))
                (λ _.
                  if_holds P (leb (length line) (q + 1)) (at (linenum + 1) 0) (at linenum (q + 1))
                    (λ _. later_line (linenum + 1) 0 (omega arith))
                    (λ _. further_on (q + 1) lt (omega arith)))
                (λ _.
                  after_close-Below (q - 1) (close_expression elided linenum (q - 1)) lt
                    (omega arith) (close_expression-FoundOnward elided linenum (q - 1)))))

-- A token takes a character at least, and there is one.
token-width :
    (s : Text) (m : Found)
    → match template_token s ≡ some m
    → (0 < length (whole m)) × (0 < length s)
unfolding match template_token
token-width s m h =
    let start = cursor_at_start s in
    let (from, p) = match_at-some template_token start m h in
    let wide = Matches-width template_token start m.to p in
    let same = ap (λ (k : Cursor). length k.rest) from in
    (
      omega (arith, wide, same, length-take (length m.from.rest - length m.to.rest) m.from.rest),
      omega (arith, wide),
    )

by_match :
    (elided : List Text) (linenum pos : ℕ)
    → linenum < length elided
    → (o : Option Found) → match template_token (drop pos (get_or elided linenum [])) ≡ o
    → Below elided (room_from (drop linenum elided) pos) (elim o [
      | none ↦ at (linenum + 1) 0
      | some m ↦
          argument_step elided
            (get_or elided linenum [])
            linenum
            (pos + length (whole m))
            (head_or_zero (group_text 1 m))
    ])
by_match elided linenum pos inside none e =
    later_line elided linenum pos inside (linenum + 1) 0 (omega arith)
by_match elided linenum pos inside (some m) e =
    let (wide, more) = token-width (drop pos (get_or elided linenum [])) m e in
    argument_step-Below elided linenum pos inside (pos + length (whole m))
      (head_or_zero (group_text 1 m)) (omega (arith, length-drop pos (get_or elided linenum [])))
      (omega arith)

template_step-Below :
    (elided : List Text) (linenum pos : ℕ)
    → linenum < length elided
    → Below elided (room_from (drop linenum elided) pos) (template_step elided linenum pos)
unfolding template_step
template_step-Below elided linenum pos inside =
    by_match elided linenum pos inside (match template_token (drop pos (get_or elided linenum [])))
      refl

abbrev next_round : ℕ → List Text → Next → Option Bool
next_round fuel elided (answer b) = some b
next_round fuel elided (at linenum pos) = template_loop fuel elided linenum pos

template_loop-outside :
    (fuel : ℕ) (elided : List Text) (linenum pos : ℕ)
    → ltb linenum (length elided) ≡ false
    → template_loop (suc fuel) elided linenum pos ≡ some false
unfolding template_loop
template_loop-outside fuel elided linenum pos e = rw (e, template_loop) refl

template_loop-inside :
    (fuel : ℕ) (elided : List Text) (linenum pos : ℕ)
    → ltb linenum (length elided) ≡ true
    → template_loop (suc fuel) elided linenum pos
      ≡ next_round fuel elided (template_step elided linenum pos)
unfolding template_loop
template_loop-inside fuel elided linenum pos e =
    rw (e, template_loop) (by_next (template_step elided linenum pos))
  where
    by_next :
        (n : Next)
        → (elim n as (λ _. Option Bool) [
          | answer b ↦ some b
          | at linenum' pos' ↦ template_loop fuel elided linenum' pos'
        ])
          ≡ next_round fuel elided n
    by_next (answer b) = refl
    by_next (at linenum' pos') = refl

template_loop-enough :
    (f g : ℕ) (elided : List Text) (linenum pos : ℕ)
    → room_from (drop linenum elided) pos < f
    → room_from (drop linenum elided) pos < g
    → template_loop f elided linenum pos ≡ template_loop g elided linenum pos
template_loop-enough zero g elided linenum pos lf lg = absurd (omega arith)
template_loop-enough (suc f) zero elided linenum pos lf lg = absurd (omega arith)
template_loop-enough (suc f) (suc g) elided linenum pos lf lg =
    elim (Bool-cases (ltb linenum (length elided))) [
      | inr e ↦
          template_loop-outside f elided linenum pos e
          ∙ sym (template_loop-outside g elided linenum pos e)
      | inl e ↦
          template_loop-inside f elided linenum pos e
          ∙ (same_round (λ l p. template_loop-enough f g elided l p)
                (template_step elided linenum pos)
                (template_step-Below elided linenum pos (ltb→lt _ _ e))
              ∙ sym (template_loop-inside g elided linenum pos e))
    ]
  where
    same_round :
        ((l p : ℕ)
          → room_from (drop l elided) p < f
          → room_from (drop l elided) p < g
          → template_loop f elided l p ≡ template_loop g elided l p)
        → (n : Next) → Below elided (room_from (drop linenum elided) pos) n
        → next_round f elided n ≡ next_round g elided n
    same_round ih (answer b) h = refl
    same_round ih (at l p) h = ih l p (omega arith) (omega arith)

template_loop-some :
    (fuel : ℕ) (elided : List Text) (linenum pos : ℕ)
    → room_from (drop linenum elided) pos < fuel
    → (b : Bool) × (template_loop fuel elided linenum pos ≡ some b)
template_loop-some zero elided linenum pos enough = absurd (omega arith)
template_loop-some (suc fuel) elided linenum pos enough =
    elim (Bool-cases (ltb linenum (length elided))) [
      | inr e ↦ (false, template_loop-outside fuel elided linenum pos e)
      | inl e ↦
          let (b, same) =
            by_round (λ l p. template_loop-some fuel elided l p) (template_step elided linenum pos)
              (template_step-Below elided linenum pos (ltb→lt _ _ e)) in
          (b, template_loop-inside fuel elided linenum pos e ∙ same)
    ]
  where
    by_round :
        ((l p : ℕ)
          → room_from (drop l elided) p < fuel
          → (b : Bool) × (template_loop fuel elided l p ≡ some b))
        → (n : Next) → Below elided (room_from (drop linenum elided) pos) n
        → (b : Bool) × (next_round fuel elided n ≡ some b)
    by_round ih (answer b) h = (b, refl)
    by_round ih (at l p) h = ih l p (omega arith)

-- The loop of `InTemplateArgumentList` ends by its own tests from every line and position: with the
-- characters of the file, one more for each line and one more as fuel it has an answer, the same with any
-- more.
pub template_loop_lem :
    (elided : List Text) (linenum pos : ℕ)
    → (b : Bool) × ((k : ℕ) → template_loop (size elided + k) elided linenum pos ≡ some b)
template_loop_lem elided linenum pos =
    let enough : room_from (drop linenum elided) pos < size elided =
      omega (
        arith,
        room_from-le (drop linenum elided) pos,
        room-drop linenum elided,
        size-room elided,
      ) in
    let (b, e) = template_loop-some (size elided) elided linenum pos enough in
    (
      b,
      (λ k.
          template_loop-enough (size elided + k) (size elided) elided linenum pos (omega arith)
            enough
          ∙ e),
    )
