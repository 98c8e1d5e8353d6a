-- ===== src/Cleanse/Strings/Ends.antt =====
-- The loop of `_CollapseStrings` ends.
use csci.Prelude.{
  ℕ, zero, suc, ◌+◌, ◌-◌, ◌≤◌, ◌<◌, ◌≡◌, refl, ap, sym, ◌∙◌, Bool, true, false, [], ◌∷◌, ◌++◌,
  Option, none, some, arith, Text, text, text_eq, length, length-append, length-take, length-drop,
  drop, find, replace, Option-cases, inl, inr, if◌then◌else◌, not, ◌||◌, ◌==◌,
}
use csci.Regex.{
  Cursor, cursor_at_start, between, Found, match, search_in, found, group_text, group_in,
}
use csci.Regex.Search.{match_at-some}
use csci.Regex.Repeat.{Rounds-Reads, between-append}
use csci.Regex.Width.{search-width, group_text-match}
use csci.Cleanse.Strings.{
  first_quote, digits_at_end, literal_with_separators, collapse_step, collapse,
}

groups_of_quote :
    (m : Found) (t u v : Text)
    → m.to.groups ≡ (3, v) ∷ (2, u) ∷ (1, t) ∷ []
    → (group_text 1 m ≡ t) × (group_text 3 m ≡ v)
unfolding group_in
groups_of_quote m t u v e = rw e (refl, refl)

-- The head, the quote and the tail stand one behind the other in the text.
first_quote-width :
    (s : Text) (m : Found)
    → match first_quote s ≡ some m
    → length (group_text 1 m) + 1 + length (group_text 3 m) ≤ length s
unfolding match first_quote
first_quote-width s m h =
    let (
      _,
      (
        e1,
        (_, here),
        (e2, (c, rs, cap1), (e3, (c', (x, t, q, _, read), cap2), (e4, (d, rs', cap3), (_, last)))),
      ),
    ) =
      match_at-some first_quote (cursor_at_start s) m h in
    let (head, split, _, g) = Rounds-Reads (λ c. not (c == b'\'' || c == b'"')) e1 c rs in
    let (_, _, _, g') = Rounds-Reads (λ x. not (x == 10)) e3 d rs' in
    let groups : m.to.groups ≡ (3, between e3 d) ∷ (2, between e2 c') ∷ (1, between e1 c) ∷ [] =
      sym (ap (λ (k : Cursor). k.groups) last)
      ∙ (sym (ap (λ (k : Cursor). k.groups) cap3)
          ∙ ap (λ gs. (3, between e3 d) ∷ gs)
              (g'
                ∙ (sym (ap (λ (k : Cursor). k.groups) cap2)
                    ∙ ap (λ gs. (2, between e2 c') ∷ gs)
                        (sym (ap (λ (k : Cursor). k.groups) read)
                          ∙ (sym (ap (λ (k : Cursor). k.groups) cap1)
                              ∙ ap (λ gs. (1, between e1 c) ∷ gs)
                                  (g ∙ sym (ap (λ (k : Cursor). k.groups) here))))))) in
    let (g1, g3) = groups_of_quote m (between e1 c) (between e2 c') (between e3 d) groups in
    omega (
      arith,
      ap length g1,
      ap length g3,
      ap length (between-append head e1 c split),
      length-take (length e3.rest - length d.rest) e3.rest,
      ap (λ (k : Cursor). length k.rest) here,
      ap length split,
      length-append {0} head c.rest,
      ap (λ (k : Cursor). length k.rest) cap1,
      ap length q,
      ap (λ (k : Cursor). length k.rest) read,
      ap (λ (k : Cursor). length k.rest) cap2,
    )

digits-width : (s : Text) → found (search_in digits_at_end s) ≡ true → 1 ≤ length s
unfolding digits_at_end text
digits-width s h = search-width digits_at_end s h

-- `collapse_step`, with the results that it branches on as arguments.
abbrev choose :
    Text → Text → Text → Bool → Bool → Option ℕ → Option Found → Option ℕ → Text × Option Text
choose elided head tail double number second literal single =
    if double
    then elim second as (λ _. Text × Option Text) [
      | some i ↦ (head ++ text "\"\"", some (drop (i + 1) tail))
      | none ↦ (elided, none)
    ]
    else if number
    then elim literal as (λ _. Text × Option Text) [
      | some l ↦ (head ++ replace (group_text 1 l) (text "'") [], some (group_text 2 l))
      | none ↦ (head, some (text "'" ++ tail))
    ]
    else elim single as (λ _. Text × Option Text) [
      | some i ↦ (head ++ text "''", some (drop (i + 1) tail))
      | none ↦ (elided, none)
    ]

-- What is left is shorter than the text.
abbrev Shorter : Text → Option Text → Type 0
Shorter elided none = Unit
Shorter elided (some rest) = length rest < length elided

choose-Shorter :
    (elided head tail : Text) (double number : Bool) (second : Option ℕ) (literal : Option Found)
    (single : Option ℕ)
    → length head + 1 + length tail ≤ length elided
    → (number ≡ true → 1 ≤ length head)
    → ((l : Found) → literal ≡ some l → length (group_text 2 l) ≤ 1 + length tail)
    → Shorter elided (choose elided head tail double number second literal single).1
unfolding text
choose-Shorter elided head tail true number (some i) literal single w n l =
    omega (arith, length-drop (i + 1) tail)
choose-Shorter elided head tail true number none literal single w n l = tt
choose-Shorter elided head tail false true second (some m) single w n l =
    omega (arith, n refl, l m refl)
choose-Shorter elided head tail false true second none single w n l = omega (arith, n refl)
choose-Shorter elided head tail false false second literal (some i) w n l =
    omega (arith, length-drop (i + 1) tail)
choose-Shorter elided head tail false false second literal none w n l = tt

step-Shorter :
    (elided : Text) (m : Found)
    → match first_quote elided ≡ some m
    → Shorter elided (collapse_step elided m).1
unfolding collapse_step text
step-Shorter elided m h =
    let head = group_text 1 m in
    let tail = group_text 3 m in
    choose-Shorter elided head tail (text_eq (group_text 2 m) (text "\""))
      (found (search_in digits_at_end head)) (find tail (text "\""))
      (match literal_with_separators (text "'" ++ tail)) (find tail (text "'"))
      (first_quote-width elided m h) (digits-width head)
      (λ l e. omega (arith, group_text-match literal_with_separators (text "'" ++ tail) l 2 e))

-- What a round does behind its step.
abbrev next_round : ℕ → Text → Text × Option Text → Text
next_round fuel collapsed step = elim step.1 as (λ _. Text) [
  | none ↦ collapsed ++ step.0
  | some rest ↦ collapse fuel rest (collapsed ++ step.0)
]

collapse-none :
    (fuel : ℕ) (elided collapsed : Text)
    → match first_quote elided ≡ none
    → collapse (suc fuel) elided collapsed ≡ collapsed ++ elided
unfolding collapse
collapse-none fuel elided collapsed e = rw (e, collapse) refl

collapse-some :
    (fuel : ℕ) (elided collapsed : Text) (m : Found)
    → match first_quote elided ≡ some m
    → collapse (suc fuel) elided collapsed ≡ next_round fuel collapsed (collapse_step elided m)
unfolding collapse
collapse-some fuel elided collapsed m e = rw (e, collapse) refl

collapse-enough :
    (f g : ℕ) (elided collapsed : Text)
    → length elided < f
    → length elided < g
    → collapse f elided collapsed ≡ collapse g elided collapsed
collapse-enough zero g elided collapsed lf lg = absurd (omega arith)
collapse-enough (suc f) zero elided collapsed lf lg = absurd (omega arith)
collapse-enough (suc f) (suc g) elided collapsed lf lg =
    elim (Option-cases (match first_quote elided)) [
      | inl e ↦ collapse-none f elided collapsed e ∙ sym (collapse-none g elided collapsed e)
      | inr (m, e) ↦
          collapse-some f elided collapsed m e
          ∙ (same_next (λ rest out. collapse-enough f g rest out) (collapse_step elided m)
                (step-Shorter elided m e)
              ∙ sym (collapse-some g elided collapsed m e))
    ]
  where
    same_next :
        ((rest out : Text)
          → length rest < f
          → length rest < g
          → collapse f rest out ≡ collapse g rest out)
        → (step : Text × Option Text) → Shorter elided step.1
        → next_round f collapsed step ≡ next_round g collapsed step
    same_next ih (out, none) h = refl
    same_next ih (out, some rest) h = ih rest (collapsed ++ out) (omega arith) (omega arith)

-- The loop of `_CollapseStrings` ends by its own tests on every text: the length of the text and one more
-- is fuel enough, and more fuel changes nothing.
pub collapse_lem :
    (elided collapsed : Text) (k : ℕ)
    → collapse (length elided + 1 + k) elided collapsed
      ≡ collapse (length elided + 1) elided collapsed
collapse_lem elided collapsed k =
    collapse-enough (length elided + 1 + k) (length elided + 1) elided collapsed (omega arith)
      (omega arith)
