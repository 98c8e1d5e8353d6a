-- ===== src/Constructs/Raises.antt =====
-- When `CheckForNonStandardConstructs` raises an error instead of reporting one.
use csci.Prelude.{
  ℕ, suc, subst, nat_eq, ◌<◌, ◌≡◌, refl, sym, ap, ◌∙◌, true, false, ◌==◌, ==_iff, List, [], ◌∷◌,
  some, none, Text, split_on, length, join, get_or, Bool-cases, inl, inr, arith,
}
use csci.Regex.{match, Found, group_text}
use csci.Cleanse.Lines.{CleansedLines}
use csci.Nesting.Block.{Block}
use csci.Nesting.State.{NestingState, innermost_class}
use csci.Constructs.Collapse.{occurrences, collapse_arguments}
use csci.Constructs.Joined.{comma_join, comma_join-cons, collapse_arguments-none}
use csci.Constructs.{
  base_classname, class_name, explicit_constructor, constructor_arguments, class_constructs,
  check_for_non_standard_constructs,
}

comma_join-letter :
    (c : ℕ) (w : Text) (ws : List Text) → comma_join ((c ∷ w) ∷ ws) ≡ c ∷ comma_join (w ∷ ws)
unfolding comma_join join
comma_join-letter c w [] = refl
comma_join-letter c w (v ∷ ws) = refl

-- A text is the pieces between its commas, of which there is at least one.
comma_join-split_on :
    (s : Text)
    → (w : Text) × (ws : List Text) × (split_on b',' s ≡ w ∷ ws) × (comma_join (w ∷ ws) ≡ s)
unfolding split_on comma_join join
comma_join-split_on [] = ([], [], refl, refl)
comma_join-split_on (c ∷ s) =
    let (w, ws, pieces, joined) = comma_join-split_on s in
    elim (Bool-cases (c == b',')) [
      | inl e ↦
          let comma = (==_iff c b',').0 e in
          (
            [],
            w ∷ ws,
            rw (pieces, e) refl,
            comma_join-cons [] w ws ∙ ap (λ t. b',' ∷ t) joined ∙ ap (λ x. x ∷ s) (sym comma),
          )
      | inr e ↦ (c ∷ w, ws, rw (pieces, e) refl, comma_join-letter c w ws ∙ ap (λ t. c ∷ t) joined)
    ]

arguments-none :
    (s : Text)
    → occurrences b'>' s < occurrences b'<' s
    → collapse_arguments (constructor_arguments s) ≡ none
unfolding occurrences
arguments-none [] h = absurd (omega arith)
arguments-none (c ∷ s) h =
    let (w, ws, pieces, joined) = comma_join-split_on (c ∷ s) in
    let filled : (suc (length s) == 0) ≡ false = ground arith in
    rw (filled, pieces)
      (collapse_arguments-none w ws
        (subst (λ t. occurrences b'>' t < occurrences b'<' t) (sym joined) h))

-- On a line of a class whose brace is open, a constructor with arguments that have more `<` than `>`
-- makes the check raise an IndexError behind its calls of `error` for the line alone.
pub check_for_non_standard_constructs-none :
    (s : NestingState) (clean_lines : CleansedLines) (linenum : ℕ) (b : Block) (m : Found)
    → innermost_class s.stack ≡ some b
    → b.seen_open_brace ≡ true
    → match
        (explicit_constructor (base_classname (class_name b.kind)))
        (get_or clean_lines.elided linenum [])
      ≡ some m
    → occurrences b'>' (group_text 2 m) < occurrences b'<' (group_text 2 m)
    → (check_for_non_standard_constructs s clean_lines linenum).1 ≡ none
unfolding check_for_non_standard_constructs class_constructs
check_for_non_standard_constructs-none s clean_lines linenum b m inner seen found angles =
    rw (inner, seen, found, arguments-none (group_text 2 m) angles) refl
