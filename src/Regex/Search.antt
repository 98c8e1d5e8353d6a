-- ===== src/Regex/Search.antt =====
-- `Match` and `Search` of scripts/cpplint.py against the meaning of their pattern.
use csci.Prelude.{
  ℕ, zero, suc, ◌≤◌, ◌<◌, ◌≡◌, refl, true, ◌↔◌, inl, inr, [], ◌∷◌, Option, none, some, arith, Text,
  length, Option-cases,
}
use csci.Regex.{
  Regex, Cursor, cursor_at_start, Found, match_at, match, search_from, search_in, found,
}
use csci.Regex.Meaning.{Matches}
use csci.Regex.Correct.{run_correct, either_sound, either_none}

-- The position behind `i` more characters of the text, or its end.
abbrev pub forward : ℕ → Text → Text → Cursor
forward zero before s = record { before = before; rest = s; groups = [] }
forward (suc i) before [] = record { before = before; rest = []; groups = [] }
forward (suc i) before (x ∷ s) = forward i (x ∷ before) s

abbrev pub position : Text → ℕ → Cursor
position s i = forward i [] s

abbrev pub MatchesAt : Regex → Cursor → Type 0
MatchesAt r c = (d : Cursor) × Matches r c d

pub match_at-some :
    (r : Regex) (c : Cursor) (m : Found) → match_at r c ≡ some m → (m.from ≡ c) × Matches r c m.to
unfolding match_at
match_at-some r c m h =
    let (d, p, e) = (run_correct r).0 c (λ d. some (record { from = c; to = d })) m h in
    (cc, rw (e_to d e) at p)
  where
    e_to :
        (d : Cursor)
        → ◌≡◌ {A = Option Found} (some (record { from = c; to = d })) (some m)
        → d ≡ m.to
    e_to d e = cc

pub match_at-none : (r : Regex) (c : Cursor) → match_at r c ≡ none → ¬ MatchesAt r c
unfolding match_at
match_at-none r c h (d, p) = (run_correct r).1 c (λ d. some (make d)) d p (λ q. cc q) h
  where
    make : Cursor → Found
    make d = record { from = c; to = d }

-- `Match(pattern, s)` succeeds exactly if the pattern matches at the beginning of the text.
pub match_iff :
    (r : Regex) (s : Text) → (found (match r s) ≡ true) ↔ MatchesAt r (cursor_at_start s)
unfolding match
match_iff r s = elim (Option-cases (match_at r (cursor_at_start s))) [
  | inl e ↦ rw e ((λ h. cc), λ p. absurd (match_at-none r (cursor_at_start s) e p))
  | inr (m, e) ↦
      let (q, p) = match_at-some r (cursor_at_start s) m e in rw e ((λ h. (m.to, p)), λ p. refl)
]

-- The match that a search returns stands at the first position where there is one.
abbrev pub IsLeftmost : Regex → Text → Text → Found → Type 0
IsLeftmost r before s m =
    (i : ℕ) × (i ≤ length s)
    × (m.from ≡ forward i before s)
    × Matches r m.from m.to
    × ((j : ℕ) → j < i → ¬ MatchesAt r (forward j before s))

search_from-some :
    (r : Regex) (before s : Text) (m : Found)
    → search_from r before s ≡ some m
    → IsLeftmost r before s m
unfolding search_from
search_from-some r before [] m h =
    let (q, p) = match_at-some r (forward 0 before []) m h in
    (0, omega arith, q, rw q p, λ j lt. absurd (omega arith))
search_from-some r before (x ∷ s) m h =
    elim (either_sound (match_at r (forward 0 before (x ∷ s))) (search_from r (x ∷ before) s) m h) [
      | inl e ↦
          let (q, p) = match_at-some r (forward 0 before (x ∷ s)) m e in
          (0, omega arith, q, rw q p, λ j lt. absurd (omega arith))
      | inr (e, g) ↦
          let (i, le, q, p, first) = search_from-some r (x ∷ before) s m g in
          (suc i, omega arith, q, p, not_before e first)
    ]
  where
    not_before :
        {i : ℕ}
        → match_at r (forward 0 before (x ∷ s)) ≡ none
        → ((j : ℕ) → j < i → ¬ MatchesAt r (forward j (x ∷ before) s))
        → (j : ℕ) → j < suc i
        → ¬ MatchesAt r (forward j before (x ∷ s))
    not_before e first zero lt = match_at-none r (forward 0 before (x ∷ s)) e
    not_before e first (suc j) lt = first j (omega arith)

search_from-none :
    (r : Regex) (before s : Text)
    → search_from r before s ≡ none
    → (i : ℕ) → ¬ MatchesAt r (forward i before s)
unfolding search_from
search_from-none r before [] h zero = match_at-none r (forward 0 before []) h
search_from-none r before [] h (suc i) = match_at-none r (forward 0 before []) h
search_from-none r before (x ∷ s) h zero =
    match_at-none r (forward 0 before (x ∷ s))
      (either_none (match_at r (forward 0 before (x ∷ s))) (search_from r (x ∷ before) s) h).0
search_from-none r before (x ∷ s) h (suc i) =
    search_from-none r (x ∷ before) s
      (either_none (match_at r (forward 0 before (x ∷ s))) (search_from r (x ∷ before) s) h).1 i

-- What a search returns is a match of the pattern, at the first position where there is one.
pub search-IsLeftmost :
    (r : Regex) (s : Text) (m : Found) → search_in r s ≡ some m → IsLeftmost r [] s m
unfolding search_in
search-IsLeftmost r s m h = search_from-some r [] s m h

-- A search that returns nothing has no match at any position of the text.
pub search-none :
    (r : Regex) (s : Text) → search_in r s ≡ none → (i : ℕ) → ¬ MatchesAt r (position s i)
unfolding search_in
search-none r s h = search_from-none r [] s h
