-- ===== src/Nesting/Tokens.antt =====
-- What the pattern of the brace loop finds in a line: the first brace, semicolon or closing
-- parenthesis, and the rest of the line.
use csci.Prelude.{
  ℕ, ◌≡◌, refl, ap, sym, ◌∙◌, true, not, List, [], ◌∷◌, ◌++◌, append-nil, subst, ap₂, ◌⊎◌, inl, inr,
  none, some, arith, Text, ◌==◌, All, Bool-cases,
}
use csci.Regex.{
  Cursor, cursor_at_start, advance, capture, is_end, Found, match, group_text, group_in,
}
use csci.Regex.Search.{MatchesAt, match_at-some, match_at-none}
use csci.Regex.Repeat.{Rounds-Reads, Reads-Rounds, between-append}
use csci.Nesting.Braces.{is_token, token_pattern}

-- A line of a file has no line break in it.
abbrev pub IsOneLine : Text → Type 0
IsOneLine = All (λ x. not (x == 10) ≡ true)

abbrev pub NoToken : Text → Type 0
NoToken = All (λ x. not (is_token x) ≡ true)

-- The first token of the line, with what stands before and behind it.
abbrev pub FirstToken : Text → Text → ℕ → Text → Type 0
FirstToken line before t rest = (line ≡ before ++ t ∷ rest) × NoToken before × (is_token t ≡ true)

pub Token-cases :
    (line : Text)
    → NoToken line ⊎ ((before : Text) × (t : ℕ) × (rest : Text) × FirstToken line before t rest)
Token-cases [] = inl tt
Token-cases (x ∷ line) = elim (Bool-cases (is_token x)) [
  | inl e ↦ inr ([], x, line, (refl, tt, e))
  | inr e ↦ elim (Token-cases line) [
    | inl h ↦ inl (rw e refl, h)
    | inr (before, t, rest, (q, h, k)) ↦
        inr (x ∷ before, t, rest, (ap (λ u. x ∷ u) q, (rw e refl, h), k))
  ]
]

IsOneLine-end : (s : Text) → IsOneLine s → is_end s ≡ true → s ≡ []
IsOneLine-end [] h e = refl
IsOneLine-end (x ∷ []) (h, _) e = absurd (ground arith)
IsOneLine-end (x ∷ y ∷ s) h e = cc

pub IsOneLine-rest :
    (before : Text) (t : ℕ) (rest : Text) → IsOneLine (before ++ t ∷ rest) → IsOneLine rest
IsOneLine-rest [] t rest (_, h) = h
IsOneLine-rest (x ∷ before) t rest (_, h) = IsOneLine-rest before t rest h

FirstToken-MatchesAt :
    (line before : Text) (t : ℕ) (rest : Text)
    → IsOneLine line
    → FirstToken line before t rest
    → MatchesAt token_pattern (cursor_at_start line)
unfolding token_pattern
FirstToken-MatchesAt line before t rest one_line (q, h, k) =
    let start = cursor_at_start line in
    let (c, r, rs) = Reads-Rounds (λ x. not (is_token x)) before (t ∷ rest) start q h in
    let behind = capture 1 c (advance t rest c) in
    let (d, r', rs') =
      Reads-Rounds (λ x. not (x == 10)) rest [] behind (sym (append-nil rest))
        (IsOneLine-rest before t rest (subst IsOneLine q one_line)) in
    (
      capture 2 behind d,
      (
        start,
        (refl, refl),
        (
          c,
          rs,
          (
            behind,
            (advance t rest c, (t, rest, r, k, refl), refl),
            (capture 2 behind d, (d, rs', refl), (ap is_end r', refl)),
          ),
        ),
      ),
    )

-- If the pattern does not match, the line has no token.
pub match-NoToken : (line : Text) → IsOneLine line → match token_pattern line ≡ none → NoToken line
unfolding match
match-NoToken line one_line h = elim (Token-cases line) [
  | inl n ↦ n
  | inr (before, t, rest, f) ↦ absurd (
      match_at-none token_pattern (cursor_at_start line) h
        (FirstToken-MatchesAt line before t rest one_line f))
]

-- The token and the rest, as the groups of a match.
abbrev pub TokenFound : Text → Found → Type 0
TokenFound line m =
    (before : Text) × (t : ℕ) × (rest : Text) × FirstToken line before t rest
    × (group_text 1 m ≡ t ∷ [])
    × (group_text 2 m ≡ rest)

groups_of :
    (m : Found) (t rest : Text)
    → m.to.groups ≡ (2, rest) ∷ (1, t) ∷ []
    → (group_text 1 m ≡ t) × (group_text 2 m ≡ rest)
unfolding group_in
groups_of m t rest e = rw e (refl, refl)

IsOneLine-right : (s t : Text) → IsOneLine (s ++ t) → IsOneLine t
IsOneLine-right [] t h = h
IsOneLine-right (x ∷ s) t (_, h) = IsOneLine-right s t h

-- What stands between a token and the end of the line, and the groups there.
module _ (c after behind d found_end : Cursor) (t : ℕ) (s : Text) (token : c.rest ≡ t ∷ s)
    (read : advance t s c ≡ after) (first : capture 1 c after ≡ behind)
    (second : capture 2 behind d ≡ found_end) where
  rest_after : after.rest ≡ s
  rest_after = sym (ap (λ (k : Cursor). k.rest) read)

  rest_behind : behind.rest ≡ s
  rest_behind = sym (ap (λ (k : Cursor). k.rest) first) ∙ rest_after

  end_of_line :
      (rest : Text)
      → behind.rest ≡ rest ++ d.rest
      → IsOneLine s
      → is_end found_end.rest ≡ true
      → rest ≡ s
  end_of_line rest q one_line e =
      let all : s ≡ rest ++ d.rest = sym rest_behind ∙ q in
      let nil : d.rest ≡ [] =
        IsOneLine-end d.rest (IsOneLine-right rest d.rest (subst IsOneLine all one_line))
          (ap (λ (k : Cursor). is_end k.rest) second ∙ e) in
      sym (all ∙ (ap (λ u. rest ++ u) nil ∙ append-nil rest))

  groups_at_end :
      (rest : Text)
      → behind.rest ≡ rest ++ d.rest
      → d.groups ≡ behind.groups
      → c.groups ≡ []
      → found_end.groups ≡ (2, rest) ∷ (1, t ∷ []) ∷ []
  groups_at_end rest q g none_before =
      let inner : behind.groups ≡ (1, t ∷ []) ∷ [] =
        sym (ap (λ (k : Cursor). k.groups) first)
        ∙ ap₂ (λ u (v : List (ℕ × Text)). (1, u) ∷ v)
            (between-append (t ∷ []) c after (token ∙ ap (λ u. t ∷ u) (sym rest_after)))
            (sym (ap (λ (k : Cursor). k.groups) read) ∙ none_before) in
      sym (ap (λ (k : Cursor). k.groups) second)
      ∙ ap₂ (λ u (v : List (ℕ × Text)). (2, u) ∷ v) (between-append rest behind d q) (g ∙ inner)

-- A match finds the first token.
pub match-TokenFound :
    (line : Text) (m : Found)
    → IsOneLine line
    → match token_pattern line ≡ some m
    → TokenFound line m
unfolding match token_pattern
match-TokenFound line m one_line h =
    let (_, p) = match_at-some token_pattern (cursor_at_start line) m h in
    let (
      start,
      (_, here),
      (
        c,
        rs,
        (behind, (after, (t, s, token, k, read), first_group), (d2, (d, rs', second), (fin, last))),
      ),
    ) =
      p in
    let (before, q, none_before, g) = Rounds-Reads (λ x. not (is_token x)) start c rs in
    let (rest, q', _, g') = Rounds-Reads (λ x. not (x == 10)) behind d rs' in
    let split : line ≡ before ++ t ∷ s =
      ap (λ (k : Cursor). k.rest) here ∙ (q ∙ ap (λ u. before ++ u) token) in
    let same =
      end_of_line c after behind d d2 t s token read first_group second rest q'
        (IsOneLine-rest before t s (subst IsOneLine split one_line)) fin in
    let (g1, g2) = groups_of m (t ∷ []) rest (
      sym (ap (λ (k : Cursor). k.groups) last)
      ∙ groups_at_end c after behind d d2 t s token read first_group second rest q' g'
          (g ∙ sym (ap (λ (k : Cursor). k.groups) here))) in
    (before, t, s, (split, none_before, k), g1, g2 ∙ same)
