-- ===== src/Regex/Meaning.antt =====
-- What a pattern of the `re` subset matches, with no search order in it.
use csci.Prelude.{ℕ, ◌<◌, ◌≡◌, true, false, ◌⊎◌, [], ◌∷◌, Text, length}
use csci.Regex.{
  Regex, empty, one, seq, alt, star, lazy, group, followed_by, not_followed_by, not_after, at_start,
  at_end, boundary, Cursor, advance, capture, head_is, is_end, is_boundary,
}

-- Rounds that each read something.
pub data Rounds (R : Cursor → Cursor → Type 0) : Cursor → Cursor → Type 0 where
  done : {c : Cursor} → Rounds R c c
  more : {c d e : Cursor} → R c d → length d.rest < length c.rest → Rounds R d e → Rounds R c e

abbrev pub Matches : Regex → Cursor → Cursor → Type 0
Matches empty c d = c ≡ d
Matches (one p) c d = (x : ℕ) × (s : Text) × (c.rest ≡ x ∷ s) × (p x ≡ true) × (advance x s c ≡ d)
Matches (seq r s) c d = (e : Cursor) × Matches r c e × Matches s e d
Matches (alt r s) c d = Matches r c d ⊎ Matches s c d
Matches (star r) c d = Rounds (Matches r) c d
Matches (lazy r) c d = Rounds (Matches r) c d
Matches (group n r) c d = (e : Cursor) × Matches r c e × (capture n c e ≡ d)
Matches (followed_by r) c d = ((e : Cursor) × Matches r c e) × (c ≡ d)
Matches (not_followed_by r) c d = (¬ ((e : Cursor) × Matches r c e)) × (c ≡ d)
Matches (not_after p) c d = (head_is p c.before ≡ false) × (c ≡ d)
Matches at_start c d = (c.before ≡ []) × (c ≡ d)
Matches at_end c d = (is_end c.rest ≡ true) × (c ≡ d)
Matches boundary c d = (is_boundary c ≡ true) × (c ≡ d)
