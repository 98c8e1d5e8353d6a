-- ===== src/Regex/Repeat.antt =====
-- A repeated character class: what it reads, and that it can read it.
use csci.Prelude.{
  ℕ, ◌-◌, ◌≡◌, refl, ap, sym, ◌∙◌, Bool, true, [], ◌∷◌, ◌++◌, arith, Text, length, length-append,
  take, All,
}
use csci.Regex.{one, Cursor, advance, between}
use csci.Regex.Meaning.{Rounds, done, more, Matches}

-- The cursors stand before and behind a text whose characters all pass the test.
abbrev pub Reads : (ℕ → Bool) → Cursor → Cursor → Type 0
Reads p c d = (s : Text) × (c.rest ≡ s ++ d.rest) × All (λ x. p x ≡ true) s × (d.groups ≡ c.groups)

pub Rounds-Reads : (p : ℕ → Bool) (c d : Cursor) → Rounds (Matches (one p)) c d → Reads p c d
Rounds-Reads p c d done = ([], refl, tt, refl)
Rounds-Reads p c d (more {d = e} (x, s, q, h, same) lt rs) =
    let (t, r, all, g) = Rounds-Reads p e d rs in
    let rest : s ≡ t ++ d.rest = ap (λ (k : Cursor). k.rest) same ∙ r in
    (x ∷ t, q ∙ ap (λ u. x ∷ u) rest, (h, all), g ∙ sym (ap (λ (k : Cursor). k.groups) same))

pub Reads-Rounds :
    (p : ℕ → Bool) (s rest : Text) (c : Cursor)
    → c.rest ≡ s ++ rest
    → All (λ x. p x ≡ true) s
    → (d : Cursor) × (d.rest ≡ rest) × Rounds (Matches (one p)) c d
Reads-Rounds p [] rest c q all = (c, q, done)
Reads-Rounds p (x ∷ s) rest c q (h, all) =
    let (d, r, rs) = Reads-Rounds p s rest (advance x (s ++ rest) c) refl all in
    (d, r, more (x, s ++ rest, q, h, refl) (omega (arith, ap length q)) rs)

take-append : (s t : Text) → take (length s) (s ++ t) ≡ s
take-append [] t = refl
take-append (x ∷ s) t = ap (λ u. x ∷ u) (take-append s t)

pub between-append : (s : Text) (c d : Cursor) → c.rest ≡ s ++ d.rest → between c d ≡ s
between-append s c d q =
    ap (λ t. take (length t - length d.rest) t) q
    ∙ (ap (λ n. take n (s ++ d.rest)) (omega (arith, length-append s d.rest))
        ∙ take-append s d.rest)
