-- ===== src/LintFile/Carriage.antt =====
-- The ends of the lines that `ProcessFile` reads.
use csci.Paths.{strip_end}
use csci.Prelude.{
  zero, sym, ◌∙◌, Option, some, true, false, not, if◌then◌else◌, contains, nat_eq, get_elem?, ℕ,
  suc, ◌+◌, ◌≤◌, ◌<◌, ◌≡◌, refl, List, [], ◌∷◌, arith, Text, All, length, Bool-cases, inl, inr,
  ends_with,
}
use csci.LintFile.{LineEnds, strip_returns}

-- The numbers of lines, from one on.
abbrev pub InRange : ℕ → ℕ → List ℕ → Type 0
InRange low high = All (λ k. (low ≤ k) × (k < high))

InRange-weaken : (low high : ℕ) (ks : List ℕ) → InRange (suc low) high ks → InRange low high ks
InRange-weaken low high [] h = tt
InRange-weaken low high (k ∷ ks) (h, hs) = (omega arith, InRange-weaken low high ks hs)

-- The lengths and the ranges.
abbrev IsCounted : ℕ → ℕ → LineEnds → Type 0
IsCounted n more e =
    (length e.lines ≡ suc more)
    × (length e.lf_lines + length e.crlf_lines ≡ more)
    × InRange n (n + more) e.lf_lines
    × InRange n (n + more) e.crlf_lines

strip_returns-IsCounted :
    (n : ℕ) (line : Text) (lines : List Text)
    → IsCounted n (length lines) (strip_returns n (line ∷ lines))
unfolding strip_returns
strip_returns-IsCounted n line [] = (refl, refl, tt, tt)
strip_returns-IsCounted n line (next ∷ lines) =
    let (size, count, lf, crlf) = strip_returns-IsCounted (suc n) next lines in
    let high : suc n + length lines ≡ n + suc (length lines) = omega arith in
    let lf' = InRange-weaken n _ _ (rw high at lf) in
    let crlf' = InRange-weaken n _ _ (rw high at crlf) in
    elim (Bool-cases (ends_with line (13 ∷ []))) [
      | inl e ↦
          rw e (omega (arith, size), omega (arith, count), lf', ((omega arith, omega arith), crlf'))
      | inr e ↦
          rw e (omega (arith, size), omega (arith, count), ((omega arith, omega arith), lf'), crlf')
    ]

-- A number below a range does not stand in it, and another number in front changes nothing.
contains-below :
    (k low high : ℕ) (ks : List ℕ) → InRange low high ks → k < low → contains k ks ≡ false
contains-below k low high [] h lt = refl
contains-below k low high (x ∷ ks) (here, rest) lt =
    let ih = contains-below k low high ks rest lt in ground arith

contains-other : (k x : ℕ) (ks : List ℕ) → x < k → contains k (x ∷ ks) ≡ contains k ks
contains-other k x ks lt = ground arith

contains-here : (k : ℕ) (ks : List ℕ) → contains k (k ∷ ks) ≡ true
contains-here k ks = ground arith

-- Where a line with its number goes: the line that is kept, and which list has the number.
abbrev pub IsPlaced : ℕ → Text → Option Text → LineEnds → Type 0
IsPlaced k line kept e =
    (kept ≡ some (if ends_with line (13 ∷ []) then strip_end 13 line else line))
    × (contains k e.crlf_lines ≡ ends_with line (13 ∷ []))
    × (contains k e.lf_lines ≡ not (ends_with line (13 ∷ [])))

IsPlaced-at :
    (n i : ℕ) (line l : Text) (lines : List Text)
    → get_elem? (line ∷ lines) i ≡ some l
    → i < length lines
    → let e = strip_returns n (line ∷ lines) in IsPlaced (n + i) l (get_elem? e.lines i) e
unfolding strip_returns
IsPlaced-at n i line l [] at lt = absurd (omega arith)
IsPlaced-at n zero line l (next ∷ lines) at lt =
    let same : line ≡ l = cc in
    let (_, _, lf, crlf) = strip_returns-IsCounted (suc n) next lines in
    let no_lf = contains-below n (suc n) (suc n + length lines) _ lf (omega arith) in
    let no_crlf = contains-below n (suc n) (suc n + length lines) _ crlf (omega arith) in
    let zero_right : n + 0 ≡ n = omega arith in
    rw (sym same, zero_right)
      (elim (Bool-cases (ends_with line (13 ∷ []))) [
        | inl e ↦ rw e (refl, contains-here n _, no_lf)
        | inr e ↦ rw e (refl, no_crlf, contains-here n _)
      ])
IsPlaced-at n (suc i) line l (next ∷ lines) at lt =
    let (kept, crlf, lf) = IsPlaced-at (suc n) i next l lines at (omega arith) in
    let later : suc n + i ≡ n + suc i = omega arith in
    let crlf' = rw later at crlf in
    let lf' = rw later at lf in
    elim (Bool-cases (ends_with line (13 ∷ []))) [
      | inl e ↦ rw e (kept, contains-other (n + suc i) n _ (omega arith) ∙ crlf', lf')
      | inr e ↦ rw e (kept, crlf', contains-other (n + suc i) n _ (omega arith) ∙ lf')
    ]

last-kept :
    (n : ℕ) (line : Text) (lines : List Text)
    → get_elem? (strip_returns n (line ∷ lines)).lines (length lines)
      ≡ get_elem? (line ∷ lines) (length lines)
unfolding strip_returns
last-kept n line [] = refl
last-kept n line (next ∷ lines) = elim (Bool-cases (ends_with line (13 ∷ []))) [
  | inl e ↦ rw e (last-kept (suc n) next lines)
  | inr e ↦ rw e (last-kept (suc n) next lines)
]

-- The loop over the lines but the last: a line that ends in a carriage return loses those at its end and
-- has its number among the crlf_lines alone; every other one stays and has its number among the lf_lines
-- alone. The last line stays, and the two lists have no further numbers.
pub strip_returns_lem :
    (n i : ℕ) (line l : Text) (lines : List Text)
    → get_elem? (line ∷ lines) i ≡ some l
    → i < length lines
    → let e = strip_returns n (line ∷ lines) in
      IsPlaced (n + i) l (get_elem? e.lines i) e
      × (get_elem? e.lines (length lines) ≡ get_elem? (line ∷ lines) (length lines))
      × (length e.lines ≡ suc (length lines))
      × (length e.lf_lines + length e.crlf_lines ≡ length lines)
      × InRange n (n + length lines) e.lf_lines
      × InRange n (n + length lines) e.crlf_lines
strip_returns_lem n i line l lines at lt =
    let (size, count, lf, crlf) = strip_returns-IsCounted n line lines in
    (IsPlaced-at n i line l lines at lt, last-kept n line lines, size, count, lf, crlf)
