-- ===== src/Regex/Width.antt =====
-- How much of the text a match reads, and how long its groups can be.
use csci.Prelude.{
  ℕ, zero, suc, ◌+◌, ◌-◌, ◌≤◌, ◌≡◌, refl, ap, sym, ◌∙◌, subst, Bool, true, false, ◌||◌, List, [],
  ◌∷◌, Option, none, some, arith, Text, length, length-take, All, min, inl, inr, ◌==◌, Bool-cases,
}
use csci.Regex.{
  Regex, empty, one, seq, alt, star, lazy, group, followed_by, not_followed_by, not_after, at_start,
  at_end, boundary, Cursor, advance, capture, Found, group_in, group_text, match, cursor_at_start,
  search_in, found,
}
use csci.Regex.Search.{match_at-some, forward, search-IsLeftmost}
use csci.Regex.Meaning.{Rounds, done, more, Matches}

-- The least number of characters that a match reads.
abbrev pub min_width : Regex → ℕ
min_width (one p) = 1
min_width (seq r s) = min_width r + min_width s
min_width (alt r s) = min (min_width r) (min_width s)
min_width (group n r) = min_width r
min_width _ = 0

Rounds-width :
    {R : Cursor → Cursor → Type 0} (c d : Cursor) → Rounds R c d → length d.rest ≤ length c.rest
Rounds-width c d done = omega arith
Rounds-width c d (more {d = e} r lt rs) = omega (arith, Rounds-width e d rs)

pub Matches-width :
    (r : Regex) (c d : Cursor) → Matches r c d → min_width r + length d.rest ≤ length c.rest
Matches-width empty c d e = omega (arith, ap (λ (k : Cursor). length k.rest) e)
Matches-width (one p) c d (x, s, q, h, e) =
    omega (arith, ap length q, ap (λ (k : Cursor). length k.rest) e)
Matches-width (seq r s) c d (e, a, b) = omega (arith, Matches-width r c e a, Matches-width s e d b)
Matches-width (alt r s) c d (inl a) = omega (arith, Matches-width r c d a)
Matches-width (alt r s) c d (inr a) = omega (arith, Matches-width s c d a)
Matches-width (star r) c d rs = omega (arith, Rounds-width c d rs)
Matches-width (lazy r) c d rs = omega (arith, Rounds-width c d rs)
Matches-width (group n r) c d (e, a, q) =
    omega (arith, Matches-width r c e a, ap (λ (k : Cursor). length k.rest) q)
Matches-width (followed_by r) c d (_, e) = omega (arith, ap (λ (k : Cursor). length k.rest) e)
Matches-width (not_followed_by r) c d (_, e) = omega (arith, ap (λ (k : Cursor). length k.rest) e)
Matches-width (not_after p) c d (_, e) = omega (arith, ap (λ (k : Cursor). length k.rest) e)
Matches-width at_start c d (_, e) = omega (arith, ap (λ (k : Cursor). length k.rest) e)
Matches-width at_end c d (_, e) = omega (arith, ap (λ (k : Cursor). length k.rest) e)
Matches-width boundary c d (_, e) = omega (arith, ap (λ (k : Cursor). length k.rest) e)

-- Every group is at most so long.
abbrev pub AllBounded : ℕ → List (ℕ × Text) → Type 0
AllBounded n = All (λ g. length g.1 ≤ n)

same_groups : (n : ℕ) (c d : Cursor) → c ≡ d → AllBounded n c.groups → AllBounded n d.groups
same_groups n c d e h = subst (λ (k : Cursor). AllBounded n k.groups) e h

-- What a pattern keeps of the bound on the groups.
abbrev KeepsBound : (Cursor → Cursor → Type 0) → Type 0
KeepsBound R =
    (c d : Cursor) (n : ℕ)
    → R c d
    → length c.rest ≤ n
    → AllBounded n c.groups
    → AllBounded n d.groups

Rounds-KeepsBound : {R : Cursor → Cursor → Type 0} → KeepsBound R → KeepsBound (Rounds R)
Rounds-KeepsBound k c d n done le h = h
Rounds-KeepsBound k c d n (more {d = e} r lt rs) le h =
    Rounds-KeepsBound k e d n rs (omega arith) (k c e n r le h)

pub Matches-KeepsBound : (r : Regex) → KeepsBound (Matches r)
Matches-KeepsBound empty c d n e le h = same_groups n c d e h
Matches-KeepsBound (one p) c d n (x, s, q, _, e) le h = same_groups n (advance x s c) d e h
Matches-KeepsBound (seq r s) c d n (e, a, b) le h =
    Matches-KeepsBound s e d n b (omega (arith, Matches-width r c e a))
      (Matches-KeepsBound r c e n a le h)
Matches-KeepsBound (alt r s) c d n (inl a) le h = Matches-KeepsBound r c d n a le h
Matches-KeepsBound (alt r s) c d n (inr a) le h = Matches-KeepsBound s c d n a le h
Matches-KeepsBound (star r) c d n rs le h = Rounds-KeepsBound (Matches-KeepsBound r) c d n rs le h
Matches-KeepsBound (lazy r) c d n rs le h = Rounds-KeepsBound (Matches-KeepsBound r) c d n rs le h
Matches-KeepsBound (group j r) c d n (e, a, q) le h = same_groups n (capture j c e) d q (
  omega (arith, length-take (length c.rest - length e.rest) c.rest),
  Matches-KeepsBound r c e n a le h,
)
Matches-KeepsBound (followed_by r) c d n (_, e) le h = same_groups n c d e h
Matches-KeepsBound (not_followed_by r) c d n (_, e) le h = same_groups n c d e h
Matches-KeepsBound (not_after p) c d n (_, e) le h = same_groups n c d e h
Matches-KeepsBound at_start c d n (_, e) le h = same_groups n c d e h
Matches-KeepsBound at_end c d n (_, e) le h = same_groups n c d e h
Matches-KeepsBound boundary c d n (_, e) le h = same_groups n c d e h

group_in-bound :
    (j n : ℕ) (g : List (ℕ × Text))
    → AllBounded n g
    → length (elim (group_in j g) as (λ _. Text) [ none ↦ [] | some t ↦ t ]) ≤ n
unfolding group_in
group_in-bound j n [] h = omega arith
group_in-bound j n ((k, t) ∷ g) (b, h) = elim (Bool-cases (j == k)) [
  | inl e ↦ rw (e, group_in) b
  | inr e ↦ rw (e, group_in) (group_in-bound j n g h)
]

-- A group is no longer than the bound.
pub group_text-bound :
    (j n : ℕ) (m : Found) → AllBounded n m.to.groups → length (group_text j m) ≤ n
group_text-bound j n m h = group_in-bound j n m.to.groups h

-- The pattern has no group.
abbrev pub captures : Regex → Bool
captures (seq r s) = captures r || captures s
captures (alt r s) = captures r || captures s
captures (star r) = captures r
captures (lazy r) = captures r
captures (group n r) = true
captures _ = false

abbrev SameGroups : (Cursor → Cursor → Type 0) → Type 0
SameGroups R = (c d : Cursor) → R c d → d.groups ≡ c.groups

Rounds-SameGroups : {R : Cursor → Cursor → Type 0} → SameGroups R → SameGroups (Rounds R)
Rounds-SameGroups k c d done = refl
Rounds-SameGroups k c d (more {d = e} r lt rs) = Rounds-SameGroups k e d rs ∙ k c e r

groups_of_equal : (c d : Cursor) → c ≡ d → d.groups ≡ c.groups
groups_of_equal c d e = sym (ap (λ (k : Cursor). k.groups) e)

-- A pattern with no group leaves the groups as they are.
pub Matches-SameGroups : (r : Regex) → captures r ≡ false → SameGroups (Matches r)
Matches-SameGroups empty h c d e = groups_of_equal c d e
Matches-SameGroups (one p) h c d (x, s, q, _, e) = groups_of_equal (advance x s c) d e
Matches-SameGroups (seq r s) h c d (e, a, b) =
    Matches-SameGroups s (ground arith) e d b ∙ Matches-SameGroups r (ground arith) c e a
Matches-SameGroups (alt r s) h c d (inl a) = Matches-SameGroups r (ground arith) c d a
Matches-SameGroups (alt r s) h c d (inr a) = Matches-SameGroups s (ground arith) c d a
Matches-SameGroups (star r) h c d rs = Rounds-SameGroups (Matches-SameGroups r h) c d rs
Matches-SameGroups (lazy r) h c d rs = Rounds-SameGroups (Matches-SameGroups r h) c d rs
Matches-SameGroups (group j r) h c d m = absurd (cc)
Matches-SameGroups (followed_by r) h c d (_, e) = groups_of_equal c d e
Matches-SameGroups (not_followed_by r) h c d (_, e) = groups_of_equal c d e
Matches-SameGroups (not_after p) h c d (_, e) = groups_of_equal c d e
Matches-SameGroups at_start h c d (_, e) = groups_of_equal c d e
Matches-SameGroups at_end h c d (_, e) = groups_of_equal c d e
Matches-SameGroups boundary h c d (_, e) = groups_of_equal c d e

-- If a pattern begins with a part that has no group, then every group of a match is shorter than the
-- text by what that part reads.
group_text-seq :
    (r s : Regex) (c : Cursor) (m : Found) (j : ℕ)
    → captures r ≡ false
    → c.groups ≡ []
    → Matches (seq r s) c m.to
    → min_width r + length (group_text j m) ≤ length c.rest
group_text-seq r s c m j h q (e, a, b) =
    let n = length e.rest in
    let none_yet : e.groups ≡ [] = Matches-SameGroups r h c e a ∙ q in
    let bounded =
      Matches-KeepsBound s e m.to n b (omega arith) (subst (AllBounded n) (sym none_yet) tt) in
    omega (arith, Matches-width r c e a, group_text-bound j n m bounded)

-- The same for a pattern that is anchored and begins with two parts that have no group.
pub group_text-seq3 :
    (a b r s : Regex) (line : Text) (m : Found) (j : ℕ)
    → match (seq a (seq b (seq r s))) line ≡ some m
    → captures (seq a (seq b r)) ≡ false
    → min_width (seq a (seq b r)) + length (group_text j m) ≤ length line
unfolding match
group_text-seq3 a b r s line m j h k =
    let start = cursor_at_start line in
    let (_, (e1, p, (e2, q, (e3, u, v)))) = match_at-some (seq a (seq b (seq r s))) start m h in
    group_text-seq (seq a (seq b r)) s start m j k refl (e3, (e1, p, (e2, q, u)), v)

-- Every group of a match at the beginning of a text is at most as long as the text.
pub group_text-match :
    (r : Regex) (s : Text) (m : Found) (j : ℕ)
    → match r s ≡ some m
    → length (group_text j m) ≤ length s
unfolding match
group_text-match r s m j h =
    let start = cursor_at_start s in
    let (_, p) = match_at-some r start m h in
    group_text-bound j (length s) m (Matches-KeepsBound r start m.to (length s) p (omega arith) tt)

forward-rest : (i : ℕ) (before s : Text) → length (forward i before s).rest ≤ length s
forward-rest zero before s = omega arith
forward-rest (suc i) before [] = omega arith
forward-rest (suc i) before (x ∷ s) = omega (arith, forward-rest i (x ∷ before) s)

-- A text in which a search finds something is as long as the pattern is wide.
pub search-width : (r : Regex) (s : Text) → found (search_in r s) ≡ true → min_width r ≤ length s
search-width r s h = by_result (search_in r s) refl h
  where
    by_result : (o : Option Found) → search_in r s ≡ o → found o ≡ true → min_width r ≤ length s
    by_result none e h = cc
    by_result (some m) e h =
        let (i, _, q, p, _) = search-IsLeftmost r s m e in
        omega (
          arith,
          Matches-width r m.from m.to p,
          forward-rest i [] s,
          ap (λ (k : Cursor). length k.rest) q,
        )
