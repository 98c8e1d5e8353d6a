-- ===== src/Paths/Shorter.antt =====
-- A directory is shorter than what stands in it: the measure of the loops that go up a path.
use csci.Prelude.{
  ℕ, ◌≤◌, ◌<◌, ◌≡◌, ◌≢◌, refl, ap, ◌∙◌, ◌⊎◌, inl, inr, [], ◌∷◌, ◌++◌, some, arith, Text, length,
  length-append, Option-cases,
}
use csci.Paths.{split_last, strip_end, or_else, without_slashes, split, dirname}

-- What `split_last` finds makes up the text.
pub split_last_lem : (c : ℕ) (s : Text) {a b : Text} → split_last c s ≡ some (a, b) → s ≡ a ++ c ∷ b
unfolding split_last
split_last_lem c [] h = cc
split_last_lem c (x ∷ s) h = elim (Option-cases (split_last c s)) [
  | inl e ↦ ground arith
  | inr ((a', b'), e) ↦ let ih = split_last_lem c s e in ground (arith, ih)
]

strip_end-le : (c : ℕ) (s : Text) → length (strip_end c s) ≤ length s
unfolding strip_end
strip_end-le c [] = omega arith
strip_end-le c (x ∷ s) = ground (arith, strip_end-le c s)

strip_end-append : (c : ℕ) (a : Text) → length (strip_end c (a ++ c ∷ [])) ≤ length a
unfolding strip_end
strip_end-append c [] = ground arith
strip_end-append c (x ∷ a) = ground (arith, strip_end-append c a)

or_else_either : (s t : Text) → (or_else s t ≡ t) ⊎ (or_else s t ≡ s)
or_else_either [] t = inl refl
or_else_either (c ∷ s) t = inr refl

-- The slash at the end is all that a head keeps or loses.
without_slashes_either :
    (a : Text)
    → (without_slashes (a ++ b'/' ∷ []) ≡ a ++ b'/' ∷ [])
      ⊎ (length (without_slashes (a ++ b'/' ∷ [])) ≤ length a)
without_slashes_either a =
    elim (or_else_either (strip_end b'/' (a ++ b'/' ∷ [])) (a ++ b'/' ∷ [])) [
      | inl e ↦ inl e
      | inr e ↦ inr (rw e (strip_end-append b'/' a))
    ]

-- The directory of a path with a name is shorter than the path.
pub split_shorter : (p : Text) → (split p).1 ≢ [] → length (split p).0 < length p
unfolding split
split_shorter p h = elim (Option-cases (split_last b'/' p)) [
  | inl e ↦ rw e (ground arith)
  | inr ((a, b), e) ↦ rw e (within a b (split_last_lem b'/' p e) (rw e at h))
]
  where
    within :
        (a b : Text)
        → p ≡ a ++ b'/' ∷ b
        → b ≢ []
        → length (without_slashes (a ++ b'/' ∷ [])) < length p
    within a b e named =
        let parts = ap length e ∙ length-append a (b'/' ∷ b) in
        elim (without_slashes_either a) [
          | inl kept ↦ ground (arith, length-append a (b'/' ∷ []))
          | inr less ↦ omega (arith, parts)
        ]

-- A path is its own directory, or its directory is shorter.
pub dirname_shorter : (p : Text) → (dirname p ≡ p) ⊎ (length (dirname p) < length p)
unfolding split
dirname_shorter p = elim (Option-cases (split_last b'/' p)) [
  | inl e ↦ rw (e, dirname) (of_name p)
  | inr ((a, b), e) ↦ rw (e, dirname) (within a b (split_last_lem b'/' p e))
]
  where
    of_name : (s : Text) → ([] ≡ s) ⊎ (0 < length s)
    of_name [] = inl refl
    of_name (c ∷ s) = inr (omega arith)

    within :
        (a b : Text)
        → p ≡ a ++ b'/' ∷ b
        → (without_slashes (a ++ b'/' ∷ []) ≡ p)
          ⊎ (length (without_slashes (a ++ b'/' ∷ [])) < length p)
    within a [] e = elim (without_slashes_either a) [
      | inl kept ↦ inl (cc)
      | inr less ↦ inr (omega (arith, ap length e ∙ length-append a (b'/' ∷ [])))
    ]
    within a (c ∷ b) e =
        let parts = ap length e ∙ length-append a (b'/' ∷ c ∷ b) in
        elim (without_slashes_either a) [
          | inl kept ↦ inr (omega (arith, parts, ap length kept ∙ length-append a (b'/' ∷ [])))
          | inr less ↦ inr (omega (arith, parts))
        ]
