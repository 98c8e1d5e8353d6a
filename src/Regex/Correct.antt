-- ===== src/Regex/Correct.antt =====
-- The backtracking matcher finds a match exactly where the pattern has one.
use csci.Prelude.{
  ℕ, zero, suc, ◌≤◌, ◌≡◌, ◌≢◌, refl, Bool, true, false, inl, inr, ◌⊎◌, [], ◌∷◌, Option, none, some,
  arith, Text, length, ltb, ltb→lt, lt→ltb,
}
use csci.Regex.{
  Regex, empty, one, seq, alt, star, lazy, group, followed_by, not_followed_by, not_after, at_start,
  at_end, boundary, Cursor, advance, capture, head_is, is_end, is_boundary, step_one, rounds,
  lazy_rounds, run,
}
use csci.Regex.Meaning.{Rounds, done, more, Matches}

module _ {A : Type 0} where
  some_ne_none : {o : Option A} {a : A} → o ≡ some a → o ≢ none
  some_ne_none p q = cc

  ne_none : (o : Option A) → o ≢ none → (a : A) × (o ≡ some a)
  ne_none none h = absurd (h refl)
  ne_none (some a) h = (a, refl)

  abbrev pub Sound : (Cursor → Cursor → Type 0) → (Cursor → (Cursor → Option A) → Option A) → Type 0
  Sound R m =
      (c : Cursor) (k : Cursor → Option A) (a : A)
      → m c k ≡ some a
      → (d : Cursor) × R c d × (k d ≡ some a)

  abbrev pub Complete :
      (Cursor → Cursor → Type 0) → (Cursor → (Cursor → Option A) → Option A) → Type 0
  Complete R m =
      (c : Cursor) (k : Cursor → Option A) (d : Cursor) → R c d → k d ≢ none → m c k ≢ none

  guarded_sound :
      (b : Bool) (o : Option A) (a : A)
      → ◌≡◌ {A = Option A} (elim b [ true ↦ o | false ↦ none ]) (some a)
      → (b ≡ true) × (o ≡ some a)
  guarded_sound true o a h = (refl, h)
  guarded_sound false o a h = cc

  guarded_complete :
      (b : Bool) (o : Option A)
      → b ≡ true
      → o ≢ none
      → ◌≢◌ {A = Option A} (elim b [ true ↦ o | false ↦ none ]) none
  guarded_complete true o e h = h
  guarded_complete false o e h = cc

  pub either_sound :
      (o p : Option A) (a : A)
      → ◌≡◌ {A = Option A} (elim o [ some b ↦ some b | none ↦ p ]) (some a)
      → (o ≡ some a) ⊎ ((o ≡ none) × (p ≡ some a))
  either_sound none p a h = inr (refl, h)
  either_sound (some b) p a h = inl h

  pub either_none :
      (o p : Option A)
      → ◌≡◌ {A = Option A} (elim o [ some b ↦ some b | none ↦ p ]) none
      → (o ≡ none) × (p ≡ none)
  either_none none p h = (refl, h)
  either_none (some b) p h = cc

  either_left :
      (o p : Option A) → o ≢ none → ◌≢◌ {A = Option A} (elim o [ some b ↦ some b | none ↦ p ]) none
  either_left none p h = absurd (h refl)
  either_left (some b) p h = cc

  either_right :
      (o p : Option A) → p ≢ none → ◌≢◌ {A = Option A} (elim o [ some b ↦ some b | none ↦ p ]) none
  either_right none p h = h
  either_right (some b) p h = cc

  module _ (R : Cursor → Cursor → Type 0) (m : Cursor → (Cursor → Option A) → Option A) where
    rounds-Sound : Sound R m → (n : ℕ) → Sound (Rounds R) (rounds m n)
    unfolding rounds
    rounds-Sound hs zero c k a h = (c, done, h)
    rounds-Sound hs (suc n) c k a h = elim (either_sound (m c _) (k c) a h) [
      | inr (_, e) ↦ (c, done, e)
      | inl e ↦
          let (d, r, g) = hs c _ a e in
          let (lt, g') = guarded_sound (ltb (length d.rest) (length c.rest)) (rounds m n d k) a g in
          let (f, rs, kf) = rounds-Sound hs n d k a g' in (f, more r (ltb→lt _ _ lt) rs, kf)
    ]

    lazy_rounds-Sound : Sound R m → (n : ℕ) → Sound (Rounds R) (lazy_rounds m n)
    unfolding lazy_rounds
    lazy_rounds-Sound hs zero c k a h = (c, done, h)
    lazy_rounds-Sound hs (suc n) c k a h = elim (either_sound (k c) (m c _) a h) [
      | inl e ↦ (c, done, e)
      | inr (_, e) ↦
          let (d, r, g) = hs c _ a e in
          let (lt, g') =
            guarded_sound (ltb (length d.rest) (length c.rest)) (lazy_rounds m n d k) a g in
          let (f, rs, kf) = lazy_rounds-Sound hs n d k a g' in (f, more r (ltb→lt _ _ lt) rs, kf)
    ]

    rounds-Complete :
        Complete R m
        → (n : ℕ) (c : Cursor) (k : Cursor → Option A) (d : Cursor) → length c.rest ≤ n
        → Rounds R c d
        → k d ≢ none
        → rounds m n c k ≢ none
    unfolding rounds
    rounds-Complete hc zero c k d le done h = h
    rounds-Complete hc zero c k d le (more r lt rs) h = absurd (omega arith)
    rounds-Complete hc (suc n) c k d le done h = either_right (m c _) (k c) h
    rounds-Complete hc (suc n) c k d le (more {d = e} r lt rs) h = either_left (m c _) (k c) (
        hc c _ e r (
          guarded_complete (ltb (length e.rest) (length c.rest)) (rounds m n e k) (lt→ltb _ _ lt)
            (rounds-Complete hc n e k d (omega arith) rs h)))

    lazy_rounds-Complete :
        Complete R m
        → (n : ℕ) (c : Cursor) (k : Cursor → Option A) (d : Cursor) → length c.rest ≤ n
        → Rounds R c d
        → k d ≢ none
        → lazy_rounds m n c k ≢ none
    unfolding lazy_rounds
    lazy_rounds-Complete hc zero c k d le done h = h
    lazy_rounds-Complete hc zero c k d le (more r lt rs) h = absurd (omega arith)
    lazy_rounds-Complete hc (suc n) c k d le done h = either_left (k c) (m c _) h
    lazy_rounds-Complete hc (suc n) c k d le (more {d = e} r lt rs) h = either_right (k c) (m c _) (
        hc c _ e r (
          guarded_complete (ltb (length e.rest) (length c.rest)) (lazy_rounds m n e k)
            (lt→ltb _ _ lt) (lazy_rounds-Complete hc n e k d (omega arith) rs h)))

  present_sound :
      (o : Option (Unit {0})) (p : Option A) (a : A)
      → ◌≡◌ {A = Option A} (elim o [ some u ↦ p | none ↦ none ]) (some a)
      → (u : Unit {0}) × (o ≡ some u) × (p ≡ some a)
  present_sound none p a h = cc
  present_sound (some u) p a h = (u, refl, h)

  present_complete :
      (o : Option (Unit {0})) (p : Option A)
      → o ≢ none
      → p ≢ none
      → ◌≢◌ {A = Option A} (elim o [ some u ↦ p | none ↦ none ]) none
  present_complete none p h g = absurd (h refl)
  present_complete (some u) p h g = g

  missing_sound :
      (o : Option (Unit {0})) (p : Option A) (a : A)
      → ◌≡◌ {A = Option A} (elim o [ some u ↦ none | none ↦ p ]) (some a)
      → (o ≡ none) × (p ≡ some a)
  missing_sound none p a h = (refl, h)
  missing_sound (some u) p a h = cc

  missing_complete :
      (o : Option (Unit {0})) (p : Option A)
      → ((u : Unit {0}) → o ≢ some u)
      → p ≢ none
      → ◌≢◌ {A = Option A} (elim o [ some u ↦ none | none ↦ p ]) none
  missing_complete none p h g = g
  missing_complete (some u) p h g = absurd (h u refl)

  barred_sound :
      (b : Bool) (o : Option A) (a : A)
      → ◌≡◌ {A = Option A} (elim b [ true ↦ none | false ↦ o ]) (some a)
      → (b ≡ false) × (o ≡ some a)
  barred_sound true o a h = cc
  barred_sound false o a h = (refl, h)

  barred_complete :
      (b : Bool) (o : Option A)
      → b ≡ false
      → o ≢ none
      → ◌≢◌ {A = Option A} (elim b [ true ↦ none | false ↦ o ]) none
  barred_complete true o e h = cc
  barred_complete false o e h = h

  bol_complete :
      (s : Text) (o : Option A)
      → s ≡ []
      → o ≢ none
      → ◌≢◌ {A = Option A} (elim s [ [] ↦ o | x ∷ r ↦ none ]) none
  bol_complete [] o e h = h
  bol_complete (x ∷ s) o e h = cc

  bol_sound :
      (s : Text) (o : Option A) (a : A)
      → ◌≡◌ {A = Option A} (elim s [ [] ↦ o | x ∷ r ↦ none ]) (some a)
      → (s ≡ []) × (o ≡ some a)
  bol_sound [] o a h = (refl, h)
  bol_sound (x ∷ s) o a h = cc

  one_sound :
      (p : ℕ → Bool) (s : Text) (c : Cursor) (k : Cursor → Option A) (a : A)
      → c.rest ≡ s
      → step_one p s c k ≡ some a
      → (d : Cursor) × Matches (one p) c d × (k d ≡ some a)
  one_sound p [] c k a e h = cc
  one_sound p (x ∷ s) c k a e h =
      let (px, h') = guarded_sound (p x) (k (advance x s c)) a h in
      (advance x s c, (x, s, e, px, refl), h')

-- The two halves together, by induction on the pattern: a negative lookahead needs the other half.
pub run_correct :
    (r : Regex) {A : Type 0}
    → Sound {A = A} (Matches r) (λ c k. run r c k) × Complete {A = A} (Matches r) (λ c k. run r c k)
unfolding run
run_correct empty = (λ c k a h. (c, refl, h), λ c k d m h. rw m h)
run_correct (one p) = (
  λ c k a h. one_sound p c.rest c k a refl h,
  λ c k d (x, s, e, px, m) h. rw e (guarded_complete (p x) _ px (rw m h)),
)
run_correct (seq r s) = (
  λ c k a h.
      let (e, m, g) = (run_correct r).0 c _ a h in
      let (d, n, k') = (run_correct s).0 e k a g in (d, (e, m, n), k'),
  λ c k d (e, m, n) h. (run_correct r).1 c _ e m ((run_correct s).1 e k d n h),
)
run_correct (alt r s) = (
  λ c k a h. elim (either_sound (run r c k) (run s c k) a h) [
    | inl e ↦ let (d, m, k') = (run_correct r).0 c k a e in (d, inl m, k')
    | inr (_, e) ↦ let (d, m, k') = (run_correct s).0 c k a e in (d, inr m, k')
  ],
  λ c k d m h. elim m [
    | inl m' ↦ either_left (run r c k) (run s c k) ((run_correct r).1 c k d m' h)
    | inr m' ↦ either_right (run r c k) (run s c k) ((run_correct s).1 c k d m' h)
  ],
)
run_correct (star r) = (
  λ c. rounds-Sound (Matches r) (λ d j. run r d j) (run_correct r).0 (length c.rest) c,
  λ c k d.
      rounds-Complete (Matches r) (λ d j. run r d j) (run_correct r).1 (length c.rest) c k d
        (omega arith),
)
run_correct (lazy r) = (
  λ c. lazy_rounds-Sound (Matches r) (λ d j. run r d j) (run_correct r).0 (length c.rest) c,
  λ c k d.
      lazy_rounds-Complete (Matches r) (λ d j. run r d j) (run_correct r).1 (length c.rest) c k d
        (omega arith),
)
run_correct (group n r) = (
  λ c k a h.
      let (e, m, g) = (run_correct r).0 c (λ d. k (capture n c d)) a h in
      (capture n c e, (e, m, refl), g),
  λ c k d (e, m, p) h. (run_correct r).1 c (λ d. k (capture n c d)) e m (rw p h),
)
run_correct (followed_by r) = (
  λ c k a h.
      let (u, e, g) = present_sound (run r c (λ d. some tt)) (k c) a h in
      let (d, m, _) = (run_correct r).0 c (λ d. some tt) u e in (c, ((d, m), refl), g),
  λ c k d ((e, m), p) h.
      present_complete (run r c (λ d. some tt)) (k c)
        ((run_correct r).1 c (λ d. some tt) e m (λ q. cc q)) (rw p h),
)
run_correct (not_followed_by r) = (
  λ c k a h.
      let (e, g) = missing_sound (run r c (λ d. some tt)) (k c) a h in
      (c, ((λ (d, m). (run_correct r).1 c (λ d. some tt) d m (λ q. cc q) e), refl), g),
  λ c k d (no_match, p) h.
      missing_complete (run r c (λ d. some tt)) (k c)
        (λ u e. let (d, m, _) = (run_correct r).0 c (λ d. some tt) u e in no_match (d, m)) (rw p h),
)
run_correct (not_after p) = (
  λ c k a h. let (e, g) = barred_sound (head_is p c.before) (k c) a h in (c, (e, refl), g),
  λ c k d (e, q) h. barred_complete (head_is p c.before) (k c) e (rw q h),
)
run_correct at_start = (
  λ c k a h. let (e, g) = bol_sound c.before (k c) a h in (c, (e, refl), g),
  λ c k d (e, p) h. bol_complete c.before (k c) e (rw p h),
)
run_correct at_end = (
  λ c k a h. let (e, g) = guarded_sound (is_end c.rest) (k c) a h in (c, (e, refl), g),
  λ c k d (e, p) h. guarded_complete (is_end c.rest) (k c) e (rw p h),
)
run_correct boundary = (
  λ c k a h. let (e, g) = guarded_sound (is_boundary c) (k c) a h in (c, (e, refl), g),
  λ c k d (e, p) h. guarded_complete (is_boundary c) (k c) e (rw p h),
)
