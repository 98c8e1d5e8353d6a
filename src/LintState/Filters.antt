-- ===== src/LintState/Filters.antt =====
-- The filters of `_CppLintState`: what `AddFilters` accepts, and what `_ShouldPrintError` decides.
use csci.Prelude.{
  ℕ, ◌≤◌, ◌≡◌, refl, ap, ◌↔◌, ◌⊎◌, inl, inr, Bool, true, false, not, List, [], ◌∷◌, ◌++◌, arith,
  Text, text, ltb, if◌then◌else◌, drop, starts_with, All, Bool-cases, split_on,
}
use csci.Suppress.{Suppressions, is_error_suppressed_by_nolint}
use csci.LintState.{
  LintState, Outcome, returned, is_signed, check_filters, clean_filters, add_filters, filter_loop,
  not_filtered, should_print_error,
}

-- Every filter starts with + or -.
abbrev pub AllSigned : List Text → Type 0
AllSigned = All (λ f. is_signed f ≡ true)

check_filters_iff : (fs : List Text) → (check_filters fs ≡ returned tt) ↔ AllSigned fs
unfolding check_filters
check_filters_iff [] = (λ _. tt, λ _. refl)
check_filters_iff (f ∷ fs) = let ih = check_filters_iff fs in (λ h. ground arith, λ h. ground arith)

-- `AddFilters` appends the stripped parts of its argument to the filters, also when it raises, and
-- returns exactly if every filter that is then in the list starts with + or -.
pub add_filters_iff :
    (filters : Text) (s : LintState)
    → ((add_filters filters s).1.filters ≡ s.filters ++ clean_filters (split_on b',' filters))
      × (((add_filters filters s).0 ≡ returned tt) ↔ AllSigned (add_filters filters s).1.filters)
unfolding add_filters
add_filters_iff filters s =
    (refl, check_filters_iff (s.filters ++ clean_filters (split_on b',' filters)))

-- The filter speaks of the category: what follows its sign is a prefix of it.
abbrev pub applies : Text → Text → Bool
applies category f = starts_with category (drop 1 f)

abbrev pub NoneApplies : Text → List Text → Type 0
NoneApplies category = All (λ f. applies category f ≡ false)

-- The last filter that speaks of the category is a rejection.
abbrev pub LastRejects : Text → List Text → Type 0
LastRejects category fs =
    (before : List Text) × (f : Text) × (after : List Text) × (fs ≡ before ++ f ∷ after)
    × (applies category f ≡ true)
    × (starts_with f (text "-") ≡ true)
    × NoneApplies category after

filter_loop_step :
    (category f : Text) (fs : List Text) (b : Bool)
    → is_signed f ≡ true
    → filter_loop category (f ∷ fs) b
      ≡ filter_loop category fs (if applies category f then starts_with f (text "-") else b)
unfolding filter_loop
filter_loop_step category f fs b h = ground arith

filter_loop-returned :
    (category : Text) (fs : List Text) (b : Bool)
    → AllSigned fs
    → (r : Bool) × (filter_loop category fs b ≡ returned r)
filter_loop-returned category [] b h = (b, unfold filter_loop in refl)
filter_loop-returned category (f ∷ fs) b (hf, hs) =
    rw (filter_loop_step category f fs b hf) (filter_loop-returned category fs _ hs)

filter_loop_iff :
    (category : Text) (fs : List Text) (b : Bool)
    → AllSigned fs
    → (filter_loop category fs b ≡ returned true)
      ↔ (LastRejects category fs ⊎ ((b ≡ true) × NoneApplies category fs))
filter_loop_iff category [] b h = (
  λ e. inr (unfold filter_loop in (ground arith, tt)),
  λ h. elim h [
    | inl (before, f, after, e, _, _, _) ↦ absurd (not_in_nil before f after e)
    | inr (e, _) ↦ unfold filter_loop in rw e
  ],
)
  where
    not_in_nil : (before : List Text) (f : Text) (after : List Text) → ¬ ([] ≡ before ++ f ∷ after)
    not_in_nil [] f after e = cc
    not_in_nil (x ∷ before) f after e = cc
filter_loop_iff category (f ∷ fs) b (hf, hs) =
    let ih =
      filter_loop_iff category fs (if applies category f then starts_with f (text "-") else b) hs in
    rw (filter_loop_step category f fs b hf) (λ e. to (ih.0 e), λ l. ih.1 (from l))
  where
    b' : Bool
    b' = if applies category f then starts_with f (text "-") else b

    to :
        LastRejects category fs ⊎ ((b' ≡ true) × NoneApplies category fs)
        → LastRejects category (f ∷ fs) ⊎ ((b ≡ true) × NoneApplies category (f ∷ fs))
    to (inl (before, g, after, e, p, m, n)) = inl (f ∷ before, g, after, ap (λ r. f ∷ r) e, p, m, n)
    to (inr (e, n)) = elim (Bool-cases (applies category f)) [
      | inl p ↦ inl ([], f, fs, refl, p, rw p at e, n)
      | inr p ↦ inr (rw p at e, (p, n))
    ]

    from :
        LastRejects category (f ∷ fs) ⊎ ((b ≡ true) × NoneApplies category (f ∷ fs))
        → LastRejects category fs ⊎ ((b' ≡ true) × NoneApplies category fs)
    from (inl ([], g, after, e, p, m, n)) =
        let same : f ≡ g = cc in let rest : fs ≡ after = cc in inr (rw (same, p) m, rw rest n)
    from (inl (x ∷ before, g, after, e, p, m, n)) = inl (before, g, after, cc, p, m, n)
    from (inr (e, (p, n))) = inr (rw p e, n)

if_false :
    {P N : Type 0} (o : Outcome Bool) (r : Bool)
    → o ≡ returned r
    → (o ≡ returned true) ↔ (P ⊎ (◌≡◌ {A = Bool} false true × N))
    → (o ≡ returned false) ↔ ¬ P
if_false o true e i =
    (λ h. absurd (cc), λ n. elim (i.0 e) [ inl p ↦ absurd (n p) | inr q ↦ absurd (cc) ])
if_false o false e i = (λ h p. cc (i.1 (inl p)), λ n. e)

verdict_returned :
    (a b : Bool) (o : Outcome Bool) (r : Bool)
    → o ≡ returned r
    → (q : Bool) × ((if a then returned false else if b then returned false else not_filtered o)
        ≡ returned q)
verdict_returned true b o r e = (false, refl)
verdict_returned false true o r e = (false, refl)
verdict_returned false false o r e = (not r, rw e)

-- With signed filters `_ShouldPrintError` never meets its assertion. An error is printed exactly if no
-- NOLINT or file-wide directive suppresses it, its confidence reaches the verbosity, and the last
-- filter that speaks of its category, if there is one, does not reject it.
pub should_print_error_iff :
    (s : LintState) (sup : Suppressions) (category : Text) (confidence linenum : ℕ)
    → AllSigned s.filters
    → ((r : Bool) × (should_print_error s sup category confidence linenum ≡ returned r))
      × ((should_print_error s sup category confidence linenum ≡ returned true) ↔ (
          (is_error_suppressed_by_nolint sup category linenum ≡ false)
          × (s.verbose_level ≤ confidence)
          × (¬ LastRejects category s.filters)))
unfolding should_print_error
should_print_error_iff s sup category confidence linenum h =
    let (r, e) = filter_loop-returned category s.filters false h in
    let accepted =
      if_false (filter_loop category s.filters false) r e
        (filter_loop_iff category s.filters false h) in
    (
      verdict_returned (is_error_suppressed_by_nolint sup category linenum)
          (ltb confidence s.verbose_level) (filter_loop category s.filters false) r e,
      (
        λ q. (ground arith, ground arith, accepted.0 (ground arith)),
        λ (not_suppressed, confident, kept). let k = accepted.1 kept in ground arith,
      ),
    )
