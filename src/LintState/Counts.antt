-- ===== src/LintState/Counts.antt =====
-- The error statistic: what `Error` prints and what it counts.
use csci.Prelude.{
  ℕ, ◌+◌, ◌≡◌, ◌≢◌, refl, ap, ◌∙◌, ◌⊎◌, inl, inr, Bool, true, false, [], ◌∷◌, Option, none, some,
  arith, Text, if◌then◌else◌, text_eq, text_eq_iff, text_keys,
}
use csci.Prelude.Dict.{Dict, get, put, get-put}
use csci.Report.{Report}
use csci.Suppress.{Suppressions}
use csci.LintState.{
  LintState, Outcome, returned, value_error, assertion_error, Counting, total, toplevel, detailed,
  counted_as, bump, bump_if, increment_error_count, should_print_error, log_if, error, error_line,
}

abbrev pub sum : Dict Text ℕ → ℕ
sum [] = 0
sum ((k, n) ∷ d) = n + sum d

abbrev pub tally : Option ℕ → ℕ
tally none = 0
tally (some n) = n

-- The errors counted under a key.
abbrev pub count_of : Text → LintState → ℕ
count_of k s = tally (get k s.errors_by_category)

sum-put : (k : Text) (v : ℕ) (d : Dict Text ℕ) → sum (put k v d) + tally (get k d) ≡ sum d + v
unfolding get put
sum-put k v [] = omega arith
sum-put k v ((j, w) ∷ d) = ground (arith, sum-put k v d)

sum-bump : (k : Text) (d : Dict Text ℕ) → sum (bump k d) ≡ sum d + 1
unfolding bump
sum-bump k d = ground (arith, sum-put k 1 d, sum-put k (tally (get k d) + 1) d)

count-bump :
    (k j : Text) (d : Dict Text ℕ)
    → tally (get j (bump k d)) ≡ tally (get j d) + (if text_eq k j then 1 else 0)
unfolding bump
count-bump k j d =
    ground (arith, get-put k j 1 d, get-put k j (tally (get k d) + 1) d, text_eq_iff k j)

abbrev pub one_if_counted : Option Text → Text → ℕ
one_if_counted none j = 0
one_if_counted (some k) j = if text_eq k j then 1 else 0

-- The error is printed.
abbrev pub Prints : LintState → Suppressions → Report → Type 0
Prints s sup r = should_print_error s sup r.category r.confidence r.linenum ≡ returned true

count-bump_if :
    (o : Option Text) (j : Text) (d : Dict Text ℕ)
    → tally (get j (bump_if o d)) ≡ tally (get j d) + one_if_counted o j
count-bump_if none j d = omega arith
count-bump_if (some k) j d = count-bump k j d

-- A printed error is one line on stderr, one more error in all, and one more under the category or
-- top-level category that the counting style names, and under no other.
pub error-printed :
    (s : LintState) (sup : Suppressions) (filename : Text) (r : Report)
    → Prints s sup r
    → ((error sup filename r s).0 ≡ returned (error_line s.output_format filename r ∷ []))
      × ((error sup filename r s).1.error_count ≡ s.error_count + 1)
      × ((j : Text)
          → count_of j (error sup filename r s).1
            ≡ count_of j s + one_if_counted (counted_as s.counting r.category) j)
unfolding error increment_error_count
error-printed s sup filename r h = (
  ground arith,
  ground arith,
  λ j. rw (h, log_if) (count-bump_if (counted_as s.counting r.category) j s.errors_by_category),
)

Verdict-cases :
    (o : Outcome Bool)
    → (o ≡ returned true)
      ⊎ ((filename : Text) (r : Report) (s : LintState) → (log_if o filename r s).1 ≡ s)
Verdict-cases (returned true) = inl refl
Verdict-cases (returned false) = inr (λ _ _ _. refl)
Verdict-cases (value_error m) = inr (λ _ _ _. refl)
Verdict-cases assertion_error = inr (λ _ _ _. refl)

-- An error that is not printed leaves the whole state as it was.
pub error-not_printed :
    (s : LintState) (sup : Suppressions) (filename : Text) (r : Report)
    → ¬ Prints s sup r
    → (error sup filename r s).1 ≡ s
unfolding error
error-not_printed s sup filename r h =
    elim (Verdict-cases (should_print_error s sup r.category r.confidence r.linenum)) [
      | inl p ↦ absurd (h p)
      | inr q ↦ q filename r s
    ]

-- The counted errors of all categories add up to the number of errors.
abbrev pub Balanced : LintState → Type 0
Balanced s = sum s.errors_by_category ≡ s.error_count

sum-bump_if :
    (c : Counting) (category : Text) (d : Dict Text ℕ)
    → c ≢ total
    → sum (bump_if (counted_as c category) d) ≡ sum d + 1
sum-bump_if total category d h = absurd (h refl)
sum-bump_if toplevel category d h = sum-bump _ d
sum-bump_if detailed category d h = sum-bump _ d

-- While the counting style is not total, every call of `Error` keeps the sum of the errors of all
-- categories equal to the number of errors.
pub error-Balanced :
    (s : LintState) (sup : Suppressions) (filename : Text) (r : Report)
    → s.counting ≢ total
    → Balanced s
    → Balanced (error sup filename r s).1
unfolding error increment_error_count
error-Balanced s sup filename r h b =
    elim (Verdict-cases (should_print_error s sup r.category r.confidence r.linenum)) [
      | inl p ↦
          rw (p, log_if)
            (sum-bump_if s.counting r.category s.errors_by_category h ∙ ap (λ n. n + 1) b)
      | inr q ↦ rw (q filename r s) b
    ]
