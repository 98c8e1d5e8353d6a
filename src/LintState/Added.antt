-- ===== src/LintState/Added.antt =====
-- Which texts `AddFilters` of `_CppLintState` accepts.
use csci.Prelude.{
  ℕ, ◌≡◌, sym, subst, ◌↔◌, ◌⊎◌, true, List, [], ◌∷◌, ◌++◌, arith, Text, text, All, strip, split_on,
  starts_with,
}
use csci.LintState.{LintState, returned, is_signed, clean_filters, add_filters}
use csci.LintState.Filters.{AllSigned, add_filters_iff}

-- A part between two commas: blank, or behind the blanks a plus or a minus.
abbrev pub IsFilter : Text → Type 0
IsFilter [] = Unit
IsFilter (c ∷ t) = (c ≡ b'+') ⊎ (c ≡ b'-')

is_signed_iff : (c : ℕ) (t : Text) → (is_signed (c ∷ t) ≡ true) ↔ IsFilter (c ∷ t)
unfolding starts_with text
is_signed_iff c t = ground arith

All-append : (fs gs : List Text) → AllSigned (fs ++ gs) ↔ (AllSigned fs × AllSigned gs)
All-append [] gs = ((λ h. (tt, h)), (λ h. h.1))
All-append (f ∷ fs) gs =
    let ih = All-append fs gs in
    (λ (e, h). let (a, b) = ih.0 h in ((e, a), b), λ ((e, a), b). (e, ih.1 (a, b)))

part_iff :
    (stripped : Text) (rest : List Text) (P : Type 0)
    → AllSigned rest ↔ P
    → AllSigned (elim stripped as (λ _. List Text) [ [] ↦ rest | c ∷ t ↦ (c ∷ t) ∷ rest ])
      ↔ (IsFilter stripped × P)
part_iff [] rest P h = ((λ a. (tt, h.0 a)), (λ p. h.1 p.1))
part_iff (c ∷ t) rest P h =
    let s = is_signed_iff c t in (λ (e, a). (s.0 e, h.0 a), λ (e, p). (s.1 e, h.1 p))

clean_filters_iff :
    (parts : List Text)
    → AllSigned (clean_filters parts) ↔ All (λ part. IsFilter (strip part)) parts
unfolding clean_filters
clean_filters_iff [] = ((λ _. tt), (λ _. tt))
clean_filters_iff (part ∷ parts) =
    part_iff (strip part) (clean_filters parts) (All (λ p. IsFilter (strip p)) parts)
      (clean_filters_iff parts)

-- `AddFilters` returns exactly if all filters that were there start with + or -, and each part of its
-- argument between the commas, without the blanks around it, does so or is empty. So it raises for a part
-- without a sign.
pub add_filters-IsFilter :
    (filters : Text) (s : LintState)
    → ((add_filters filters s).0 ≡ returned tt)
      ↔ (AllSigned s.filters × All (λ part. IsFilter (strip part)) (split_on b',' filters))
add_filters-IsFilter filters s =
    let (added, signed) = add_filters_iff filters s in
    let split = All-append s.filters (clean_filters (split_on b',' filters)) in
    let clean = clean_filters_iff (split_on b',' filters) in
    (
      λ h. let (a, b) = split.0 (subst AllSigned added (signed.0 h)) in (a, clean.0 b),
      λ (a, b). signed.1 (subst AllSigned (sym added) (split.1 (a, clean.1 b))),
    )
