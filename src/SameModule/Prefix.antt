-- ===== src/SameModule/Prefix.antt =====
-- The prefix that `FilesBelongToSameModule` returns.
use csci.Prelude.{
  ◌-◌, ◌≡◌, ◌≢◌, refl, sym, ap, ◌∙◌, ◌↔◌, Bool, true, false, not, [], ◌∷◌, ◌++◌, arith, Text, text,
  if◌then◌else◌, length, length-append, take, ends_with, starts_with, inl, inr, Bool-cases,
}
use mathlib.Core.List.{reverse, reverse-append, reverse-reverse}
use csci.FileInfo.{is_source}
use csci.SameModule.{drop_end, source_stem, header_stem, same_stem, files_belong_to_same_module}

starts_with-append : (p r : Text) → starts_with (p ++ r) p ≡ true
unfolding starts_with
starts_with-append [] r = starts_with_nil r
  where
    starts_with_nil : (r : Text) → starts_with r [] ≡ true
    starts_with_nil r = refl
starts_with-append (c ∷ p) r = ground (arith, starts_with-append p r)

rest_of-starts_with : (s p : Text) → starts_with s p ≡ true → (r : Text) × (s ≡ p ++ r)
unfolding starts_with
rest_of-starts_with s [] h = (s, refl)
rest_of-starts_with [] (b ∷ p) h = cc
rest_of-starts_with (a ∷ s) (b ∷ p) h =
    let (r, e) = rest_of-starts_with s p (ground arith) in
    let same : a ≡ b = ground arith in (r, cc)

-- A text ends with another exactly if that stands behind some prefix of it.
pub ends_with_iff : (s p : Text) → (ends_with s p ≡ true) ↔ ((a : Text) × (s ≡ a ++ p))
unfolding ends_with
ends_with_iff s p = (
  λ h.
      let (r, e) = rest_of-starts_with (reverse s) (reverse p) h in
      (
        reverse r,
        sym (reverse-reverse s)
            ∙ ap reverse e
            ∙ reverse-append (reverse p) r
            ∙ ap (λ t. reverse r ++ t) (reverse-reverse p),
      ),
  λ (a, e).
      ap (λ t. starts_with (reverse t) (reverse p)) e
      ∙ ap (λ t. starts_with t (reverse p)) (reverse-append a p)
      ∙ starts_with-append (reverse p) (reverse a),
)

take-append : (a p : Text) → take (length a) (a ++ p) ≡ a
take-append [] p = refl
take-append (c ∷ a) p = ap (λ r. c ∷ r) (take-append a p)

pub drop_end-append : (a p : Text) → p ≢ [] → drop_end (length p) (a ++ p) ≡ a
drop_end-append a [] h = absurd (h refl)
drop_end-append a (c ∷ p) h = ground (
  arith,
  ap (λ n. take n (a ++ c ∷ p)) {x = length (a ++ c ∷ p) - length (c ∷ p)} {y = length a}
      (omega (arith, length-append a (c ∷ p))),
  take-append a (c ∷ p),
)

same_stem_lem :
    (cc_stem h_stem : Text)
    → (((same_stem cc_stem h_stem).0 ≡ true) ↔ ((a : Text) × (cc_stem ≡ a ++ h_stem)))
      × ((same_stem cc_stem h_stem).0 ≡ true
          → h_stem ≢ []
          → (same_stem cc_stem h_stem).1 ++ h_stem ≡ cc_stem)
same_stem_lem cc_stem h_stem = elim (Bool-cases (ends_with cc_stem h_stem)) [
  | inl e ↦
      let (a, p) = (ends_with_iff cc_stem h_stem).0 e in
      rw e (
        (λ _. (a, p), λ _. refl),
        λ _ named.
            ap (λ t. drop_end (length h_stem) t ++ h_stem) p
            ∙ ap (λ t. t ++ h_stem) (drop_end-append a h_stem named)
            ∙ sym p,
      )
  | inr e ↦
      rw e
        ((λ h. cc, λ q. absurd (let t = (ends_with_iff cc_stem h_stem).1 q in cc)), λ h named. cc)
]

-- A result behind two tests.
abbrev behind : Bool → Bool → Bool × Text → Bool × Text
behind a b r = if not a then (false, []) else if not b then (false, []) else r

behind-true :
    (a b : Bool) (r : Bool × Text)
    → (behind a b r).0 ≡ true
    → (a ≡ true) × (b ≡ true) × (behind a b r ≡ r)
behind-true true true r h = (refl, refl, refl)
behind-true true false r h = cc
behind-true false b r h = cc

-- FilesBelongToSameModule says yes exactly for a source file and a header whose stem ends the stem of the
-- source file, and if the header's stem is not empty, the returned prefix in front of it is the source
-- file's stem.
pub files_belong_to_same_module_iff :
    (filename_cc name filename_h : Text)
    → (((files_belong_to_same_module filename_cc name filename_h).0 ≡ true) ↔ (
        (is_source name ≡ true)
        × (ends_with filename_h (text ".h") ≡ true)
        × ((a : Text) × (source_stem filename_cc name ≡ a ++ header_stem filename_h))))
      × ((files_belong_to_same_module filename_cc name filename_h).0 ≡ true
          → header_stem filename_h ≢ []
          → (files_belong_to_same_module filename_cc name filename_h).1 ++ header_stem filename_h
            ≡ source_stem filename_cc name)
unfolding files_belong_to_same_module
files_belong_to_same_module_iff filename_cc name filename_h =
    let r = same_stem (source_stem filename_cc name) (header_stem filename_h) in
    let (yes_iff, prefix) = same_stem_lem (source_stem filename_cc name) (header_stem filename_h) in
    let inverse = behind-true (is_source name) (ends_with filename_h (text ".h")) r in
    (
      (
        λ h.
            let (source, header, same) = inverse h in
            (source, header, yes_iff.0 (sym (ap (λ (q : Bool × Text). q.0) same) ∙ h)),
        λ (source, header, found). rw (source, header) (yes_iff.1 found),
      ),
      λ h named.
          let (source, header, same) = inverse h in
          ap (λ (q : Bool × Text). q.1 ++ header_stem filename_h) same
          ∙ prefix (sym (ap (λ (q : Bool × Text). q.0) same) ∙ h) named,
    )
