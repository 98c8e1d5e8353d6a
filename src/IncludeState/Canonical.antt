-- ===== src/IncludeState/Canonical.antt =====
-- `CanonicalizeAlphabeticalOrder` is a normal form.
use csci.Prelude.{
  ℕ, ◌≡◌, ◌≢◌, refl, false, [], ◌∷◌, map, arith, Text, text, ◌==◌, if◌then◌else◌, All, is_upper,
  lower_char, lower, replace, replace_from, starts_with,
}
use csci.IncludeState.{canonicalize_alphabetical_order}

-- No character is a dash or an upper case letter.
abbrev pub IsPlain : ℕ → Type 0
IsPlain c = (c ≢ b'-') × (is_upper c ≡ false)

abbrev dash_to_underscore : ℕ → ℕ
dash_to_underscore c = if c == b'-' then b'_' else c

replace-dash : (s : Text) → replace s (text "-") (text "_") ≡ map dash_to_underscore s
unfolding replace replace_from starts_with text
replace-dash [] = refl
replace-dash (c ∷ s) = ground (arith, replace-dash s)

-- The canonical path has no dash and no upper case letter.
pub canonical-IsPlain : (s : Text) → All IsPlain (canonicalize_alphabetical_order s)
unfolding canonicalize_alphabetical_order lower
canonical-IsPlain s = rw replace-dash (plain _)
  where
    -- no dash is left by the second replacement, and no upper case letter by `lower`
    plain : (t : Text) → All IsPlain (map lower_char (map dash_to_underscore t))
    plain [] = tt
    plain (c ∷ t) = ((λ h. ground arith, ground arith), plain t)

replace-inl : (s : Text) → All IsPlain s → replace s (text "-inl.h") (text ".h") ≡ s
unfolding replace text
replace-inl [] h = refl
replace-inl (c ∷ s) ((no_dash, _), h) = ground (arith, replace-inl s h)

plain_underscore : (s : Text) → All IsPlain s → map dash_to_underscore s ≡ s
plain_underscore [] h = refl
plain_underscore (c ∷ s) ((no_dash, _), h) = ground (arith, plain_underscore s h)

plain_lower : (s : Text) → All IsPlain s → map lower_char s ≡ s
plain_lower [] h = refl
plain_lower (c ∷ s) ((_, not_upper), h) = ground (arith, plain_lower s h)

plain_canonical : (s : Text) → All IsPlain s → canonicalize_alphabetical_order s ≡ s
unfolding canonicalize_alphabetical_order lower
plain_canonical s h = rw (replace-inl s h, replace-dash s, plain_underscore s h, plain_lower s h)

-- The path that is compared is a normal form: it has no dash and no upper case letter, and to
-- canonicalize it again changes nothing.
pub canonicalize_lem :
    (s : Text)
    → All IsPlain (canonicalize_alphabetical_order s)
      × (canonicalize_alphabetical_order (canonicalize_alphabetical_order s)
          ≡ canonicalize_alphabetical_order s)
canonicalize_lem s =
    (canonical-IsPlain s, plain_canonical (canonicalize_alphabetical_order s) (canonical-IsPlain s))
