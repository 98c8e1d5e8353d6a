-- ===== src/IncludeDict/First.antt =====
-- The numbers that `UpdateIncludeState` leaves in the dictionary.
use csci.Prelude.{
  ℕ, suc, ◌≡◌, refl, sym, ap, subst, ◌∙◌, Bool, true, false, Option, some, none, List, [], ◌∷◌,
  Text, text_keys, text_eq, text_eq_iff, if◌then◌else◌, Bool-cases, Option-cases, inl, inr,
}
use csci.Prelude.Dict.{Dict, get, put, get-put}
use csci.IncludeDict.{set_default, included, add_included, add_lines, update_include_state}

-- The number of the first of the lines that includes a header.
unfoldable pub first_include : Text → ℕ → List Text → Option ℕ
first_include header linenum [] = none
first_include header linenum (line ∷ lines) =
    let rest = first_include header (suc linenum) lines in
    elim (included line) [
      | none ↦ rest
      | some h ↦ if text_eq h header then some (suc linenum) else rest
    ]

abbrev pub or_else : Option ℕ → Option ℕ → Option ℕ
or_else (some n) o = some n
or_else none o = o

or_else-none : (o : Option ℕ) → or_else o none ≡ o
or_else-none none = refl
or_else-none (some n) = refl

or_else_assoc : (a b c : Option ℕ) → or_else (or_else a b) c ≡ or_else a (or_else b c)
or_else_assoc none b c = refl
or_else_assoc (some n) b c = refl

if-or_else :
    (b : Bool) (n : ℕ) (o : Option ℕ)
    → or_else (if b then some n else none) o ≡ (if b then some n else o)
if-or_else true n o = refl
if-or_else false n o = refl

put-get-none :
    (header k : Text) (n : ℕ) (d : Dict Text ℕ)
    → get k d ≡ none
    → get header (put k n d) ≡ or_else (get header d) (if text_eq k header then some n else none)
put-get-none header k n d absent = elim (Bool-cases (text_eq k header)) [
  | inl e ↦
      let same = (text_eq_iff k header).0 e in
      let absent' : get header d ≡ none = subst (λ h. get h d ≡ none) same absent in
      get-put k header n d ∙ rw (e, absent') refl
  | inr e ↦ get-put k header n d ∙ rw e (sym (or_else-none (get header d)))
]

kept-some :
    (header k : Text) (n w : ℕ) (d : Dict Text ℕ)
    → get k d ≡ some w
    → get header d ≡ or_else (get header d) (if text_eq k header then some n else none)
kept-some header k n w d present = elim (Bool-cases (text_eq k header)) [
  | inl e ↦
      let same = (text_eq_iff k header).0 e in
      let present' : get header d ≡ some w = subst (λ h. get h d ≡ some w) same present in
      rw present' refl
  | inr e ↦ rw e (sym (or_else-none (get header d)))
]

get-set_default :
    (header k : Text) (n : ℕ) (d : Dict Text ℕ)
    → get header (set_default k n d)
      ≡ or_else (get header d) (if text_eq k header then some n else none)
unfolding set_default
get-set_default header k n d = elim (Option-cases (get k d)) [
  | inl e ↦ rw (e, set_default) (put-get-none header k n d e)
  | inr (w, e) ↦ rw (e, set_default) (kept-some header k n w d e)
]

get-add_lines :
    (header : Text) (n : ℕ) (lines : List Text) (d : Dict Text ℕ)
    → get header (add_lines n lines d) ≡ or_else (get header d) (first_include header n lines)
unfolding add_lines first_include
get-add_lines header n [] d = sym (or_else-none (get header d))
get-add_lines header n (line ∷ lines) d =
    let ih = get-add_lines header (suc n) lines (add_included (suc n) (included line) d) in
    elim (Option-cases (included line)) [
      | inl e ↦ ih ∙ rw (e, first_include) refl
      | inr (h, e) ↦
          ih
          ∙ rw (e, first_include, get-set_default header h (suc n) d)
              (or_else_assoc (get header d) _ _
                ∙ ap (or_else (get header d)) (if-or_else (text_eq h header) (suc n) _))
    ]

-- When the file can be read, `UpdateIncludeState` returns true, whether or not one of its lines includes a
-- header that had no entry, and gives each header that had no entry the
-- number of the first line that includes it; headers with an entry keep it, and all others have none.
pub update_include_state-first :
    (io_open : Text → Option (List Text)) (filename : Text) (lines : List Text)
    (include_dict : Dict Text ℕ) (header : Text)
    → io_open filename ≡ some lines
    → let result = update_include_state io_open filename include_dict in
      (result.0 ≡ true)
      × (get header result.1 ≡ or_else (get header include_dict) (first_include header 0 lines))
unfolding update_include_state
update_include_state-first io_open filename lines include_dict header opened =
    rw (opened, update_include_state) (refl, get-add_lines header 0 lines include_dict)
