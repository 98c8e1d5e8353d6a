-- ===== src/IncludeState/Headers.antt =====
-- `FindHeader` and the branches of preprocessor conditions.
use csci.Prelude.{
  ℕ, ◌≡◌, refl, Bool, true, false, List, [], ◌∷◌, ◌++◌, Option, none, some, arith, Text,
  if◌then◌else◌,
}
use csci.IncludeState.{
  IncludeState, initial, set_last, opens_branch, changes_branch, reset_section, find_in_list,
  find_in_lists, find_header,
}

-- `x` if it is there, and else `y`.
abbrev pub first_of_two : Option ℕ → Option ℕ → Option ℕ
first_of_two none y = y
first_of_two (some n) y = some n

pub find_in_lists-append :
    (h : Text) (ls ms : List (List (Text × ℕ)))
    → find_in_lists h (ls ++ ms) ≡ first_of_two (find_in_lists h ls) (find_in_lists h ms)
unfolding find_in_lists
find_in_lists-append h [] ms = refl
find_in_lists-append h (l ∷ ls) ms = ground (arith, find_in_lists-append h ls ms)

find_in_lists-set_last :
    (h : Text) (ls : List (List (Text × ℕ))) (l : List (Text × ℕ))
    → find_in_lists h (set_last [] (ls ++ l ∷ [])) ≡ find_in_lists h ls
unfolding find_in_lists find_in_list
find_in_lists-set_last h [] l = refl
find_in_lists-set_last h (m ∷ []) l = ground arith
find_in_lists-set_last h (m ∷ k ∷ ls) l = ground (arith, find_in_lists-set_last h (k ∷ ls) l)

find_in_branches :
    (h : Text) (ls earlier : List (List (Text × ℕ))) (branch : List (Text × ℕ))
    → ls ≡ earlier ++ branch ∷ []
    → (opens changes : Bool)
    → find_in_lists h (if opens then ls ++ [] ∷ [] else if changes then set_last [] ls else ls) ≡ (
        if opens
        then find_in_lists h ls
        else if changes
        then find_in_lists h earlier
        else find_in_lists h ls)
find_in_branches h ls earlier branch e true changes =
    rw (find_in_lists-append h ls ([] ∷ [])) (unfold find_in_lists find_in_list in ground arith)
find_in_branches h ls earlier branch e false true = rw e (find_in_lists-set_last h earlier branch)
find_in_branches h ls earlier branch e false false = refl

-- Only the directive of an #else or #elif forgets includes, those of the last branch; an #if opens a
-- branch and forgets none, and any other directive leaves all of them. Each starts a new section.
pub find_header-reset_section :
    (directive header : Text) (s : IncludeState) (earlier : List (List (Text × ℕ)))
    (branch : List (Text × ℕ))
    → s.include_list ≡ earlier ++ branch ∷ []
    → (find_header header (reset_section directive s) ≡ (
        if opens_branch directive
        then find_header header s
        else if changes_branch directive
        then find_in_lists header earlier
        else find_header header s))
      × ((reset_section directive s).section ≡ initial)
      × ((reset_section directive s).last_header ≡ [])
unfolding find_header reset_section
find_header-reset_section directive header s earlier branch e = (
  find_in_branches header s.include_list earlier branch e (opens_branch directive)
      (changes_branch directive),
  refl,
  refl,
)
