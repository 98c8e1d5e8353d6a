-- ===== src/Constructs/Joined.antt =====
-- What the arguments of a constructor are once `CheckForNonStandardConstructs` has put them together.
use csci.Prelude.{
  ℕ, ◌+◌, ◌≤◌, ◌<◌, ◌≡◌, refl, sym, ap, ◌∙◌, false, List, [], ◌∷◌, ◌++◌, some, none, Text, All,
  join, append_assoc, Bool-cases, Option-cases, inl, inr, arith,
}
use csci.Constructs.Collapse.{occurrences, is_cut, collapse_from, collapse_arguments}

unfoldable pub comma_join : List Text → Text
unfolding join
comma_join args = join (b',' ∷ []) args

abbrev pub IsWhole : Text → Type 0
IsWhole arg = is_cut arg ≡ false

pub comma_join-cons :
    (arg next : Text) (args : List Text)
    → comma_join (arg ∷ next ∷ args) ≡ arg ++ b',' ∷ comma_join (next ∷ args)
unfolding comma_join join
comma_join-cons arg next args = append_assoc arg (b',' ∷ []) (comma_join (next ∷ args))

comma_join-merge :
    (arg next : Text) (args : List Text)
    → comma_join ((arg ++ b',' ∷ next) ∷ args) ≡ comma_join (arg ∷ next ∷ args)
unfolding comma_join join
comma_join-merge arg next [] = sym (comma_join-cons arg next [])
comma_join-merge arg next (a ∷ args) =
    comma_join-cons (arg ++ b',' ∷ next) a args
    ∙ append_assoc arg (b',' ∷ next) (b',' ∷ comma_join (a ∷ args))
    ∙ ap (λ t. arg ++ b',' ∷ t) (sym (comma_join-cons next a args))
    ∙ sym (comma_join-cons arg next (a ∷ args))

-- What putting together from an argument on means for its result.
abbrev IsGrouping : Text → List Text → Text → List Text → Type 0
IsGrouping arg args first rest =
    (comma_join (first ∷ rest) ≡ comma_join (arg ∷ args)) × All IsWhole (first ∷ rest)

collapse_from-IsGrouping :
    (arg : Text) (args out : List Text)
    → collapse_from arg args ≡ some out
    → (first : Text) × (rest : List Text) × (out ≡ first ∷ rest) × IsGrouping arg args first rest
unfolding collapse_from
collapse_from-IsGrouping arg [] out h = elim (Bool-cases (is_cut arg)) [
  | inl e ↦ (let k : none ≡ some out = rw (e, collapse_from) at h in absurd cc)
  | inr e ↦
      let k : some (arg ∷ []) ≡ some out = rw (e, collapse_from) at h in
      (arg, [], cc, (refl, (e, tt)))
]
collapse_from-IsGrouping arg (next ∷ args) out h = elim (Bool-cases (is_cut arg)) [
  | inl e ↦
      let (first, rest, same, (joined, whole)) =
        collapse_from-IsGrouping (arg ++ b',' ∷ next) args out (rw (e, collapse_from) at h) in
      (first, rest, same, (joined ∙ comma_join-merge arg next args, whole))
  | inr e ↦ elim (Option-cases (collapse_from next args)) [
    | inl n ↦ (let k : none ≡ some out = rw (e, collapse_from, n) at h in absurd cc)
    | inr (found, s) ↦
        let (first, rest, same, (joined, whole)) = collapse_from-IsGrouping next args found s in
        let k : some (arg ∷ found) ≡ some out = rw (e, collapse_from, s) at h in
        (
          arg,
          first ∷ rest,
          cc,
          (
            comma_join-cons arg first rest
                ∙ ap (λ t. arg ++ b',' ∷ t) joined
                ∙ sym (comma_join-cons arg next args),
            (e, whole),
          ),
        )
  ]
]

collapse_from-whole :
    (arg : Text) (args : List Text)
    → All IsWhole (arg ∷ args)
    → collapse_from arg args ≡ some (arg ∷ args)
unfolding collapse_from
collapse_from-whole arg [] (e, _) = rw e refl
collapse_from-whole arg (next ∷ args) (e, whole) =
    rw (e, collapse_from) (rw (collapse_from-whole next args whole) refl)

occurrences-append :
    (c : ℕ) (s t : Text) → occurrences c (s ++ t) ≡ occurrences c s + occurrences c t
unfolding occurrences
occurrences-append c [] t = omega arith
occurrences-append c (a ∷ s) t = omega (arith, occurrences-append c s t)

is_cut-angles : (arg : Text) → IsWhole arg → occurrences b'<' arg ≤ occurrences b'>' arg
unfolding is_cut
is_cut-angles arg h = ground arith

whole-angles :
    (first : Text) (rest : List Text)
    → All IsWhole (first ∷ rest)
    → occurrences b'<' (comma_join (first ∷ rest)) ≤ occurrences b'>' (comma_join (first ∷ rest))
unfolding comma_join join occurrences
whole-angles first [] (e, _) = is_cut-angles first e
whole-angles first (next ∷ rest) (e, whole) =
    let less = occurrences-append b'<' first (b',' ∷ comma_join (next ∷ rest)) in
    let more = occurrences-append b'>' first (b',' ∷ comma_join (next ∷ rest)) in
    let ih = whole-angles next rest whole in
    let here = is_cut-angles first e in
    rw (comma_join-cons first next rest) (omega (arith, less, more, ih, here))

-- Where the arguments of a constructor are put together, nothing is lost or added: the commas between the
-- results give the same text. Each result closes what it opens, and putting the results together once more
-- changes nothing.
pub collapse_arguments-IsWhole :
    (args out : List Text)
    → collapse_arguments args ≡ some out
    → (comma_join out ≡ comma_join args) × All IsWhole out × (collapse_arguments out ≡ some out)
unfolding collapse_arguments
collapse_arguments-IsWhole [] out h = let same : [] ≡ out = cc in rw (sym same) (refl, tt, refl)
collapse_arguments-IsWhole (arg ∷ args) out h =
    let (first, rest, same, (joined, whole)) = collapse_from-IsGrouping arg args out h in
    rw same (joined, whole, collapse_from-whole first rest whole)

-- Arguments that open more angle brackets than they close, such as one whose default is a comparison, make
-- the loops ask for an argument behind the last one: they raise an error instead of a result.
pub collapse_arguments-none :
    (arg : Text) (args : List Text)
    → occurrences b'>' (comma_join (arg ∷ args)) < occurrences b'<' (comma_join (arg ∷ args))
    → collapse_arguments (arg ∷ args) ≡ none
unfolding collapse_arguments
collapse_arguments-none arg args h = elim (Option-cases (collapse_from arg args)) [
  | inl e ↦ e
  | inr (out, e) ↦
      let (first, rest, same, (joined, whole)) = collapse_from-IsGrouping arg args out e in
      let angles = whole-angles first rest whole in
      let angles' = rw joined at angles in absurd (omega arith)
]
