-- ===== src/HeaderGuard/Scan/First.antt =====
-- The loop over the lines against its description: the first #ifndef and the first #define with an
-- argument, and the last #endif.
use csci.Prelude.{
  ℕ, suc, ◌≡◌, ◌≢◌, refl, sym, ap, ◌∙◌, inl, inr, List, [], ◌∷◌, Option, none, some, arith, Text,
  text, text_eq, starts_with, split_words, words_from, end_word, is_space, All, Option-cases,
  Bool-cases, if◌then◌else◌,
}
use mathlib.Core.List.{reverse, reverse-reverse}
use csci.HeaderGuard.Scan.{Guard, no_guard, argument_in, guard_line, find_guard}

-- The first line, from a number on, whose first word is the directive and which has a second word.
abbrev pub first_argument : Text → ℕ → List Text → Option (ℕ × Text)
first_argument directive n [] = none
first_argument directive n (line ∷ lines) = elim (argument_in directive (split_words line)) [
  | some v ↦ some (n, v)
  | none ↦ first_argument directive (suc n) lines
]

-- The last line that starts with #endif.
abbrev pub last_endif : ℕ → List Text → Option (ℕ × Text)
last_endif n [] = none
last_endif n (line ∷ lines) = elim (last_endif (suc n) lines) [
  | some r ↦ some r
  | none ↦ if starts_with line (text "#endif") then some (n, line) else none
]

-- A text and the number of its line; without one, the empty text and 0.
abbrev pub text_at : Option (ℕ × Text) → Text
text_at none = []
text_at (some (n, t)) = t

abbrev pub line_at : Option (ℕ × Text) → ℕ
line_at none = 0
line_at (some (n, t)) = n

abbrev Found : Type 0
Found = Text × ℕ

-- What is found first stays.
settle : Found → Option (ℕ × Text) → Found
settle ([], k) none = ([], k)
settle ([], k) (some (n, v)) = (v, n)
settle (c ∷ t, k) o = (c ∷ t, k)

-- What is found last counts.
replace_by : Found → Option (ℕ × Text) → Found
replace_by p none = p
replace_by p (some (n, v)) = (v, n)

settle-none : (p : Found) → settle p none ≡ p
unfolding settle
settle-none ([], k) = refl
settle-none (c ∷ t, k) = refl

reverse-ne-nil : (c : ℕ) (w : Text) → reverse (c ∷ w) ≢ []
reverse-ne-nil c w h = let e = sym (reverse-reverse (c ∷ w)) ∙ ap reverse h in cc

end_word-IsFull :
    (w : Text) (ws : List Text) → All (λ w. w ≢ []) ws → All (λ w. w ≢ []) (end_word w ws)
end_word-IsFull [] ws h = h
end_word-IsFull (c ∷ w) ws h = (reverse-ne-nil c w, h)

words_from-IsFull : (w s : Text) → All (λ w. w ≢ []) (words_from w s)
unfolding words_from
words_from-IsFull w [] = end_word-IsFull w [] tt
words_from-IsFull w (c ∷ s) = elim (Bool-cases (is_space c)) [
  | inl e ↦ rw e (end_word-IsFull w _ (words_from-IsFull [] s))
  | inr e ↦ rw e (words_from-IsFull (c ∷ w) s)
]

argument_in-IsFull :
    (directive line v : Text) → argument_in directive (split_words line) ≡ some v → v ≢ []
unfolding split_words
argument_in-IsFull directive line v h = of (words_from [] line) (words_from-IsFull [] line) h
  where
    of :
        (words : List Text)
        → All (λ w. w ≢ []) words
        → argument_in directive words ≡ some v
        → v ≢ []
    of [] full e = cc
    of (w ∷ []) full e = cc
    of (w ∷ u ∷ words) (_, (full, _)) e = elim (Bool-cases (text_eq w directive)) [
      | inl t ↦ λ z. full (ground arith)
      | inr t ↦ ground arith
    ]

abbrev of_ifndef : Guard → Found
of_ifndef g = (g.ifndef, g.ifndef_linenum)

abbrev of_endif : Guard → Found
of_endif g = (g.endif, g.endif_linenum)

settled :
    (p : Found) (n : ℕ) (v : Text) (o : Option (ℕ × Text))
    → v ≢ []
    → settle (settle p (some (n, v))) o ≡ settle p (some (n, v))
unfolding settle
settled ([], k) n [] o h = absurd (h refl)
settled ([], k) n (c ∷ v) o h = refl
settled (c ∷ t, k) n v o h = refl

abbrev at_line : ℕ → Option Text → Option (ℕ × Text)
at_line n none = none
at_line n (some v) = some (n, v)

-- What a round does to the three fields.
guard_line-ifndef :
    (n : ℕ) (line : Text) (g : Guard)
    → of_ifndef (guard_line n line g)
      ≡ settle (of_ifndef g) (at_line n (argument_in (text "#ifndef") (split_words line)))
unfolding guard_line settle
guard_line-ifndef n line g = ground arith

guard_line-define :
    (n k : ℕ) (line : Text) (g : Guard)
    → (guard_line n line g).define
      ≡ (settle (g.define, k) (at_line n (argument_in (text "#define") (split_words line)))).0
unfolding guard_line settle
guard_line-define n k line g = ground arith

guard_line-endif :
    (n : ℕ) (line : Text) (g : Guard)
    → of_endif (guard_line n line g)
      ≡ (if starts_with line (text "#endif") then (line, n) else of_endif g)
unfolding guard_line
guard_line-endif n line g = ground arith

-- A first argument, and then the rest.
settle-first_argument :
    (directive : Text) (p : Found) (n : ℕ) (line : Text) (lines : List Text)
    → settle
        (settle p (at_line n (argument_in directive (split_words line))))
        (first_argument directive (suc n) lines)
      ≡ settle p (first_argument directive n (line ∷ lines))
settle-first_argument directive p n line lines =
    elim (Option-cases (argument_in directive (split_words line))) [
      | inl e ↦ rw (e, first_argument) (ap (λ q. settle q _) (settle-none p))
      | inr (v, e) ↦
          rw (e, first_argument) (settled p n v _ (argument_in-IsFull directive line v e))
    ]

find_guard-ifndef :
    (n : ℕ) (lines : List Text) (g : Guard)
    → of_ifndef (find_guard n lines g)
      ≡ settle (of_ifndef g) (first_argument (text "#ifndef") n lines)
unfolding find_guard
find_guard-ifndef n [] g = sym (settle-none (of_ifndef g))
find_guard-ifndef n (line ∷ lines) g =
    find_guard-ifndef (suc n) lines (guard_line n line g)
    ∙ ap (λ p. settle p (first_argument (text "#ifndef") (suc n) lines))
        (guard_line-ifndef n line g)
    ∙ settle-first_argument (text "#ifndef") (of_ifndef g) n line lines

find_guard-define :
    (n k : ℕ) (lines : List Text) (g : Guard)
    → (find_guard n lines g).define
      ≡ (settle (g.define, k) (first_argument (text "#define") n lines)).0
unfolding find_guard
find_guard-define n k [] g = ap (λ p. p.0) (sym (settle-none (g.define, k)))
find_guard-define n k (line ∷ lines) g =
    let p = settle (g.define, k) (at_line n (argument_in (text "#define") (split_words line))) in
    find_guard-define (suc n) p.1 lines (guard_line n line g)
    ∙ ap (λ t. (settle (t, p.1) (first_argument (text "#define") (suc n) lines)).0)
        (guard_line-define n k line g)
    ∙ ap (λ q. q.0) (settle-first_argument (text "#define") (g.define, k) n line lines)

find_guard-endif :
    (n : ℕ) (lines : List Text) (g : Guard)
    → of_endif (find_guard n lines g) ≡ replace_by (of_endif g) (last_endif n lines)
unfolding find_guard replace_by
find_guard-endif n [] g = refl
find_guard-endif n (line ∷ lines) g =
    ground (arith, find_guard-endif (suc n) lines (guard_line n line g), guard_line-endif n line g)

settle-nothing : (o : Option (ℕ × Text)) → settle ([], 0) o ≡ (text_at o, line_at o)
unfolding settle
settle-nothing none = refl
settle-nothing (some (n, t)) = refl

replace_by-nothing : (o : Option (ℕ × Text)) → replace_by ([], 0) o ≡ (text_at o, line_at o)
unfolding replace_by
replace_by-nothing none = refl
replace_by-nothing (some (n, t)) = refl

-- The loop of CheckForHeaderGuard finds the first #ifndef and the first #define that have an argument, each
-- with that argument, and the last line that starts with #endif; without one, the empty text and line 0.
pub find_guard_lem :
    (lines : List Text)
    → find_guard 0 lines no_guard ≡ record {
      ifndef = text_at (first_argument (text "#ifndef") 0 lines);
      ifndef_linenum = line_at (first_argument (text "#ifndef") 0 lines);
      define = text_at (first_argument (text "#define") 0 lines);
      endif = text_at (last_endif 0 lines);
      endif_linenum = line_at (last_endif 0 lines);
    }
find_guard_lem lines =
    let a =
      find_guard-ifndef 0 lines no_guard
      ∙ settle-nothing (first_argument (text "#ifndef") 0 lines) in
    let b =
      find_guard-define 0 0 lines no_guard
      ∙ ap (λ p. p.0) (settle-nothing (first_argument (text "#define") 0 lines)) in
    let c = find_guard-endif 0 lines no_guard ∙ replace_by-nothing (last_endif 0 lines) in
    λ i. record {
      ifndef = (a i).0;
      ifndef_linenum = (a i).1;
      define = b i;
      endif = (c i).0;
      endif_linenum = (c i).1;
    }
