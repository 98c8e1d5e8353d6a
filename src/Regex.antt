-- ===== src/Regex.antt =====
-- What cpplint uses of Python's `re`: a backtracking matcher over the positions of a text, greedy and
-- lazy repetition, groups, `^ $ \b`, lookahead, and a lookbehind of one character. `Match`, `Search`
-- and `ReplaceAll` of scripts/cpplint.py are the last definitions; their cache of compiled patterns
-- is not visible to a caller, so it is left out.

pub mod Meaning
pub mod Correct
pub mod Search
pub mod Repeat
pub mod Width
pub mod Tests
use csci.Prelude.Dict.{get, put}
use csci.Prelude.{
  ℕ, zero, suc, ◌-◌, Bool, true, false, not, List, [], ◌∷◌, ◌++◌, Option, none, some, Text, text,
  text_eq, text_lt, starts_with, ends_with, find, replace, count, strip, lower, upper, split_on,
  split_words, join, decimal, is_word, ltb, ◌==◌, if◌then◌else◌, length, take,
}

pub data Regex : Type 0 where
  empty : Regex
  one : (ℕ → Bool) → Regex
  seq : Regex → Regex → Regex
  alt : Regex → Regex → Regex
  star : Regex → Regex
  lazy : Regex → Regex
  group : ℕ → Regex → Regex
  followed_by : Regex → Regex
  not_followed_by : Regex → Regex
  not_after : (ℕ → Bool) → Regex
  at_start : Regex
  at_end : Regex
  boundary : Regex

-- A position: what stands before it, nearest first, what stands behind it, and the groups so far.
pub record Cursor : Type 0 where
  pub before : Text
  pub rest : Text
  pub groups : List (ℕ × Text)

abbrev pub cursor_at_start : Text → Cursor
cursor_at_start s = record { before = []; rest = s; groups = [] }

-- The text from one position up to a later one.
abbrev pub between : Cursor → Cursor → Text
between c d = take (length c.rest - length d.rest) c.rest

abbrev pub advance : ℕ → Text → Cursor → Cursor
advance x s c = record { before = x ∷ c.before; rest = s; groups = c.groups }

abbrev pub capture : ℕ → Cursor → Cursor → Cursor
capture n c d = record d { groups = (n, between c d) ∷ d.groups }

abbrev pub head_is : (ℕ → Bool) → Text → Bool
head_is p [] = false
head_is p (x ∷ s) = p x

abbrev pub is_end : Text → Bool
is_end [] = true
is_end (x ∷ []) = x == 10
is_end (x ∷ y ∷ s) = false

abbrev pub is_boundary : Cursor → Bool
is_boundary c =
    if head_is is_word c.before then not (head_is is_word c.rest) else head_is is_word c.rest

module _ {A : Type 0} where
  abbrev pub step_one : (ℕ → Bool) → Text → Cursor → (Cursor → Option A) → Option A
  step_one p [] c k = none
  step_one p (x ∷ s) c k = elim (p x) [ true ↦ k (advance x s c) | false ↦ none ]

  -- Rounds of a repetition; a round that reads nothing ends it, as in `re`.
  unfoldable pub rounds :
      (Cursor → (Cursor → Option A) → Option A) → ℕ → Cursor → (Cursor → Option A) → Option A
  rounds m zero c k = k c
  rounds m (suc n) c k =
      elim (m c (λ d. elim (ltb (length d.rest) (length c.rest)) [
        | true ↦ rounds m n d k
        | false ↦ none
      ])) [ some a ↦ some a | none ↦ k c ]

  unfoldable pub lazy_rounds :
      (Cursor → (Cursor → Option A) → Option A) → ℕ → Cursor → (Cursor → Option A) → Option A
  lazy_rounds m zero c k = k c
  lazy_rounds m (suc n) c k = elim (k c) [
    | some a ↦ some a
    | none ↦ m c (λ d. elim (ltb (length d.rest) (length c.rest)) [
      | true ↦ lazy_rounds m n d k
      | false ↦ none
    ])
  ]

-- The first way to match `r` at the position from which `k` succeeds.
unfoldable pub run : Regex → {A : Type 0} → Cursor → (Cursor → Option A) → Option A
unfolding rounds lazy_rounds
run empty c k = k c
run (one p) c k = step_one p c.rest c k
run (seq r s) c k = run r c (λ d. run s d k)
run (alt r s) c k = elim (run r c k) [ some a ↦ some a | none ↦ run s c k ]
run (star r) c k = rounds (λ d j. run r d j) (length c.rest) c k
run (lazy r) c k = lazy_rounds (λ d j. run r d j) (length c.rest) c k
run (group n r) c k = run r c (λ d. k (capture n c d))
run (followed_by r) c k = elim (run r c (λ d. some tt)) [ some u ↦ k c | none ↦ none ]
run (not_followed_by r) c k = elim (run r c (λ d. some tt)) [ some u ↦ none | none ↦ k c ]
run (not_after p) c k = elim (head_is p c.before) [ true ↦ none | false ↦ k c ]
run at_start c k = elim c.before [ [] ↦ k c | x ∷ s ↦ none ]
run at_end c k = elim (is_end c.rest) [ true ↦ k c | false ↦ none ]
run boundary c k = elim (is_boundary c) [ true ↦ k c | false ↦ none ]

-- A match object.
pub record Found : Type 0 where
  pub from : Cursor
  pub to : Cursor

unfoldable pub match_at : Regex → Cursor → Option Found
unfolding run
match_at r c = run r c (λ d. some (record { from = c; to = d }))

-- `Match(pattern, s)`: at the beginning of the text.
unfoldable pub match : Regex → Text → Option Found
unfolding match_at
match r s = match_at r (cursor_at_start s)

unfoldable pub search_from : Regex → Text → Text → Option Found
unfolding match_at
search_from r before [] = match_at r (record { before = before; rest = []; groups = [] })
search_from r before (x ∷ s) =
    elim (match_at r (record { before = before; rest = x ∷ s; groups = [] })) [
      | some m ↦ some m
      | none ↦ search_from r (x ∷ before) s
    ]

-- `Search(pattern, s)`: at the first position where there is one.
unfoldable pub search_in : Regex → Text → Option Found
unfolding search_from
search_in r s = search_from r [] s

-- `bool(Match(..))` and `bool(Search(..))`.
abbrev pub found : Option Found → Bool
found none = false
found (some m) = true

-- `m.group(0)`, `m.start()`, `m.group(n)`.
abbrev pub whole : Found → Text
whole m = between m.from m.to

abbrev pub start_of : Found → ℕ
start_of m = length m.from.before

unfoldable pub group_in : ℕ → List (ℕ × Text) → Option Text
group_in n [] = none
group_in n ((j, t) ∷ g) = if n == j then some t else group_in n g

abbrev pub group_of : ℕ → Found → Option Text
group_of n m = group_in n m.to.groups

abbrev pub group_text : ℕ → Found → Text
group_text n m = elim (group_in n m.to.groups) [ none ↦ [] | some t ↦ t ]

-- `pattern.sub(rep, s)` for a `rep` with no reference to a group. The number is what is still to be
-- skipped of the last match, the flag says that it ended here: an empty match is replaced only if no
-- match ends where it stands.
unfoldable pub sub_from : Regex → Text → ℕ → Bool → Text → Text → Text
unfolding match_at
sub_from r rep (suc k) touching before [] = []
sub_from r rep zero touching before [] =
    elim (match_at r (record { before = before; rest = []; groups = [] })) [
      | none ↦ []
      | some m ↦ if touching then [] else rep
    ]
sub_from r rep (suc k) touching before (x ∷ s) = sub_from r rep k true (x ∷ before) s
sub_from r rep zero touching before (x ∷ s) =
    elim (match_at r (record { before = before; rest = x ∷ s; groups = [] })) [
      | none ↦ x ∷ sub_from r rep 0 false (x ∷ before) s
      | some m ↦ elim (whole m) [
        | [] ↦ (if touching then [] else rep) ++ x ∷ sub_from r rep 0 false (x ∷ before) s
        | y ∷ w ↦ rep ++ sub_from r rep (length w) true (x ∷ before) s
      ]
    ]

unfoldable pub replace_all : Regex → Text → Text → Text
unfolding sub_from
replace_all r rep s = sub_from r rep 0 false [] s

-- The rest of the notation of a pattern.
abbrev pub plus : Regex → Regex
plus r = seq r (star r)

abbrev pub opt : Regex → Regex
opt r = alt r empty

abbrev pub chr : ℕ → Regex
chr c = one (λ x. x == c)

-- `.`
abbrev pub dot : Regex
dot = one (λ x. not (x == 10))

unfoldable pub lit : Text → Regex
lit [] = empty
lit (c ∷ s) = seq (chr c) (lit s)

-- A test names this on its `unfolding` line to compute with texts, dictionaries and patterns.
unfoldable pub evaluation : Unit {0}
unfolding text text_eq text_lt starts_with ends_with find replace count strip lower upper split_on
    split_words join decimal get put lit group_in match search_in replace_all
evaluation = tt
