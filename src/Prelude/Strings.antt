-- ===== src/Prelude/Strings.antt =====
-- A Python string is the list of its code points. The operations are those of `str`.
use Prim.Native.Nat.{ℕ, zero, suc, ◌+◌, ◌-◌, ◌/◌, ◌%◌}
use Prim.Native.Char.{code}
use Prim.Native.String.{String}
use mathlib.Core.Path.{◌≡◌, refl}
use mathlib.Core.Logic.{◌↔◌}
use mathlib.Core.Bool.{Bool, true, false, ◌&&◌, ◌||◌}
use mathlib.Core.List.{List, [], ◌∷◌, ◌++◌, reverse, map}
use mathlib.Core.Option.{Option, none, some}
use native.Mathlib.Omega.{arith}
use csci.Prelude.Tests.{ltb, leb, ◌==◌, if◌then◌else◌}
use csci.Prelude.Lists.{length}

abbrev pub Text : Type 0
Text = List ℕ

-- A literal. It stays folded in goals, and a test unfolds it.
unfoldable pub text : String → Text
text String.[] = []
text (String.◌∷◌ c s) = code c ∷ text s

abbrev pub is_space : ℕ → Bool
is_space c = c == 32 || (leb 9 c && leb c 13)

abbrev pub is_digit : ℕ → Bool
is_digit c = leb b'0' c && leb c b'9'

abbrev pub is_upper : ℕ → Bool
is_upper c = leb b'A' c && leb c b'Z'

abbrev pub is_lower : ℕ → Bool
is_lower c = leb b'a' c && leb c b'z'

-- `\w` without `re.UNICODE`.
abbrev pub is_word : ℕ → Bool
is_word c = is_lower c || (is_upper c || (is_digit c || c == b'_'))

unfoldable pub text_eq : Text → Text → Bool
text_eq [] [] = true
text_eq [] (b ∷ t) = false
text_eq (a ∷ s) [] = false
text_eq (a ∷ s) (b ∷ t) = a == b && text_eq s t

pub text_eq_iff : (s t : Text) → (text_eq s t ≡ true) ↔ (s ≡ t)
unfolding text_eq
text_eq_iff [] [] = (λ _. refl, λ _. refl)
text_eq_iff [] (b ∷ t) = (λ h. cc, λ h. cc)
text_eq_iff (a ∷ s) [] = (λ h. cc, λ h. cc)
text_eq_iff (a ∷ s) (b ∷ t) = let ih = text_eq_iff s t in (λ h. ground arith, λ h. ground arith)

-- `s < t`: the order of the first code points that differ.
unfoldable pub text_lt : Text → Text → Bool
text_lt s [] = false
text_lt [] (b ∷ t) = true
text_lt (a ∷ s) (b ∷ t) = ltb a b || (a == b && text_lt s t)

-- `s.startswith(p)`.
unfoldable pub starts_with : Text → Text → Bool
starts_with s [] = true
starts_with [] (b ∷ p) = false
starts_with (a ∷ s) (b ∷ p) = a == b && starts_with s p

-- `s.endswith(p)`.
unfoldable pub ends_with : Text → Text → Bool
unfolding starts_with
ends_with s p = starts_with (reverse s) (reverse p)

-- `s.find(p)`, where `none` is the -1.
unfoldable pub find : Text → Text → Option ℕ
unfolding starts_with
find [] p = if starts_with [] p then some 0 else none
find (a ∷ s) p = elim (starts_with (a ∷ s) p) [
  | true ↦ some 0
  | false ↦ elim (find s p) [ none ↦ none | some i ↦ some (suc i) ]
]

-- `s.replace(old, new)` for an `old` that is not empty: the first argument skips what was taken.
unfoldable pub replace_from : ℕ → Text → Text → Text → Text
unfolding starts_with
replace_from k [] old new = []
replace_from zero (a ∷ s) old new = elim (starts_with (a ∷ s) old) [
  | true ↦ new ++ replace_from (length old - 1) s old new
  | false ↦ a ∷ replace_from 0 s old new
]
replace_from (suc k) (a ∷ s) old new = replace_from k s old new

unfoldable pub replace : Text → Text → Text → Text
unfolding replace_from
replace s old new = replace_from 0 s old new

-- `s.count(p)` for a `p` that is not empty: occurrences that do not overlap.
unfoldable pub count_from : ℕ → Text → Text → ℕ
unfolding starts_with
count_from k [] p = 0
count_from zero (a ∷ s) p = elim (starts_with (a ∷ s) p) [
  | true ↦ suc (count_from (length p - 1) s p)
  | false ↦ count_from 0 s p
]
count_from (suc k) (a ∷ s) p = count_from k s p

unfoldable pub count : Text → Text → ℕ
unfolding count_from
count s p = count_from 0 s p

abbrev pub lstrip : Text → Text
lstrip [] = []
lstrip (c ∷ s) = if is_space c then lstrip s else c ∷ s

unfoldable pub rstrip : Text → Text
rstrip s = reverse (lstrip (reverse s))

unfoldable pub strip : Text → Text
unfolding rstrip
strip s = rstrip (lstrip s)

abbrev pub lower_char : ℕ → ℕ
lower_char c = if is_upper c then c + 32 else c

abbrev pub upper_char : ℕ → ℕ
upper_char c = if is_lower c then c - 32 else c

-- `s.lower()` and `s.upper()` on ASCII.
unfoldable pub lower : Text → Text
lower = map lower_char

unfoldable pub upper : Text → Text
upper = map upper_char

-- `s.split(c)` for one character.
unfoldable pub split_on : ℕ → Text → List Text
split_on sep [] = [] ∷ []
split_on sep (c ∷ s) = elim (split_on sep s) [
  | [] ↦ (c ∷ []) ∷ []
  | w ∷ ws ↦ if c == sep then [] ∷ w ∷ ws else (c ∷ w) ∷ ws
]

-- `s.split()`: the words between blanks. The first text is the word that is read, backwards.
abbrev pub end_word : Text → List Text → List Text
end_word [] ws = ws
end_word (c ∷ w) ws = reverse (c ∷ w) ∷ ws

unfoldable pub words_from : Text → Text → List Text
words_from word [] = end_word word []
words_from word (c ∷ s) =
    let blank = words_from [] s in
    let letter = words_from (c ∷ word) s in if is_space c then end_word word blank else letter

unfoldable pub split_words : Text → List Text
unfolding words_from
split_words s = words_from [] s

-- `sep.join(parts)`.
unfoldable pub join : Text → List Text → Text
join sep [] = []
join sep (p ∷ []) = p
join sep (p ∷ q ∷ ps) = p ++ sep ++ join sep (q ∷ ps)

-- `str(n)`: the fuel is more than the number of digits.
unfoldable pub digits_before : ℕ → ℕ → Text → Text
digits_before zero n out = out
digits_before (suc f) n out = elim (ltb n 10) [
  | true ↦ (b'0' + n) ∷ out
  | false ↦ digits_before f (n / 10) ((b'0' + n % 10) ∷ out)
]

unfoldable pub decimal : ℕ → Text
unfolding digits_before
decimal n = digits_before (suc n) n []
