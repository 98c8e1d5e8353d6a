-- ===== src/Paths.antt =====
-- What scripts/cpplint.py uses of Python's `os.path` on paths with slashes.
pub mod Shorter
use csci.Prelude.{
  ℕ, Bool, true, false, List, [], ◌∷◌, ◌++◌, Option, none, some, Text, text, ◌==◌, if◌then◌else◌,
  starts_with, ends_with,
}

-- The text before the last occurrence of a character, and the text behind it.
unfoldable pub split_last : ℕ → Text → Option (Text × Text)
split_last c [] = none
split_last c (x ∷ s) = elim (split_last c s) [
  | some (a, b) ↦ some (x ∷ a, b)
  | none ↦ if x == c then some ([], s) else none
]

-- `s.rstrip(c)` for one character.
unfoldable pub strip_end : ℕ → Text → Text
strip_end c [] = []
strip_end c (x ∷ s) = elim (strip_end c s) [
  | [] ↦ if x == c then [] else x ∷ []
  | y ∷ t ↦ x ∷ y ∷ t
]

abbrev pub or_else : Text → Text → Text
or_else [] t = t
or_else (c ∷ s) t = c ∷ s

-- A head that ends in slashes: they go, unless there is nothing else.
abbrev pub without_slashes : Text → Text
without_slashes head = or_else (strip_end b'/' head) head

abbrev pub split_at : Text → Option (Text × Text) → Text × Text
split_at p none = ([], p)
split_at p (some (a, b)) = (without_slashes (a ++ b'/' ∷ []), b)

-- `os.path.split`, `os.path.dirname`
unfoldable pub split : Text → Text × Text
unfolding split_last strip_end
split p = split_at p (split_last b'/' p)

abbrev pub dirname : Text → Text
dirname p = (split p).0

-- `os.path.join`
unfoldable pub join_path : Text → Text → Text
join_path a b = if starts_with b (text "/") then b else elim a [
  | [] ↦ b
  | c ∷ s ↦ if ends_with (c ∷ s) (text "/") then (c ∷ s) ++ b else (c ∷ s) ++ b'/' ∷ b
]

abbrev pub only_dots : Text → Bool
only_dots [] = true
only_dots (c ∷ s) = if c == b'.' then only_dots s else false

abbrev pub extension_at : Text → Option (Text × Text) → Text × Text
extension_at p none = (p, [])
extension_at p (some (a, b)) = if only_dots a then (p, []) else (a, b'.' ∷ b)

-- `os.path.splitext` of a name without a slash: leading dots begin no extension.
unfoldable pub split_ext : Text → Text × Text
unfolding split_last
split_ext p = extension_at p (split_last b'.' p)

-- `os.path.commonprefix` of two paths.
unfoldable pub common_prefix : Text → Text → Text
common_prefix [] t = []
common_prefix (a ∷ s) [] = []
common_prefix (a ∷ s) (b ∷ t) = if a == b then a ∷ common_prefix s t else []
