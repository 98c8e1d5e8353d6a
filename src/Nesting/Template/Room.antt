-- ===== src/Nesting/Template/Room.antt =====
-- What is left of the lines behind a position, which bounds the rounds of `InTemplateArgumentList`.
use csci.Prelude.{
  ℕ, zero, suc, ◌+◌, ◌-◌, ◌≤◌, ◌<◌, ◌≡◌, refl, List, [], ◌∷◌, arith, Text, length, drop, get_or,
}
use csci.Nesting.Template.{size}

-- The characters of the lines and one more for each; and that from a position in the first line on.
abbrev pub room : List Text → ℕ
room [] = 0
room (line ∷ lines) = length line + 1 + room lines

abbrev pub room_from : List Text → ℕ → ℕ
room_from [] pos = 0
room_from (line ∷ lines) pos = (length line - pos) + 1 + room lines

pub room_from-le : (lines : List Text) (pos : ℕ) → room_from lines pos ≤ room lines
room_from-le [] pos = omega arith
room_from-le (line ∷ lines) pos = omega arith

pub room-drop : (n : ℕ) (lines : List Text) → room (drop n lines) ≤ room lines
room-drop zero lines = omega arith
room-drop (suc n) [] = omega arith
room-drop (suc n) (line ∷ lines) = omega (arith, room-drop n lines)

pub room-drop_le : (i j : ℕ) (lines : List Text) → i ≤ j → room (drop j lines) ≤ room (drop i lines)
room-drop_le zero j lines le = room-drop j lines
room-drop_le (suc i) zero lines le = absurd (omega arith)
room-drop_le (suc i) (suc j) [] le = omega arith
room-drop_le (suc i) (suc j) (line ∷ lines) le = room-drop_le i j lines (omega arith)

pub size-room : (lines : List Text) → size lines ≡ room lines + 1
size-room [] = refl
size-room (line ∷ lines) = omega (arith, size-room lines)

pub drop_at :
    (n : ℕ) (lines : List Text)
    → n < length lines
    → drop n lines ≡ get_or lines n [] ∷ drop (suc n) lines
drop_at n [] lt = absurd (omega arith)
drop_at zero (line ∷ lines) lt = refl
drop_at (suc n) (line ∷ lines) lt = drop_at n lines (omega arith)
