-- ===== src/HeaderGuard/Name.antt =====
-- The letters of the expected header guard.
use csci.Prelude.{
  ℕ, ◌≡◌, refl, Bool, true, ◌||◌, [], ◌∷◌, Option, none, some, arith, Text, ◌==◌, if◌then◌else◌,
  is_upper, is_digit, upper_char, All,
}
use csci.Files.{Files}
use csci.FileInfo.{repository_name}
use csci.Session.{ended}
use csci.HeaderGuard.{
  is_letter_or_digit, guard_name, guard_file, below_root, guard_below, guard_from,
  get_header_guard_cpp_variable,
}

-- An upper case letter, a digit or an underscore.
abbrev pub is_guard_char : ℕ → Bool
is_guard_char c = is_upper c || (is_digit c || c == b'_')

abbrev pub IsGuardName : Text → Type 0
IsGuardName = All (λ c. is_guard_char c ≡ true)

upper_char-guard :
    (c : ℕ) → is_guard_char (upper_char (if is_letter_or_digit c then c else b'_')) ≡ true
upper_char-guard c = ground arith

guard_name-IsGuardName : (path : Text) → IsGuardName (guard_name path)
unfolding guard_name
guard_name-IsGuardName [] = (refl, tt)
guard_name-IsGuardName (c ∷ path) = (upper_char-guard c, guard_name-IsGuardName path)

-- Whenever GetHeaderGuardCPPVariable returns, its name has no other characters than upper case letters,
-- digits and underscores, so that it stands for itself in the patterns that it is put in.
pub get_header_guard-IsGuardName :
    (files : Files) (fuel : ℕ) (root : Option Text) (filename cppvar : Text)
    → get_header_guard_cpp_variable files fuel root filename ≡ ended cppvar
    → IsGuardName cppvar
unfolding get_header_guard_cpp_variable
get_header_guard-IsGuardName files fuel root filename cppvar =
    of_name (repository_name files fuel (guard_file filename))
  where
    of_path : (o : Option Text) → guard_below o ≡ ended cppvar → IsGuardName cppvar
    of_path none e = cc
    of_path (some path) e =
        let same : guard_name path ≡ cppvar = cc in rw (← same) (guard_name-IsGuardName path)

    of_name : (o : Option Text) → guard_from files root o ≡ ended cppvar → IsGuardName cppvar
    of_name none e = cc
    of_name (some path) e = of_path (below_root files root path) e
