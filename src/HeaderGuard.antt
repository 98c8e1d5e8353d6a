-- ===== src/HeaderGuard.antt =====
-- The name of the header guard that scripts/cpplint.py expects of a file.
pub mod Scan
pub mod Name
pub mod Check
pub mod Tests
use csci.Prelude.{
  ℕ, Bool, not, Option, none, some, Text, text, if◌then◌else◌, take, replace, is_upper, is_lower,
  is_digit, map, [], ◌∷◌, ◌++◌, ◌+◌, ◌==◌, ◌||◌, upper_char,
}
use csci.Regex.{
  Regex, Found, match, search_in, replace_all, group_text, start_of, one, seq, star, group, lit,
  at_end,
}
use csci.Files.{Files}
use csci.FileInfo.{repository_name}
use csci.Session.{Ending, ended, raised, unfinished, bad_pattern}

-- `_flymake\.h$`
unfoldable pub flymake_header : Regex
unfolding lit text
flymake_header = seq (lit (text "_flymake.h")) at_end

-- `/\.flymake/([^/]*)$`
unfoldable pub flymake_dir : Regex
unfolding lit text
flymake_dir =
    seq (lit (text "/.flymake/")) (seq (group 1 (star (one (λ c. not (c == b'/'))))) at_end)

-- `re.sub` of that pattern by `/\1`. A match runs to the end of the name, so there is one at most.
abbrev pub without_flymake_dir : Text → Option Found → Text
without_flymake_dir s none = s
without_flymake_dir s (some m) = take (start_of m) s ++ b'/' ∷ (group_text 1 m ++ m.to.rest)

-- `[^a-zA-Z0-9]`
abbrev pub is_letter_or_digit : ℕ → Bool
is_letter_or_digit c = is_lower c || (is_upper c || is_digit c)

-- The path as a name of the preprocessor.
unfoldable pub guard_name : Text → Text
guard_name path = map (λ c. upper_char (if is_letter_or_digit c then c else b'_')) path ++ b'_' ∷ []

-- `re.sub('^' + _root + os.sep, '', path)`; `none` is `re.error`.
abbrev pub below_root : Files → Option Text → Text → Option Text
below_root files none path = some path
below_root files (some []) path = some path
below_root files (some (c ∷ root)) path = elim (files.compile (b'^' ∷ (c ∷ root) ++ text "/")) [
  | none ↦ none
  | some r ↦ some (replace_all r [] path)
]

-- The name of the file, as it is looked up.
unfoldable pub guard_file : Text → Text
guard_file filename =
    let no_suffix = replace_all flymake_header (text ".h") filename in
    let no_dir = without_flymake_dir no_suffix (search_in flymake_dir no_suffix) in
    replace (replace no_dir (text "C++") (text "cpp")) (text "c++") (text "cpp")

abbrev pub guard_below : Option Text → Ending Text
guard_below none = raised bad_pattern
guard_below (some path) = ended (guard_name path)

abbrev pub guard_from : Files → Option Text → Option Text → Ending Text
guard_from files root none = unfinished
guard_from files root (some path) = guard_below (below_root files root path)

-- `GetHeaderGuardCPPVariable`
unfoldable pub get_header_guard_cpp_variable : Files → ℕ → Option Text → Text → Ending Text
unfolding guard_name guard_file
get_header_guard_cpp_variable files fuel root filename =
    guard_from files root (repository_name files fuel (guard_file filename))
