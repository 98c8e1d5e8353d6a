-- ===== src/SameModule.antt =====
-- `FilesBelongToSameModule` of scripts/cpplint.py, over the name of the source file in its repository.
pub mod Prefix
pub mod Variants
pub mod Tests
use csci.Prelude.{
  ℕ, ◌-◌, Bool, true, false, not, List, [], ◌∷◌, ◌++◌, Option, none, some, Text, text, ◌==◌,
  if◌then◌else◌, length, take, ends_with, replace,
}
use csci.Regex.{Found, search_in, group_text}
use csci.FileInfo.{is_source, extension, base_name}
use csci.FileData.Included.{test_file_suffix}

-- `s[:-n]`: for 0 it is the empty text.
abbrev pub drop_end : ℕ → Text → Text
drop_end n s = if n == 0 then [] else take (length s - n) s

abbrev pub without_match : Text → Option Found → Text
without_match s none = s
without_match s (some m) = drop_end (length (group_text 1 m)) s

-- `public` and `internal` directories do not count.
unfoldable pub without_visibility : Text → Text
without_visibility s =
    replace (replace s (text "/public/") (text "/")) (text "/internal/") (text "/")

-- The source file without its extension and test suffix; the second text is its name in the repository.
unfoldable pub source_stem : Text → Text → Text
source_stem filename_cc name = without_visibility (
    without_match (drop_end (length (extension name)) filename_cc)
      (search_in test_file_suffix (base_name name)))

abbrev pub without_inl : Text → Text
without_inl s = if ends_with s (text "-inl") then drop_end 4 s else s

-- The header without `.h` and `-inl`.
unfoldable pub header_stem : Text → Text
header_stem filename_h = without_visibility (without_inl (drop_end 2 filename_h))

abbrev pub same_stem : Text → Text → Bool × Text
same_stem cc h = if ends_with cc h then (true, drop_end (length h) cc) else (false, [])

-- `FilesBelongToSameModule`
unfoldable pub files_belong_to_same_module : Text → Text → Text → Bool × Text
files_belong_to_same_module filename_cc name filename_h =
    if not (is_source name)
    then (false, [])
    else if not (ends_with filename_h (text ".h"))
    then (false, [])
    else same_stem (source_stem filename_cc name) (header_stem filename_h)
