-- ===== src/FileData/Included.antt =====
-- `CheckHeaderFileIncluded` of scripts/cpplint.py: whether a source file includes its own header.
use csci.Prelude.{
  ℕ, zero, suc, ◌-◌, Bool, true, false, not, ◌&&◌, ◌||◌, List, [], ◌∷◌, ◌++◌, Option, none, some,
  Text, text, if◌then◌else◌, length, take, find,
}
use csci.Regex.{Regex, seq, alt, group, at_end, chr, lit, search_in, found}
use csci.Report.{report}
use csci.IncludeState.{IncludeState}
use csci.Files.{Files}
use csci.FileInfo.{repository_name, base_name, extension}
use csci.Session.{ended, unfinished, Run, ◌>>=◌, pass, when, report_all}

-- `_TEST_FILE_SUFFIX`
unfoldable pub test_file_suffix : Regex
unfolding lit text
test_file_suffix =
    seq
      (group 1 (
        seq (chr b'_')
          (alt (lit (text "test")) (alt (lit (text "unittest")) (lit (text "regtest"))))))
      at_end

abbrev pub is_in : Text → Text → Bool
is_in t s = elim (find s t) [ none ↦ false | some i ↦ true ]

-- `if not first_include: first_include = f[1]`
abbrev pub first_of : ℕ → ℕ → ℕ
first_of zero line = line
first_of (suc n) line = suc n

-- The loops over the includes: `none` if one of them is the header, and else the first line with an include.
unfoldable pub find_own_header : Text → List (Text × ℕ) → ℕ → Option ℕ
find_own_header headername [] first_include = some first_include
find_own_header headername ((f, line) ∷ section_list) first_include =
    if is_in headername f || is_in f headername
    then none
    else find_own_header headername section_list (first_of first_include line)

unfoldable pub find_in_sections : Text → List (List (Text × ℕ)) → ℕ → Option ℕ
unfolding find_own_header
find_in_sections headername [] first_include = some first_include
find_in_sections headername (section_list ∷ lists) first_include =
    elim (find_own_header headername section_list first_include) [
      | none ↦ none
      | some n ↦ find_in_sections headername lists n
    ]

-- `FileInfo(name).RepositoryName()`, as a call.
abbrev pub ask_name : Files → ℕ → Text → Run Text
ask_name files fuel name s =
    (elim (repository_name files fuel name) [ none ↦ unfinished | some n ↦ ended n ], s)

abbrev pub own_header_report : Text → Text → Text → Option ℕ → Run (Unit {0})
own_header_report filename name headername none = pass tt
own_header_report filename name headername (some first_include) = report_all filename (
    report first_include (text "build/include") 5
      (name ++ text " should include its header file " ++ headername))

-- The part of `CheckHeaderFileIncluded` for a header that exists.
unfoldable pub check_own_header : Files → ℕ → Text → Text → Text → IncludeState → Run (Unit {0})
unfolding find_in_sections
check_own_header files fuel filename name headerfile include_state = do
  headername ← ask_name files fuel headerfile
  own_header_report filename name headername
      (find_in_sections headername include_state.include_list 0)

-- `filename[0:len(filename) - len(extension)] + '.h'`
abbrev pub header_of : Text → Text → Text
header_of filename name = take (length filename - length (extension name)) filename ++ text ".h"

-- `CheckHeaderFileIncluded`
unfoldable pub check_header_file_included : Files → ℕ → Text → IncludeState → Run (Unit {0})
unfolding check_own_header
check_header_file_included files fuel filename include_state = do
  name ← ask_name files fuel filename
  when
      (not (found (search_in test_file_suffix (base_name name)))
        && files.exists (header_of filename name))
      (check_own_header files fuel filename name (header_of filename name) include_state)
