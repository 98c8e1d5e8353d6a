-- ===== src/FileInfo.antt =====
-- `FileInfo` of scripts/cpplint.py: the parts of a file's name relative to the root of its repository.
pub mod Climb
pub mod Tests
use csci.Prelude.{
  ℕ, zero, suc, ◌+◌, Bool, true, false, ◌||◌, List, [], ◌∷◌, ◌++◌, Option, none, some, Text, text,
  ◌==◌, if◌then◌else◌, length, drop, map, text_eq, contains, text_keys, join,
}
use csci.Files.{Files}
use csci.Paths.{split, dirname, join_path, split_ext, common_prefix}

-- `s.replace('\\', '/')`
unfoldable pub to_slashes : Text → Text
to_slashes = map (λ c. if c == b'\\' then b'/' else c)

-- `FullName`
unfoldable pub full_name : Files → Text → Text
full_name files filename = to_slashes (files.abspath filename)

-- `os.path.exists(os.path.join(dir, name))`
abbrev pub has : Files → Text → Text → Bool
has files dir name = files.exists (join_path dir name)

-- The loop up the checkout of an old Subversion, with `one_up_dir` and `root_dir`. Nothing stops it at the
-- root of the file system; `none` means that the fuel ran out.
unfoldable pub svn_root : Files → ℕ → Text → Text → Option Text
svn_root files zero one_up_dir root_dir = none
svn_root files (suc fuel) one_up_dir root_dir = elim (has files one_up_dir (text ".svn")) [
  | true ↦ svn_root files fuel (dirname one_up_dir) (dirname root_dir)
  | false ↦ some root_dir
]

abbrev pub is_checkout : Files → Text → Bool
is_checkout files dir =
    has files dir (text ".git") || (has files dir (text ".hg") || has files dir (text ".svn"))

-- The loop for the topmost directory of a checkout. The path gets shorter in every round, so its length is
-- fuel enough.
unfoldable pub top_root : Files → ℕ → Text → Text → Option Text
top_root files zero current_dir root_dir = none
top_root files (suc fuel) current_dir root_dir = elim (text_eq current_dir (dirname current_dir)) [
  | true ↦ some root_dir
  | false ↦
      top_root files fuel (dirname current_dir)
        (if is_checkout files current_dir then current_dir else root_dir)
]

-- `fullname[len(prefix) + 1:]`
abbrev pub below : Text → Text → Text → Text
below fullname root_dir project_dir =
    drop (length (common_prefix root_dir project_dir) + 1) fullname

abbrev pub below_checkout : Files → Text → Text → Option Text → Option Text
below_checkout files fullname project_dir none = none
below_checkout files fullname project_dir (some root_dir) =
    some (if is_checkout files root_dir then below fullname root_dir project_dir else fullname)

abbrev pub below_svn : Text → Text → Option Text → Option Text
below_svn fullname project_dir none = none
below_svn fullname project_dir (some root_dir) = some (below fullname root_dir project_dir)

-- `RepositoryName`; the fuel is for the loop that need not end.
unfoldable pub repository_name : Files → ℕ → Text → Option Text
unfolding svn_root top_root
repository_name files fuel filename =
    let fullname = full_name files filename in
    let project_dir = dirname fullname in
    if files.exists fullname
    then (if has files project_dir (text ".svn")
        then below_svn fullname project_dir (svn_root files fuel (dirname project_dir) project_dir)
        else below_checkout files fullname project_dir
            (top_root files (suc (length project_dir)) project_dir project_dir))
    else some fullname

-- `Split`, `BaseName`, `Extension`, `NoExtension`, of the name in the repository.
unfoldable pub split_name : Text → Text × Text × Text
split_name googlename =
    let (project, rest) = split googlename in
    let (base, extension) = split_ext rest in (project, base, extension)

abbrev pub base_name : Text → Text
base_name googlename = (split_name googlename).1

abbrev pub extension : Text → Text
extension googlename = (split_name googlename).2

abbrev pub no_extension : Text → Text
no_extension googlename =
    let (project, base, ext) = split_name googlename in join (text "/") (project ∷ base ∷ [])

-- `_IsSourceExtension`, `IsSource`
unfoldable pub is_source_extension : Text → Bool
is_source_extension s = contains s (text "c" ∷ text "cc" ∷ text "cpp" ∷ text "cxx" ∷ [])

unfoldable pub is_source : Text → Bool
is_source googlename = is_source_extension (drop 1 (extension googlename))
