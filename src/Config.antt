-- ===== src/Config.antt =====
-- `ProcessConfigOverrides` of scripts/cpplint.py: the CPPLINT.cfg files of the directories of a file.
pub mod Line
pub mod Upwards
pub mod Tests
use csci.Prelude.{
  ℕ, zero, suc, Bool, true, false, List, [], ◌∷◌, ◌++◌, Option, none, some, Text, text, length, map,
  if◌then◌else◌,
}
use mathlib.Core.List.{reverse}
use csci.LintState
use csci.LintState.{LintState}
use csci.Files.{Files}
use csci.Paths.{split, dirname, join_path}
use csci.Session.{
  Session, Ending, ended, raised, unfinished, Run, ◌>>=◌, ◌>>◌, pass, say, as_ending, without_value,
}
use csci.Config.Line.{Looking, go_on, config_lines}

-- `_AddFilters`, `_SetFilters`, of the program's state.
unfoldable pub add_session_filters : Text → Run (Unit {0})
add_session_filters filters s =
    let (o, lint) = LintState.add_filters filters s.lint in (as_ending o, record s { lint = lint })

-- `for filter in ..: _AddFilters(filter)`
unfoldable pub add_all_filters : List Text → Run (Unit {0})
unfolding add_session_filters
add_all_filters [] = pass tt
add_all_filters (f ∷ fs) = do add_session_filters f; add_all_filters fs

-- The lines of a file, and the IOError that may end them.
abbrev pub or_skip : Text → Bool → Option Looking → Run (Option Looking)
or_skip cfg_file failed none = pass none
or_skip cfg_file false (some k) = pass (some k)
or_skip cfg_file true (some k) = do
  say (text "Skipping config file '" ++ cfg_file ++ text "': Can't open for reading\n")
  pass (some (record k { keep_looking = false }))

-- One configuration file; `none` is the early `return False`.
unfoldable pub config_file : Files → Text → Text → Text → Looking → Run (Option Looking)
config_file files filename cfg_file base_name k = do
  r ← config_lines files filename cfg_file base_name (files.config_lines cfg_file).0 k
  or_skip cfg_file (files.config_lines cfg_file).1 r

-- One round of the loop: whether to keep looking, the directory and the name of the path, and the rounds
-- that follow.
abbrev pub visit :
    Files
    → Text
    → Text
    → Bool
    → Text
    → Looking
    → (Looking → Run (Option Looking))
    → Run (Option Looking)
visit files filename abs_path false base_name k next = pass (some k)
visit files filename abs_path true [] k next = pass (some k)
visit files filename abs_path true (c ∷ t) k next =
    if files.is_file (join_path abs_path (text "CPPLINT.cfg"))
    then (do
      r ← config_file files filename (join_path abs_path (text "CPPLINT.cfg")) (c ∷ t) k
      go_on r next)
    else next k

-- The loop up the directories. A round goes from a path to its directory, which is shorter.
unfoldable pub config_loop : Files → ℕ → Text → Text → Looking → Run (Option Looking)
unfolding config_file
config_loop files zero filename abs_filename k = λ s. (unfinished, s)
config_loop files (suc fuel) filename abs_filename k =
    visit files filename (dirname abs_filename) k.keep_looking (split abs_filename).1 k
      (λ k'. config_loop files fuel filename (dirname abs_filename) k')

-- The filters are added with those of the topmost directory first.
abbrev pub finish_config : Option Looking → Run Bool
finish_config none = pass false
finish_config (some k) = do add_all_filters (reverse k.cfg_filters); pass true

abbrev pub start_looking : Looking
start_looking = record { cfg_filters = []; keep_looking = true }

-- `ProcessConfigOverrides`
unfoldable pub process_config_overrides : Files → Text → Run Bool
unfolding config_loop add_all_filters
process_config_overrides files filename = do
  r ←
      config_loop files (suc (length (files.abspath filename))) filename (files.abspath filename)
        start_looking
  finish_config r
