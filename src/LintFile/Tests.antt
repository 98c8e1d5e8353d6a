-- ===== src/LintFile/Tests.antt =====
-- ProcessFile on an excluded file and on a plain one, with its line ends.
use csci.Prelude.{
  arith, get_elem?, suc, ◌+◌, ◌≡◌, ◌⊎◌, refl, List, [], ◌∷◌, ◌++◌, Text, text, length, rstrip,
  strip,
}
use csci.Prelude.Int.{pos}
use csci.Regex.{evaluation}
use csci.Categories.{default_filters}
use csci.LintState.{set_verbose_level, backup_filters}
use csci.Session.{Session, ended, raised, index_error, start_session, say}
use csci.Session.Returns.{IsReady}
use csci.Paths.{split, join_path, strip_end}
use csci.Config.Line.{
  config_lines, config_line, config_option, parse_int, before_first, behind_first, digits_value,
}
use csci.Config.{process_config_overrides, config_loop, config_file}
use csci.FileData.Samples.{silent_checks, plain_files, excluding_files}
use csci.LintFile.{process_file, strip_returns}
use csci.LintFile.Restored.{process_file-restored}
use csci.LintFile.LineLength.{process_file-line_length, prepared}
use csci.LintFile.Ends.{Cause, process_file_lem}
use csci.LintFile.Samples.{plain_files-IsPlain}
use csci.LintFile.Carriage.{InRange, IsPlaced, strip_returns_lem}

abbrev start : Session
start = start_session []

excluded : (process_file silent_checks excluding_files 9 (text "a.cc") 3 start).0 ≡ ended tt
unfolding process_file process_config_overrides config_loop config_file config_lines config_line
    config_option before_first behind_first parse_int digits_value split join_path rstrip strip say
    evaluation start_session
excluded = refl

-- The line length of the configuration file is still set.
excluded_length :
    (process_file silent_checks excluding_files 9 (text "a.cc") 3 start).1.line_length ≡ pos 100
unfolding process_file process_config_overrides config_loop config_file config_lines config_line
    config_option before_first behind_first parse_int digits_value split join_path rstrip strip say
    evaluation start_session set_verbose_level backup_filters
excluded_length = refl

process_file-restored_example :
    (process_file silent_checks excluding_files 9 (text "a.cc") 3 start).1.lint.filters
    ≡ start.lint.filters
process_file-restored_example =
    process_file-restored silent_checks excluding_files 9 (text "a.cc") 3 start excluded

process_file-line_length_example :
    (process_file silent_checks excluding_files 9 (text "a.cc") 3 start).1.line_length
    ≡ (process_config_overrides excluding_files (text "a.cc") (prepared 3 start)).1.line_length
process_file-line_length_example =
    process_file-line_length silent_checks excluding_files 9 (text "a.cc") 3 start

process_file_lem_example :
    let r = process_file silent_checks plain_files 9 (text "a.cc") 3 start in
    ((r.0 ≡ ended tt) × IsReady r.1)
    ⊎ ((r.0 ≡ raised index_error) × Cause plain_files (text "a.cc") start)
unfolding start_session default_filters evaluation
process_file_lem_example =
    process_file_lem silent_checks plain_files 9 plain_files-IsPlain (text "a.cc") 3 start
      (refl, tt) refl

abbrev mixed_lines : List Text
mixed_lines = (text "b" ++ 13 ∷ []) ∷ text "c" ∷ [] ∷ []

mixed_ends : strip_returns 1 ((text "a" ++ 13 ∷ []) ∷ mixed_lines) ≡ record {
  lines = text "a" ∷ text "b" ∷ text "c" ∷ [] ∷ [];
  lf_lines = 3 ∷ [];
  crlf_lines = 1 ∷ 2 ∷ [];
}
unfolding strip_returns strip_end evaluation
mixed_ends = refl

strip_returns_lem_example :
    let lines = (text "a" ++ 13 ∷ []) ∷ mixed_lines in
    let e = strip_returns 1 lines in
    IsPlaced (1 + 1) (text "b" ++ 13 ∷ []) (get_elem? e.lines 1) e
    × (get_elem? e.lines (length mixed_lines) ≡ get_elem? lines (length mixed_lines))
    × (length e.lines ≡ suc (length mixed_lines))
    × (length e.lf_lines + length e.crlf_lines ≡ length mixed_lines)
    × InRange 1 (1 + length mixed_lines) e.lf_lines
    × InRange 1 (1 + length mixed_lines) e.crlf_lines
strip_returns_lem_example =
    strip_returns_lem 1 1 (text "a" ++ 13 ∷ []) (text "b" ++ 13 ∷ []) mixed_lines refl (omega arith)
