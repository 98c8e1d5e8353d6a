-- ===== src/Arguments.antt =====
-- `ParseArguments`, `PrintUsage` and `PrintCategories` of scripts/cpplint.py.
pub mod Getopt
pub mod Usage
pub mod Signed
pub mod Tests
use csci.Prelude.{
  ℕ, Bool, true, false, not, List, [], ◌∷◌, ◌++◌, Option, none, some, Text, text, ◌==◌,
  if◌then◌else◌, text_eq, split_on, contains, text_keys, map, join,
}
use csci.Prelude.Int.{ℤ, pos, negsuc}
use csci.Categories.{error_categories}
use csci.LintState
use csci.LintState.{
  LintState, Counting, total, toplevel, detailed, OutputFormat, emacs, vs7, eclipse,
  set_output_format, set_verbose_level, set_counting_style,
}
use csci.Session.{
  Session, ended, exited, status, message, bad_value, negative_verbosity, Run, ◌>>=◌, ◌>>◌, pass,
  change, raise, exit_with, say, as_ending,
}
use csci.Config.Line.{parse_int}
use csci.Arguments.Getopt.{LongOption, Parsed, getopt}
use csci.Arguments.Usage.{usage}

-- The list of long options in `ParseArguments`.
abbrev pub flag_option : Text → LongOption
flag_option name = record { name = name; has_value = false }

abbrev pub value_option : Text → LongOption
value_option name = record { name = name; has_value = true }

unfoldable pub long_options : List LongOption
long_options =
    flag_option (text "help")
    ∷ value_option (text "output")
    ∷ value_option (text "verbose")
    ∷ value_option (text "counting")
    ∷ value_option (text "filter")
    ∷ value_option (text "root")
    ∷ value_option (text "linelength")
    ∷ value_option (text "extensions")
    ∷ []

-- `PrintUsage` without and with a message.
unfoldable pub print_usage : {A : Type 0} → Option Text → Run A
unfolding usage
print_usage none = do say usage; exit_with (status 1)
print_usage (some m) = do say usage; exit_with (message (text "\nFATAL ERROR: " ++ m))

-- `PrintCategories`
unfoldable pub print_categories : {A : Type 0} → Run A
print_categories = do
  say (join [] (map (λ cat. text "  " ++ cat ++ text "\n") error_categories))
  exit_with (status 0)

-- The variables of `ParseArguments`.
pub record Choices : Type 0 where
  pub verbosity : ℕ
  pub output_format : OutputFormat
  pub filters : Text
  pub counting_style : Counting

abbrev pub output_format_of : Text → Option OutputFormat
output_format_of val =
    if text_eq val (text "emacs")
    then some emacs
    else if text_eq val (text "vs7")
    then some vs7
    else if text_eq val (text "eclipse")
    then some eclipse
    else none

abbrev pub counting_of : Text → Option Counting
counting_of val =
    if text_eq val (text "total")
    then some total
    else if text_eq val (text "toplevel")
    then some toplevel
    else if text_eq val (text "detailed")
    then some detailed
    else none

abbrev pub choose_output : Option OutputFormat → Choices → Run Choices
choose_output none c =
    print_usage (some (text "The only allowed output formats are emacs, vs7 and eclipse."))
choose_output (some f) c = pass (record c { output_format = f })

abbrev pub choose_counting : Option Counting → Choices → Run Choices
choose_counting none c =
    print_usage (some (text "Valid counting options are total, toplevel, and detailed"))
choose_counting (some k) c = pass (record c { counting_style = k })

abbrev pub choose_verbosity : Option ℤ → Choices → Run Choices
choose_verbosity none c = raise bad_value
choose_verbosity (some (pos n)) c = pass (record c { verbosity = n })
choose_verbosity (some (negsuc n)) c = raise negative_verbosity

abbrev pub choose_filters : Text → Choices → Run Choices
choose_filters [] c = print_categories
choose_filters (x ∷ val) c = pass (record c { filters = x ∷ val })

abbrev pub choose_line_length : Option ℤ → Choices → Run Choices
choose_line_length none c = print_usage (some (text "Line length must be digits."))
choose_line_length (some n) c = do change (λ s. record s { line_length = n }); pass c

-- `set(..)`: each member once.
abbrev pub distinct : List Text → List Text
distinct [] = []
distinct (x ∷ xs) = let rest = distinct xs in if contains x rest then rest else x ∷ rest

-- One round of the loop over the options.
unfoldable pub choose : Text → Text → Choices → Run Choices
unfolding print_usage print_categories
choose opt val c =
    if text_eq opt (text "help")
    then print_usage none
    else if text_eq opt (text "output")
    then choose_output (output_format_of val) c
    else if text_eq opt (text "verbose")
    then choose_verbosity (parse_int val) c
    else if text_eq opt (text "filter")
    then choose_filters val c
    else if text_eq opt (text "counting")
    then choose_counting (counting_of val) c
    else if text_eq opt (text "root")
    then (do change (λ s. record s { root = some val }); pass c)
    else if text_eq opt (text "linelength")
    then choose_line_length (parse_int val) c
    else if text_eq opt (text "extensions")
    then (do change (λ s. record s { valid_extensions = distinct (split_on b',' val) }); pass c)
    else pass c

unfoldable pub choose_all : List (Text × Text) → Choices → Run Choices
unfolding choose
choose_all [] c = pass c
choose_all ((opt, val) ∷ opts) c = do c' ← choose opt val c; choose_all opts c'

-- `_SetFilters`
unfoldable pub set_session_filters : Text → Run (Unit {0})
set_session_filters filters s =
    let (o, lint) = LintState.set_filters filters s.lint in (as_ending o, record s { lint = lint })

-- The settings that follow the loop.
unfoldable pub apply_choices : Choices → Run (Unit {0})
unfolding set_session_filters
apply_choices c = do
  change (λ s. record s { lint = set_output_format c.output_format s.lint })
  change (λ s. record s { lint = (set_verbose_level c.verbosity s.lint).1 })
  set_session_filters c.filters
  change (λ s. record s { lint = set_counting_style c.counting_style s.lint })

-- The empty counting style at the start counts no categories, as `total` does.
abbrev pub first_choices : Session → Choices
first_choices s = record {
  verbosity = s.lint.verbose_level;
  output_format = s.lint.output_format;
  filters = [];
  counting_style = total;
}

abbrev pub with_files : List Text → Choices → Run (List Text)
with_files [] c = print_usage (some (text "No files were specified."))
with_files (f ∷ fs) c = do apply_choices c; pass (f ∷ fs)

abbrev pub parsed_arguments : Parsed → Run (List Text)
parsed_arguments none s = print_usage (some (text "Invalid arguments.")) s
parsed_arguments (some (opts, filenames)) s =
    (do c ← choose_all opts (first_choices s); with_files filenames c) s

-- `ParseArguments`: the names of the files.
unfoldable pub parse_arguments : List Text → Run (List Text)
unfolding choose_all apply_choices long_options
parse_arguments args = parsed_arguments (getopt long_options args)
