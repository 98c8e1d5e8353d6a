-- ===== src/Arguments/Usage.antt =====
-- `_USAGE` of scripts/cpplint.py.
use csci.Prelude.{Text, List, [], ◌∷◌, text, join}

-- Its lines.
unfoldable pub usage_lines : List Text
usage_lines =
    text ""
    ∷ text "Syntax: cpplint.py [--verbose=#] [--output=vs7] [--filter=-x,+y,...]"
    ∷ text "                   [--counting=total|toplevel|detailed] [--root=subdir]"
    ∷ text "                   [--linelength=digits]"
    ∷ text "        <file> [file] ..."
    ∷ text ""
    ∷ text "  The style guidelines this tries to follow are those in"
    ∷ text "    https://google-styleguide.googlecode.com/svn/trunk/cppguide.xml"
    ∷ text ""
    ∷ text "  Every problem is given a confidence score from 1-5, with 5 meaning we are"
    ∷ text "  certain of the problem, and 1 meaning it could be a legitimate construct."
    ∷ text "  This will miss some errors, and is not a substitute for a code review."
    ∷ text ""
    ∷ text "  To suppress false-positive errors of a certain category, add a"
    ∷ text "  'NOLINT(category)' comment to the line.  NOLINT or NOLINT(*)"
    ∷ text "  suppresses errors of all categories on that line."
    ∷ text ""
    ∷ text "  The files passed in will be linted; at least one file must be provided."
    ∷ text "  Default linted extensions are .cc, .cpp, .cu, .cuh and .h.  Change the"
    ∷ text "  extensions with the --extensions flag."
    ∷ text ""
    ∷ text "  Flags:"
    ∷ text ""
    ∷ text "    output=vs7"
    ∷ text "      By default, the output is formatted to ease emacs parsing.  Visual Studio"
    ∷ text "      compatible output (vs7) may also be used.  Other formats are unsupported."
    ∷ text ""
    ∷ text "    verbose=#"
    ∷ text "      Specify a number 0-5 to restrict errors to certain verbosity levels."
    ∷ text ""
    ∷ text "    filter=-x,+y,..."
    ∷ text "      Specify a comma-separated list of category-filters to apply: only"
    ∷ text "      error messages whose category names pass the filters will be printed."
    ∷ text "      (Category names are printed with the message and look like"
    ∷ text "      \"[whitespace/indent]\".)  Filters are evaluated left to right."
    ∷ text "      \"-FOO\" and \"FOO\" means \"do not print categories that start with FOO\"."
    ∷ text "      \"+FOO\" means \"do print categories that start with FOO\"."
    ∷ text ""
    ∷ text "      Examples: --filter=-whitespace,+whitespace/braces"
    ∷ text "                --filter=whitespace,runtime/printf,+runtime/printf_format"
    ∷ text "                --filter=-,+build/include_what_you_use"
    ∷ text ""
    ∷ text "      To see a list of all the categories used in cpplint, pass no arg:"
    ∷ text "         --filter="
    ∷ text ""
    ∷ text "    counting=total|toplevel|detailed"
    ∷ text "      The total number of errors found is always printed. If"
    ∷ text "      'toplevel' is provided, then the count of errors in each of"
    ∷ text "      the top-level categories like 'build' and 'whitespace' will"
    ∷ text "      also be printed. If 'detailed' is provided, then a count"
    ∷ text "      is provided for each category like 'build/class'."
    ∷ text ""
    ∷ text "    root=subdir"
    ∷ text "      The root directory used for deriving header guard CPP variable."
    ∷ text "      By default, the header guard CPP variable is calculated as the relative"
    ∷ text "      path to the directory that contains .git, .hg, or .svn.  When this flag"
    ∷ text "      is specified, the relative path is calculated from the specified"
    ∷ text "      directory. If the specified directory does not exist, this flag is"
    ∷ text "      ignored."
    ∷ text ""
    ∷ text "      Examples:"
    ∷ text "        Assuming that src/.git exists, the header guard CPP variables for"
    ∷ text "        src/chrome/browser/ui/browser.h are:"
    ∷ text ""
    ∷ text "        No flag => CHROME_BROWSER_UI_BROWSER_H_"
    ∷ text "        --root=chrome => BROWSER_UI_BROWSER_H_"
    ∷ text "        --root=chrome/browser => UI_BROWSER_H_"
    ∷ text ""
    ∷ text "    linelength=digits"
    ∷ text "      This is the allowed line length for the project. The default value is"
    ∷ text "      80 characters."
    ∷ text ""
    ∷ text "      Examples:"
    ∷ text "        --linelength=120"
    ∷ text ""
    ∷ text "    extensions=extension,extension,..."
    ∷ text "      The allowed file extensions that cpplint will check"
    ∷ text ""
    ∷ text "      Examples:"
    ∷ text "        --extensions=hpp,cpp"
    ∷ text ""
    ∷ text "    cpplint.py supports per-directory configurations specified in CPPLINT.cfg"
    ∷ text "    files. CPPLINT.cfg file can contain a number of key=value pairs."
    ∷ text "    Currently the following options are supported:"
    ∷ text ""
    ∷ text "      set noparent"
    ∷ text "      filter=+filter1,-filter2,..."
    ∷ text "      exclude_files=regex"
    ∷ text "      linelength=80"
    ∷ text ""
    ∷ text "    \"set noparent\" option prevents cpplint from traversing directory tree"
    ∷ text "    upwards looking for more .cfg files in parent directories. This option"
    ∷ text "    is usually placed in the top-level project directory."
    ∷ text ""
    ∷ text "    The \"filter\" option is similar in function to --filter flag. It specifies"
    ∷ text "    message filters in addition to the |_DEFAULT_FILTERS| and those specified"
    ∷ text "    through --filter command-line flag."
    ∷ text ""
    ∷ text "    \"exclude_files\" allows to specify a regular expression to be matched against"
    ∷ text "    a file name. If the expression matches, the file is skipped and not run"
    ∷ text "    through liner."
    ∷ text ""
    ∷ text "    \"linelength\" allows to specify the allowed line length for the project."
    ∷ text ""
    ∷ text "    CPPLINT.cfg has an effect on files in the same directory and all"
    ∷ text "    sub-directories, unless overridden by a nested configuration file."
    ∷ text ""
    ∷ text "      Example file:"
    ∷ text "        filter=-build/include_order,+build/include_alpha"
    ∷ text "        exclude_files=.*\\.cc"
    ∷ text ""
    ∷ text "    The above example disables build/include_order warning and enables"
    ∷ text "    build/include_alpha as well as excludes all .cc from being"
    ∷ text "    processed by linter, in the current directory (where the .cfg"
    ∷ text "    file is located) and all sub-directories."
    ∷ text ""
    ∷ []

-- `_USAGE`
unfoldable pub usage : Text
unfolding usage_lines
usage = join (text "\n") usage_lines
