-- ===== src/Lib.antt =====
-- scripts/cpplint.py, the C++ style checker of this repository: the program from its command line to
-- its exit status, and what its checks stand on.
--
-- cpplint reads a file, cleanses its lines of comments and strings, and goes through them with three
-- states: the includes that were seen, the function that is read, and the stack of open blocks. What a
-- check finds goes to `Error`, which asks the suppressions and the filters whether to print it, prints
-- a line on stderr and counts it. The patterns of all parts are matched by `Match`, `Search` and
-- `ReplaceAll`. Around that, `main` parses the arguments and calls `ProcessFile` for each file, which
-- reads the configuration files of the directories above it and the file itself.
--
-- The files, and what of scripts/cpplint.py they model:
--   Prelude        Texts as lists of code points with the string methods of Python that are used;
--                  dictionaries as association lists; integers that may fall below 0.
--   Regex          `Match`, `Search`, `ReplaceAll`, and what the patterns use of `re`: a backtracking
--                  matcher. Meaning says what a pattern matches with no order of search, Correct and
--                  Search are the proofs that the matcher agrees with it.
--   Categories     The tables at the top of the script.
--   Report         A call of the `error` callback, as a value.
--   Suppress       `ParseNolintSuppressions`, `ProcessGlobalSuppresions`, `ResetNolintSuppressions`,
--                  `IsErrorSuppressedByNolint`.
--   LintState      `_CppLintState`, `_ShouldPrintError`, `Error`.
--   IncludeState   `_IncludeState`.
--   FunctionState  `_FunctionState`.
--   Cleanse        `CleanseRawStrings`, `RemoveMultiLineComments` and its helpers, `IsCppString`,
--                  `CleanseComments`, `CleansedLines` with `_CollapseStrings`.
--   FunctionLengths  `CheckForFunctionLengths`.
--   Expression     `FindEndOfExpressionInLine`, `CloseExpression`, and the two that search backwards.
--   Nesting        `_BlockInfo` and its subclasses, `GetIndentLevel`, `NestingState`. Block and
--                  NamespaceEnd are the blocks, State, Update and Braces the methods of the state;
--                  Namespaces is about the loop over namespaces, Branches about #if and #else, Tokens
--                  and Depth about braces.
--
--   Checks         `CheckForCopyright`, `CheckForBadCharacters`, `CheckForNewlineAtEOF`; the checks of
--                  one line without state; `FlagCxx11Features` and `FlagCxx14Features`.
--   Session        The module-wide variables, exceptions and exits, and calls that change them.
--   Files          The file system and the compiler of patterns, as an argument.
--   Paths, FileInfo  `os.path`; `FileInfo` and `_IsSourceExtension`.
--   HeaderGuard    `GetHeaderGuardCPPVariable`, `CheckForHeaderGuard`.
--   FileData       `ProcessLine`, `ProcessFileData`, `CheckHeaderFileIncluded`. Rules is one walk over
--                  them for all properties that their parts share.
--   Constructs     `CheckForNonStandardConstructs`. Collapse puts arguments together, Plain looks at a
--                  line alone, Raises is about its IndexError.
--   IncludeLine    `CheckIncludeLine`, `_ClassifyInclude`, `_DropCommonSuffixes`.
--   IncludeDict    `UpdateIncludeState`.
--   SameModule     `FilesBelongToSameModule`.
--   Config         `ProcessConfigOverrides`.
--   LintFile       `ProcessFile`.
--   Arguments      `ParseArguments` with `getopt`, `PrintUsage`, `PrintCategories`.
--   Command        `main`.
--
-- How code becomes a definition. A method takes the state and returns the new one. A check that only
-- reports returns the list of its reports; the name of the file is the same in all of them, so it is
-- left out until `Error` writes it. An exception is a value of `Outcome` or an `Ending`, an index out of
-- range is `none`, which the run over a line turns into an IndexError. The index -1 for "not found" is `none` too. A pattern is written as a term of `Regex` beside
-- the function that uses it, with the source's notation above it.
--
-- Fuel. A repetition of a pattern takes at most as many rounds as there are characters left, since a
-- round that reads nothing ends it. The loops over a line (raw strings, collapsed strings, namespaces,
-- braces) take the length of the line and one more, since each round shortens the line. The loop over
-- comments takes the number of lines and one more, since each round moves behind a comment. The loop
-- of `InTemplateArgumentList` takes the number of characters and lines of the file and one more: it
-- goes on by a character or a line at least, since `CloseExpression` only finds places further on. Its
-- fuel running out, and that of the loop over raw strings, is `none`.
--
-- Verbosity and line numbers are natural numbers; `int(math.log(n, 2))` is the integer logarithm, which
-- agrees with it up to the cap of 5 that follows. A class name in a pattern is matched as it is written:
-- it has no character that is special in a pattern.
--
-- The loop of `ProcessConfigOverrides` and the second loop of `RepositoryName` take the length of the
-- path and one more, since a directory's path is shorter than what stands in it. The loop up a
-- Subversion checkout need not end, so its fuel is an argument, and a call that uses it up is
-- `unfinished`.
--
-- The file system, standard input and `re.compile` of texts from outside are arguments. The set of
-- extensions is a list without repetitions; a message names its members in the order of the list.
--
-- Not modelled: `CheckStyle` but for what it calls on spaces at parentheses, commas and semicolons
-- (Checks/Spacing), `CheckLanguage`, `CheckForNonConstReference`,
-- `CheckForNamespaceIndentation` and `CheckForIncludeWhatYouUse`. `ProcessFileData` takes these
-- as an argument that may report anything but raises nothing; a verbosity below 0; the other
-- scripts, which start processes; the parameter server itself, which is C++.
pub mod Prelude
pub mod Regex
pub mod Categories
pub mod Report
pub mod Suppress
pub mod LintState
pub mod IncludeState
pub mod FunctionState
pub mod Cleanse
pub mod Expression
pub mod Nesting
pub mod Arguments
pub mod Checks
pub mod Command
pub mod Config
pub mod Constructs
pub mod FileData
pub mod FileInfo
pub mod Files
pub mod FunctionLengths
pub mod HeaderGuard
pub mod IncludeDict
pub mod IncludeLine
pub mod LintFile
pub mod Paths
pub mod SameModule
pub mod Session
