-- ===== src/FileData/Samples.antt =====
-- Concrete arguments for the tests: checks that report nothing, and two file systems.
use csci.Prelude.{false, [], ◌∷◌, ◌++◌, none, some, text, text_eq}
use csci.Regex.{star, dot}
use csci.Files.{Files}
use csci.FileData.{OtherChecks}

abbrev pub silent_checks : OtherChecks
silent_checks = record {
  namespace_indentation = λ n c l. [];
  style = λ f e w n c l. [];
  language = λ f e n c l i. ([], i);
  non_const_reference = λ n c l. [];
  include_what_you_use = λ f c i. [];
}

-- Every path can be read as a source file of one line, /p/a.cc is a regular file, and there are no
-- configuration files.
abbrev pub plain_files : Files
plain_files = record {
  abspath = λ f. text "/p/" ++ f;
  exists = λ f. false;
  is_file = λ f. text_eq f (text "/p/a.cc");
  config_lines = λ f. ([], false);
  contents = λ f. some (text "int x;\n");
  compile = λ p. none;
}

-- The directory /p has a configuration file, which excludes everything in it.
abbrev pub excluding_files : Files
excluding_files = record {
  abspath = λ f. text "/p/" ++ f;
  exists = λ f. false;
  is_file = λ f. text_eq f (text "/p/CPPLINT.cfg");
  config_lines = λ f.
      (text "filter=-build\n" ∷ text "linelength=100\n" ∷ text "exclude_files=.*\n" ∷ [], false);
  contents = λ f. none;
  compile = λ p. some (star dot);
}
