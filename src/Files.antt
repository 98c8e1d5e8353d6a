-- ===== src/Files.antt =====
-- What scripts/cpplint.py asks of the file system and of Python's `re` compiler, for the texts that are
-- not its own: the code takes these answers as an argument.
use csci.Prelude.{Bool, List, Option, Text}
use csci.Regex.{Regex}

pub record Files : Type 0 where
  -- `os.path.abspath`, `os.path.exists`, `os.path.isfile`
  pub abspath : Text → Text
  pub exists : Text → Bool
  pub is_file : Text → Bool
  -- The lines of a configuration file, and whether opening it or reading on raises IOError.
  pub config_lines : Text → List Text × Bool
  -- The decoded contents of a file, if it can be read.
  pub contents : Text → Option Text
  -- `re.compile`, unless it raises `re.error`.
  pub compile : Text → Option Regex
