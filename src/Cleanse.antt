-- ===== src/Cleanse.antt =====
-- scripts/cpplint.py: the copies of a file that the checks read, with raw strings, strings and
-- comments taken out (`IsCppString` .. `CleansedLines`). `lines` is changed in place by the source:
-- here a function takes it and returns it.
pub mod RawStrings
pub mod MultiLine
pub mod Line
pub mod Strings
pub mod Lines
