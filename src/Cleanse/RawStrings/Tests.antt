-- ===== src/Cleanse/RawStrings/Tests.antt =====
-- Two raw strings on a line.
use csci.Prelude.{◌+◌, ◌≡◌, refl, some, none, Text, text, length}
use csci.Regex.{evaluation}
use csci.Cleanse.RawStrings.{raw_loop, raw_string_start, in_line_comment}

abbrev line : Text
line = text "f(R\"(a)\", u8R\"x(b)x\");"

without_raw_strings : raw_loop (length line + 1) line ≡ some (text "f(\"\", \"\");", none)
unfolding raw_loop raw_string_start in_line_comment evaluation
without_raw_strings = refl
