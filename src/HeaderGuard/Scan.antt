-- ===== src/HeaderGuard/Scan.antt =====
-- The loop of `CheckForHeaderGuard` of scripts/cpplint.py over the lines.
pub mod First
use csci.Prelude.{
  ℕ, suc, List, Option, none, some, Text, text, if◌then◌else◌, starts_with, text_eq, split_words,
  [], ◌∷◌,
}
use csci.Regex.{found, empty}

-- What the loop of `CheckForHeaderGuard` has found: the texts are empty until then.
pub record Guard : Type 0 where
  pub ifndef : Text
  pub ifndef_linenum : ℕ
  pub define : Text
  pub endif : Text
  pub endif_linenum : ℕ

abbrev pub no_guard : Guard
no_guard = record { ifndef = []; ifndef_linenum = 0; define = []; endif = []; endif_linenum = 0 }

-- The words of a line, if they begin with the directive and there is an argument.
abbrev pub argument_in : Text → List Text → Option Text
argument_in directive [] = none
argument_in directive (w ∷ []) = none
argument_in directive (w ∷ v ∷ words) = if text_eq w directive then some v else none

abbrev pub set_ifndef : ℕ → Option Text → Guard → Guard
set_ifndef linenum none g = g
set_ifndef linenum (some v) g = elim g.ifndef [
  | [] ↦ record g { ifndef = v; ifndef_linenum = linenum }
  | c ∷ t ↦ g
]

abbrev pub set_define : Option Text → Guard → Guard
set_define none g = g
set_define (some v) g = elim g.define [ [] ↦ record g { define = v } | c ∷ t ↦ g ]

abbrev pub set_endif : ℕ → Text → Guard → Guard
set_endif linenum line g =
    if starts_with line (text "#endif")
    then record g { endif = line; endif_linenum = linenum }
    else g

-- One round of the loop.
unfoldable pub guard_line : ℕ → Text → Guard → Guard
guard_line linenum line g =
    let words = split_words line in
    set_endif linenum line (
      set_define (argument_in (text "#define") words)
        (set_ifndef linenum (argument_in (text "#ifndef") words) g))

unfoldable pub find_guard : ℕ → List Text → Guard → Guard
unfolding guard_line
find_guard linenum [] g = g
find_guard linenum (line ∷ lines) g = find_guard (suc linenum) lines (guard_line linenum line g)
