-- ===== src/Arguments/Getopt.antt =====
-- What scripts/cpplint.py uses of Python's `getopt.getopt`: long options, in full or by a prefix that no
-- other option has, and no short ones.
use csci.Prelude.{
  Bool, not, ◌&&◌, List, [], ◌∷◌, Option, none, some, Text, text, ◌==◌, if◌then◌else◌, starts_with,
  text_eq, drop,
}

-- A long option: its name without the dashes, and whether it takes a value.
pub record LongOption : Type 0 where
  pub name : Text
  pub has_value : Bool

-- What an option on the command line means.
pub data Meant : Type 0 where
  unknown : Meant
  meant : LongOption → Meant

-- The options of which the text is a prefix.
unfoldable pub possibilities : Text → List LongOption → List LongOption
possibilities opt [] = []
possibilities opt (o ∷ longopts) =
    if starts_with o.name opt then o ∷ possibilities opt longopts else possibilities opt longopts

-- The option with exactly that name.
unfoldable pub exact : Text → List LongOption → Option LongOption
exact opt [] = none
exact opt (o ∷ longopts) = if text_eq o.name opt then some o else exact opt longopts

abbrev pub only : List LongOption → Meant
only [] = unknown
only (o ∷ []) = meant o
only (o ∷ p ∷ longopts) = unknown

abbrev pub exact_or_only : Option LongOption → List LongOption → Meant
exact_or_only (some o) possible = meant o
exact_or_only none possible = only possible

-- `long_has_args`
unfoldable pub long_has_args : Text → List LongOption → Meant
unfolding possibilities exact
long_has_args opt longopts = exact_or_only (exact opt longopts) (possibilities opt longopts)

-- The text before an equals sign, and what stands behind it, if there is one.
unfoldable pub split_value : Text → Text × Option Text
split_value [] = ([], none)
split_value (c ∷ s) = if c == b'=' then ([], some s) else (c ∷ (split_value s).0, (split_value s).1)

-- The parsed options, each with its value, and the arguments that are left; `none` is GetoptError.
abbrev pub Parsed : Type 0
Parsed = Option (List (Text × Text) × List Text)

abbrev pub with_option : Text → Text → Parsed → Parsed
with_option name value none = none
with_option name value (some (opts, args)) = some ((name, value) ∷ opts, args)

-- `do_longs`: `here` is the parse of the arguments that follow, `behind` the next argument with the parse
-- of those behind it.
abbrev pub flag : LongOption → Option Text → Parsed → Parsed
flag o none here = with_option o.name [] here
flag o (some v) here = none

abbrev pub valued : LongOption → Option Text → Parsed → Option (Text × Parsed) → Parsed
valued o (some v) here behind = with_option o.name v here
valued o none here none = none
valued o none here (some (v, rest)) = with_option o.name v rest

abbrev pub do_longs : Meant → Option Text → Parsed → Option (Text × Parsed) → Parsed
do_longs unknown value here behind = none
do_longs (meant o) value here behind =
    if o.has_value then valued o value here behind else flag o value here

-- One argument in front of others.
unfoldable pub parse_argument :
    List LongOption → Text → List Text → Parsed → Option (Text × Parsed) → Parsed
unfolding long_has_args split_value
parse_argument longopts arg args here behind =
    if text_eq arg (text "--")
    then some ([], args)
    else if starts_with arg (text "--")
    then do_longs (long_has_args (split_value (drop 2 arg)).0 longopts) (split_value (drop 2 arg)).1
        here behind
    else if starts_with arg (text "-") && not (text_eq arg (text "-"))
    then none
    else some ([], arg ∷ args)

-- `getopt.getopt(args, '', longopts)`
unfoldable pub getopt : List LongOption → List Text → Parsed
unfolding parse_argument
getopt longopts [] = some ([], [])
getopt longopts (arg ∷ []) = parse_argument longopts arg [] (some ([], [])) none
getopt longopts (arg ∷ v ∷ args) =
    let here = getopt longopts (v ∷ args) in
    let rest = getopt longopts args in parse_argument longopts arg (v ∷ args) here (some (v, rest))
