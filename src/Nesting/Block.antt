-- ===== src/Nesting/Block.antt =====
-- `_BlockInfo` and its subclasses, with the checks at the begin and end of a block.
use csci.Prelude.{
  ℕ, zero, suc, ◌+◌, ◌-◌, Bool, true, false, not, ◌||◌, List, [], ◌∷◌, ◌++◌, Option, none, some,
  Text, text, ◌==◌, if◌then◌else◌, length, drop, get_or, count, is_space, nat_eq,
}
use csci.Prelude.Int.{ℤ, pos, sub_ℕ, ◌+ℤ◌, is_number}
use csci.Regex.{
  Regex, one, seq, alt, star, group, at_start, at_end, boundary, Found, match, search_in, found,
  group_text, chr, lit,
}
use csci.Report.{Report, report}
use csci.Cleanse.Lines.{CleansedLines}

-- `_NO_ASM`, `_INSIDE_ASM`, `_END_ASM`, `_BLOCK_ASM`
pub data Asm : Type 0 where
  no_asm inside_asm end_asm block_asm : Asm

-- The fields that only `_ClassInfo` has.
pub record ClassInfo : Type 0 where
  pub name : Text
  pub is_derived : Bool
  pub access : Text
  pub is_struct : Bool
  pub class_indent : ℕ
  pub last_line : ℕ

-- The class of a block: `_BlockInfo` itself, `_ExternCInfo`, `_ClassInfo`, `_NamespaceInfo`.
pub data Kind : Type 0 where
  block_info : Kind
  extern_c : Kind
  class_info : ClassInfo → Kind
  namespace_info : Text → Kind

pub record Block : Type 0 where
  pub starting_linenum : ℕ
  pub seen_open_brace : Bool
  pub open_parentheses : ℤ
  pub inline_asm : Asm
  pub check_namespace_indentation : Bool
  pub kind : Kind

abbrev pub new_block : ℕ → Bool → Block
new_block linenum seen = record {
  starting_linenum = linenum;
  seen_open_brace = seen;
  open_parentheses = pos 0;
  inline_asm = no_asm;
  check_namespace_indentation = false;
  kind = block_info;
}

abbrev pub new_extern_c : ℕ → Block
new_extern_c linenum = record (new_block linenum true) { kind = extern_c }

-- `_NamespaceInfo(name, linenum)`: a missing name becomes the empty one.
abbrev pub new_namespace : Text → ℕ → Block
new_namespace name linenum = record (new_block linenum false) {
  check_namespace_indentation = true;
  kind = namespace_info name;
}

-- `^( *)\S`
unfoldable pub indent_pattern : Regex
indent_pattern = seq at_start (seq (group 1 (star (chr 32))) (one (λ c. not (is_space c))))

abbrev pub group_length : Option Found → ℕ
group_length none = 0
group_length (some m) = length (group_text 1 m)

-- `GetIndentLevel`
unfoldable pub get_indent_level : Text → ℕ
get_indent_level line = group_length (match indent_pattern line)

-- The loop of `_ClassInfo.__init__` for `last_line`: the first line at which the braces balance.
unfoldable pub find_last_line : List Text → ℕ → ℤ → ℕ
find_last_line [] i depth = 0
find_last_line (line ∷ lines) i depth =
    let depth' = depth +ℤ sub_ℕ (count line (text "{")) (count line (text "}")) in
    let rest = find_last_line lines (i + 1) depth' in if is_number depth' 0 then i else rest

-- `_ClassInfo(name, class_or_struct, clean_lines, linenum)`
unfoldable pub new_class : Text → Bool → CleansedLines → ℕ → Block
unfolding get_indent_level find_last_line
new_class name is_struct clean_lines linenum = record (new_block linenum false) {
  check_namespace_indentation = true;
  kind = class_info (record {
    name = name;
    is_derived = false;
    access = if is_struct then text "public" else text "private";
    is_struct = is_struct;
    class_indent = get_indent_level (get_or clean_lines.raw_lines linenum []);
    last_line = find_last_line (drop linenum clean_lines.elided) linenum (pos 0);
  });
}

-- `(^|[^:]):($|[^:])`
unfoldable pub bare_colon : Regex
bare_colon =
    let no_colon = one (λ c. not (c == b':')) in
    seq (group 1 (alt at_start no_colon)) (seq (chr b':') (group 2 (alt at_end no_colon)))

-- `CheckBegin`: only a class does something.
abbrev pub begin_kind : Bool → Kind → Kind
begin_kind colon block_info = block_info
begin_kind colon extern_c = extern_c
begin_kind colon (class_info c) = class_info (record c { is_derived = colon || c.is_derived })
begin_kind colon (namespace_info n) = namespace_info n

unfoldable pub check_begin : CleansedLines → ℕ → Block → Block
check_begin clean_lines linenum b = record b {
  kind = begin_kind (found (search_in bare_colon (get_or clean_lines.elided linenum []))) b.kind;
}

abbrev pub blank : Regex
blank = seq at_start (seq (star (one is_space)) at_end)

-- `\b(DISALLOW_COPY_AND_ASSIGN|DISALLOW_IMPLICIT_CONSTRUCTORS)\(NAME\)`
unfoldable pub disallow_pattern : Text → Regex
unfolding lit text
disallow_pattern name = seq boundary (
    seq
      (group 1
        (alt (lit (text "DISALLOW_COPY_AND_ASSIGN")) (lit (text "DISALLOW_IMPLICIT_CONSTRUCTORS"))))
      (seq (chr b'(') (seq (lit name) (chr b')'))))

-- The loop of `_ClassInfo.CheckEnd` over the lines `first + rounds` down to `first + 1`.
unfoldable pub disallow_loop : List Text → Text → ℕ → ℕ → Bool → List Report
disallow_loop elided name first zero seen_last = []
disallow_loop elided name first (suc rounds) seen_last =
    let line = get_or elided (first + suc rounds) [] in
    elim (search_in (disallow_pattern name) line) [
      | some m ↦
          if seen_last
          then report (first + suc rounds) (text "readability/constructors") 3
              (group_text 1 m ++ text " should be the last thing in the class")
          else []
      | none ↦ disallow_loop elided name first rounds (not (found (match blank line)) || seen_last)
    ]

abbrev pub parent_name : ClassInfo → Text
parent_name c = (if c.is_struct then text "struct " else text "class ") ++ c.name

-- `^( *)\}`
unfoldable pub closing_brace : Regex
closing_brace = seq at_start (seq (group 1 (star (chr 32))) (chr b'}'))

abbrev pub brace_report : ClassInfo → ℕ → Option Found → List Report
brace_report c linenum none = []
brace_report c linenum (some m) =
    if not (length (group_text 1 m) == c.class_indent)
    then report linenum (text "whitespace/indent") 3
        (text "Closing brace should be aligned with beginning of " ++ parent_name c)
    else []

-- `_ClassInfo.CheckEnd`
unfoldable pub class_check_end : CleansedLines → ℕ → ℕ → ClassInfo → List Report
unfolding disallow_loop
class_check_end clean_lines linenum starting c =
    disallow_loop clean_lines.elided c.name starting (linenum - 1 - starting) false
    ++ brace_report c linenum (match closing_brace (get_or clean_lines.elided linenum []))
