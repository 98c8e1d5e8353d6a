-- ===== src/Nesting/Branches.antt =====
-- `UpdatePreprocessor` within `Update`: what #if, #else and #endif do to the nesting stack over the
-- lines of a file.
use csci.Prelude.{
  ℕ, ◌≡◌, refl, ap, sym, ◌∙◌, true, false, List, [], ◌∷◌, ◌++◌, append_assoc, Text, get_or,
  if◌then◌else◌, Bool-cases, inl, inr,
}
use csci.Regex.{match, found}
use csci.Cleanse.Lines.{CleansedLines}
use csci.Nesting.State.{
  NestingState, BlockStack, PreprocessorInfo, new_preprocessor_info, update_preprocessor,
  if_directive, else_directive, endif_directive,
}
use csci.Nesting.Braces.{update, update_stack}

-- The elided line.
abbrev pub line_at : CleansedLines → ℕ → Text
line_at clean_lines linenum = get_or clean_lines.elided linenum []

-- What the rest of `Update` makes of the stack.
abbrev pub moved : CleansedLines → ℕ → BlockStack → BlockStack
moved clean_lines linenum stack =
    (update_stack clean_lines linenum (line_at clean_lines linenum) stack).0

-- `Update` for line after line.
abbrev pub update_all : CleansedLines → List ℕ → NestingState → NestingState
update_all clean_lines [] s = s
update_all clean_lines (n ∷ ns) s = update_all clean_lines ns (update clean_lines n s).0

-- The directive of a line, as the tests of `UpdatePreprocessor` find it.
abbrev pub IsIf : Text → Type 0
IsIf line = found (match if_directive line) ≡ true

abbrev pub IsElse : Text → Type 0
IsElse line = (found (match if_directive line) ≡ false) × (found (match else_directive line) ≡ true)

abbrev pub IsEndif : Text → Type 0
IsEndif line =
    (found (match if_directive line) ≡ false)
    × (found (match else_directive line) ≡ false)
    × (found (match endif_directive line) ≡ true)

abbrev pub IsPlainLine : Text → Type 0
IsPlainLine line =
    (found (match if_directive line) ≡ false)
    × (found (match else_directive line) ≡ false)
    × (found (match endif_directive line) ≡ false)

-- Lines in which every condition is closed, or the rest of a condition up to the line of its #endif.
pub data Shape : Type 0 where
  section : Shape
  branches : ℕ → Shape

pub data Nested (clean_lines : CleansedLines) : Shape → List ℕ → Type 0 where
  no_lines : Nested clean_lines section []
  plain_line :
      (n : ℕ) (ns : List ℕ)
      → IsPlainLine (line_at clean_lines n)
      → Nested clean_lines section ns
      → Nested clean_lines section (n ∷ ns)
  condition :
      (n : ℕ) (first rest tail : List ℕ) (last : ℕ)
      → IsIf (line_at clean_lines n)
      → Nested clean_lines section first
      → Nested clean_lines (branches last) rest
      → Nested clean_lines section tail
      → Nested clean_lines section (n ∷ (first ++ (rest ++ tail)))
  endif_line :
      (last : ℕ)
      → IsEndif (line_at clean_lines last)
      → Nested clean_lines (branches last) (last ∷ [])
  else_line :
      (n : ℕ) (body rest : List ℕ) (last : ℕ)
      → IsElse (line_at clean_lines n)
      → Nested clean_lines section body
      → Nested clean_lines (branches last) rest
      → Nested clean_lines (branches last) (n ∷ (body ++ rest))

update_all-append :
    (c : CleansedLines) (ns ms : List ℕ) (s : NestingState)
    → update_all c (ns ++ ms) s ≡ update_all c ms (update_all c ns s)
update_all-append c [] ms s = refl
update_all-append c (n ∷ ns) ms s = update_all-append c ns ms (update c n s).0

-- The stack and the conditions after a line.
abbrev After : CleansedLines → ℕ → NestingState → BlockStack → List PreprocessorInfo → Type 0
After c n s stack pp = ((update c n s).0.stack ≡ moved c n stack) × ((update c n s).0.pp_stack ≡ pp)

-- The stack that a condition keeps: that of its first branch.
abbrev kept : PreprocessorInfo → BlockStack → BlockStack
kept p stack = if p.seen_else then p.stack_before_else else stack

abbrev marked : PreprocessorInfo → BlockStack → PreprocessorInfo
marked p stack = if p.seen_else then p else record p { seen_else = true; stack_before_else = stack }

After-if :
    (c : CleansedLines) (n : ℕ) (s : NestingState)
    → IsIf (line_at c n)
    → After c n s s.stack (new_preprocessor_info s.stack ∷ s.pp_stack)
unfolding update update_preprocessor
After-if c n s h = rw h (refl, refl)

After-else :
    (c : CleansedLines) (n : ℕ) (s : NestingState) (p : PreprocessorInfo)
    (pp : List PreprocessorInfo)
    → IsElse (line_at c n)
    → s.pp_stack ≡ p ∷ pp
    → After c n s p.stack_before_if (marked p s.stack ∷ pp)
unfolding update update_preprocessor
After-else c n s p pp (a, h) e = rw (a, h, e) (refl, refl)

After-endif :
    (c : CleansedLines) (n : ℕ) (s : NestingState) (p : PreprocessorInfo)
    (pp : List PreprocessorInfo)
    → IsEndif (line_at c n)
    → s.pp_stack ≡ p ∷ pp
    → After c n s (kept p s.stack) pp
unfolding update update_preprocessor
After-endif c n s p pp (a, b, h) e = rw (a, b, h, e) (refl, refl)

After-plain :
    (c : CleansedLines) (n : ℕ) (s : NestingState)
    → IsPlainLine (line_at c n)
    → After c n s s.stack s.pp_stack
unfolding update update_preprocessor
After-plain c n s (a, b, h) = rw (a, b, h) (refl, refl)

kept-marked :
    (p : PreprocessorInfo) (stack later : BlockStack) → kept (marked p stack) later ≡ kept p stack
kept-marked p stack later = elim (Bool-cases p.seen_else) [ inl e ↦ rw e refl | inr e ↦ rw e refl ]

-- What lines of a shape do to the conditions and, up to an #endif, to the stack.
abbrev Restores : CleansedLines → Shape → List ℕ → Type 0
Restores c section ns = (s : NestingState) → (update_all c ns s).pp_stack ≡ s.pp_stack
Restores c (branches last) ns =
    (s : NestingState) (p : PreprocessorInfo) (pp : List PreprocessorInfo)
    → s.pp_stack ≡ p ∷ pp
    → ((update_all c ns s).stack ≡ moved c last (kept p s.stack))
      × ((update_all c ns s).pp_stack ≡ pp)

condition-Restores :
    (c : CleansedLines) (n : ℕ) (first rest : List ℕ) (last : ℕ)
    → IsIf (line_at c n)
    → Restores c section first
    → Restores c (branches last) rest
    → (s : NestingState)
    → ((update_all c (n ∷ (first ++ rest)) s).stack
        ≡ moved c last (update_all c (n ∷ first) s).stack)
      × ((update_all c (n ∷ (first ++ rest)) s).pp_stack ≡ s.pp_stack)
condition-Restores c n first rest last h f r s =
    let s1 = (update c n s).0 in
    let (_, pp) = After-if c n s h in
    let (q, q') =
      r (update_all c first s1) (new_preprocessor_info s.stack) s.pp_stack (f s1 ∙ pp) in
    let step = update_all-append c first rest s1 in
    (ap (λ (t : NestingState). t.stack) step ∙ q, ap (λ (t : NestingState). t.pp_stack) step ∙ q')

else-Restores :
    (c : CleansedLines) (n : ℕ) (body rest : List ℕ) (last : ℕ)
    → IsElse (line_at c n)
    → Restores c section body
    → Restores c (branches last) rest
    → Restores c (branches last) (n ∷ (body ++ rest))
else-Restores c n body rest last h b r s p pp e =
    let s1 = (update c n s).0 in
    let (_, pp1) = After-else c n s p pp h e in
    let (q, q') = r (update_all c body s1) (marked p s.stack) pp (b s1 ∙ pp1) in
    let step = update_all-append c body rest s1 in
    (
      ap (λ (t : NestingState). t.stack) step
          ∙ (q ∙ ap (moved c last) (kept-marked p s.stack (update_all c body s1).stack)),
      ap (λ (t : NestingState). t.pp_stack) step ∙ q',
    )

Nested-Restores :
    (c : CleansedLines) (shape : Shape) (ns : List ℕ) → Nested c shape ns → Restores c shape ns
Nested-Restores c shape ns no_lines = λ s. refl
Nested-Restores c shape ns (plain_line n ms h t) =
    λ s. Nested-Restores c section ms t (update c n s).0 ∙ (After-plain c n s h).1
Nested-Restores c shape ns (condition n first rest tail last h f r t) = λ s.
    let ih_first = Nested-Restores c section first f in
    let ih_rest = Nested-Restores c (branches last) rest r in
    let (_, pp) = condition-Restores c n first rest last h ih_first ih_rest s in
    ap (λ (ms : List ℕ). (update_all c (n ∷ ms) s).pp_stack) (sym (append_assoc first rest tail))
    ∙ (ap (λ (t : NestingState). t.pp_stack) (update_all-append c (n ∷ (first ++ rest)) tail s)
        ∙ (Nested-Restores c section tail t (update_all c (n ∷ (first ++ rest)) s) ∙ pp))
Nested-Restores c shape ns (endif_line last h) = λ s p pp e. After-endif c last s p pp h e
Nested-Restores c shape ns (else_line n body rest last h b r) =
    else-Restores c n body rest last h (Nested-Restores c section body b)
      (Nested-Restores c (branches last) rest r)

-- A condition whose branches have every inner condition closed leaves the conditions that are open as
-- they were, and the stack that its first branch reaches: what stands in #else and #elif branches does
-- not count. The line of its #endif then updates that stack.
pub condition-Nested :
    (c : CleansedLines) (n : ℕ) (first rest : List ℕ) (last : ℕ) (s : NestingState)
    → IsIf (line_at c n)
    → Nested c section first
    → Nested c (branches last) rest
    → ((update_all c (n ∷ (first ++ rest)) s).stack
        ≡ moved c last (update_all c (n ∷ first) s).stack)
      × ((update_all c (n ∷ (first ++ rest)) s).pp_stack ≡ s.pp_stack)
condition-Nested c n first rest last s h f r =
    condition-Restores c n first rest last h (Nested-Restores c section first f)
      (Nested-Restores c (branches last) rest r) s

-- The line of the first #else or #elif of a condition updates the stack that stood before the line of
-- its #if, whatever the first branch made of it.
pub else-Nested :
    (c : CleansedLines) (n : ℕ) (first : List ℕ) (m : ℕ) (s : NestingState)
    → IsIf (line_at c n)
    → Nested c section first
    → IsElse (line_at c m)
    → (update_all c (n ∷ (first ++ m ∷ [])) s).stack ≡ moved c m s.stack
else-Nested c n first m s h f g =
    let s1 = (update c n s).0 in
    let s2 = update_all c first s1 in
    let pp = Nested-Restores c section first f s1 ∙ (After-if c n s h).1 in
    ap (λ (t : NestingState). t.stack) (update_all-append c first (m ∷ []) s1)
    ∙ (After-else c m s2 (new_preprocessor_info s.stack) s.pp_stack g pp).0
