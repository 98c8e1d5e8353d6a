-- ===== src/Nesting/Depth.antt =====
-- The brace loop of `NestingState.Update` against a reading of the line character by character.
use csci.Prelude.{
  ℕ, zero, suc, ◌+◌, ◌-◌, ◌<◌, ◌≡◌, refl, ap, ap₂, sym, ◌∙◌, subst, true, List, [], ◌∷◌, ◌++◌, inl,
  inr, none, some, arith, Text, text, text_eq, ◌==◌, length, length-append, All, Bool-cases,
  Option-cases, if◌then◌else◌,
}
use csci.Regex.{Found, match, group_text}
use csci.Report.{Report}
use csci.Cleanse.Lines.{CleansedLines}
use csci.Nesting.State.{BlockStack, seen_open_brace_in}
use csci.Nesting.Braces.{
  is_token, token_pattern, token_of, token_step, brace_loop, pop, block_of_brace,
}
use csci.Nesting.Tokens.{IsOneLine, IsOneLine-rest, NoToken, match-NoToken, match-TokenFound}

-- The reference: every character is looked at, and a token is a step. `line` is what is left of the
-- line behind the last token, `rest` what is left behind the last character.
abbrev pub scan : CleansedLines → ℕ → Text → Text → BlockStack → BlockStack × List Report
scan clean_lines linenum line [] stack = (stack, [])
scan clean_lines linenum line (c ∷ rest) stack =
    let step = token_step clean_lines linenum (token_of (c ∷ [])) line stack in
    let behind = scan clean_lines linenum rest rest step.0 in
    let on = scan clean_lines linenum line rest stack in
    if is_token c then (behind.0, step.1 ++ behind.1) else on

module _ (clean_lines : CleansedLines) (linenum : ℕ) where
  scan-NoToken :
      (line rest : Text) (stack : BlockStack)
      → NoToken rest
      → scan clean_lines linenum line rest stack ≡ (stack, [])
  scan-NoToken line [] stack h = refl
  scan-NoToken line (c ∷ rest) stack (n, h) = elim (Bool-cases (is_token c)) [
    | inl e ↦ absurd (ground arith)
    | inr e ↦ rw e (scan-NoToken line rest stack h)
  ]

  -- The step for a token, and what the loop does behind it.
  abbrev taken : Text → ℕ → Text → BlockStack → BlockStack × List Report
  taken line t rest stack =
      let step = token_step clean_lines linenum (token_of (t ∷ [])) line stack in
      let behind = scan clean_lines linenum rest rest step.0 in (behind.0, step.1 ++ behind.1)

  scan-FirstToken :
      (line before : Text) (t : ℕ) (rest : Text) (stack : BlockStack)
      → NoToken before
      → is_token t ≡ true
      → scan clean_lines linenum line (before ++ t ∷ rest) stack ≡ taken line t rest stack
  scan-FirstToken line [] t rest stack h k = rw k refl
  scan-FirstToken line (c ∷ before) t rest stack (n, h) k = elim (Bool-cases (is_token c)) [
    | inl e ↦ absurd (ground arith)
    | inr e ↦ rw e (scan-FirstToken line before t rest stack h k)
  ]

  -- The loop behind a token.
  abbrev going_on : ℕ → Text → Text → Text → BlockStack → BlockStack × List Report
  going_on fuel line token rest stack =
      let step = token_step clean_lines linenum (token_of token) line stack in
      let behind = brace_loop fuel clean_lines linenum rest step.0 in (behind.0, step.1 ++ behind.1)

  brace_loop-none :
      (fuel : ℕ) (line : Text) (stack : BlockStack)
      → match token_pattern line ≡ none
      → brace_loop (suc fuel) clean_lines linenum line stack ≡ (stack, [])
  unfolding brace_loop
  brace_loop-none fuel line stack e = rw (e, brace_loop) refl

  brace_loop-some :
      (fuel : ℕ) (line : Text) (stack : BlockStack) (m : Found)
      → match token_pattern line ≡ some m
      → brace_loop (suc fuel) clean_lines linenum line stack
        ≡ going_on fuel line (group_text 1 m) (group_text 2 m) stack
  unfolding brace_loop
  brace_loop-some fuel line stack m e = rw (e, brace_loop) refl

  brace_loop-scan :
      (fuel : ℕ) (line : Text) (stack : BlockStack)
      → IsOneLine line
      → length line < fuel
      → brace_loop fuel clean_lines linenum line stack ≡ scan clean_lines linenum line line stack
  brace_loop-scan zero line stack h lt = absurd (omega arith)
  brace_loop-scan (suc fuel) line stack h lt = elim (Option-cases (match token_pattern line)) [
    | inl e ↦
        brace_loop-none fuel line stack e
        ∙ sym (scan-NoToken line line stack (match-NoToken line h e))
    | inr (m, e) ↦
        let (before, t, rest, (split, none_before, k), g1, g2) = match-TokenFound line m h e in
        let step = token_step clean_lines linenum (token_of (t ∷ [])) line stack in
        let shorter : length rest < fuel =
          omega (arith, ap length split, length-append {0} before (t ∷ rest)) in
        let ih =
          brace_loop-scan fuel rest step.0 (IsOneLine-rest before t rest (subst IsOneLine split h))
            shorter in
        brace_loop-some fuel line stack m e
        ∙ (ap₂ (λ u v. going_on fuel line u v stack) g1 g2
            ∙ (ap (λ (r : BlockStack × List Report). (r.0, step.1 ++ r.1)) ih
                ∙ (sym (scan-FirstToken line before t rest stack none_before k)
                    ∙ ap (λ u. scan clean_lines linenum line u stack) (sym split))))
  ]

-- On a line with no line break, `Update`'s loop over the matches of its pattern does what a reading of
-- the line character by character does, with a step at each brace, semicolon and closing parenthesis.
-- Its fuel, the length of the line and one more, is enough.
pub brace_loop_lem :
    (clean_lines : CleansedLines) (linenum : ℕ) (line : Text) (stack : BlockStack)
    → IsOneLine line
    → brace_loop (length line + 1) clean_lines linenum line stack
      ≡ scan clean_lines linenum line line stack
brace_loop_lem clean_lines linenum line stack h =
    brace_loop-scan clean_lines linenum (length line + 1) line stack h (omega arith)

-- The depth of the braces behind the line; a closing brace at depth 0 is ignored.
abbrev pub depth_after : Text → ℕ → ℕ
depth_after [] n = n
depth_after (c ∷ s) n = depth_after s (if c == b'{' then n + 1 else if c == b'}' then n - 1 else n)

-- No block waits for its opening brace.
abbrev pub AllOpen : BlockStack → Type 0
AllOpen = All (λ b. b.seen_open_brace ≡ true)

block_of_brace-open :
    (linenum : ℕ) (line : Text) → (block_of_brace linenum line).seen_open_brace ≡ true
unfolding block_of_brace
block_of_brace-open linenum line = ground arith

AllOpen-seen : (stack : BlockStack) → AllOpen stack → seen_open_brace_in stack ≡ true
unfolding seen_open_brace_in
AllOpen-seen [] h = refl
AllOpen-seen (b ∷ stack) (h, _) = h

-- What a step makes of a stack and how deep the stack is then.
abbrev Deepens : CleansedLines → ℕ → Text → BlockStack → ℕ → Type 0
Deepens c n line stack t =
    AllOpen (token_step c n (token_of (t ∷ [])) line stack).0
    × (length (token_step c n (token_of (t ∷ [])) line stack).0
        ≡ depth_after (t ∷ []) (length stack))

Token-Deepens :
    (c : CleansedLines) (n : ℕ) (line : Text) (stack : BlockStack)
    → AllOpen stack
    → Deepens c n line stack b'{'
      × Deepens c n line stack b'}'
      × Deepens c n line stack b';'
      × Deepens c n line stack b')'
unfolding token_step text_eq text
Token-Deepens c n line stack h =
    let seen = AllOpen-seen stack h in
    (
      rw seen ((block_of_brace-open n line, h), omega arith),
      popped stack h,
      rw seen (h, refl),
      rw seen (h, refl),
    )
  where
    popped :
        (stack : BlockStack)
        → AllOpen stack
        → AllOpen (pop stack) × (length (pop stack) ≡ length stack - 1)
    popped [] h = (tt, refl)
    popped (b ∷ stack) (_, h) = (h, omega arith)

token_step-AllOpen :
    (c : CleansedLines) (n : ℕ) (line : Text) (stack : BlockStack) (t : ℕ)
    → is_token t ≡ true
    → AllOpen stack
    → Deepens c n line stack t
token_step-AllOpen c n line stack t k h =
    let (o, e, s, p) = Token-Deepens c n line stack h in
    elim (Bool-cases (t == b'{')) [
      | inl q ↦ subst (Deepens c n line stack) {x = b'{'} (ground arith) o
      | inr q ↦ elim (Bool-cases (t == b';')) [
        | inl r ↦ subst (Deepens c n line stack) {x = b';'} (ground arith) s
        | inr r ↦ elim (Bool-cases (t == b')')) [
          | inl u ↦ subst (Deepens c n line stack) {x = b')'} (ground arith) p
          | inr u ↦ subst (Deepens c n line stack) {x = b'}'} (ground arith) e
        ]
      ]
    ]

scan-depth :
    (c : CleansedLines) (n : ℕ) (line rest : Text) (stack : BlockStack)
    → AllOpen stack
    → AllOpen (scan c n line rest stack).0
      × (length (scan c n line rest stack).0 ≡ depth_after rest (length stack))
scan-depth c n line [] stack h = (h, refl)
scan-depth c n line (x ∷ rest) stack h = elim (Bool-cases (is_token x)) [
  | inl k ↦
      let (open_after, deep) = token_step-AllOpen c n line stack x k h in
      let (all, q) =
        scan-depth c n rest rest (token_step c n (token_of (x ∷ [])) line stack).0 open_after in
      rw k (all, q ∙ ap (depth_after rest) deep)
  | inr k ↦
      let (all, q) = scan-depth c n line rest stack h in
      rw k (all, q ∙ ap (depth_after rest) {x = length stack} (ground arith))
]

-- If no block waits for its opening brace, then none does behind the line, and the stack is as deep as
-- the braces of the line make it: one more block for each that opens, one less for each that closes,
-- but never below 0.
pub brace_loop-depth :
    (clean_lines : CleansedLines) (linenum : ℕ) (line : Text) (stack : BlockStack)
    → IsOneLine line
    → AllOpen stack
    → AllOpen (brace_loop (length line + 1) clean_lines linenum line stack).0
      × (length (brace_loop (length line + 1) clean_lines linenum line stack).0
          ≡ depth_after line (length stack))
brace_loop-depth clean_lines linenum line stack h open_stack =
    let same = brace_loop_lem clean_lines linenum line stack h in
    subst
      (λ (r : BlockStack × List Report).
        AllOpen r.0 × (length r.0 ≡ depth_after line (length stack)))
      (sym same) (scan-depth clean_lines linenum line line stack open_stack)
