-- ===== src/Nesting/Namespaces.antt =====
-- The loop of `NestingState.Update` over the namespaces at the beginning of a line.
use csci.Prelude.{
  ℕ, zero, suc, ◌+◌, ◌<◌, ◌≡◌, refl, sym, ◌∙◌, subst, true, [], ◌∷◌, ◌++◌, append_assoc, Option,
  none, some, arith, Text, text, length, length-drop, drop, find, All, Option-cases, inl, inr,
}
use csci.Regex.{lit, Found, match, group_text}
use csci.Regex.Width.{group_text-seq3}
use csci.Nesting.Block.{Block, new_namespace}
use csci.Nesting.State.{BlockStack, is_namespace}
use csci.Nesting.Update.{namespace_decl, namespace_loop}

-- What follows a namespace declaration is shorter than the line by the word `namespace`.
shorter :
    (line : Text) (m : Found)
    → match namespace_decl line ≡ some m
    → length (group_text 2 m) < length line
unfolding namespace_decl lit text
shorter line m h = omega (arith, group_text-seq3 _ _ _ _ line m 2 h refl)

-- The blocks of a stack that are namespaces of the line.
abbrev pub AllNamespaces : ℕ → BlockStack → Type 0
AllNamespaces linenum = All (λ b. (is_namespace b.kind ≡ true) × (b.starting_linenum ≡ linenum))

-- The rest of the line does not begin with a namespace, and the stack has namespaces of the line on it.
abbrev pub Consumed : ℕ → BlockStack → Text × BlockStack → Type 0
Consumed linenum stack out =
    (match namespace_decl out.0 ≡ none)
    × ((new : BlockStack) × (out.1 ≡ new ++ stack) × AllNamespaces linenum new)

Consumed-push :
    (linenum : ℕ) (b : Block) (stack : BlockStack) (out : Text × BlockStack)
    → (is_namespace b.kind ≡ true) × (b.starting_linenum ≡ linenum)
    → Consumed linenum (b ∷ stack) out
    → Consumed linenum stack out
Consumed-push linenum b stack out h (e, (new, q, all)) =
    (e, (new ++ b ∷ [], q ∙ sym (append_assoc new (b ∷ []) stack), snoc new all))
  where
    snoc : (new : BlockStack) → AllNamespaces linenum new → AllNamespaces linenum (new ++ b ∷ [])
    snoc [] all = (h, tt)
    snoc (c ∷ new) (k, all) = (k, snoc new all)

abbrev seen : Block → Block
seen b = record b { seen_open_brace = true }

-- What the loop does behind a declaration.
abbrev behind : ℕ → ℕ → Block → Text → BlockStack → Option ℕ → Text × BlockStack
behind fuel linenum b rest stack none = namespace_loop fuel linenum rest (b ∷ stack)
behind fuel linenum b rest stack (some i) =
    namespace_loop fuel linenum (drop (i + 1) rest) (seen b ∷ stack)

namespace_loop-none :
    (fuel linenum : ℕ) (line : Text) (stack : BlockStack)
    → match namespace_decl line ≡ none
    → namespace_loop (suc fuel) linenum line stack ≡ (line, stack)
unfolding namespace_loop
namespace_loop-none fuel linenum line stack e = rw (e, namespace_loop) refl

namespace_loop-some :
    (fuel linenum : ℕ) (line : Text) (stack : BlockStack) (m : Found) (o : Option ℕ)
    → match namespace_decl line ≡ some m
    → find (group_text 2 m) (text "{") ≡ o
    → namespace_loop (suc fuel) linenum line stack
      ≡ behind fuel linenum (new_namespace (group_text 1 m) linenum) (group_text 2 m) stack o
unfolding namespace_loop
namespace_loop-some fuel linenum line stack m none e f = rw (e, namespace_loop, f) refl
namespace_loop-some fuel linenum line stack m (some i) e f = rw (e, namespace_loop, f) refl

loop-Consumed :
    (fuel linenum : ℕ) (line : Text) (stack : BlockStack)
    → length line < fuel
    → Consumed linenum stack (namespace_loop fuel linenum line stack)
loop-Consumed zero linenum line stack lt = absurd (omega arith)
loop-Consumed (suc fuel) linenum line stack lt = elim (Option-cases (match namespace_decl line)) [
  | inl e ↦
      subst (Consumed linenum stack) (sym (namespace_loop-none fuel linenum line stack e))
        (e, ([], refl, tt))
  | inr (m, e) ↦
      let b = new_namespace (group_text 1 m) linenum in
      let rest = group_text 2 m in
      let less = shorter line m e in
      subst (Consumed linenum stack)
        (sym (namespace_loop-some fuel linenum line stack m (find rest (text "{")) e refl))
        (go b rest less (find rest (text "{")) (loop-Consumed fuel linenum) (refl, refl))
]
  where
    go :
        (b : Block) (rest : Text)
        → length rest < length line
        → (o : Option ℕ)
        → ((line : Text) (stack : BlockStack)
            → length line < fuel
            → Consumed linenum stack (namespace_loop fuel linenum line stack))
        → (is_namespace b.kind ≡ true) × (b.starting_linenum ≡ linenum)
        → Consumed linenum stack (behind fuel linenum b rest stack o)
    go b rest less none ih h = Consumed-push linenum b stack _ h (ih rest (b ∷ stack) (omega arith))
    go b rest less (some i) ih h =
        Consumed-push linenum (seen b) stack _ h
          (ih (drop (i + 1) rest) (seen b ∷ stack) (omega (arith, length-drop (i + 1) rest)))

-- The loop ends by its own test: the length of the line and one more is fuel enough for what is left of
-- the line not to begin with a namespace declaration. It only pushes blocks, and each is a namespace that
-- starts on the line.
pub namespace_loop_lem :
    (linenum : ℕ) (line : Text) (stack : BlockStack)
    → Consumed linenum stack (namespace_loop (length line + 1) linenum line stack)
namespace_loop_lem linenum line stack =
    loop-Consumed (length line + 1) linenum line stack (omega arith)
