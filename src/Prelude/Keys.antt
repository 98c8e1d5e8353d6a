-- ===== src/Prelude/Keys.antt =====
-- Equality of keys, as an interface with its law.
use Prim.Native.Nat.{ℕ}
use mathlib.Core.Path.{◌≡◌, refl, ap}
use mathlib.Core.Logic.{◌↔◌}
use mathlib.Core.Bool.{Bool, true, false}
use mathlib.Core.List.{List, [], ◌∷◌}
use mathlib.Core.Option.{Option, none, some}
use native.Mathlib.Omega.{arith}
use csci.Prelude.Tests.{◌==◌, ==_iff, if◌then◌else◌}
use csci.Prelude.Strings.{Text, text_eq, text_eq_iff}

pub record Eq {ℓ} (A : Type ℓ) : Type ℓ where
  pub beq : A → A → Bool
  pub beq_iff : (a b : A) → (beq a b ≡ true) ↔ (a ≡ b)

instance abbrev pub nat_eq : Eq ℕ
nat_eq = record { beq = λ a b. a == b; beq_iff = ==_iff }

instance abbrev pub text_keys : Eq Text
text_keys = record { beq = text_eq; beq_iff = text_eq_iff }

module _ {ℓ} {A : Type ℓ} where
  abbrev pub option_beq : (A → A → Bool) → Option A → Option A → Bool
  option_beq eq none none = true
  option_beq eq none (some b) = false
  option_beq eq (some a) none = false
  option_beq eq (some a) (some b) = eq a b

  pub option_beq_iff : (e : Eq A) (a b : Option A) → (option_beq e.beq a b ≡ true) ↔ (a ≡ b)
  option_beq_iff e none none = (λ _. refl, λ _. refl)
  option_beq_iff e none (some b) = (λ h. cc, λ h. cc)
  option_beq_iff e (some a) none = (λ h. cc, λ h. cc)
  option_beq_iff e (some a) (some b) =
      (λ h. ap some ((e.beq_iff a b).0 h), λ h. (e.beq_iff a b).1 (ground arith))

instance abbrev pub option_eq {ℓ} : {A : Type ℓ} ⦃e : Eq A⦄ → Eq (Option A)
option_eq ⦃e⦄ = record { beq = option_beq e.beq; beq_iff = option_beq_iff e }

-- `a in xs`.
module _ {ℓ} {A : Type ℓ} ⦃e : Eq A⦄ where
  abbrev pub contains : A → List A → Bool
  contains a [] = false
  contains a (x ∷ xs) = if e.beq a x then true else contains a xs
