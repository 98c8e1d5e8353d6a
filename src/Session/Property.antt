-- ===== src/Session/Property.antt =====
-- Properties of calls that a `do` block has when its parts have them.
use csci.Prelude.{Bool, true, false, List, Text, if◌then◌else◌}
use csci.Report.{Report}
use csci.Suppress.{Suppressions}
use csci.Session.{Session, Run, ◌>>=◌, ◌>>◌, pass, when, change, report_all}

-- The change of the suppressions by a function.
abbrev pub suppress_by : (Suppressions → Suppressions) → Run (Unit {0})
suppress_by f = change (λ s. record s { suppressions = f s.suppressions })

-- A call that reads the state first.
abbrev pub reading : {V B : Type 0} → (Session → V) → (V → Run B) → Run B
reading view f s = f (view s) s

pub record Property : Type 1 where
  pub Has : (A : Type 0) → Run A → Type 0
  pub passes : (A : Type 0) (a : A) → Has A (pass a)
  pub chains :
      (A B : Type 0) (m : Run A) (f : A → Run B)
      → Has A m
      → ((a : A) → Has B (f a))
      → Has B (m >>= f)
  pub reads :
      (V B : Type 0) (view : Session → V) (f : V → Run B)
      → ((v : V) → Has B (f v))
      → Has B (reading view f)
  pub suppresses : (f : Suppressions → Suppressions) → Has (Unit {0}) (suppress_by f)
  pub reports : (filename : Text) (rs : List Report) → Has (Unit {0}) (report_all filename rs)

module _ (p : Property) where
  abbrev pub Holds : {A : Type 0} → Run A → Type 0
  Holds {A} m = p.Has A m

  pub chain :
      {A B : Type 0} (m : Run A) (f : A → Run B)
      → p.Has A m
      → ((a : A) → p.Has B (f a))
      → p.Has B (m >>= f)
  chain {A} {B} = p.chains A B

  -- A chain whose first part returns nothing.
  pub follow :
      {B : Type 0} (m : Run (Unit {0})) (k : Run B) → p.Has Unit m → p.Has B k → p.Has B (m >> k)
  follow m k hm hk = chain m (λ _. k) hm (λ _. hk)

  pub choice :
      {A : Type 0} (b : Bool) (m n : Run A) → p.Has A m → p.Has A n → p.Has A (if b then m else n)
  choice true m n hm hn = hm
  choice false m n hm hn = hn

  pub choice_to_do : (b : Bool) (m : Run (Unit {0})) → p.Has Unit m → p.Has Unit (when b m)
  choice_to_do true m h = h
  choice_to_do false m h = p.passes Unit tt
