-- ===== src/Session/Inverse.antt =====
-- What stands behind a value that a call returned.
use csci.Prelude.{◌≡◌, refl}
use csci.Session.{Session, Ending, ended, raised, exited, unfinished, Run, and_then, ◌>>=◌}

-- A chain that returned: its first part did, and the second part went on from there.
pub bind-ended :
    {A B : Type 0} (m : Run A) (f : A → Run B) (s : Session) {b : B}
    → ((m >>= f) s).0 ≡ ended b
    → (a : A) × ((m s).0 ≡ ended a) × ((m >>= f) s ≡ f a (m s).1)
bind-ended m f s = of (m s).0 (m s).1
  where
    of :
        (e : Ending _) (t : Session) {b : _}
        → (and_then e t f).0 ≡ ended b
        → (a : _) × (e ≡ ended a) × (and_then e t f ≡ f a t)
    of (ended a) t h = (a, refl, refl)
    of (raised x) t h = cc
    of (exited c) t h = cc
    of unfinished t h = cc
