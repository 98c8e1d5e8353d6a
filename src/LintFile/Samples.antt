-- ===== src/LintFile/Samples.antt =====
-- The file system of the tests has no configuration files and no Subversion checkouts.
use csci.Prelude.{
  ◌≤◌, ◌≡◌, refl, ap, false, [], ◌∷◌, arith, Text, text, text_eq, text_eq_iff, length,
  length-append, ends_with, starts_with, Bool-cases, inl, inr,
}
use csci.Paths.{join_path}
use csci.FileData.Samples.{plain_files}
use csci.LintFile.Ends.{IsPlain}

join_path-length : (dir : Text) → 11 ≤ length (join_path dir (text "CPPLINT.cfg"))
unfolding join_path text starts_with
join_path-length [] = omega arith
join_path-length (c ∷ s) = elim (Bool-cases (ends_with (c ∷ s) (text "/"))) [
  | inl e ↦ rw e (omega (arith, length-append {0} (c ∷ s) (text "CPPLINT.cfg")))
  | inr e ↦ rw e (omega (arith, length-append {0} (c ∷ s) (text "/CPPLINT.cfg")))
]

not_a_file : (dir : Text) → plain_files.is_file (join_path dir (text "CPPLINT.cfg")) ≡ false
unfolding text
not_a_file dir =
    let path = join_path dir (text "CPPLINT.cfg") in
    elim (Bool-cases (text_eq path (text "/p/a.cc"))) [
      | inr e ↦ e
      | inl e ↦
          absurd (
            omega
              (arith, join_path-length dir, ap length ((text_eq_iff path (text "/p/a.cc")).0 e)))
    ]

pub plain_files-IsPlain : IsPlain plain_files
plain_files-IsPlain = (not_a_file, (λ dir. refl))
