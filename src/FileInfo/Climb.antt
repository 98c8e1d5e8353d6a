-- ===== src/FileInfo/Climb.antt =====
-- The two loops of `RepositoryName` up the directories.
use csci.Prelude.{
  ℕ, zero, suc, ◌<◌, ◌≡◌, refl, sym, ◌↔◌, inl, inr, false, some, arith, Text, text, text_eq,
  text_eq_iff, length, Bool-cases, if◌then◌else◌,
}
use csci.Files.{Files}
use csci.Paths.{dirname}
use csci.Paths.Shorter.{dirname_shorter}
use csci.FileInfo.{has, svn_root, top_root, full_name, repository_name, is_checkout, below}

-- The directory that is a number of levels up.
abbrev pub up : ℕ → Text → Text
up zero dir = dir
up (suc n) dir = up n (dirname dir)

-- The search for the topmost checkout ends by its own test, for every file system: the length of the
-- path is fuel enough.
pub top_root_lem :
    (files : Files) (fuel : ℕ) (current_dir root_dir : Text)
    → length current_dir < fuel
    → (root : Text) × (top_root files fuel current_dir root_dir ≡ some root)
unfolding top_root
top_root_lem files zero current_dir root_dir h = absurd (omega arith)
top_root_lem files (suc fuel) current_dir root_dir h =
    elim (Bool-cases (text_eq current_dir (dirname current_dir))) [
      | inl e ↦ (root_dir, rw (e, top_root))
      | inr e ↦
          rw (e, top_root)
            (top_root_lem files fuel (dirname current_dir) _ (elim (dirname_shorter current_dir) [
              | inl same ↦
                  absurd
                    (let t = (text_eq_iff current_dir (dirname current_dir)).1 (sym same) in cc)
              | inr less ↦ omega arith
            ]))
    ]

svn_root-ends :
    (files : Files) (n : ℕ) (one_up_dir root_dir : Text)
    → has files (up n one_up_dir) (text ".svn") ≡ false
    → (fuel : ℕ) × (root : Text) × (svn_root files fuel one_up_dir root_dir ≡ some root)
unfolding svn_root
svn_root-ends files zero one_up_dir root_dir h =
    let here : has files one_up_dir (text ".svn") ≡ false = h in (1, root_dir, rw (here, svn_root))
svn_root-ends files (suc n) one_up_dir root_dir h =
    let (fuel, root, e) = svn_root-ends files n (dirname one_up_dir) (dirname root_dir) h in
    elim (Bool-cases (has files one_up_dir (text ".svn"))) [
      | inl t ↦ (suc fuel, root, rw (t, svn_root) e)
      | inr f ↦ (1, root_dir, rw (f, svn_root))
    ]

svn_root-found :
    (files : Files) (fuel : ℕ) (one_up_dir root_dir root : Text)
    → svn_root files fuel one_up_dir root_dir ≡ some root
    → (n : ℕ) × (has files (up n one_up_dir) (text ".svn") ≡ false)
unfolding svn_root
svn_root-found files zero one_up_dir root_dir root h = cc
svn_root-found files (suc fuel) one_up_dir root_dir root h =
    elim (Bool-cases (has files one_up_dir (text ".svn"))) [
      | inl t ↦
          let (n, e) =
            svn_root-found files fuel (dirname one_up_dir) (dirname root_dir) root
              (rw (t, svn_root) at h) in
          (suc n, e)
      | inr f ↦ (0, f)
    ]

-- The loop up a Subversion checkout ends exactly if some directory on the way up, the start and the
-- root of the file system included, has no .svn; if all have one, it goes on for ever.
pub svn_root_iff :
    (files : Files) (one_up_dir root_dir : Text)
    → ((fuel : ℕ) × (root : Text) × (svn_root files fuel one_up_dir root_dir ≡ some root))
      ↔ ((n : ℕ) × (has files (up n one_up_dir) (text ".svn") ≡ false))
svn_root_iff files one_up_dir root_dir = (
  λ (fuel, root, e). svn_root-found files fuel one_up_dir root_dir root e,
  λ (n, e). svn_root-ends files n one_up_dir root_dir e,
)

-- Where no directory has an .svn, every name is found, with any fuel.
pub repository_name-found :
    (files : Files) (fuel : ℕ)
    → ((dir : Text) → has files dir (text ".svn") ≡ false)
    → (filename : Text) → (n : Text) × (repository_name files fuel filename ≡ some n)
unfolding repository_name
repository_name-found files fuel no_svn filename =
    let fullname = full_name files filename in
    elim (Bool-cases (files.exists fullname)) [
      | inl e ↦
          let (root, t) =
            top_root_lem files (suc (length (dirname fullname))) (dirname fullname)
              (dirname fullname) (omega arith) in
          let no_svn_here : has files (dirname fullname) (text ".svn") ≡ false =
            no_svn (dirname fullname) in
          (
            if is_checkout files root then below fullname root (dirname fullname) else fullname,
            rw (e, no_svn_here, t) refl,
          )
      | inr e ↦ (fullname, rw e refl)
    ]
