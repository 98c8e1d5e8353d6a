-- ===== src/FileInfo/Tests.antt =====
-- The loop up a Subversion checkout at /p/q, of which the root of the file system has no .svn.
use csci.Prelude.{ℕ, ◌≡◌, refl, ◌↔◌, false, ◌||◌, [], none, some, Text, text, text_eq}
use csci.Regex.{evaluation}
use csci.Files.{Files}
use csci.Paths.{split, join_path}
use csci.FileInfo.{has, svn_root}
use csci.FileInfo.Climb.{up, svn_root_iff}

abbrev checkout : Files
checkout = record {
  abspath = λ f. f;
  exists = λ f. text_eq f (text "/p/q/.svn") || text_eq f (text "/p/.svn");
  is_file = λ f. false;
  config_lines = λ f. ([], false);
  contents = λ f. none;
  compile = λ p. none;
}

checkout_root : svn_root checkout 3 (text "/p") (text "/p/q") ≡ some (text "/p")
unfolding svn_root split join_path evaluation
checkout_root = refl

svn_root_iff_example :
    ((fuel : ℕ) × (root : Text) × (svn_root checkout fuel (text "/p") (text "/p/q") ≡ some root))
    ↔ ((n : ℕ) × (has checkout (up n (text "/p")) (text ".svn") ≡ false))
svn_root_iff_example = svn_root_iff checkout (text "/p") (text "/p/q")
