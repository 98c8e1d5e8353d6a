-- ===== src/SameModule/Tests.antt =====
-- A source file with a longer path than its header.
use mathlib.Core.List.{reverse}
use csci.Prelude.{◌∷◌}
use csci.Regex.{Found}
use csci.Prelude.{◌≡◌, refl, true, [], text}
use csci.Regex.{evaluation}
use csci.FileInfo.{is_source, is_source_extension, split_name}
use csci.Paths.{split, split_ext}
use csci.FileData.Included.{test_file_suffix}
use csci.SameModule.{source_stem, header_stem, without_visibility, files_belong_to_same_module}

same_module :
    files_belong_to_same_module
      (text "/p/base/public/sys_test.cc")
      (text "base/public/sys_test.cc")
      (text "base/sys-inl.h")
    ≡ (true, text "/p/")
unfolding files_belong_to_same_module source_stem header_stem without_visibility is_source
    is_source_extension split_name split split_ext test_file_suffix evaluation
same_module = refl

-- The match of the suffix in the name of the test.
abbrev suffix_found : Found
suffix_found = record {
  from = record { before = reverse (text "sys"); rest = text "_test"; groups = [] };
  to = record { before = reverse (text "sys_test"); rest = []; groups = (1, text "_test") ∷ [] };
}
