-- ===== src/HeaderGuard/Tests.antt =====
-- The header guard of a small file.
use csci.Prelude.{◌≡◌, refl, List, [], ◌∷◌, none, Text, text, split_words}
use csci.Regex.{evaluation}
use csci.FileInfo.{repository_name, to_slashes, full_name}
use csci.Session.{ended}
use csci.FileData.Samples.{plain_files}
use csci.HeaderGuard.{
  get_header_guard_cpp_variable, guard_name, guard_file, flymake_header, flymake_dir,
}
use csci.HeaderGuard.Scan.{no_guard, find_guard}
use csci.HeaderGuard.Scan.First.{first_argument, last_endif, text_at, line_at, find_guard_lem}
use csci.HeaderGuard.Name.{IsGuardName, get_header_guard-IsGuardName}

abbrev header : List Text
header =
    text "#ifndef A_H_" ∷ text "#define A_H_" ∷ text "#define OTHER" ∷ text "#endif  // A_H_" ∷ []

header_guard : find_guard 0 header no_guard ≡ record {
  ifndef = text "A_H_";
  ifndef_linenum = 0;
  define = text "A_H_";
  endif = text "#endif  // A_H_";
  endif_linenum = 3;
}
unfolding find_guard split_words evaluation
header_guard = refl

find_guard_lem_example : find_guard 0 header no_guard ≡ record {
  ifndef = text_at (first_argument (text "#ifndef") 0 header);
  ifndef_linenum = line_at (first_argument (text "#ifndef") 0 header);
  define = text_at (first_argument (text "#define") 0 header);
  endif = text_at (last_endif 0 header);
  endif_linenum = line_at (last_endif 0 header);
}
find_guard_lem_example = find_guard_lem header

guard_of_header :
    get_header_guard_cpp_variable plain_files 9 none (text "c++/a-b.h")
    ≡ ended (text "_P_CPP_A_B_H_")
unfolding get_header_guard_cpp_variable guard_name guard_file flymake_header flymake_dir
    repository_name full_name to_slashes evaluation
guard_of_header = refl

get_header_guard-IsGuardName_example : IsGuardName (text "_P_CPP_A_B_H_")
get_header_guard-IsGuardName_example =
    get_header_guard-IsGuardName plain_files 9 none (text "c++/a-b.h") (text "_P_CPP_A_B_H_")
      guard_of_header
