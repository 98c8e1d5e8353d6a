-- ===== src/FileData/Frame.antt =====
-- What the checks of a file leave alone, and when they return.
use csci.Prelude.{◌≡◌, inl, inr, refl, ℕ, List, none, some, Text}
use csci.Constructs.{check_for_non_standard_constructs}
use csci.Nesting.State.{NestingState}
use csci.Files.{Files}
use csci.FileInfo.{repository_name}
use csci.Session.Kept.{Keeps, bind-Keeps, settings, report_all-settings}
use csci.Session.Returns.{Returns, bind-Returns, pass-Returns, report_all-Returns}
use csci.Session.Property.{Property}
use csci.HeaderGuard.{get_header_guard_cpp_variable, guard_name, guard_file}
use csci.HeaderGuard.Check.{ask_guard}
use csci.FileData.{OtherChecks, process_file_data}
use csci.FileData.Included.{ask_name}
use csci.FileData.Rules.{process_file_data-Has, cleansed}

abbrev keeping_settings : Property
keeping_settings = record {
  Has = λ A m. Keeps settings m;
  passes = λ A a. record { holds = λ s. refl };
  chains = λ A B m f. bind-Keeps settings m f;
  reads = λ V B view f h. record { holds = λ s. (h (view s)).holds s };
  suppresses = λ f. record { holds = λ s. refl };
  reports = report_all-settings;
}

abbrev returning : Type 0 → Property
returning cause = record {
  Has = λ A m. Returns cause m;
  passes = λ A a. pass-Returns cause a;
  chains = λ A B m f. bind-Returns cause m f;
  reads = λ V B view f h. record { comes = λ s r. (h (view s)).comes s r };
  suppresses = λ f. record { comes = λ s r. inl (tt, refl, r) };
  reports = report_all-Returns cause;
}

-- Every name can be looked up in its repository.
abbrev pub AllNamed : Files → ℕ → Type 0
AllNamed files fuel = (name : Text) → (n : Text) × (repository_name files fuel name ≡ some n)

module _ (others : OtherChecks) (files : Files) (fuel : ℕ) (filename file_extension : Text) where
  -- The checks of a file change no setting of the program, however they end.
  pub process_file_data-settings :
      (lines : List Text)
      → Keeps settings (process_file_data others files fuel filename file_extension lines)
  process_file_data-settings lines =
      process_file_data-Has keeping_settings others files fuel filename file_extension
        (record { holds = λ s. refl }) (λ name. record { holds = λ s. refl }) lines
        (λ st line e. record { holds = λ s. refl })

  ask_name-Returns :
      (cause : Type 0)
      → AllNamed files fuel
      → (name : Text) → Returns cause (ask_name files fuel name)
  ask_name-Returns cause named name =
      let (n, e) = named name in record { comes = λ s r. inl (n, rw (e, ask_name) refl, r) }

  ask_guard-Returns :
      (cause : Type 0) → AllNamed files fuel → Returns cause (ask_guard files fuel filename)
  unfolding get_header_guard_cpp_variable
  ask_guard-Returns cause named =
      let (n, e) = named (guard_file filename) in
      record { comes = λ s r. inl (guard_name n, rw (r.2, e) refl, r) }

  -- The checks of a file return, or one of its lines makes `CheckForNonStandardConstructs` raise.
  pub process_file_data-Returns :
      (cause : Type 0)
      → AllNamed files fuel
      → (lines : List Text)
      → ((st : NestingState) (line : ℕ)
          → (check_for_non_standard_constructs st (cleansed lines) line).1 ≡ none
          → cause)
      → Returns cause (process_file_data others files fuel filename file_extension lines)
  process_file_data-Returns cause named lines why =
      process_file_data-Has (returning cause) others files fuel filename file_extension
        (ask_guard-Returns cause named) (ask_name-Returns cause named) lines
        (λ st line e. record { comes = λ s r. inr (refl, why st line e) })
