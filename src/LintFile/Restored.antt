-- ===== src/LintFile/Restored.antt =====
-- The filters behind `ProcessFile`.
use csci.Prelude.{
  ◌≡◌, refl, ap, ◌∙◌, ℕ, Bool, true, false, List, Option, none, some, Text, text, split_on, text_eq,
  Bool-cases, inl, inr,
}
use csci.LintState.{set_verbose_level, backup_filters, restore_filters}
use csci.Files.{Files}
use csci.Session.{Session, Ending, ended, raised, exited, unfinished, Run, and_then, ◌>>=◌, say}
use csci.Session.Kept.{Keeps, bind-Keeps, settings, Settings, report_all-settings}
use csci.Config.{process_config_overrides}
use csci.Config.Upwards.{process_config_overrides_lem}
use csci.FileData.{OtherChecks, process_file_data}
use csci.FileData.Frame.{process_file_data-settings}
use csci.LintFile.{
  change_lint, read_file, LineEnds, lint_lines, lint_or_ignore, is_accepted, finish_file,
  mixed_reports, file_extension_of, unless_excluded, process_file, strip_returns,
}

abbrev backup : Session → List Text
backup s = s.lint.filters_backup

-- When the call returns, the filters are what the backup was before it.
record Restores (m : Run (Unit {0})) : Type 0 where
  back : (s : Session) → (m s).0 ≡ ended tt → (m s).1.lint.filters ≡ backup s

restore-Restores : Restores (change_lint restore_filters)
unfolding restore_filters
restore-Restores = record { back = λ s e. refl }

-- The restoring call at the end of calls that leave the backup alone.
then-Restores :
    {A : Type 0} (m : Run A) (f : A → Run (Unit {0}))
    → Keeps backup m
    → ((a : A) → Restores (f a))
    → Restores (m >>= f)
then-Restores m f hm hf = record { back = λ s. after s (m s).0 (m s).1 (hm.holds s) }
  where
    after :
        (s : Session) (e : Ending _) (t : Session)
        → backup t ≡ backup s
        → (and_then e t f).0 ≡ ended tt
        → (and_then e t f).1.lint.filters ≡ backup s
    after s (ended a) t h r = (hf a).back t r ∙ h
    after s (raised x) t h r = cc
    after s (exited c) t h r = cc
    after s unfinished t h r = cc

from-settings : {A : Type 0} (m : Run A) → Keeps settings m → Keeps backup m
from-settings m h = record { holds = λ s. ap (λ (c : Settings). c.filters_backup) (h.holds s) }

say-backup : (t : Text) → Keeps backup (say t)
unfolding say
say-backup t = record { holds = λ s. refl }

module _ (others : OtherChecks) (files : Files) (fuel : ℕ) where
  pub lint_lines-settings :
      (filename : Text) (e : LineEnds) → Keeps settings (lint_lines others files fuel filename e)
  unfolding lint_lines
  lint_lines-settings filename e =
      bind-Keeps settings
        (process_file_data others files fuel filename (file_extension_of filename) e.lines) _
        (process_file_data-settings others files fuel filename (file_extension_of filename) e.lines)
        (λ _. report_all-settings filename (mixed_reports e))

  lint_or_ignore-backup :
      (filename : Text) (e : LineEnds) → Keeps backup (lint_or_ignore others files fuel filename e)
  lint_or_ignore-backup filename e = record {
    holds = λ s. elim (Bool-cases (is_accepted filename s)) [
      | inl y ↦ rw y (
          (from-settings (lint_lines others files fuel filename e)
              (lint_lines-settings filename e)).holds
            s)
      | inr n ↦ rw n ((say-backup _).holds s)
    ];
  }

  finish_file-Restores :
      (filename : Text) (contents : Option Text)
      → Restores (finish_file others files fuel filename contents)
  unfolding finish_file
  finish_file-Restores filename none =
      then-Restores (say _) _ (say-backup _) (λ _. restore-Restores)
  finish_file-Restores filename (some contents) =
      then-Restores
        (lint_or_ignore others files fuel filename (strip_returns 1 (split_on 10 contents))) _
        (lint_or_ignore-backup filename _)
        (λ _. then-Restores (say _) _ (say-backup _) (λ _. restore-Restores))

  read_file-backup : (filename : Text) → Keeps backup (read_file files filename)
  unfolding read_file
  read_file-backup filename = record {
    holds = λ s. elim (Bool-cases (text_eq filename (text "-"))) [
      | inl y ↦ rw y refl
      | inr n ↦ rw n refl
    ];
  }

  unless_excluded-Restores :
      (filename : Text) (wanted : Bool)
      → Restores (unless_excluded others files fuel filename wanted)
  unless_excluded-Restores filename false = restore-Restores
  unless_excluded-Restores filename true =
      then-Restores (read_file files filename) _ (read_file-backup filename)
        (finish_file-Restores filename)

  config-backup : (filename : Text) → Keeps backup (process_config_overrides files filename)
  config-backup filename = record {
    holds = λ s.
        ap (λ (t : Session). t.lint.filters_backup)
          (process_config_overrides_lem files filename s).1;
  }

  -- Whenever ProcessFile returns, for a file that was excluded, could not be read, was ignored or was
  -- checked, the filters are again those from before the call, whatever the configuration files of its
  -- directories have added.
  pub process_file-restored :
      (filename : Text) (vlevel : ℕ) (s : Session)
      → (process_file others files fuel filename vlevel s).0 ≡ ended tt
      → (process_file others files fuel filename vlevel s).1.lint.filters ≡ s.lint.filters
  unfolding process_file set_verbose_level backup_filters
  process_file-restored filename vlevel s =
      (then-Restores (process_config_overrides files filename) _ (config-backup filename)
          (unless_excluded-Restores filename)).back
        _
