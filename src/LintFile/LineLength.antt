-- ===== src/LintFile/LineLength.antt =====
-- The line length behind `ProcessFile`.
use csci.Prelude.{
  ◌≡◌, refl, ap, ℕ, Bool, true, false, Option, none, some, Text, text, split_on, text_eq,
  Bool-cases, inl, inr,
}
use csci.Prelude.Int.{ℤ}
use csci.LintState.{LintState, set_verbose_level, backup_filters, restore_filters}
use csci.Files.{Files}
use csci.Session.{Session, Ending, ended, raised, exited, unfinished, Run, and_then, ◌>>◌, say}
use csci.Session.Kept.{Keeps, bind-Keeps, Settings}
use csci.Config.{process_config_overrides}
use csci.FileData.{OtherChecks}
use csci.LintFile.{
  change_lint, read_file, LineEnds, lint_or_ignore, is_accepted, finish_file, unless_excluded,
  process_file, strip_returns,
}
use csci.LintFile.Restored.{lint_lines-settings}

abbrev line_length_of : Session → ℤ
line_length_of s = s.line_length

abbrev Kept : {A : Type 0} → Run A → Type 0
Kept = Keeps line_length_of

say-Kept : (t : Text) → Kept (say t)
unfolding say
say-Kept t = record { holds = λ s. refl }

change_lint-Kept : (f : LintState → LintState) → Kept (change_lint f)
change_lint-Kept f = record { holds = λ s. refl }

say_then_restore : (t : Text) → Kept (say t >> change_lint restore_filters)
say_then_restore t =
    bind-Keeps line_length_of (say t) _ (say-Kept t) (λ _. change_lint-Kept restore_filters)

-- How the linter's state stands when the configuration files are read.
abbrev pub prepared : ℕ → Session → Session
prepared vlevel s = record s { lint = backup_filters (set_verbose_level vlevel s.lint).1 }

module _ (others : OtherChecks) (files : Files) (fuel : ℕ) where
  lint_or_ignore-Kept :
      (filename : Text) (e : LineEnds) → Kept (lint_or_ignore others files fuel filename e)
  lint_or_ignore-Kept filename e = record {
    holds = λ s. elim (Bool-cases (is_accepted filename s)) [
      | inl y ↦ rw y (
          ap (λ (c : Settings). c.line_length)
            ((lint_lines-settings others files fuel filename e).holds s))
      | inr n ↦ rw n ((say-Kept _).holds s)
    ];
  }

  finish_file-Kept :
      (filename : Text) (contents : Option Text)
      → Kept (finish_file others files fuel filename contents)
  unfolding finish_file
  finish_file-Kept filename none = say_then_restore _
  finish_file-Kept filename (some contents) =
      bind-Keeps line_length_of
        (lint_or_ignore others files fuel filename (strip_returns 1 (split_on 10 contents))) _
        (lint_or_ignore-Kept filename _) (λ _. say_then_restore _)

  read_file-Kept : (filename : Text) → Kept (read_file files filename)
  unfolding read_file
  read_file-Kept filename = record {
    holds = λ s. elim (Bool-cases (text_eq filename (text "-"))) [
      | inl y ↦ rw y refl
      | inr n ↦ rw n refl
    ];
  }

  unless_excluded-Kept :
      (filename : Text) (wanted : Bool) → Kept (unless_excluded others files fuel filename wanted)
  unless_excluded-Kept filename false = change_lint-Kept restore_filters
  unless_excluded-Kept filename true =
      bind-Keeps line_length_of (read_file files filename) _ (read_file-Kept filename)
        (finish_file-Kept filename)

  -- The line length that the configuration files of one file's directories have set is still set when
  -- ProcessFile is over, however it ends: unlike the filters it is not put back.
  pub process_file-line_length :
      (filename : Text) (vlevel : ℕ) (s : Session)
      → (process_file others files fuel filename vlevel s).1.line_length
        ≡ (process_config_overrides files filename (prepared vlevel s)).1.line_length
  unfolding process_file
  process_file-line_length filename vlevel s =
      after (process_config_overrides files filename (prepared vlevel s))
    where
      after :
          (r : Ending Bool × Session)
          → line_length_of (and_then r.0 r.1 (unless_excluded others files fuel filename)).1
            ≡ line_length_of r.1
      after (ended wanted, t) = (unless_excluded-Kept filename wanted).holds t
      after (raised x, t) = refl
      after (exited c, t) = refl
      after (unfinished, t) = refl
