-- ===== src/LintFile/Ends.antt =====
-- When `ProcessFile` returns.
use csci.Prelude.{
  ℕ, zero, suc, ◌<◌, ◌≡◌, ◌≢◌, ◌⊎◌, if◌then◌else◌, refl, sym, subst, ap, Bool, true, false, [], ◌∷◌,
  Option, none, some, arith, Text, text, split_on, text_eq, Bool-cases, inl, inr, length,
}
use csci.LintState.{set_verbose_level, backup_filters, restore_filters}
use csci.LintState.Filters.{AllSigned}
use csci.Constructs.{check_for_non_standard_constructs}
use csci.Nesting.State.{NestingState}
use csci.FileData.Rules.{cleansed}
use csci.Files.{Files}
use csci.Paths.{split, dirname, join_path}
use csci.Paths.Shorter.{split_shorter}
use csci.FileInfo.{has}
use csci.FileInfo.Climb.{repository_name-found}
use csci.Session.{Session, Ending, ended, raised, index_error, and_then, say}
use csci.Session.Returns.{IsReady, Returns, Comes, bind-Returns, say-Returns, report_all-Returns}
use csci.Config.Line.{Looking}
use csci.Config.{
  visit, config_loop, start_looking, finish_config, process_config_overrides, add_all_filters,
}
use csci.FileData.{OtherChecks, process_file_data}
use csci.FileData.Frame.{process_file_data-Returns}
use csci.LintFile.{
  change_lint, read_file, lint_lines, lint_or_ignore, is_accepted, finish_file, mixed_reports,
  unless_excluded, process_file, strip_returns, file_extension_of,
}

-- A file system without configuration files and without Subversion checkouts.
abbrev pub IsPlain : Files → Type 0
IsPlain files =
    ((dir : Text) → files.is_file (join_path dir (text "CPPLINT.cfg")) ≡ false)
    × ((dir : Text) → has files dir (text ".svn") ≡ false)

config_loop-plain :
    (files : Files)
    → IsPlain files
    → (fuel : ℕ) (filename abs_filename : Text) (k : Looking) (s : Session)
    → length abs_filename < fuel
    → config_loop files fuel filename abs_filename k s ≡ (ended (some k), s)
unfolding config_loop
config_loop-plain files plain zero filename abs_filename k s h = absurd (omega arith)
config_loop-plain files plain (suc fuel) filename abs_filename k s h =
    of k.keep_looking (split abs_filename).1 (λ named.
      config_loop-plain files plain fuel filename (dirname abs_filename) k s
        (shorter (split_shorter abs_filename named) h))
  where
    shorter : {a b : ℕ} → a < b → b < suc fuel → a < fuel
    shorter p q = omega arith

    of :
        (keep : Bool) (base_name : Text)
        → (base_name ≢ []
            → config_loop files fuel filename (dirname abs_filename) k s ≡ (ended (some k), s))
        → visit files filename
            (dirname abs_filename)
            keep
            base_name
            k
            (λ k'. config_loop files fuel filename (dirname abs_filename) k')
            s
          ≡ (ended (some k), s)
    of false base_name next = refl
    of true [] next = refl
    of true (c ∷ t) next = rw (plain.0 (dirname abs_filename)) (next (λ e. cc))

config-plain :
    (files : Files)
    → IsPlain files
    → (filename : Text) (s : Session) → process_config_overrides files filename s ≡ (ended true, s)
unfolding process_config_overrides add_all_filters
config-plain files plain filename s =
    ap (λ (r : Ending (Option Looking) × Session). and_then r.0 r.1 finish_config)
      (config_loop-plain files plain (suc (length (files.abspath filename))) filename
        (files.abspath filename) start_looking s (omega arith))

-- The text that `ProcessFile` reads, if it can.
abbrev pub text_read : Files → Text → Session → Option Text
text_read files filename s =
    if text_eq filename (text "-") then some s.input else files.contents filename

-- A line of the text makes `CheckForNonStandardConstructs` raise an IndexError, inside of some blocks.
abbrev pub Raising : Text → Type 0
Raising contents =
    (st : NestingState) × (line : ℕ) × ((check_for_non_standard_constructs st
        (cleansed (strip_returns 1 (split_on 10 contents)).lines) line).1
      ≡ none)

-- Why an IndexError comes out of a file.
abbrev pub Cause : Files → Text → Session → Type 0
Cause files filename s =
    (contents : Text) × (text_read files filename s ≡ some contents) × Raising contents

restore-Returns : (cause : Type 0) → Returns cause (change_lint restore_filters)
unfolding restore_filters
restore-Returns cause = record { comes = λ s r. inl (tt, refl, (r.1, r.1, r.2)) }

module _ (others : OtherChecks) (files : Files) (fuel : ℕ) (plain : IsPlain files) where
  module _ (cause : Type 0) where
    lint_lines-Returns :
        (filename contents : Text)
        → (Raising contents → cause)
        → let e = strip_returns 1 (split_on 10 contents) in
          Returns cause (lint_lines others files fuel filename e)
    unfolding lint_lines
    lint_lines-Returns filename contents why =
        let e = strip_returns 1 (split_on 10 contents) in
        bind-Returns cause
          (process_file_data others files fuel filename (file_extension_of filename) e.lines) _
          (process_file_data-Returns others files fuel filename (file_extension_of filename) cause
            (repository_name-found files fuel plain.1) e.lines (λ st line h. why (st, line, h)))
          (λ _. report_all-Returns cause filename (mixed_reports e))

    lint_or_ignore-Returns :
        (filename contents : Text)
        → (Raising contents → cause)
        → Returns cause
            (lint_or_ignore others files fuel filename (strip_returns 1 (split_on 10 contents)))
    lint_or_ignore-Returns filename contents why = record {
      comes = λ s r. elim (Bool-cases (is_accepted filename s)) [
        | inl y ↦ rw y ((lint_lines-Returns filename contents why).comes s r)
        | inr n ↦ rw n ((say-Returns cause _).comes s r)
      ];
    }

    finish_file-Returns :
        (filename : Text) (o : Option Text)
        → ((contents : Text) → o ≡ some contents → Raising contents → cause)
        → Returns cause (finish_file others files fuel filename o)
    unfolding finish_file
    finish_file-Returns filename none why =
        bind-Returns cause (say _) _ (say-Returns cause _) (λ _. restore-Returns cause)
    finish_file-Returns filename (some contents) why =
        bind-Returns cause
          (lint_or_ignore others files fuel filename (strip_returns 1 (split_on 10 contents))) _
          (lint_or_ignore-Returns filename contents (why contents refl))
          (λ _. bind-Returns cause (say _) _ (say-Returns cause _) (λ _. restore-Returns cause))

  wanted-Comes :
      (filename : Text) (s : Session)
      → IsReady s
      → Comes (Cause files filename s) (unless_excluded others files fuel filename true s)
  unfolding read_file
  wanted-Comes filename s r = elim (Bool-cases (text_eq filename (text "-"))) [
    | inl y ↦ rw y (
        (finish_file-Returns _ filename (some s.input) (λ contents e h. (contents, e, h))).comes
          (record s { input = [] }) r)
    | inr n ↦ rw n (
        (finish_file-Returns _ filename (files.contents filename)
            (λ contents e h. (contents, e, h))).comes
          s r)
  ]

  -- In a file system without CPPLINT.cfg files and Subversion checkouts, with filters that all start with
  -- + or - and without --root, ProcessFile comes back for every file name. It returns, and the same holds
  -- after it, or it raises an IndexError, and then the text that it read has a line on which
  -- `CheckForNonStandardConstructs` raises it. The checks that are not modelled may report anything; it is
  -- assumed that they raise nothing.
  pub process_file_lem :
      (filename : Text) (vlevel : ℕ) (s : Session)
      → AllSigned s.lint.filters
      → s.root ≡ none
      → let r = process_file others files fuel filename vlevel s in
        ((r.0 ≡ ended tt) × IsReady r.1) ⊎ ((r.0 ≡ raised index_error) × Cause files filename s)
  unfolding process_file set_verbose_level backup_filters
  process_file_lem filename vlevel s signed no_root =
      let s' = record s { lint = backup_filters (set_verbose_level vlevel s.lint).1 } in
      let come = wanted-Comes filename s' (signed, signed, no_root) in
      subst
        (λ (r : Ending Bool × Session).
          let r' = and_then r.0 r.1 (unless_excluded others files fuel filename) in
          ((r'.0 ≡ ended tt) × IsReady r'.1)
          ⊎ ((r'.0 ≡ raised index_error) × Cause files filename s))
        (sym (config-plain files plain filename s'))
        (elim come [ inl (u, e, ready) ↦ inl (e, ready) | inr h ↦ inr h ])
