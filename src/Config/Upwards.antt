-- ===== src/Config/Upwards.antt =====
-- The loop up the directories: it ends, and what it leaves alone.
use csci.Prelude.{
  ℕ, zero, suc, ◌<◌, ◌≡◌, ◌≢◌, refl, Bool, true, false, List, [], ◌∷◌, Option, none, some, arith,
  Text, text, length, text_eq, strip, if◌then◌else◌,
}
use mathlib.Core.List.{reverse}
use csci.Prelude.Int.{ℤ, pos}
use csci.Regex.{Regex, found, match}
use csci.LintState
use csci.LintState.{LintState}
use csci.Files.{Files}
use csci.Paths.{split, dirname, join_path}
use csci.Paths.Shorter.{split_shorter}
use csci.Session.{Session, unfinished, Run, ◌>>=◌, pass, say}
use csci.Session.Kept.{Keeps, bind-Keeps}
use csci.Session.Finished.{Finishes, bind-Finishes, pass-Finishes, as_ending-ne-unfinished}
use csci.Config.Line.{
  Looking, exclude, exclude_files, set_line_length, parse_int, config_option, config_line,
  config_lines, go_on, before_first, behind_first,
}
use csci.Config.{
  add_session_filters, add_all_filters, or_skip, config_file, visit, config_loop, start_looking,
  finish_config, process_config_overrides,
}

-- The state but the filters, the line length and what was written.
abbrev pub apart_from_config : Session → Session
apart_from_config s = record s {
  lint = record s.lint { filters = [] };
  line_length = pos 0;
  written = [];
}

-- Both of what is to be shown of a part: it ends, and it keeps the rest of the state.
abbrev Tame : {A : Type 0} → Run A → Type 0
Tame m = Finishes m × Keeps apart_from_config m

bind-Tame :
    {A B : Type 0} (m : Run A) (f : A → Run B) → Tame m → ((a : A) → Tame (f a)) → Tame (m >>= f)
bind-Tame m f (hm, km) hf =
    (bind-Finishes m f hm (λ a. (hf a).0), bind-Keeps apart_from_config m f km (λ a. (hf a).1))

pass-Tame : {A : Type 0} (a : A) → Tame (pass a)
pass-Tame a = (pass-Finishes a, record { holds = λ s. refl })

say-Tame : (t : Text) → Tame (say t)
unfolding say
say-Tame t = (λ s e. cc, record { holds = λ s. refl })

if-Tame : {A : Type 0} (b : Bool) (m n : Run A) → Tame m → Tame n → Tame (if b then m else n)
if-Tame true m n hm hn = hm
if-Tame false m n hm hn = hn

exclude-Tame :
    (filename cfg_file base_name val : Text) → Tame (exclude filename cfg_file base_name val)
exclude-Tame filename cfg_file base_name val =
    bind-Tame (say _) (λ _. pass none) (say-Tame _) (λ _. pass-Tame none)

exclude_files-Tame :
    (filename cfg_file base_name val : Text) (o : Option Regex) (k : Looking)
    → Tame (exclude_files filename cfg_file base_name val o k)
exclude_files-Tame filename cfg_file base_name val none k =
    (λ s e. cc, record { holds = λ s. refl })
exclude_files-Tame filename cfg_file base_name val (some pattern) k =
    if-Tame (found (match pattern base_name)) _ _ (exclude-Tame filename cfg_file base_name val)
      (pass-Tame (some k))

set_line_length-Tame : (o : Option ℤ) → Tame (set_line_length o)
set_line_length-Tame none = say-Tame _
set_line_length-Tame (some n) = (λ s e. cc, record { holds = λ s. refl })

config_option-Tame :
    (files : Files) (filename cfg_file base_name name val : Text) (k : Looking)
    → Tame (config_option files filename cfg_file base_name name val k)
unfolding config_option
config_option-Tame files filename cfg_file base_name name val k =
    if-Tame (text_eq name (text "set noparent")) _ _ (pass-Tame _) (
      if-Tame (text_eq name (text "filter")) _ _ (pass-Tame _) (
        if-Tame (text_eq name (text "exclude_files")) _ _
          (exclude_files-Tame filename cfg_file base_name val (files.compile val) k)
          (if-Tame (text_eq name (text "linelength")) _ _
            (bind-Tame (set_line_length (parse_int val)) (λ _. pass (some k))
              (set_line_length-Tame _) (λ _. pass-Tame _))
            (bind-Tame (say _) (λ _. pass (some k)) (say-Tame _) (λ _. pass-Tame _)))))

config_line-Tame :
    (files : Files) (filename cfg_file base_name line : Text) (k : Looking)
    → Tame (config_line files filename cfg_file base_name line k)
unfolding config_line
config_line-Tame files filename cfg_file base_name line k = of (strip (before_first b'#' line))
  where
    of :
        (t : Text)
        → Tame (elim t [
          | [] ↦ pass (some k)
          | c ∷ r ↦
              config_option files filename cfg_file base_name
                (strip (before_first b'=' (before_first b'#' line)))
                (strip (behind_first b'=' (before_first b'#' line)))
                k
        ])
    of [] = pass-Tame _
    of (c ∷ r) = config_option-Tame files filename cfg_file base_name _ _ k

go_on-Tame :
    (r : Option Looking) (f : Looking → Run (Option Looking))
    → ((k : Looking) → Tame (f k))
    → Tame (go_on r f)
go_on-Tame none f h = pass-Tame none
go_on-Tame (some k) f h = h k

config_lines-Tame :
    (files : Files) (filename cfg_file base_name : Text) (lines : List Text) (k : Looking)
    → Tame (config_lines files filename cfg_file base_name lines k)
unfolding config_lines
config_lines-Tame files filename cfg_file base_name [] k = pass-Tame _
config_lines-Tame files filename cfg_file base_name (line ∷ lines) k =
    bind-Tame (config_line files filename cfg_file base_name line k) _
      (config_line-Tame files filename cfg_file base_name line k)
      (λ r. go_on-Tame r _ (config_lines-Tame files filename cfg_file base_name lines))

or_skip-Tame :
    (cfg_file : Text) (failed : Bool) (o : Option Looking) → Tame (or_skip cfg_file failed o)
or_skip-Tame cfg_file failed none = pass-Tame none
or_skip-Tame cfg_file false (some k) = pass-Tame _
or_skip-Tame cfg_file true (some k) = bind-Tame (say _) _ (say-Tame _) (λ _. pass-Tame _)

config_file-Tame :
    (files : Files) (filename cfg_file base_name : Text) (k : Looking)
    → Tame (config_file files filename cfg_file base_name k)
unfolding config_file
config_file-Tame files filename cfg_file base_name k =
    bind-Tame (config_lines files filename cfg_file base_name (files.config_lines cfg_file).0 k) _
      (config_lines-Tame files filename cfg_file base_name _ k)
      (or_skip-Tame cfg_file (files.config_lines cfg_file).1)

visit-Tame :
    (files : Files) (filename abs_path : Text) (keep : Bool) (base_name : Text) (k : Looking)
    → (next : Looking → Run (Option Looking)) → (base_name ≢ [] → (k' : Looking) → Tame (next k'))
    → Tame (visit files filename abs_path keep base_name k next)
visit-Tame files filename abs_path false base_name k next h = pass-Tame _
visit-Tame files filename abs_path true [] k next h = pass-Tame _
visit-Tame files filename abs_path true (c ∷ t) k next h =
    let named : c ∷ t ≢ [] = (λ e. cc) in
    if-Tame (files.is_file (join_path abs_path (text "CPPLINT.cfg"))) _ _
      (bind-Tame (config_file files filename _ (c ∷ t) k) _
        (config_file-Tame files filename _ (c ∷ t) k) (λ r. go_on-Tame r next (h named)))
      (h named k)

config_loop-Tame :
    (files : Files) (fuel : ℕ) (filename abs_filename : Text) (k : Looking)
    → length abs_filename < fuel
    → Tame (config_loop files fuel filename abs_filename k)
unfolding config_loop
config_loop-Tame files zero filename abs_filename k h = absurd (omega arith)
config_loop-Tame files (suc fuel) filename abs_filename k h =
    visit-Tame files filename (dirname abs_filename) k.keep_looking (split abs_filename).1 k _
      (λ named k'.
        config_loop-Tame files fuel filename (dirname abs_filename) k'
          (shorter (split_shorter abs_filename named) h))
  where
    shorter : {a b : ℕ} → a < b → b < suc fuel → a < fuel
    shorter p q = omega arith

add_all_filters-Tame : (fs : List Text) → Tame (add_all_filters fs)
unfolding add_all_filters LintState.add_filters
add_all_filters-Tame [] = pass-Tame tt
add_all_filters-Tame (f ∷ fs) =
    bind-Tame (add_session_filters f) _
      (λ s. as_ending-ne-unfinished _, record { holds = λ s. refl }) (λ _. add_all_filters-Tame fs)

finish_config-Tame : (r : Option Looking) → Tame (finish_config r)
finish_config-Tame none = pass-Tame false
finish_config-Tame (some k) =
    bind-Tame (add_all_filters (reverse k.cfg_filters)) _ (add_all_filters-Tame _)
      (λ _. pass-Tame true)

-- ProcessConfigOverrides ends for every file system, in a value or an exception: the length of the
-- absolute path is fuel enough. However it ends, the filters, the line length and what was written are
-- all of the state that it can have changed.
pub process_config_overrides_lem :
    (files : Files) (filename : Text) (s : Session)
    → ((process_config_overrides files filename s).0 ≢ unfinished)
      × (apart_from_config (process_config_overrides files filename s).1 ≡ apart_from_config s)
unfolding process_config_overrides
process_config_overrides_lem files filename s =
    let loop =
      config_loop files (suc (length (files.abspath filename))) filename (files.abspath filename)
        start_looking in
    let (ends, keeps) =
      bind-Tame loop finish_config
        (config_loop-Tame files (suc (length (files.abspath filename))) filename
          (files.abspath filename) start_looking (omega arith))
        finish_config-Tame in
    (ends s, keeps.holds s)
