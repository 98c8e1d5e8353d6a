-- ===== src/Config/Tests.antt =====
-- The configuration files of a directory.
use csci.Prelude.{◌≡◌, ◌≢◌, refl, [], some, none, text, rstrip, strip}
use csci.Prelude.Int.{negsuc}
use csci.Regex.{evaluation}
use csci.Session.{unfinished, start_session}
use csci.Config.Line.{parse_int, digits_value}
use csci.Config.{process_config_overrides}
use csci.Config.Upwards.{apart_from_config, process_config_overrides_lem}
use csci.FileData.Samples.{excluding_files}

negative_number : parse_int (text " -12\n") ≡ some (negsuc 11)
unfolding parse_int digits_value rstrip strip evaluation
negative_number = refl

no_number : parse_int (text "12a") ≡ none
unfolding parse_int digits_value rstrip strip evaluation
no_number = refl

process_config_overrides_lem_example :
    ((process_config_overrides excluding_files (text "a.cc") (start_session [])).0 ≢ unfinished)
    × (apart_from_config
          (process_config_overrides excluding_files (text "a.cc") (start_session [])).1
        ≡ apart_from_config (start_session []))
process_config_overrides_lem_example =
    process_config_overrides_lem excluding_files (text "a.cc") (start_session [])
