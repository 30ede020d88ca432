-- ===== src/Tests/Cli.antt =====
-- cmd/redash-wire/cli.go at concrete inputs.
use redash_wire.Common.{false, none, some, [], ◌≡◌, refl}
use redash_wire.Common.Text.{codes, equal}
use redash_wire.Redash.{Err}
use redash_wire.Redash.Client.{replied}
use redash_wire.Cli.{
  usage, not_configured, no_such_profile, authentication_failed, connection_failed, exits, dispatch,
  report_error, classify_load_error, classify_api_error, not_loaded, load_profile, Connection,
  validate_connection,
}
use redash_wire.Config.{profile_not_found, Outside}
use redash_wire.Config.Found.{Paths}

unknown_command : dispatch (codes "serve") ≡ exits 2
unfolding dispatch equal
unknown_command = refl

usage_exit : report_error usage ≡ 2
unfolding report_error
usage_exit = refl

abbrev no_files : Paths
no_files = record {
  abs = λ p. some p;
  stat = λ p. false;
  home = some (codes "/home/ann");
  join = λ d f. f;
}

abbrev nothing_around : Outside
nothing_around = record {
  read = λ p. none;
  decode = λ b. none;
  expand_env = λ s. s;
  parse_duration = λ s. none;
}

no_config : load_profile no_files nothing_around [] [] ≡ not_loaded not_configured
unfolding load_profile
no_config = refl

no_profile : classify_load_error (profile_not_found (codes "dev") []) ≡ no_such_profile
unfolding classify_load_error
no_profile = refl

abbrev refused_by : Connection → Err → Err
refused_by c e = elim c.problem [ none ↦ e | some f ↦ f ]

abbrev no_error : Err
no_error = record { http_status = none; query_error = none; context_ended = false; text = [] }

-- Redash answers 404 to an API key that it does not know.
bad_key :
    classify_api_error
      (refused_by (validate_connection (replied 404 none) (replied 200 none)) no_error)
    ≡ authentication_failed
unfolding classify_api_error validate_connection
bad_key = refl

redash_down : classify_api_error no_error ≡ connection_failed
unfolding classify_api_error
redash_down = refl
