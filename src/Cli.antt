-- ===== src/Cli.antt =====
-- cmd/redash-wire/cli.go: the codes of the errors that the commands report, and the profile they load;
-- internal/setup/validate.go.
use redash_wire.Common.{
  ℕ, Bool, true, false, Option, none, some, List, [], ◌∷◌, if◌then◌else◌, choose,
}
use redash_wire.Common.Text.{Bytes, codes, equal}
use redash_wire.Redash.{Err, DataSource, is_fatal_status}
use redash_wire.Redash.Client.{Reply}
use redash_wire.Redash.Client.Requests.{
  Fetched, fetched, fetch_failed, SessionInfo, wrapped, get_session, list_data_sources,
}
use redash_wire.Config.{
  Config, Outside, ConfigError, reading_failed, profile_not_found, Result, ok, err, load,
}
use redash_wire.Config.Found.{Paths, ResolveResult, resolve}

pub data Code : Type 0 where
  usage not_configured invalid_config no_such_profile connection_failed authentication_failed : Code
  config_exists io_error : Code

abbrev pub exit_ok : ℕ
exit_ok = 0

abbrev pub exit_error : ℕ
exit_error = 1

abbrev pub exit_usage : ℕ
exit_usage = 2

-- The exit code of `reportError`.
unfoldable pub report_error : Code → ℕ
report_error usage = exit_usage
report_error _ = exit_error

-- What a command line runs, or how it ends.
pub data Command : Type 0 where
  config_command datasources_command init_command : Command
  exits : ℕ → Command

unfoldable pub dispatch : Bytes → Command
unfolding equal
dispatch name =
    choose
      ((equal name (codes "config"), config_command)
        ∷ (equal name (codes "datasources"), datasources_command)
        ∷ (equal name (codes "init"), init_command)
        ∷ (equal name (codes "help"), exits exit_ok)
        ∷ [])
      (exits exit_usage)

-- A file that cannot be read is a `fs.PathError`.
unfoldable pub classify_load_error : ConfigError → Code
classify_load_error (profile_not_found name available) = no_such_profile
classify_load_error reading_failed = io_error
classify_load_error _ = invalid_config

-- 401, 403 and 404.
unfoldable pub classify_api_error : Err → Code
unfolding is_fatal_status
classify_api_error e = elim e.http_status [
  | none ↦ connection_failed
  | some status ↦ if is_fatal_status status then authentication_failed else connection_failed
]

-- Where a configuration was looked for.
pub data Source : Type 0 where
  home explicit cwd : Source

source_of : Bool → Bool → Source
source_of true from_cwd = explicit
source_of false true = cwd
source_of false false = home

-- An empty flag is no flag; no result is an `io_error`.
unfoldable pub resolve_config_path : Paths → Bytes → Option (ResolveResult × Source)
unfolding resolve source_of
resolve_config_path p [] = elim (resolve p (codes "config.yaml") false) [
  | none ↦ none
  | some r ↦ some (r, source_of false r.from_cwd)
]
resolve_config_path p (c ∷ flag_path) = elim (resolve p (c ∷ flag_path) true) [
  | none ↦ none
  | some r ↦ some (r, source_of true r.from_cwd)
]

-- A configuration, or the code of the error.
pub data Loaded : Type 0 where
  loaded : Config → Loaded
  not_loaded : Code → Loaded

classified : Result Config → Loaded
unfolding classify_load_error
classified (ok cfg) = loaded cfg
classified (err e) = not_loaded (classify_load_error e)

unfoldable pub load_profile : Paths → Outside → Bytes → Bytes → Loaded
unfolding resolve_config_path load classified
load_profile p o flag_path profile = elim (resolve_config_path p flag_path) [
  | none ↦ not_loaded io_error
  | some (r, source) ↦ elim r.found [
    | true ↦ classified (load o r.path profile)
    | false ↦ not_loaded not_configured
  ]
]

-- What is known of a connection: the session, the data sources, and the error.
pub record Connection : Type 0 where
  pub session : Option SessionInfo
  pub sources : List DataSource
  pub problem : Option Err

listed : SessionInfo → Fetched (List DataSource) → Connection
unfolding wrapped
listed s (fetched sources) = record { session = some s; sources = sources; problem = none }
listed s (fetch_failed e) = record {
  session = some s;
  sources = [];
  problem = some (wrapped (codes "listing data sources failed: ") e);
}

-- The data sources are asked for behind the session.
unfoldable pub validate_connection : Reply SessionInfo → Reply (List DataSource) → Connection
unfolding get_session list_data_sources listed wrapped
validate_connection session sources = elim (get_session session) [
  | fetch_failed e ↦ record {
    session = none;
    sources = [];
    problem = some (wrapped (codes "validating connection: ") e);
  }
  | fetched s ↦ listed s (list_data_sources sources)
]
