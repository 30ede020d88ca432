-- ===== src/Tests/Config.antt =====
-- internal/config at concrete inputs.
use redash_wire.Common.{
  Bool, true, false, Option, none, some, List, [], ◌∷◌, if◌then◌else◌, ◌≡◌, refl,
}
use redash_wire.Common.Text.{Bytes, codes, equal, less}
use redash_wire.Common.Numerals.{ℤ, pos, negsuc}
use redash_wire.Config.{
  Config, FileConfig, Outside, ok, err, invalid, default_not_found, no_redash_url,
  poll_interval_not_positive, profile_not_found, no_profile_specified, default_password,
  resolve_profile, load, profile_names, get_poll_interval, get_poll_timeout, is_read_only,
  uses_default_credentials,
}
use redash_wire.Config.Report.{Agrees, load_all, load_all-Agrees}
use redash_wire.Config.Written.{new_file_config, meant, load-new_file_config}
use redash_wire.Config.File.{
  Stored, Disk, put, Trouble, Yaml, exists_at, write_config, comment_disabled_listener, marshaled,
}
use redash_wire.Config.File.Whole.{seen, seen_of, expected, write_config-expected}
use redash_wire.Config.Found.{Paths, resolve}

abbrev durations : Bytes → Option ℤ
unfolding equal
durations s =
    if equal s (codes "500ms")
    then some (pos 500000000)
    else if equal s (codes "120s")
    then some (pos 120000000000)
    else if equal s (codes "-1s")
    then some (negsuc 999999999)
    else none

abbrev variables : Bytes → Bytes
unfolding equal
variables s = if equal s (codes "${KEY}") then codes "secret" else s

abbrev around : FileConfig → Outside
around fc = record {
  read = λ path. some (codes "text");
  decode = λ bytes. some fc;
  expand_env = variables;
  parse_duration = durations;
}

abbrev profile_at : Bytes → Bytes → Option Bool → Config
profile_at url interval read_only = record {
  profile = [];
  postgres_listen_addr = [];
  my_sql_listen_addr = codes "127.0.0.1:3306";
  redash_url = url;
  api_key = codes "${KEY}";
  username = codes "ann";
  password = [];
  poll_interval = interval;
  poll_timeout = [];
  read_only = read_only;
}

abbrev prod : Config
prod = profile_at (codes "https://redash") [] (some false)

abbrev broken : Config
broken = profile_at [] (codes "-1s") none

abbrev file_with : Bytes → List (Bytes × Config) → FileConfig
file_with name profiles = record {
  postgres_listen_addr = codes "127.0.0.1:5432";
  my_sql_listen_addr = [];
  username = codes "bob";
  password = [];
  poll_interval = [];
  poll_timeout = [];
  read_only = some true;
  default_profile = name;
  profiles = profiles;
}

abbrev both_profiles : List (Bytes × Config)
both_profiles = (codes "stage", broken) ∷ (codes "prod", prod) ∷ []

abbrev two_profiles : FileConfig
two_profiles = file_with (codes "prod") both_profiles

abbrev prod_config : Config
prod_config = record {
  profile = codes "prod";
  postgres_listen_addr = codes "127.0.0.1:5432";
  my_sql_listen_addr = codes "127.0.0.1:3306";
  redash_url = codes "https://redash";
  api_key = codes "secret";
  username = codes "ann";
  password = default_password;
  poll_interval = codes "500ms";
  poll_timeout = codes "120s";
  read_only = some false;
}

prod_resolved : resolve_profile (around two_profiles) two_profiles [] ≡ ok prod_config
unfolding resolve_profile variables equal
prod_resolved = refl

prod_loaded : load (around two_profiles) (codes "config.yaml") (codes "prod") ≡ ok prod_config
unfolding load variables durations equal
prod_loaded = refl

prod_writes : is_read_only prod_config ≡ false
unfolding is_read_only
prod_writes = refl

half_default : uses_default_credentials prod_config ≡ false
unfolding uses_default_credentials
half_default = refl

prod_interval : get_poll_interval (around two_profiles) prod_config ≡ pos 500000000
unfolding get_poll_interval durations equal
prod_interval = refl

bad_timeout :
    get_poll_timeout (around two_profiles) (record prod_config { poll_timeout = codes "soon" })
    ≡ pos 120000000000
unfolding get_poll_timeout durations equal
bad_timeout = refl

stage_loaded :
    load (around two_profiles) (codes "config.yaml") (codes "stage")
    ≡ err (invalid (codes "stage") (no_redash_url ∷ poll_interval_not_positive (codes "-1s") ∷ []))
unfolding load variables durations equal
stage_loaded = refl

unknown_loaded :
    load (around two_profiles) (codes "config.yaml") (codes "test")
    ≡ err (profile_not_found (codes "test") (codes "prod" ∷ codes "stage" ∷ []))
unfolding load equal less profile_names
unknown_loaded = refl

no_default_loaded :
    load (around (file_with [] both_profiles)) (codes "config.yaml") []
    ≡ err (no_profile_specified (codes "prod" ∷ codes "stage" ∷ []))
unfolding load less profile_names
no_default_loaded = refl

missing_default :
    load_all (around (file_with (codes "test") both_profiles)) (codes "config.yaml")
    ≡ err (default_not_found (codes "test") (codes "prod" ∷ codes "stage" ∷ []))
unfolding load_all equal less profile_names
missing_default = refl

load_all-Agrees_example :
    Agrees
      (around two_profiles)
      (codes "config.yaml")
      (load_all (around two_profiles) (codes "config.yaml"))
load_all-Agrees_example = load_all-Agrees (around two_profiles) (codes "config.yaml")

abbrev written_file : FileConfig
unfolding new_file_config
written_file =
    new_file_config (codes "prod") (codes "https://redash") (codes "${KEY}") (codes "ann") [] false
      false true

load-new_file_config_example :
    load (around written_file) (codes "config.yaml") []
    ≡ ok (
        meant
          (codes "prod")
          (variables (codes "https://redash"))
          (variables (codes "${KEY}"))
          (codes "ann")
          []
          false
          false
          true)
unfolding variables durations equal written_file
load-new_file_config_example =
    load-new_file_config (around written_file) (codes "config.yaml") (codes "text") b'p' b'h' b's'
      (codes "rod") (codes "https://redash") (codes "${KEY}") (codes "ttps://redash")
      (codes "ecret") (codes "ann") [] false false true 499999999 119999999999 refl refl refl refl
      refl refl

abbrev one_comment : Yaml
one_comment = record {
  encode = λ fc. some (
      record { key = codes "mysql_listen_addr"; head_comment = [] }
      ∷ record { key = codes "username"; head_comment = [] }
      ∷ []);
  marshal = λ es. elim es [ [] ↦ none | e ∷ _ ↦ some e.head_comment ];
}

abbrev quiet : Trouble
quiet = record {
  mkdir_fails = false;
  create_fails = false;
  chmod_fails = false;
  written_part = none;
  close_fails = false;
  link_fails = false;
  remove_fails = false;
}

abbrev empty_disk : Disk
empty_disk q = none

abbrev my_sql_only : FileConfig
my_sql_only = record written_file {
  postgres_listen_addr = [];
  my_sql_listen_addr = codes "127.0.0.1:13306";
}

abbrev whole_file : Stored
whole_file = record { contents = codes "postgres_listen_addr: 127.0.0.1:15432"; owner_only = true }

file_written :
    seen
      (codes "/c")
      (write_config one_comment quiet (codes "/t") (codes "/c") my_sql_only empty_disk)
    ≡ (some whole_file, true)
unfolding write_config marshaled comment_disabled_listener equal
file_written = refl

abbrev full_disk : Trouble
full_disk = record quiet { written_part = some (codes "post") }

nothing_written :
    seen
      (codes "/c")
      (write_config one_comment full_disk (codes "/t") (codes "/c") my_sql_only empty_disk)
    ≡ (none, false)
unfolding write_config marshaled comment_disabled_listener equal
nothing_written = refl

temp_removed :
    seen
      (codes "/t")
      (write_config one_comment full_disk (codes "/t") (codes "/c") my_sql_only empty_disk)
    ≡ (none, false)
unfolding write_config marshaled comment_disabled_listener equal
temp_removed = refl

existing_kept :
    (write_config one_comment quiet
      (codes "/t")
      (codes "/c")
      my_sql_only
      (put (codes "/c") (some whole_file) empty_disk)).1
    ≡ some (exists_at (codes "/c"))
unfolding write_config marshaled comment_disabled_listener equal
existing_kept = refl

write_config-expected_example :
    seen
      (codes "/c")
      (write_config one_comment quiet (codes "/t") (codes "/c") my_sql_only empty_disk)
    ≡ seen_of
        (codes "/c")
        (expected quiet (marshaled one_comment my_sql_only) (codes "/c") empty_disk)
unfolding equal
write_config-expected_example =
    write_config-expected one_comment quiet (codes "/t") (codes "/c") my_sql_only empty_disk
      (codes "/c") refl refl

abbrev paths : Bool → Paths
paths here = record {
  abs = λ p. some p;
  stat = λ p. here;
  home = some (codes "/home/ann");
  join = λ d f. f;
}

found_here :
    resolve (paths true) [] false
    ≡ some (record { path = codes "config.yaml"; found = true; from_cwd = true })
unfolding resolve
found_here = refl

found_nowhere :
    resolve (paths false) [] false
    ≡ some (record { path = codes "config.yaml"; found = false; from_cwd = false })
unfolding resolve
found_nowhere = refl

found_by_flag :
    resolve (paths true) (codes "/c") true
    ≡ some (record { path = codes "/c"; found = true; from_cwd = false })
unfolding resolve
found_by_flag = refl
