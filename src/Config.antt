-- ===== src/Config.antt =====
-- internal/config/config.go: the layers of a configuration, its validation, and the reading of a
-- profile. A map is an association list. The file system, YAML, the environment variables and the
-- package time are the record `Outside`; an error is told by what its message is made of.
pub mod Layers
pub mod Report
pub mod Written
pub mod File
pub mod Found
use redash_wire.Common.{
  zero, suc, Bool, true, false, ◌&&◌, Option, none, some, List, [], ◌∷◌, ◌++◌, map, if◌then◌else◌,
}
use redash_wire.Common.Text.{Bytes, codes, equal, less}
use redash_wire.Common.Numerals.{ℤ, pos, negsuc}

pub record Config : Type 0 where
  pub profile : Bytes
  pub postgres_listen_addr : Bytes
  pub my_sql_listen_addr : Bytes
  pub redash_url : Bytes
  pub api_key : Bytes
  pub username : Bytes
  pub password : Bytes
  pub poll_interval : Bytes
  pub poll_timeout : Bytes
  pub read_only : Option Bool

pub record FileConfig : Type 0 where
  pub postgres_listen_addr : Bytes
  pub my_sql_listen_addr : Bytes
  pub username : Bytes
  pub password : Bytes
  pub poll_interval : Bytes
  pub poll_timeout : Bytes
  pub read_only : Option Bool
  pub default_profile : Bytes
  pub profiles : List (Bytes × Config)

-- What is read from outside: a file, what YAML decodes it to, `os.ExpandEnv`, and `time.ParseDuration`
-- in nanoseconds.
pub record Outside : Type 0 where
  pub read : Bytes → Option Bytes
  pub decode : Bytes → Option FileConfig
  pub expand_env : Bytes → Bytes
  pub parse_duration : Bytes → Option ℤ

-- What `Validate` finds wrong.
pub data Fault : Type 0 where
  no_listeners : Fault
  no_redash_url : Fault
  no_api_key : Fault
  empty_username : Fault
  empty_password : Fault
  bad_poll_interval : Bytes → Fault
  poll_interval_not_positive : Bytes → Fault
  bad_poll_timeout : Bytes → Fault
  poll_timeout_not_positive : Bytes → Fault

pub data ConfigError : Type 0 where
  reading_failed : ConfigError
  parsing_failed : ConfigError
  no_profiles : ConfigError
  no_profile_specified : List Bytes → ConfigError
  profile_not_found : Bytes → List Bytes → ConfigError
  default_not_found : Bytes → List Bytes → ConfigError
  -- The profile and what is wrong with it.
  invalid : Bytes → List Fault → ConfigError

-- A value or an error.
pub data Result {ℓ} (A : Type ℓ) : Type ℓ where
  ok : A → Result A
  err : ConfigError → Result A

infixl 5 ◌>>=◌
abbrev pub ◌>>=◌ {ℓ κ} : {A : Type ℓ} {B : Type κ} → Result A → (A → Result B) → Result B
ok a >>= f = f a
err e >>= f = err e

abbrev pub default_username : Bytes
default_username = codes "redash-wire"

abbrev pub default_password : Bytes
default_password = codes "supersecret"

abbrev pub default_postgres_listen_addr : Bytes
default_postgres_listen_addr = codes "127.0.0.1:15432"

abbrev pub default_my_sql_listen_addr : Bytes
default_my_sql_listen_addr = codes "127.0.0.1:13306"

-- A duration that does not parse is the default.
or_default : ℤ → Option ℤ → ℤ
or_default d none = d
or_default d (some t) = t

unfoldable pub get_poll_interval : Outside → Config → ℤ
unfolding or_default
get_poll_interval o c = or_default (pos 500000000) (o.parse_duration c.poll_interval)

unfoldable pub get_poll_timeout : Outside → Config → ℤ
unfolding or_default
get_poll_timeout o c = or_default (pos 120000000000) (o.parse_duration c.poll_timeout)

unfoldable pub is_read_only : Config → Bool
is_read_only c = elim c.read_only [ none ↦ false | some b ↦ b ]

unfoldable pub overlay : Bytes → Bytes → Bytes
overlay dst [] = dst
overlay dst (c ∷ src) = c ∷ src

unfoldable pub overlay_bool : Option Bool → Option Bool → Option Bool
overlay_bool dst none = dst
overlay_bool dst (some b) = some b

abbrev pub insert_name : Bytes → List Bytes → List Bytes
insert_name n [] = n ∷ []
insert_name n (m ∷ ms) = if less m n then m ∷ insert_name n ms else n ∷ m ∷ ms

abbrev pub sort_names : List Bytes → List Bytes
sort_names [] = []
sort_names (n ∷ ns) = insert_name n (sort_names ns)

unfoldable pub profile_names : List (Bytes × Config) → List Bytes
profile_names profiles = sort_names (map (λ p. p.0) profiles)

unfoldable pub profile_of : List (Bytes × Config) → Bytes → Option Config
profile_of [] name = none
profile_of ((n, c) ∷ ps) name = if equal n name then some c else profile_of ps name

-- A listed fault, if it is one.
abbrev fault_if : Bool → Fault → List Fault
fault_if b f = if b then f ∷ [] else []

abbrev pub is_empty : Bytes → Bool
is_empty [] = true
is_empty (c ∷ s) = false

-- The faults of a duration: it does not parse, or is not above 0.
abbrev duration_faults : Fault → Fault → Option ℤ → List Fault
duration_faults bad small none = bad ∷ []
duration_faults bad small (some (pos zero)) = small ∷ []
duration_faults bad small (some (pos (suc n))) = []
duration_faults bad small (some (negsuc n)) = small ∷ []

-- No faults are no error.
unfoldable pub validate : Outside → Config → List Fault
validate o c =
    fault_if (is_empty c.postgres_listen_addr && is_empty c.my_sql_listen_addr) no_listeners
    ++ fault_if (is_empty c.redash_url) no_redash_url
    ++ fault_if (is_empty c.api_key) no_api_key
    ++ fault_if (is_empty c.username) empty_username
    ++ fault_if (is_empty c.password) empty_password
    ++ duration_faults (bad_poll_interval c.poll_interval)
        (poll_interval_not_positive c.poll_interval) (o.parse_duration c.poll_interval)
    ++ duration_faults (bad_poll_timeout c.poll_timeout) (poll_timeout_not_positive c.poll_timeout)
        (o.parse_duration c.poll_timeout)

unfoldable pub uses_default_credentials : Config → Bool
unfolding equal
uses_default_credentials c = equal c.username default_username && equal c.password default_password

-- What a profile starts from.
abbrev pub defaults : Config
defaults = record {
  profile = [];
  postgres_listen_addr = [];
  my_sql_listen_addr = [];
  redash_url = [];
  api_key = [];
  username = default_username;
  password = default_password;
  poll_interval = codes "500ms";
  poll_timeout = codes "120s";
  read_only = none;
}

-- The keys of the file over a configuration.
unfoldable pub overlay_file : FileConfig → Config → Config
unfolding overlay overlay_bool
overlay_file fc cfg = record cfg {
  postgres_listen_addr = overlay cfg.postgres_listen_addr fc.postgres_listen_addr;
  my_sql_listen_addr = overlay cfg.my_sql_listen_addr fc.my_sql_listen_addr;
  username = overlay cfg.username fc.username;
  password = overlay cfg.password fc.password;
  poll_interval = overlay cfg.poll_interval fc.poll_interval;
  poll_timeout = overlay cfg.poll_timeout fc.poll_timeout;
  read_only = overlay_bool cfg.read_only fc.read_only;
}

-- The keys of a profile over a configuration.
unfoldable pub overlay_profile : Config → Config → Config
unfolding overlay overlay_bool
overlay_profile p cfg = record cfg {
  postgres_listen_addr = overlay cfg.postgres_listen_addr p.postgres_listen_addr;
  my_sql_listen_addr = overlay cfg.my_sql_listen_addr p.my_sql_listen_addr;
  redash_url = overlay cfg.redash_url p.redash_url;
  api_key = overlay cfg.api_key p.api_key;
  username = overlay cfg.username p.username;
  password = overlay cfg.password p.password;
  poll_interval = overlay cfg.poll_interval p.poll_interval;
  poll_timeout = overlay cfg.poll_timeout p.poll_timeout;
  read_only = overlay_bool cfg.read_only p.read_only;
}

-- The configuration of a profile that the file has.
unfoldable pub layered : Outside → FileConfig → Bytes → Config → Config
unfolding overlay_file overlay_profile
layered o fc name p =
    let cfg = overlay_profile p (overlay_file fc defaults) in
    record cfg {
      api_key = o.expand_env cfg.api_key;
      redash_url = o.expand_env cfg.redash_url;
      profile = name;
    }

-- The profile under a name that is not empty.
unfoldable pub resolve_named : Outside → FileConfig → Bytes → Result Config
unfolding profile_of layered profile_names
resolve_named o fc [] = err (no_profile_specified (profile_names fc.profiles))
resolve_named o fc (c ∷ name) = elim (profile_of fc.profiles (c ∷ name)) [
  | none ↦ err (profile_not_found (c ∷ name) (profile_names fc.profiles))
  | some p ↦ ok (layered o fc (c ∷ name) p)
]

-- What is said of a file with profiles; one without is an error.
unfoldable pub with_profiles {ℓ} : {A : Type ℓ} → List (Bytes × Config) → Result A → Result A
with_profiles [] r = err no_profiles
with_profiles (p ∷ ps) r = r

-- No name stands for the default profile.
unfoldable pub resolve_profile : Outside → FileConfig → Bytes → Result Config
unfolding with_profiles resolve_named overlay
resolve_profile o fc name =
    with_profiles fc.profiles (resolve_named o fc (overlay fc.default_profile name))

-- A configuration without faults.
unfoldable pub checked : Outside → Config → Result Config
unfolding validate
checked o cfg = elim (validate o cfg) [ [] ↦ ok cfg | f ∷ fs ↦ err (invalid cfg.profile (f ∷ fs)) ]

unfoldable pub read_file : Outside → Bytes → Result FileConfig
read_file o path = elim (o.read path) [
  | none ↦ err reading_failed
  | some bytes ↦ elim (o.decode bytes) [ none ↦ err parsing_failed | some fc ↦ ok fc ]
]

unfoldable pub load : Outside → Bytes → Bytes → Result Config
unfolding read_file resolve_profile checked
load o path profile = read_file o path >>= λ fc. resolve_profile o fc profile >>= checked o
