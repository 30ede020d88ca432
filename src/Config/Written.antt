-- ===== src/Config/Written.antt =====
-- internal/config/write.go, `NewFileConfig`: the file that the wizard and `init` write.
use redash_wire.Common.{
  ℕ, suc, Bool, true, false, not, ◌&&◌, ◌||◌, Option, none, some, [], ◌∷◌, if◌then◌else◌, ◌≡◌, refl,
  ◌∙◌, ap,
}
use redash_wire.Common.Text.{Bytes, codes, equal_refl}
use redash_wire.Common.Numerals.{pos}
use redash_wire.Config.{
  Config, FileConfig, Outside, ok, default_postgres_listen_addr, default_my_sql_listen_addr,
  default_username, default_password, validate, checked, load, read_file, resolve_profile, is_empty,
  profile_of, with_profiles, overlay,
}
use redash_wire.Config.Layers.{first_set, first_written, effective, resolve_named_found}

-- A profile that says where Redash is.
abbrev pub written_profile : Bytes → Bytes → Bool → Config
written_profile url key read_only = record {
  profile = [];
  postgres_listen_addr = [];
  my_sql_listen_addr = [];
  redash_url = url;
  api_key = key;
  username = [];
  password = [];
  poll_interval = [];
  poll_timeout = [];
  read_only = if read_only then some true else none;
}

-- A listener is enabled even if the caller enables none.
unfoldable pub new_file_config :
    Bytes → Bytes → Bytes → Bytes → Bytes → Bool → Bool → Bool → FileConfig
new_file_config name url key username password enable_postgres enable_my_sql read_only = record {
  postgres_listen_addr =
      if enable_postgres || not enable_my_sql then default_postgres_listen_addr else [];
  my_sql_listen_addr = if enable_my_sql then default_my_sql_listen_addr else [];
  username = username;
  password = password;
  poll_interval = codes "500ms";
  poll_timeout = codes "120s";
  read_only = none;
  default_profile = name;
  profiles = (name, written_profile url key read_only) ∷ [];
}

-- The configuration that the written file stands for.
abbrev pub meant : Bytes → Bytes → Bytes → Bytes → Bytes → Bool → Bool → Bool → Config
meant name url key username password enable_postgres enable_my_sql read_only = record {
  profile = name;
  postgres_listen_addr =
      if enable_postgres || not enable_my_sql then default_postgres_listen_addr else [];
  my_sql_listen_addr = if enable_my_sql then default_my_sql_listen_addr else [];
  redash_url = url;
  api_key = key;
  username = first_set (username ∷ default_username ∷ []);
  password = first_set (password ∷ default_password ∷ []);
  poll_interval = codes "500ms";
  poll_timeout = codes "120s";
  read_only = if read_only then some true else none;
}

first_set_one : (a : Bytes) → first_set (a ∷ []) ≡ a
first_set_one [] = refl
first_set_one (c ∷ a) = refl

first_written_one : (a : Option Bool) → first_written (a ∷ none ∷ []) ≡ a
first_written_one none = refl
first_written_one (some b) = refl

profile_of_one : (name : Bytes) (p : Config) → profile_of ((name, p) ∷ []) name ≡ some p
unfolding profile_of
profile_of_one name p = rw (equal_refl name) refl

listens :
    (b c : Bool)
    → (is_empty (if b || not c then default_postgres_listen_addr else [])
        && is_empty (if c then default_my_sql_listen_addr else []))
      ≡ false
listens true c = refl
listens false true = refl
listens false false = refl

not_empty : (a : Bytes) (c : ℕ) (d : Bytes) → is_empty (first_set (a ∷ (c ∷ d) ∷ [])) ≡ false
not_empty [] c d = refl
not_empty (e ∷ a) c d = refl

module _ (o : Outside) (c : ℕ) (name url key username password : Bytes)
    (enable_postgres enable_my_sql read_only : Bool) where
  abbrev written : FileConfig
  unfolding new_file_config
  written =
      new_file_config (c ∷ name) url key username password enable_postgres enable_my_sql read_only

  abbrev resolved : Config
  resolved =
      meant (c ∷ name) (o.expand_env url) (o.expand_env key) username password enable_postgres
        enable_my_sql read_only

  effective-written : effective o written (written_profile url key read_only) (c ∷ name) ≡ resolved
  unfolding new_file_config written
  effective-written =
      rw
        (
          first_set_one
              (if enable_postgres || not enable_my_sql then default_postgres_listen_addr else []),
          first_set_one (if enable_my_sql then default_my_sql_listen_addr else []),
          first_written_one (if read_only then some true else none),
        )
        refl

  resolve_profile-written : resolve_profile o written [] ≡ ok resolved
  unfolding resolve_profile with_profiles overlay new_file_config written
  resolve_profile-written =
      resolve_named_found o written c name (written_profile url key read_only)
        (profile_of_one (c ∷ name) (written_profile url key read_only))
      ∙ ap ok effective-written

  validate-resolved :
      (u k : ℕ) (url' key' : Bytes) (interval timeout : ℕ)
      → o.expand_env url ≡ u ∷ url'
      → o.expand_env key ≡ k ∷ key'
      → o.parse_duration (codes "500ms") ≡ some (pos (suc interval))
      → o.parse_duration (codes "120s") ≡ some (pos (suc timeout))
      → validate o resolved ≡ []
  unfolding validate
  validate-resolved u k url' key' interval timeout e f g h =
      rw
        (
          e,
          f,
          g,
          h,
          listens enable_postgres enable_my_sql,
          not_empty username b'r' (codes "edash-wire"),
          not_empty password b's' (codes "upersecret"),
        )
        refl

read_file-decoded :
    (o : Outside) (path bytes : Bytes) (fc : FileConfig)
    → o.read path ≡ some bytes
    → o.decode bytes ≡ some fc
    → read_file o path ≡ ok fc
unfolding read_file
read_file-decoded o path bytes fc r d = rw (read_file, r, d) refl

checked-valid : (o : Outside) (cfg : Config) → validate o cfg ≡ [] → checked o cfg ≡ ok cfg
unfolding checked
checked-valid o cfg v = rw (checked, v) refl

-- The name, the expanded URL and the expanded key are not empty, and the two default intervals are
-- positive. If a file decodes to what `NewFileConfig` writes, `Load` without a profile gives the URL
-- and the key with their variables expanded, the username and the password, or the defaults for empty
-- ones, a listener for each protocol that was enabled or else PostgreSQL's, and the read-only flag.
pub load-new_file_config :
    (o : Outside) (path bytes : Bytes) (c u k : ℕ)
    (name url key url' key' username password : Bytes)
    (enable_postgres enable_my_sql read_only : Bool) (interval timeout : ℕ)
    → o.read path ≡ some bytes
    → o.decode bytes
      ≡ some (
          new_file_config
            (c ∷ name)
            url
            key
            username
            password
            enable_postgres
            enable_my_sql
            read_only)
    → o.expand_env url ≡ u ∷ url'
    → o.expand_env key ≡ k ∷ key'
    → o.parse_duration (codes "500ms") ≡ some (pos (suc interval))
    → o.parse_duration (codes "120s") ≡ some (pos (suc timeout))
    → load o path []
      ≡ ok (
          meant
            (c ∷ name)
            (o.expand_env url)
            (o.expand_env key)
            username
            password
            enable_postgres
            enable_my_sql
            read_only)
unfolding load written
load-new_file_config o path bytes c u k name url key url' key' username password enable_postgres
      enable_my_sql read_only interval timeout r d e f g h =
    let v =
      validate-resolved o c name url key username password enable_postgres enable_my_sql read_only u
        k url' key' interval timeout e f g h in
    let w =
      resolve_profile-written o c name url key username password enable_postgres enable_my_sql
        read_only in
    rw (load, read_file-decoded o path bytes _ r d, w) (checked-valid o _ v)
