-- ===== src/Config/Found.antt =====
-- internal/config/resolve.go: which file is read. `filepath.Abs`, `os.Stat`, `os.UserHomeDir` and
-- `filepath.Join` are the record `Paths`; a path that has no absolute form is an error, here `none`.
use redash_wire.Common.{Bool, true, false, Option, none, some, if◌then◌else◌}
use redash_wire.Common.Text.{Bytes, codes}

pub record Paths : Type 0 where
  pub abs : Bytes → Option Bytes
  pub stat : Bytes → Bool
  pub home : Option Bytes
  pub join : Bytes → Bytes → Bytes

pub record ResolveResult : Type 0 where
  pub path : Bytes
  pub found : Bool
  pub from_cwd : Bool

unfoldable pub default_config_dir : Paths → Option Bytes
default_config_dir p = elim p.home [
  | none ↦ none
  | some home ↦ some (p.join home (codes ".redash-wire"))
]

unfoldable pub default_config_path : Paths → Option Bytes
unfolding default_config_dir
default_config_path p = elim (default_config_dir p) [
  | none ↦ none
  | some dir ↦ some (p.join dir (codes "config.yaml"))
]

at_path : Paths → Bytes → ResolveResult
at_path p path = record { path = path; found = p.stat path; from_cwd = false }

-- The file in the home directory.
unfoldable pub resolve_default : Paths → Option ResolveResult
unfolding default_config_path at_path
resolve_default p = elim (default_config_path p) [ none ↦ none | some path ↦ some (at_path p path) ]

-- The path of the flag if it is given, else ./config.yaml if there is one, else the home directory's.
unfoldable pub resolve : Paths → Bytes → Bool → Option ResolveResult
unfolding resolve_default at_path
resolve p flag_path true = elim (p.abs flag_path) [
  | none ↦ none
  | some path ↦ some (at_path p path)
]
resolve p flag_path false = elim (p.abs (codes "config.yaml")) [
  | none ↦ resolve_default p
  | some path ↦
      if p.stat path
      then some (record { path = path; found = true; from_cwd = true })
      else resolve_default p
]
