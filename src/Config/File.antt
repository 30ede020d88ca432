-- ===== src/Config/File.antt =====
-- internal/config/write.go, `WriteConfig` and the comment for a disabled listener. A disk tells what
-- stands under a path. Which system calls fail, and how much a failing write has written, is the record
-- `Trouble`; what YAML makes of a node is a parameter.
pub mod Whole
use redash_wire.Common.{
  Bool, true, false, not, ◌&&◌, Option, none, some, List, [], ◌∷◌, if◌then◌else◌,
}
use redash_wire.Common.Text.{Bytes, codes, equal}
use redash_wire.Config.{FileConfig}

-- A key of the top level of a YAML document, with the comment above it.
pub record Entry : Type 0 where
  pub key : Bytes
  pub head_comment : Bytes

unfoldable pub set_head_comment : Bytes → Bytes → List Entry → List Entry
unfolding equal
set_head_comment key comment [] = []
set_head_comment key comment (e ∷ es) =
    if equal e.key key
    then record e { head_comment = comment } ∷ es
    else e ∷ set_head_comment key comment es

is_listener : Bytes → Bool
unfolding equal
is_listener key =
    if equal key (codes "postgres_listen_addr") then true else equal key (codes "mysql_listen_addr")

-- The first key behind the listeners.
behind_listeners : List Entry → Option Bytes
unfolding is_listener
behind_listeners [] = none
behind_listeners (e ∷ es) = if is_listener e.key then behind_listeners es else some e.key

-- Which listeners the file leaves out.
unfoldable pub comment_disabled_listener : FileConfig → List Entry → List Entry
unfolding set_head_comment behind_listeners
comment_disabled_listener fc root = elim fc.postgres_listen_addr [
  | [] ↦ elim fc.my_sql_listen_addr [
    | [] ↦ root
    | _ ∷ _ ↦
        set_head_comment (codes "mysql_listen_addr") (codes "postgres_listen_addr: 127.0.0.1:15432")
          root
  ]
  | _ ∷ _ ↦ elim fc.my_sql_listen_addr [
    | _ ∷ _ ↦ root
    | [] ↦ elim (behind_listeners root) [
      | none ↦ root
      | some key ↦ set_head_comment key (codes "mysql_listen_addr: 127.0.0.1:13306") root
    ]
  ]
]

abbrev pub is_none {ℓ} : {A : Type ℓ} → Option A → Bool
is_none none = true
is_none (some a) = false

-- A file, and whether only its owner may read it.
pub record Stored : Type 0 where
  pub contents : Bytes
  pub owner_only : Bool

abbrev pub Disk : Type 0
Disk = Bytes → Option Stored

abbrev pub put : Bytes → Option Stored → Disk → Disk
put path file disk q = if equal q path then file else disk q

pub record Trouble : Type 0 where
  pub mkdir_fails : Bool
  pub create_fails : Bool
  pub chmod_fails : Bool
  -- What a write that fails has written.
  pub written_part : Option Bytes
  pub close_fails : Bool
  pub link_fails : Bool
  pub remove_fails : Bool

pub data WriteError : Type 0 where
  marshaling_config : WriteError
  creating_directory : WriteError
  creating_temp : WriteError
  setting_permissions : WriteError
  writing_config : WriteError
  closing_config : WriteError
  finalizing_file : WriteError
  -- `ErrExists`
  exists_at : Bytes → WriteError

-- `os.Link` refuses a path that is taken, for whatever else it could fail.
unfoldable pub link_file : Trouble → Bytes → Bytes → Disk → Disk × Option WriteError
link_file t tmp path disk = elim (disk path) [
  | some _ ↦ (disk, some (exists_at path))
  | none ↦ if t.link_fails then (disk, some finalizing_file) else (put path (disk tmp) disk, none)
]

-- The temporary file is made readable to its owner only, filled, closed and linked.
unfoldable pub fill_temp : Trouble → Bytes → Bytes → Bytes → Disk → Disk × Option WriteError
unfolding link_file
fill_temp t tmp path bytes disk =
    if t.chmod_fails then (disk, some setting_permissions) else elim t.written_part [
      | some part ↦
          (put tmp (some (record { contents = part; owner_only = true })) disk, some writing_config)
      | none ↦
          let full : Disk = put tmp (some (record { contents = bytes; owner_only = true })) disk in
          if t.close_fails then (full, some closing_config) else link_file t tmp path full
    ]

-- The deferred removal of the temporary file.
abbrev pub remove_temp : Trouble → Bytes → Disk × Option WriteError → Disk × Option WriteError
remove_temp t tmp (disk, e) = (if t.remove_fails then disk else put tmp none disk, e)

-- `os.CreateTemp` gives the name of a file that did not exist.
unfoldable pub store : Trouble → Bytes → Bytes → Bytes → Disk → Disk × Option WriteError
unfolding fill_temp
store t tmp path bytes disk =
    if t.mkdir_fails
    then (disk, some creating_directory)
    else if t.create_fails
    then (disk, some creating_temp)
    else remove_temp t tmp (
        fill_temp t tmp path bytes
          (put tmp (some (record { contents = []; owner_only = true })) disk))

-- `root.Encode` and `yaml.Marshal`
pub record Yaml : Type 0 where
  pub encode : FileConfig → Option (List Entry)
  pub marshal : List Entry → Option Bytes

unfoldable pub marshaled : Yaml → FileConfig → Option Bytes
unfolding comment_disabled_listener
marshaled y fc = elim (y.encode fc) [
  | none ↦ none
  | some root ↦ y.marshal (comment_disabled_listener fc root)
]

unfoldable pub write_config :
    Yaml → Trouble → Bytes → Bytes → FileConfig → Disk → Disk × Option WriteError
unfolding marshaled store
write_config y t tmp path fc disk = elim (marshaled y fc) [
  | none ↦ (disk, some marshaling_config)
  | some bytes ↦ store t tmp path bytes disk
]
