-- ===== src/Mysqlwire/Variables.antt =====
-- internal/mysqlwire/query.go: the session variables, which SHOW VARIABLES and SELECT @@name answer from.
use Prim.Native.String.{String}
use redash_wire.Common.{
  ℕ, ◌+◌, Bool, not, ◌&&◌, Option, none, some, List, [], ◌∷◌, if◌then◌else◌, length, drop,
}
use redash_wire.Common.Numerals.{ℤ, pos, negsuc}
use redash_wire.Common.Text.{Bytes, codes, equal, one_of, to_lower, has_prefix, decimal}
use redash_wire.Mysqlwire.{Cell, null_cell, int_cell, float_cell, text_cell}

abbrev pub server_version : Bytes
server_version = codes "8.0.0-redash-wire"

abbrev pub local_user : Bytes
local_user = codes "redash@localhost"

abbrev number : ℕ → Cell
number n = int_cell (pos n)

abbrev string : String → Cell
string s = text_cell (codes s)

abbrev pub session_variables : List (Bytes × Cell)
session_variables =
    (codes "auto_increment_increment", number 1)
    ∷ (codes "autocommit", number 1)
    ∷ (codes "character_set_client", string "utf8mb4")
    ∷ (codes "character_set_connection", string "utf8mb4")
    ∷ (codes "character_set_database", string "utf8mb4")
    ∷ (codes "character_set_results", string "utf8mb4")
    ∷ (codes "character_set_server", string "utf8mb4")
    ∷ (codes "collation_connection", string "utf8mb4_general_ci")
    ∷ (codes "collation_database", string "utf8mb4_general_ci")
    ∷ (codes "collation_server", string "utf8mb4_general_ci")
    ∷ (codes "init_connect", string "")
    ∷ (codes "interactive_timeout", number 28800)
    ∷ (codes "license", string "GPL")
    ∷ (codes "lower_case_table_names", number 0)
    ∷ (codes "max_allowed_packet", number 67108864)
    ∷ (codes "net_read_timeout", number 30)
    ∷ (codes "net_write_timeout", number 60)
    ∷ (codes "performance_schema", number 0)
    ∷ (codes "read_only", number 0)
    ∷ (
      codes "sql_mode",
      string
          "ONLY_FULL_GROUP_BY,STRICT_TRANS_TABLES,NO_ZERO_IN_DATE,NO_ZERO_DATE,ERROR_FOR_DIVISION_BY_ZERO,NO_ENGINE_SUBSTITUTION",
    )
    ∷ (codes "super_read_only", number 0)
    ∷ (codes "system_time_zone", string "UTC")
    ∷ (codes "time_zone", string "SYSTEM")
    ∷ (codes "transaction_isolation", string "REPEATABLE-READ")
    ∷ (codes "transaction_read_only", number 0)
    ∷ (codes "tx_isolation", string "REPEATABLE-READ")
    ∷ (codes "tx_read_only", number 0)
    ∷ (codes "version", text_cell server_version)
    ∷ (codes "version_comment", string "redash-wire MySQL proxy")
    ∷ (codes "wait_timeout", number 28800)
    ∷ []

abbrev pub read_only_variables : List Bytes
read_only_variables =
    codes "read_only"
    ∷ codes "super_read_only"
    ∷ codes "transaction_read_only"
    ∷ codes "tx_read_only"
    ∷ []

unfoldable pub variable_value : Bytes → Cell → Bool → Cell
unfolding equal
variable_value name value read_only =
    if read_only && one_of read_only_variables name then number 1 else value

-- The loop over `sessionVariables`.
unfoldable pub variable_named : Bytes → Bool → List (Bytes × Cell) → Option Cell
unfolding equal variable_value
variable_named name read_only [] = none
variable_named name read_only ((v, value) ∷ vars) =
    if equal v name
    then some (variable_value v value read_only)
    else variable_named name read_only vars

-- `strings.TrimPrefix`
unfoldable pub trim_prefix : Bytes → Bytes → Bytes
unfolding has_prefix
trim_prefix s p = if has_prefix s p then drop (length p) s else s

unfoldable pub lookup_variable : Bytes → Bool → Option Cell
unfolding to_lower has_prefix trim_prefix variable_named
lookup_variable ref read_only =
    let low = to_lower ref in
    if not (has_prefix low (codes "@@"))
    then none
    else variable_named
        (trim_prefix (trim_prefix (trim_prefix (drop 2 low) (codes "session.")) (codes "local."))
          (codes "global."))
        read_only session_variables

abbrev signed : ℤ → Bytes
signed (pos n) = decimal n
signed (negsuc n) = b'-' ∷ decimal (n + 1)

-- `fmt.Sprint`
unfoldable pub sprint_cell : Cell → Bytes
unfolding decimal
sprint_cell null_cell = codes "<nil>"
sprint_cell (int_cell i) = signed i
sprint_cell (float_cell f) = f
sprint_cell (text_cell s) = s
