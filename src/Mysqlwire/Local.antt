-- ===== src/Mysqlwire/Local.antt =====
-- internal/mysqlwire/query.go: the statements that are answered from the session and the schema.
pub mod Session
pub mod Tables
pub mod InfoSchema
pub mod Settings
use redash_wire.Common.{
  Bool, true, false, not, ◌&&◌, ◌||◌, List, [], ◌∷◌, ◌++◌, map, any, if◌then◌else◌, choose,
}
use redash_wire.Common.Text.{Bytes, codes, has_prefix, contains}
use redash_wire.Redash.{DataSource}
use redash_wire.Sqltext.Token.{contains_token}
use redash_wire.Mysqlwire.{text_cell, Answer, nothing, result_set}
use redash_wire.Mysqlwire.Scan.{normalize, has_keyword}
use redash_wire.Mysqlwire.Local.Session.{LocalSession, local_functions, handle_local_select}
use redash_wire.Mysqlwire.Local.Tables.{handle_show_tables}
use redash_wire.Mysqlwire.Local.InfoSchema.{handle_information_schema}
use redash_wire.Mysqlwire.Local.Settings.{handle_show_variables, handle_show_status}

abbrev pub starts : Bytes → List Bytes → Bool
starts lower words = any (has_prefix lower) words

abbrev pub no_op_words : List Bytes
no_op_words =
    codes "set "
    ∷ codes "begin"
    ∷ codes "start transaction"
    ∷ codes "commit"
    ∷ codes "rollback"
    ∷ []

abbrev pub databases_words : List Bytes
databases_words = codes "show databases" ∷ codes "show schemas" ∷ []

abbrev pub tables_words : List Bytes
tables_words = codes "show tables" ∷ codes "show full tables" ∷ []

abbrev pub variables_words : List Bytes
variables_words =
    codes "show variables" ∷ codes "show session variables" ∷ codes "show global variables" ∷ []

abbrev pub status_words : List Bytes
status_words = codes "show session status" ∷ codes "show status" ∷ []

-- The last test of `isLocalQuery`.
unfoldable pub reads_server_state : Bytes → Bool
unfolding has_keyword contains_token contains
reads_server_state lower =
    (has_keyword lower (codes "select") && not (contains_token lower (codes "from")))
    && (contains lower (codes "@@")
        || any (λ fn. contains_token lower (fn ++ codes "(")) local_functions)

unfoldable pub is_local : Bytes → Bool
unfolding has_prefix contains_token reads_server_state
is_local lower =
    starts lower no_op_words
    || (starts lower databases_words
        || (starts lower tables_words
            || (starts lower variables_words
                || (starts lower status_words
                    || (contains_token lower (codes "information_schema.")
                        || reads_server_state lower)))))

unfoldable pub is_local_query : Bytes → Bool
unfolding normalize is_local
is_local_query sql = is_local (normalize sql)

unfoldable pub handle_show_databases : List DataSource → Answer
handle_show_databases sources =
    result_set (codes "Database" ∷ []) (map (λ (ds : DataSource). text_cell ds.name ∷ []) sources)

-- The tests of `handleLocalQuery` in their order, each with its answer.
unfoldable pub local_cases : Bytes → Bytes → LocalSession → List (Bool × Answer)
unfolding has_prefix contains handle_show_databases handle_show_tables handle_show_variables
    handle_show_status handle_information_schema
local_cases sql lower sess =
    (starts lower no_op_words, nothing)
    ∷ (starts lower databases_words, handle_show_databases sess.sources)
    ∷ (starts lower tables_words, handle_show_tables sql sess)
    ∷ (starts lower variables_words, handle_show_variables sql sess.read_only)
    ∷ (starts lower status_words, handle_show_status lower)
    ∷ (contains lower (codes "information_schema."), handle_information_schema sql sess)
    ∷ []

unfoldable pub handle_local_query : Bytes → LocalSession → Answer
unfolding normalize local_cases handle_local_select
handle_local_query sql sess =
    choose (local_cases sql (normalize sql) sess) (handle_local_select sql sess)
