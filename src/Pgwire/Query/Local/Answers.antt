-- ===== src/Pgwire/Query/Local/Answers.antt =====
-- internal/pgwire/query.go, `HandleLocalQuery`: the shape of the answers, and the read-only mode.
use redash_wire.Common.{true, List, map, ◌≡◌, refl, arith, All-choose}
use redash_wire.Common.Text.{Bytes}
use redash_wire.Redash.{DataSource}
use redash_wire.Pgwire.Message.{
  is_answer, is_answer-data_row, send_error_code, send_command_complete, send_single_row_result,
  send_empty_result,
}
use redash_wire.Pgwire.Query.{normalize}
use redash_wire.Pgwire.Query.Local.{
  LocalSession, handle_show_command, handle_pg_database_query, pg_database_row, handle_scalar,
  handle_local_query, local_cases,
}

pub is_answer-handle_pg_database_query :
    (sources : List DataSource) → is_answer (handle_pg_database_query sources) ≡ true
unfolding handle_pg_database_query is_answer
is_answer-handle_pg_database_query sources = is_answer-data_row (map pg_database_row sources) _

is_answer-handle_scalar :
    (lower : Bytes) (sess : LocalSession) → is_answer (handle_scalar lower sess) ≡ true
unfolding handle_scalar is_answer send_single_row_result send_empty_result
is_answer-handle_scalar lower sess = ground arith

-- A statement answered locally has one answer, which ends with the one ReadyForQuery.
pub is_answer-handle_local_query :
    (sql : Bytes) (sess : LocalSession) → is_answer (handle_local_query sql sess) ≡ true
unfolding handle_local_query local_cases is_answer send_error_code send_command_complete
    send_empty_result handle_show_command send_single_row_result
is_answer-handle_local_query sql sess =
    All-choose (λ ms. is_answer ms ≡ true) (local_cases sql (normalize sql) sess)
      (handle_scalar (normalize sql) sess)
      (
        refl,
        (
          refl,
          (
            refl,
            (
              refl,
              (
                refl,
                (
                  refl,
                  (
                    refl,
                    (refl, (refl, (is_answer-handle_pg_database_query sess.sources, (refl, tt)))),
                  ),
                ),
              ),
            ),
          ),
        ),
      )
      (is_answer-handle_scalar (normalize sql) sess)
