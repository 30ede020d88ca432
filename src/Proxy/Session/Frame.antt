-- ===== src/Proxy/Session/Frame.antt =====
-- internal/proxy/session.go: what no query changes in its session.
use redash_wire.Common.{
  Bool, true, false, not, ◌&&◌, some, [], ◌==◌, if◌then◌else◌, ◌≡◌, refl, Bool-cases, inl, inr,
  All-choose,
}
use redash_wire.Common.Text.{Bytes, equal, trim_space}
use redash_wire.Redash.Registry.{is_postgres_compatible}
use redash_wire.Health.Gate.{suspect_redash}
use redash_wire.Health.Checker.{suspicious}
use redash_wire.Sqltext.Mask.{postgres}
use redash_wire.Sqltext.Verb.{write_verb}
use redash_wire.Pgwire.Query.Result.{Times}
use redash_wire.Pgwire.Catalog.Filter.{Patterns}
use redash_wire.Pgwire.Rewrite.{rewrite_timestamp_comparisons}
use redash_wire.Proxy.Session.{
  Session, World, Executed, executed_ok, executed_err, Step, session_schema, answer_executed,
  run_query, refuse_write, guarded_query, catalog_query, query_cases, open_cases, handle_trimmed,
  handle_query,
}

-- The mode, the data source, the latch of the pipeline and the state of the gate are as they were.
pub record Keeps (s : Session) (t : Session) : Type 0 where
  pub read_only : t.read_only ≡ s.read_only
  pub data_source_id : t.data_source_id ≡ s.data_source_id
  pub extended_err : t.extended_err ≡ s.extended_err
  pub up : t.gate.up ≡ s.gate.up

Keeps-refl : (s : Session) → Keeps s s
Keeps-refl s = record { read_only = refl; data_source_id = refl; extended_err = refl; up = refl }

Keeps-suspect_redash : (s : Session) → Keeps s (record s { gate = suspect_redash s.gate })
unfolding suspect_redash
Keeps-suspect_redash s = record {
  read_only = refl;
  data_source_id = refl;
  extended_err = refl;
  up = refl;
}

Keeps-if :
    (s : Session) (b : Bool) (x y : Session) → Keeps s x → Keeps s y → Keeps s (if b then x else y)
Keeps-if s true x y h k = h
Keeps-if s false x y h k = k

Keeps-answer_executed :
    (times : Times) (s : Session) (sql : Bytes) (r : Executed)
    → Keeps s (answer_executed times s sql r).0
unfolding answer_executed
Keeps-answer_executed times s sql (executed_ok result) = Keeps-refl s
Keeps-answer_executed times s sql (executed_err e) =
    Keeps-if s (suspicious (some e)) (record s { gate = suspect_redash s.gate }) s
      (Keeps-suspect_redash s) (Keeps-refl s)

-- The property of a step, and of a choice between two.
abbrev StepKeeps : Session → Step → Type 0
StepKeeps s step = Keeps s step.0

StepKeeps-if :
    (s : Session) (b : Bool) (x y : Step)
    → StepKeeps s x
    → StepKeeps s y
    → StepKeeps s (if b then x else y)
StepKeeps-if s true x y h k = h
StepKeeps-if s false x y h k = k

StepKeeps-guarded_query :
    (times : Times) (w : World) (s : Session) (sql : Bytes)
    → StepKeeps s (guarded_query times w s sql)
unfolding guarded_query run_query
StepKeeps-guarded_query times w s sql =
    StepKeeps-if s (s.read_only && not (equal (write_verb postgres sql) []))
      (s, refuse_write (write_verb postgres sql), []) (run_query times w s sql) (Keeps-refl s)
      (Keeps-answer_executed times s
        (if is_postgres_compatible s.ds_type then rewrite_timestamp_comparisons sql else sql)
        w.result)

Keeps-session_schema : (s : Session) (w : World) → Keeps s (session_schema s w).0
unfolding session_schema
Keeps-session_schema s w = elim (Bool-cases (s.data_source_id == 0)) [
  | inl z ↦ rw (z, session_schema) (Keeps-refl s)
  | inr p ↦ elim (Bool-cases w.up_at_fetch) [
    | inl u ↦
        rw (p, u, session_schema)
          (record { read_only = refl; data_source_id = refl; extended_err = refl; up = refl })
    | inr d ↦ rw (p, d, session_schema) (Keeps-refl s)
  ]
]

pub Keeps-handle_query :
    (patterns : Patterns) (times : Times) (w : World) (s : Session) (sql : Bytes)
    → Keeps s (handle_query patterns times w s sql).0
unfolding handle_query handle_trimmed query_cases open_cases catalog_query
Keeps-handle_query patterns times w s raw =
    All-choose (StepKeeps s) (query_cases patterns w s (trim_space raw))
      (guarded_query times w s (trim_space raw))
      (
        Keeps-refl s,
        (
          Keeps-refl s,
          (Keeps-suspect_redash s, (Keeps-refl s, (Keeps-session_schema s w, (Keeps-refl s, tt)))),
        ),
      )
      (StepKeeps-guarded_query times w s (trim_space raw))
