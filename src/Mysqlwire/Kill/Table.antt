-- ===== src/Mysqlwire/Kill/Table.antt =====
-- internal/mysqlwire: what a KILL reaches, told from what happened to the connections.
use redash_wire.Common.{
  ℕ, Bool, true, false, Option, none, some, List, [], ◌∷◌, ◌==◌, if◌then◌else◌, ◌≡◌, refl, arith,
}
use redash_wire.Mysqlwire.{MyError}
use redash_wire.Mysqlwire.Kill.{
  LiveConn, ConnTable, remove_conn, add_conn, lookup_conn, set_cancel_query, KillEffect,
  query_cancelled, disconnected, interrupt, no_such_thread, handle_kill, ConnEvent, conn_added,
  conn_removed, remote_started, remote_ended, conn_step, table_after,
}

-- The flag of an open connection.
abbrev while_open : Bool → Option Bool → Option Bool
while_open b none = none
while_open b (some _) = some b

-- Whether the connection `id` is open, and then whether its query runs.
unfoldable pub running : ℕ → List ConnEvent → Option Bool
running id [] = none
running id (conn_added j ∷ past) = if j == id then some false else running id past
running id (conn_removed j ∷ past) = if j == id then none else running id past
running id (remote_started j ∷ past) =
    if j == id then while_open true (running id past) else running id past
running id (remote_ended j ∷ past) =
    if j == id then while_open false (running id past) else running id past

-- What KILL owes to a connection.
abbrev pub kill_owed : ℕ → Bool → Option Bool → Option MyError × List KillEffect
kill_owed id query_only none = (some no_such_thread, [])
kill_owed id true (some false) = (none, [])
kill_owed id true (some true) = (none, query_cancelled id ∷ [])
kill_owed id false (some false) = (none, disconnected id ∷ [])
kill_owed id false (some true) = (none, query_cancelled id ∷ disconnected id ∷ [])

abbrev entry_of : ℕ → Option Bool → Option LiveConn
entry_of id none = none
entry_of id (some b) = some (record { conn_id = id; in_flight = b })

abbrev with_flight : Bool → Option LiveConn → Option LiveConn
with_flight b none = none
with_flight b (some c) = some (record c { in_flight = b })

lookup_conn-remove_conn :
    (id j : ℕ) (cs : ConnTable)
    → lookup_conn id (remove_conn j cs) ≡ (if j == id then none else lookup_conn id cs)
unfolding lookup_conn remove_conn
lookup_conn-remove_conn id j [] = ground arith
lookup_conn-remove_conn id j (c ∷ cs) = ground (arith, lookup_conn-remove_conn id j cs)

lookup_conn-set_cancel_query :
    (id j : ℕ) (b : Bool) (cs : ConnTable)
    → lookup_conn id (set_cancel_query j b cs)
      ≡ (if j == id then with_flight b (lookup_conn id cs) else lookup_conn id cs)
unfolding lookup_conn set_cancel_query
lookup_conn-set_cancel_query id j b [] = ground arith
lookup_conn-set_cancel_query id j b (c ∷ cs) =
    ground (arith, lookup_conn-set_cancel_query id j b cs)

entry_of-running :
    (id j : ℕ) (b : Bool) (cs : ConnTable) (o : Option Bool)
    → lookup_conn id cs ≡ entry_of id o
    → lookup_conn id (set_cancel_query j b cs) ≡ entry_of id (if j == id then while_open b o else o)
entry_of-running id j b cs none h = ground (arith, lookup_conn-set_cancel_query id j b cs)
entry_of-running id j b cs (some r) h = ground (arith, lookup_conn-set_cancel_query id j b cs)

lookup_conn-table_after :
    (id : ℕ) (past : List ConnEvent)
    → lookup_conn id (table_after past) ≡ entry_of id (running id past)
unfolding table_after conn_step lookup_conn add_conn running
lookup_conn-table_after id [] = refl
lookup_conn-table_after id (conn_added j ∷ past) =
    ground (arith, lookup_conn-table_after id past, lookup_conn-remove_conn id j (table_after past))
lookup_conn-table_after id (conn_removed j ∷ past) =
    ground (arith, lookup_conn-table_after id past, lookup_conn-remove_conn id j (table_after past))
lookup_conn-table_after id (remote_started j ∷ past) =
    entry_of-running id j true (table_after past) (running id past)
      (lookup_conn-table_after id past)
lookup_conn-table_after id (remote_ended j ∷ past) =
    entry_of-running id j false (table_after past) (running id past)
      (lookup_conn-table_after id past)

kill_owed-entry :
    (table : ConnTable) (id : ℕ) (query_only : Bool) (o : Option Bool)
    → lookup_conn id table ≡ entry_of id o
    → handle_kill table id query_only ≡ kill_owed id query_only o
unfolding handle_kill interrupt
kill_owed-entry table id query_only none h = rw (h, handle_kill) refl
kill_owed-entry table id true (some true) h = rw (h, handle_kill) refl
kill_owed-entry table id true (some false) h = rw (h, handle_kill) refl
kill_owed-entry table id false (some true) h = rw (h, handle_kill) refl
kill_owed-entry table id false (some false) h = rw (h, handle_kill) refl

-- A KILL reaches the connection that it names and no other: it cancels the query that this connection
-- runs, if it runs one, and closes the connection unless it is KILL QUERY; if there is no open
-- connection with that id, it does nothing but report so.
pub handle_kill-table_after :
    (past : List ConnEvent) (id : ℕ) (query_only : Bool)
    → handle_kill (table_after past) id query_only ≡ kill_owed id query_only (running id past)
handle_kill-table_after past id query_only =
    kill_owed-entry (table_after past) id query_only (running id past)
      (lookup_conn-table_after id past)
