-- ===== src/Lib.antt =====
-- Verification of redash-wire, a proxy that speaks the PostgreSQL and MySQL wire protocols and runs
-- each query through the Redash API.
--
-- The parts, from the bottom up, with the code they follow:
--   Common: what the other modules share. Common.Tests has the Boolean tests, Common.Lists the lists
--     over the native numbers, Common.Text Go's strings as lists of bytes with the functions of the
--     package strings, Common.Runes their runes as UTF-8, Common.Numerals the reading of decimal numbers,
--     Common.Regex the package regexp: a pattern of the source is a term, and a match the one that a
--     backtracking search meets first. Texts are ASCII where case and
--     white space matter: a byte of 0x80 and above has no case and is no white space. Of the runes
--     beyond ASCII that LIKE compares, the long s and the Kelvin sign have case and no other.
--   Sqltext (internal/sqltext/sqltext.go): Mask is `scanMask` and `codeMask`, Redact `Redact`,
--     Statements `Statements` and `SplitTopLevelCommas`, Token `ContainsToken` and
--     `hasStatementToken`, Verb `WriteVerb`, the test of the read-only mode. The children hold the
--     proofs.
--   Redash (internal/redash): Registry and Views are registry.go, SchemaCache is schema_cache.go, Job
--     and Client.SchemaJob the loops `pollJob` and `pollSchemaJob` of client.go, Reader its
--     `maxBytesReader`, Client its answers and `ExecuteQuery`, Client.Requests the requests of one
--     exchange.
--   Health (internal/health): Gate is gate.go and Checker checker.go. Checker.Trace tells the state
--     from what the probes met, Checker.App what the menu bar app knows from the log events,
--     Checker.Interval how long the checker waits.
--   Pgwire (internal/pgwire): Message has the messages and the functions that send an answer, Query
--     and its children query.go and types.go, Startup startup.go, Rewrite rewrite.go. Catalog is
--     catalog.go: Syntax the names and words, Columns the select list of a query, Case and Values the
--     evaluation of its expressions for a row, Tables what is known of a table and a column,
--     Predicates, Filter and Kinds the WHERE clause.
--   Config (internal/config): config.go, with Layers for the layers of a profile, Report for `LoadAll`,
--     Written and File for write.go, Found for resolve.go.
--   Proxy (internal/proxy): Session is session.go, Cancel the directory of server.go, PeekConn the
--     connection that the disconnect watcher reads, Accept the loop `Serve` of server.go, which
--     internal/mysqlwire has as well.
--   Mysqlwire (internal/mysqlwire): of handler.go, Handler is the choice of a data source, Strip
--     `stripDBQualifier` and Commands the commands of a session; of query.go, Lexer is `lexTokens`, Like
--     `likeMatcher`, Scan what is found by position in a statement, Variables the session variables,
--     Local and its children the statements answered locally, Value and Result `buildResult`. Auth is
--     auth.go and the handshake in server.go, Kill the statement KILL with the table of connections.
--   Cli (cmd/redash-wire/cli.go and internal/setup/validate.go): the codes of errors, and the profile that
--     a command loads.
--   Tests: the models at concrete inputs.
--
-- How they interact: a session (Proxy.Session) asks the gate (Health.Gate), which the checker moves,
-- answers local and catalog queries from the registry (Redash.Registry) and the schema cache through
-- Pgwire, tests what is left with Sqltext.Verb in read-only mode, and sends it to Redash. It goes over
-- the messages of its client one by one; what Redash answers to a query, and what else is read from
-- outside meanwhile, comes with the message.
--
-- State is passed on by hand: an operation takes the state and returns it with what it sent, asked or
-- logged. A mutex makes the code under it one step. A select of Go is a list of what it receives, in
-- any order.
--
-- Bounds and fuel: the scanner of Sqltext passes the bytes of a region by structural recursion; the
-- token search, the loop over EXPLAIN and the replacement in Pgwire.Rewrite run on the length of the
-- text, of which each round takes a byte or more. A repetition in Common.Regex has as many rounds as
-- bytes are left, each over a byte or more. The names of scalar subqueries and the operands of a CASE in
-- Pgwire.Catalog run on the length of their text, since each stands inside a longer one. Durations are nanoseconds; the doubling of the
-- offline interval is that of an int64.
-- The process ids of sessions do not wrap here, as they would after 2^32 connections.
--
-- Parameters: the encoding of messages and the HTTP exchange are not modelled, a message or an answer
-- being a value. What JSON decodes to is given by its shape. The package time is the record `Times`,
-- and compiling a pattern that a client sends the record `Patterns`. The file system, YAML, the
-- environment and `time.ParseDuration` are the records `Outside`, `Paths`, `Trouble` and `Yaml` of
-- Config. The floats of the language are the record `Floats`, each by its text. What go-mysql checks a
-- client's response with is the parameter `fits`; a result is what is given to go-mysql's
-- `BuildSimpleResultset`.
--
-- Not modelled: the dialogue of internal/setup, and of the command line the flags, the output and the
-- start of the servers. A write to a client that fails ends its session in the code, and does not occur
-- here.
mod Common
pub mod Sqltext
pub mod Redash
pub mod Cli
pub mod Config
pub mod Health
pub mod Pgwire
pub mod Proxy
pub mod Mysqlwire
mod Tests
