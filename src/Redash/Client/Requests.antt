-- ===== src/Redash/Client/Requests.antt =====
-- internal/redash/client.go: the requests that are one exchange, by what is answered to them.
use redash_wire.Common.{not, Option, none, some, List, [], ◌∷◌, ◌++◌, ◌==◌, if◌then◌else◌}
use redash_wire.Common.Text.{Bytes, codes}
use redash_wire.Redash.{Err, DataSource}
use redash_wire.Redash.Client.{
  error_of, http_error, Reply, no_reply, replied, QueryEnvelope, query_result, query_job,
  query_neither,
}

-- A value or an error.
pub data Fetched {ℓ} (A : Type ℓ) : Type ℓ where
  fetched : A → Fetched A
  fetch_failed : Err → Fetched A

-- `fmt.Errorf` with `%w`: the chain stays.
unfoldable pub wrapped : Bytes → Err → Err
wrapped prefix e = record e { text = prefix ++ e.text }

decoded {ℓ} : {A : Type ℓ} → Bytes → Option A → Fetched A
decoded message none = fetch_failed (error_of message)
decoded message (some a) = fetched a

pub record SessionInfo : Type 0 where
  pub user_name : Bytes
  pub user_email : Bytes
  pub version : Bytes

unfoldable pub get_session : Reply SessionInfo → Fetched SessionInfo
unfolding wrapped decoded
get_session (no_reply e) = fetch_failed (wrapped (codes "fetching session: ") e)
get_session (replied code body) =
    if not (code == 200)
    then fetch_failed (http_error code)
    else decoded (codes "decoding session") body

unfoldable pub list_data_sources : Reply (List DataSource) → Fetched (List DataSource)
unfolding wrapped decoded
list_data_sources (no_reply e) = fetch_failed (wrapped (codes "fetching data sources: ") e)
list_data_sources (replied code body) =
    if not (code == 200)
    then fetch_failed (http_error code)
    else decoded (codes "decoding data sources") body

-- The status of a job, whose result is typed by what it is decoded into.
unfoldable pub fetch_job : {J : Type 0} → Reply J → Fetched J
unfolding wrapped decoded
fetch_job (no_reply e) = fetch_failed (wrapped (codes "getting job status: ") e)
fetch_job (replied code body) =
    if not (code == 200)
    then fetch_failed (http_error code)
    else decoded (codes "decoding job response") body

-- The columns of a result, and its rows as each of them decodes.
pub record RawResultData (C R : Type 0) : Type 0 where
  pub columns : List C
  pub rows : List (Option R)

pub record QueryResult (C R : Type 0) : Type 0 where
  pub columns : List C
  pub rows : List R

with_row : {C R : Type 0} → R → Fetched (QueryResult C R) → Fetched (QueryResult C R)
with_row row (fetched r) = fetched (record r { rows = row ∷ r.rows })
with_row row (fetch_failed e) = fetch_failed e

-- The first row that does not decode is an error.
unfoldable pub parse_query_result :
    {C R : Type 0} → List C → List (Option R) → Fetched (QueryResult C R)
unfolding with_row
parse_query_result columns [] = fetched (record { columns = columns; rows = [] })
parse_query_result columns (none ∷ rows) = fetch_failed (error_of (codes "decoding row"))
parse_query_result columns (some row ∷ rows) = with_row row (parse_query_result columns rows)

result_in : {C R : Type 0} → Option (QueryEnvelope (RawResultData C R)) → Fetched (QueryResult C R)
unfolding parse_query_result
result_in none = fetch_failed (error_of (codes "decoding result response"))
result_in (some (query_result d)) = parse_query_result d.columns d.rows
result_in (some query_job) = fetch_failed (error_of (codes "no query_result in response"))
result_in (some query_neither) = fetch_failed (error_of (codes "no query_result in response"))

-- The result of a job that has succeeded. A status other than 200 is not kept in the error here.
unfoldable pub get_query_result :
    {C R : Type 0} → Reply (QueryEnvelope (RawResultData C R)) → Fetched (QueryResult C R)
unfolding wrapped result_in
get_query_result (no_reply e) = fetch_failed (wrapped (codes "getting query result: ") e)
get_query_result (replied code body) =
    if not (code == 200)
    then fetch_failed (error_of (codes "query result request failed"))
    else result_in body

-- The texts under the keys "message" and "error" of a body that decodes.
unfoldable pub redash_error_message : Option (Bytes × Bytes) → Bytes
redash_error_message none = codes "no message body"
redash_error_message (some (c ∷ message, error)) = c ∷ message
redash_error_message (some ([], c ∷ error)) = c ∷ error
redash_error_message (some ([], [])) = codes "no message body"
