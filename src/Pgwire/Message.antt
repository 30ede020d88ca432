-- ===== src/Pgwire/Message.antt =====
-- The messages that internal/pgwire sends, and query.go's functions that send an answer. The encoding
-- of a message is pgproto3's; a function that writes to the connection returns what it writes.
use redash_wire.Common.{
  ℕ, Bool, true, false, Option, none, some, List, [], ◌∷◌, ◌++◌, map, length, ◌≡◌, refl,
}
use redash_wire.Common.Text.{Bytes, codes, decimal}

-- A size of none is -1: a type of no fixed size.
pub record FieldDescription : Type 0 where
  pub name : Bytes
  pub data_type_oid : ℕ
  pub data_type_size : Option ℕ

pub data Message : Type 0 where
  row_description : List FieldDescription → Message
  data_row : List (Option Bytes) → Message
  command_complete : Bytes → Message
  empty_query_response : Message
  ready_for_query : Message
  error_response : Bytes → Bytes → Bytes → Bytes → Message
  notice_response : Bytes → Message
  encryption_denied : Message
  authentication_cleartext_password : Message
  authentication_ok : Message
  parameter_status : Bytes → Bytes → Message
  backend_key_data : ℕ → Bytes → Message

abbrev pub oid_bool : ℕ
oid_bool = 16

abbrev pub oid_int4 : ℕ
oid_int4 = 23

abbrev pub oid_text : ℕ
oid_text = 25

unfoldable pub send_error_code : Bytes → Bytes → Bytes → List Message
send_error_code code msg hint = error_response (codes "ERROR") code msg hint ∷ ready_for_query ∷ []

unfoldable pub send_error : Bytes → List Message
unfolding send_error_code
send_error msg = send_error_code (codes "XX000") msg []

unfoldable pub send_fatal : Bytes → Bytes → List Message
send_fatal code msg = error_response (codes "FATAL") code msg [] ∷ []

unfoldable pub send_empty_query : List Message
send_empty_query = empty_query_response ∷ ready_for_query ∷ []

unfoldable pub send_command_complete : Bytes → List Message
send_command_complete tag = command_complete tag ∷ ready_for_query ∷ []

unfoldable pub text_field : Bytes → FieldDescription
text_field name = record { name = name; data_type_oid = oid_text; data_type_size = none }

unfoldable pub send_single_row_result : Bytes → Bytes → List Message
unfolding text_field
send_single_row_result name value =
    row_description (text_field name ∷ [])
    ∷ data_row (some value ∷ [])
    ∷ command_complete (codes "SELECT 1")
    ∷ ready_for_query
    ∷ []

unfoldable pub send_ready_for_query : List Message
send_ready_for_query = ready_for_query ∷ []

unfoldable pub send_empty_result : List Bytes → List Message
unfolding text_field
send_empty_result columns =
    row_description (map text_field columns)
    ∷ command_complete (codes "SELECT 0")
    ∷ ready_for_query
    ∷ []

-- `SELECT n`
abbrev pub select_tag : ℕ → Bytes
select_tag n = codes "SELECT " ++ decimal n

-- catalog.go, `sendResult`
unfoldable pub send_result : List Bytes → List (List (Option Bytes)) → List Message
unfolding text_field
send_result columns rows =
    row_description (map text_field columns)
    ∷ (map data_row rows ++ command_complete (select_tag (length rows)) ∷ ready_for_query ∷ [])

-- An answer to a simple query: messages, and then the one ReadyForQuery.
unfoldable pub is_answer : List Message → Bool
is_answer [] = false
is_answer (ready_for_query ∷ []) = true
is_answer (ready_for_query ∷ _ ∷ _) = false
is_answer (_ ∷ ms) = is_answer ms

pub is_answer-data_row :
    (rows : List (List (Option Bytes))) (ms : List Message)
    → is_answer (map data_row rows ++ ms) ≡ is_answer ms
unfolding is_answer
is_answer-data_row [] ms = refl
is_answer-data_row (row ∷ rows) ms = is_answer-data_row rows ms
