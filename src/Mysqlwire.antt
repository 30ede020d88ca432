-- ===== src/Mysqlwire.antt =====
-- internal/mysqlwire: the errors that its handler gives to go-mysql, which sends them to the client.
pub mod Handler
pub mod Auth
pub mod Kill
pub mod Lexer
pub mod Like
pub mod Value
pub mod Scan
pub mod Variables
pub mod Local
pub mod Strip
pub mod Commands
pub mod Result
use redash_wire.Common.{ℕ, Bool, List}
use redash_wire.Common.Numerals.{ℤ}
use redash_wire.Common.Text.{Bytes}

-- The error codes of go-mysql that the handler uses.
pub data ErrorCode : Type 0 where
  er_unknown_error : ErrorCode
  er_bad_db_error : ErrorCode
  er_parse_error : ErrorCode
  er_no_such_thread : ErrorCode
  er_no_db_error : ErrorCode
  er_option_prevents_statement : ErrorCode
  er_query_interrupted : ErrorCode
  er_not_supported_yet : ErrorCode
  er_unknown_com_error : ErrorCode

-- `mysql.MyError`
pub record MyError : Type 0 where
  pub code : ErrorCode
  pub message : Bytes

-- A value of a row as go-mysql is given it: nil, an integer, a float by its text, or a string. An empty
-- string is handed over as empty bytes, which is a string on the wire.
pub data Cell : Type 0 where
  null_cell : Cell
  int_cell : ℤ → Cell
  float_cell : Bytes → Cell
  text_cell : Bytes → Cell

-- What the handler answers: nothing but OK, a number of affected rows, an empty result, names and rows
-- for `BuildSimpleResultset`, or an error.
pub data Answer : Type 0 where
  nothing : Answer
  affected : ℕ → Answer
  no_columns : Answer
  result_set : List Bytes → List (List Cell) → Answer
  refused_with : MyError → Answer

-- A value, or the error that the handler gives instead.
pub data Checked {ℓ} (A : Type ℓ) : Type ℓ where
  checked : A → Checked A
  failed : MyError → Checked A

infixl 5 ◌>>=◌
abbrev pub ◌>>=◌ {ℓ κ} : {A : Type ℓ} {B : Type κ} → Checked A → (A → Checked B) → Checked B
checked a >>= f = f a
failed e >>= f = failed e
