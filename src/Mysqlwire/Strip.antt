-- ===== src/Mysqlwire/Strip.antt =====
-- internal/mysqlwire/handler.go, `stripDBQualifier`. A slice of the statement is taken by its bounds.
pub mod Cuts
use redash_wire.Common.{
  ℕ, zero, suc, ◌+◌, ◌-◌, Bool, true, false, not, ◌&&◌, ◌||◌, Option, none, some, List, [], ◌∷◌,
  ◌++◌, ◌==◌, leb, if◌then◌else◌, length, take, drop,
}
use redash_wire.Common.Text.{
  Bytes, codes, equal, one_of, equal_fold, index, has_prefix, fields, trim_right,
}
use redash_wire.Mysqlwire.Lexer.{is_ident_byte, is_space, run_len}
use redash_wire.Mysqlwire.Scan.{lower_redacted, token_at}

-- The loop of `showNamesTableFirst` over the words.
unfoldable pub table_words : List Bytes → Bool
unfolding equal
table_words [] = false
table_words (w ∷ ws) =
    let on = table_words ws in
    if one_of (codes "full" ∷ codes "extended" ∷ []) w
    then on
    else one_of
        (codes "columns" ∷ codes "fields" ∷ codes "index" ∷ codes "indexes" ∷ codes "keys" ∷ []) w

unfoldable pub show_names_table_first : Bytes → ℕ → Bool
unfolding fields table_words
show_names_table_first red i = table_words (fields (drop i red))

abbrev pub table_ref_keywords : List Bytes
table_ref_keywords =
    codes "from"
    ∷ codes "join"
    ∷ codes "into"
    ∷ codes "table"
    ∷ codes "update"
    ∷ codes "describe"
    ∷ codes "desc"
    ∷ codes "explain"
    ∷ codes "in"
    ∷ []

-- The switch of `tableRefKeywordAt`.
unfoldable pub counts_here : Bytes → Bool → Bool → Bool
unfolding equal
counts_here kw at_first is_show =
    if one_of (codes "update" ∷ codes "describe" ∷ codes "desc" ∷ codes "explain" ∷ []) kw
    then at_first
    else if equal kw (codes "in")
    then is_show
    else true

-- The loop of `tableRefKeywordAt`.
unfoldable pub keyword_among : List Bytes → Bytes → ℕ → ℕ → Bool → Bytes
unfolding token_at counts_here
keyword_among [] red i first is_show = []
keyword_among (kw ∷ kws) red i first is_show =
    if token_at red i kw && counts_here kw (i == first) is_show
    then kw
    else keyword_among kws red i first is_show

unfoldable pub table_ref_keyword_at : Bytes → ℕ → ℕ → Bool → Bytes
unfolding keyword_among
table_ref_keyword_at = keyword_among table_ref_keywords

-- `identifierAt` on the bytes from its `i` on: the name, and the index just past it.
unfoldable pub identifier_in : ℕ → Bytes → Bytes × ℕ
unfolding index has_prefix run_len is_ident_byte
identifier_in i [] = ([], i)
identifier_in i (c ∷ cs) =
    let n = run_len is_ident_byte (c ∷ cs) in
    if c == b'`' || c == b'"'
    then elim (index cs (c ∷ [])) [ none ↦ ([], i) | some k ↦ (take k cs, i + (k + 2)) ]
    else (take n (c ∷ cs), i + n)

unfoldable pub identifier_at : Bytes → ℕ → Bytes × ℕ
unfolding identifier_in
identifier_at s i = identifier_in i (drop i s)

-- What the loop is about: the database, the statement, its redacted text, the place of its first word,
-- `isShow` and `tableFirst`.
pub record Context : Type 0 where
  pub db_name : Bytes
  pub query : Bytes
  pub red : Bytes
  pub first : ℕ
  pub is_show : Bool
  pub table_first : Bool

pub record Strip : Type 0 where
  pub at : ℕ
  pub from_seen : ℕ
  pub copied : ℕ
  pub out : Bytes

abbrev pub slice : Bytes → ℕ → ℕ → Bytes
slice s from to = take (to - from) (drop from s)

abbrev pub is_from : Bytes → Bool
is_from kw = equal kw (codes "from") || equal kw (codes "in")

abbrev pub has_dot : Bytes → ℕ → Bool
has_dot s i = elim (drop i s) [ [] ↦ false | c ∷ cs ↦ c == b'.' ]

-- The switch at a name of the database, whose bounds are `start` and `end`, behind the keyword at
-- `kw_start`.
unfoldable pub cut_name : Context → Strip → Bool → ℕ → ℕ → ℕ → Strip
unfolding trim_right
cut_name x s names_database kw_start start end =
    if has_dot x.query end
    then record s { at = end + 1; copied = end + 1; out = s.out ++ slice x.query s.copied start }
    else if names_database
    then record s {
      at = end;
      copied = end;
      out = s.out ++ trim_right is_space (slice x.query s.copied kw_start);
    }
    else s

-- A round of the loop at the keyword `kw`; `past` is the state behind it.
unfoldable pub at_keyword : Context → Strip → Bytes → Strip
unfolding equal equal_fold identifier_at run_len cut_name
at_keyword x s kw =
    let seen = if is_from kw then s.from_seen + 1 else s.from_seen in
    let names_database = is_from kw && (x.is_show && (not x.table_first || not (seen == 1))) in
    let past = record s { at = s.at + length kw; from_seen = seen } in
    let start = past.at + run_len is_space (drop past.at x.query) in
    let (name, end) = identifier_at x.query start in
    if equal_fold name x.db_name then cut_name x past names_database s.at start end else past

unfoldable pub strip_round : Context → Strip → Strip
unfolding table_ref_keyword_at at_keyword
strip_round x s = elim (table_ref_keyword_at x.red s.at x.first x.is_show) [
  | [] ↦ record s { at = s.at + 1 }
  | c ∷ kw ↦ at_keyword x s (c ∷ kw)
]

-- The loop; each round goes on by a byte or more.
unfoldable pub strip_loop : ℕ → Context → Strip → Strip
unfolding strip_round
strip_loop zero x s = s
strip_loop (suc fuel) x s =
    let next = strip_loop fuel x (strip_round x s) in if leb (length x.red) s.at then s else next

unfoldable pub strip_context : Bytes → Bytes → Context
unfolding lower_redacted token_at show_names_table_first run_len
strip_context db query =
    let red = lower_redacted query in
    let first = run_len is_space red in
    let is_show = token_at red first (codes "show") in
    record {
      db_name = db;
      query = query;
      red = red;
      first = first;
      is_show = is_show;
      table_first = is_show && show_names_table_first red (first + 4);
    }

abbrev pub strip_start : Strip
strip_start = record { at = 0; from_seen = 0; copied = 0; out = [] }

unfoldable pub strip_db_qualifier : Bytes → Bytes → Bytes
unfolding strip_context strip_loop
strip_db_qualifier [] query = query
strip_db_qualifier (c ∷ db) query =
    let x = strip_context (c ∷ db) query in
    let end = strip_loop (length x.red) x strip_start in end.out ++ drop end.copied query
