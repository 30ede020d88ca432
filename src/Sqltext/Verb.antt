-- ===== src/Sqltext/Verb.antt =====
-- internal/sqltext/sqltext.go, `WriteVerb` and what it calls: the read-only check.
pub mod Fuel
pub mod Reads
pub mod Refuses
use Prim.Native.String.{String}
use redash_wire.Common.{
  ℕ, zero, suc, Bool, true, false, not, ◌&&◌, ◌||◌, Option, none, some, List, [], ◌∷◌, ◌==◌,
  if◌then◌else◌, length, take, drop, any, map,
}
use redash_wire.Common.Text.{
  Bytes, codes, equal, one_of, to_lower, to_upper, trim_space, trim_left, trim_right, index,
  has_prefix,
}
use redash_wire.Sqltext.Mask.{Dialect, is_mysql, ident_len}
use redash_wire.Sqltext.Redact.{redact}
use redash_wire.Sqltext.Token.{is_gap, has_statement_token}

abbrev words : List String → List Bytes
words = map codes

abbrev pub read_leads : List Bytes
read_leads = words ("select" ∷ "with" ∷ "values" ∷ "table" ∷ "show" ∷ "describe" ∷ "desc" ∷ [])

abbrev pub write_tokens : List Bytes
write_tokens = words ("insert" ∷ "update" ∷ "delete" ∷ "merge" ∷ "into" ∷ [])

abbrev pub explain_options : List Bytes
explain_options = words (
    "analyze" ∷ "analyse" ∷ "verbose" ∷ "costs" ∷ "settings" ∷ "buffers" ∷ "wal" ∷ "timing"
    ∷ "summary" ∷ "generic_plan" ∷ "format" ∷ "extended" ∷ "partitions" ∷ "json" ∷ "xml" ∷ "yaml"
    ∷ "text" ∷ "tree" ∷ "traditional" ∷ "on" ∷ "off" ∷ "true" ∷ "false" ∷ [])

abbrev pub statement_keywords : List Bytes
statement_keywords = words (
    "select" ∷ "with" ∷ "values" ∷ "table" ∷ "show" ∷ "describe" ∷ "desc" ∷ "explain" ∷ "insert"
    ∷ "update" ∷ "delete" ∷ "merge" ∷ "replace" ∷ "create" ∷ "drop" ∷ "alter" ∷ "truncate" ∷ "grant"
    ∷ "revoke" ∷ "call" ∷ "do" ∷ "copy" ∷ "lock" ∷ "unlock" ∷ "vacuum" ∷ "analyze" ∷ "analyse"
    ∷ "refresh" ∷ "reindex" ∷ "load" ∷ "rename" ∷ "set" ∷ "begin" ∷ "start" ∷ "commit" ∷ "rollback"
    ∷ "savepoint" ∷ "release" ∷ "prepare" ∷ "execute" ∷ "deallocate" ∷ "declare" ∷ "fetch" ∷ "close"
    ∷ "handler" ∷ "import" ∷ "install" ∷ "flush" ∷ "reset" ∷ "purge" ∷ "kill" ∷ "use" ∷ "checksum"
    ∷ "check" ∷ "optimize" ∷ "repair" ∷ "cluster" ∷ "comment" ∷ "security" ∷ "listen" ∷ "notify"
    ∷ "unlisten" ∷ "discard" ∷ "move" ∷ "checkpoint" ∷ "abort" ∷ "end" ∷ [])

-- `readLeads[w]`, `explainOptions[w]`, `isStatementKeyword(w)`
unfoldable pub is_read_lead : Bytes → Bool
unfolding equal
is_read_lead w = one_of read_leads w

unfoldable pub is_explain_option : Bytes → Bool
unfolding equal
is_explain_option w = one_of explain_options w

unfoldable pub is_statement_keyword : Bytes → Bool
unfolding equal
is_statement_keyword w = one_of statement_keywords w

-- What `leadWord` skips, and what it then reads.
unfoldable pub skip_lead : Bytes → Bytes
skip_lead [] = []
skip_lead (c ∷ cs) = if c == b'(' || is_gap c then skip_lead cs else c ∷ cs

unfoldable pub lead_word : Bytes → Bytes × Bytes
unfolding skip_lead ident_len
lead_word s = let t = skip_lead s in (take (ident_len t) t, drop (ident_len t) t)

-- One round of `stripExplainOptions` behind `TrimLeft`: the text that the next round is given, or
-- none where the loop returns.
unfoldable pub explain_round : Bytes → Option Bytes
explain_round [] = none
explain_round (c ∷ cs) =
    if c == b'('
    then elim (index (c ∷ cs) (b')' ∷ [])) [
      | none ↦ none
      | some end ↦ some (drop (suc end) (c ∷ cs))
    ]
    else if c == b'='
    then some cs
    else let (word, after) = lead_word (c ∷ cs) in
      if is_explain_option word then some after else none

-- The loop of `stripExplainOptions`.
unfoldable pub strip_options : ℕ → Bytes → Bytes
strip_options zero rest = rest
strip_options (suc fuel) rest =
    let t = trim_left is_gap rest in
    elim (explain_round t) [ none ↦ t | some next ↦ strip_options fuel next ]

unfoldable pub strip_explain_options : Bytes → Bytes
unfolding strip_options explain_round lead_word is_explain_option index has_prefix trim_left
strip_explain_options rest = strip_options (suc (length rest)) rest

-- The loop of `WriteVerb` over EXPLAIN: whether there was one, and the statement.
unfoldable pub strip_explain : ℕ → Bool → Bytes → Bool × Bytes
strip_explain zero explained body = (explained, body)
strip_explain (suc fuel) explained body =
    let (lead, rest) = lead_word body in
    let next = strip_explain fuel true (strip_explain_options rest) in
    if equal lead (codes "explain") then next else (explained, body)

-- The tokens of `writeTokens` in order; [] for "".
unfoldable pub write_token : List Bytes → Bytes → Bytes
write_token [] body = []
write_token (tok ∷ toks) body =
    if has_statement_token body tok then to_upper tok else write_token toks body

-- The switch on the lead keyword, and what follows it.
unfoldable pub verb_of : Dialect → Bool → Bytes → Bytes → Bytes
verb_of d explained lead body =
    if equal lead []
    then []
    else if is_read_lead lead
    then write_token write_tokens body
    else if explained && is_mysql d && not (is_statement_keyword lead)
    then []
    else to_upper lead

-- "; \t\r\n"
abbrev pub is_trailer : ℕ → Bool
is_trailer c = c == b';' || is_gap c

-- The text that `WriteVerb` judges.
unfoldable pub verb_body : Dialect → Bytes → Bytes
unfolding redact to_lower trim_space trim_right
verb_body d sql = trim_right is_trailer (to_lower (trim_space (redact d sql)))

-- From the EXPLAIN loop on.
unfoldable pub verb_from : Dialect → Bytes → Bytes
verb_from d body =
    let (explained, stmt) = strip_explain (suc (length body)) false body in
    verb_of d explained (lead_word stmt).0 stmt

unfoldable pub write_verb : Dialect → Bytes → Bytes
unfolding verb_from verb_body strip_explain strip_explain_options verb_of is_read_lead
    is_statement_keyword write_token has_statement_token lead_word equal to_upper
write_verb d sql = verb_from d (verb_body d sql)
