-- ===== src/Sqltext/Verb/Reads.antt =====
-- internal/sqltext/sqltext.go: `WriteVerb` on a statement that it lets pass.
use redash_wire.Common.{suc, Bool, true, false, List, [], ◌∷◌, length, ◌≡◌}
use redash_wire.Common.Text.{Bytes}
use redash_wire.Sqltext.Mask.{Dialect, mysql}
use redash_wire.Sqltext.Redact.{redact}
use redash_wire.Sqltext.Redact.Stable.{redact-redact}
use redash_wire.Sqltext.Token.Word.{IsStatementWord}
use redash_wire.Sqltext.Verb.{
  write_tokens, lead_word, is_read_lead, is_statement_keyword, strip_explain, verb_body, write_verb,
}

-- Literals, quoted identifiers and comments have no say in the verdict: the redacted text gets the
-- same one.
pub write_verb-redact : (d : Dialect) (sql : Bytes) → write_verb d (redact d sql) ≡ write_verb d sql
unfolding write_verb verb_body
write_verb-redact d sql = rw redact-redact

-- No token of the list is a statement keyword of `body`.
abbrev pub NoWord : Bytes → List Bytes → Type 0
NoWord body [] = Unit
NoWord body ([] ∷ toks) = Unit
NoWord body ((t ∷ ts) ∷ toks) = (¬ IsStatementWord body (t ∷ ts)) × NoWord body toks

-- What may pass: a text that no word leads, a read without a write keyword, and on MySQL what EXPLAIN
-- says of a table or a connection. A text that no word leads need not be empty: behind its blanks and
-- opening parentheses it may begin with a byte that begins no identifier, as `.delete` does.
pub data IsRead (d : Dialect) (explained : Bool) (stmt : Bytes) : Type 0 where
  no_word : (lead_word stmt).0 ≡ [] → IsRead d explained stmt
  read : is_read_lead (lead_word stmt).0 ≡ true → NoWord stmt write_tokens → IsRead d explained stmt
  plan :
      explained ≡ true
      → d ≡ mysql
      → is_statement_keyword (lead_word stmt).0 ≡ false
      → IsRead d explained stmt

-- The statement behind every EXPLAIN, as `WriteVerb` finds it, and whether there was an EXPLAIN.
abbrev pub judged : Dialect → Bytes → Bool × Bytes
judged d sql = let body = verb_body d sql in strip_explain (suc (length body)) false body
