-- ===== src/Tests/Sqltext.antt =====
-- internal/sqltext at concrete texts.
use redash_wire.Common.{true, List, [], ◌∷◌, map, ◌≡◌, ◌↔◌, refl}
use redash_wire.Common.Text.{Bytes, codes, equal, to_upper, to_lower}
use redash_wire.Sqltext.Mask.{postgres, mysql, code_mask, is_ident_byte}
use redash_wire.Sqltext.Redact.{redact}
use redash_wire.Sqltext.Redact.Stable.{redact-redact}
use redash_wire.Sqltext.Statements.{Marked, with_mask, statements, split_top_level_commas}
use redash_wire.Sqltext.Statements.Split.{Cuts, statements_lem}
use redash_wire.Sqltext.Statements.Trimmed.{Kept}
use redash_wire.Sqltext.Statements.Commas.{join_commas, join_commas-split_top_level_commas}
use redash_wire.Sqltext.Token.{has_statement_token}
use redash_wire.Sqltext.Token.Word.{IsStatementWord, has_statement_token_iff, begins_ident}
use redash_wire.Sqltext.Verb.{is_read_lead, write_verb}
use redash_wire.Sqltext.Verb.Reads.{write_verb-redact}
use redash_wire.Sqltext.Verb.Refuses.{write_verb_word}

redact_literal : redact postgres (codes "a 'x;''y' -- c\n\"b\"") ≡ codes "a             \n   "
unfolding redact
redact_literal = refl

redact_dollar :
    redact postgres (codes "$t$ ; $t$ $1 /* /* */ */ e'\\'' x")
    ≡ codes "          $1             e     x"
unfolding redact
redact_dollar = refl

redact_mysql : redact mysql (codes "`a` # b\n'\\'' $t$;$t$") ≡ codes "       \n     $t$;$t$"
unfolding redact
redact_mysql = refl

two_statements :
    statements postgres (codes "select ';' ; -- x\n select 2 ;")
    ≡ codes "select ';'" ∷ codes "-- x\n select 2" ∷ []
unfolding statements
two_statements = refl

three_items :
    split_top_level_commas mysql (codes "f(a, b), ',', c")
    ≡ codes "f(a, b)" ∷ codes " ','" ∷ codes " c" ∷ []
unfolding split_top_level_commas
three_items = refl

verbs : List Bytes
verbs =
    map (λ s. write_verb postgres (codes s))
      ("select 'insert into'" ∷ "WITH d AS (DELETE FROM t RETURNING *) SELECT * FROM d"
        ∷ "explain (analyze, verbose) update t set a = 1" ∷ "select insert(a, 1)"
        ∷ "explain explain drop table t" ∷ "select * into x from t" ∷ [])

verbs_lem : verbs ≡ [] ∷ codes "DELETE" ∷ codes "UPDATE" ∷ [] ∷ codes "DROP" ∷ codes "INTO" ∷ []
unfolding verbs write_verb
verbs_lem = refl

mysql_plan : write_verb mysql (codes "explain orders") ≡ []
unfolding write_verb
mysql_plan = refl

abbrev quoted_delete : Bytes
quoted_delete = codes "select 'a;b' -- delete\n"

redact-redact_example : redact mysql (redact mysql quoted_delete) ≡ redact mysql quoted_delete
redact-redact_example = redact-redact mysql quoted_delete

abbrev two : Bytes
two = codes "select 1; select ';'"

statements_lem_example :
    (segs : List Marked) × Cuts (with_mask two (code_mask postgres two)) segs
    × Kept segs (statements postgres two)
statements_lem_example = statements_lem postgres two

abbrev items : Bytes
items = codes "f(a, ','), b"

join_commas_example : join_commas (split_top_level_commas postgres items) ≡ items
join_commas_example = join_commas-split_top_level_commas postgres items

has_statement_token_iff_example :
    (has_statement_token (codes "select insert (x)") (codes "insert") ≡ true)
    ↔ IsStatementWord (codes "select insert (x)") (codes "insert")
has_statement_token_iff_example =
    has_statement_token_iff (codes "select insert (x)") b'i' (codes "nsert")

write_verb-redact_example :
    write_verb postgres (redact postgres quoted_delete) ≡ write_verb postgres quoted_delete
write_verb-redact_example = write_verb-redact postgres quoted_delete

-- No word leads behind this EXPLAIN, and the text passes.
explained_no_word : write_verb postgres (codes "explain analyze .delete from t") ≡ []
unfolding write_verb
explained_no_word = refl

write_verb_word_example :
    write_verb postgres (codes "Drop table 'x") ≡ to_upper (to_lower (codes "Drop"))
unfolding is_ident_byte is_read_lead to_lower equal begins_ident
write_verb_word_example =
    write_verb_word postgres b'D' (codes "rop") (codes " table 'x")
      (refl, (refl, (refl, (refl, tt)))) refl refl refl
