-- ===== src/Mysqlwire/Kill/Words.antt =====
-- internal/mysqlwire/handler.go: the statements that `parseKill` reads.
use redash_wire.Common.{
  ℕ, ◌<◌, ◌^◌, Bool, true, false, Option, none, some, List, [], ◌∷◌, ◌++◌, ◌≡◌, refl, ap, ◌∙◌, sym,
  Bool-cases, inl, inr,
}
use redash_wire.Common.Text.{Bytes, codes, equal, equal_iff, fields, decimal}
use redash_wire.Common.Numerals.{parse_uint, parse_uint-decimal}
use redash_wire.Mysqlwire.Scan.{normalize}
use redash_wire.Mysqlwire.Kill.{trim_semicolon, kill, kill_id, kill_args, kill_fields, parse_kill}

-- The words between KILL and the id: none, QUERY or CONNECTION.
abbrev pub kill_words : Option Bool → List Bytes
kill_words none = []
kill_words (some true) = codes "query" ∷ []
kill_words (some false) = codes "connection" ∷ []

abbrev asks_query_only : Option Bool → Bool
asks_query_only none = false
asks_query_only (some b) = b

no_number : (n : ℕ) (w : Bytes) → n < 2 ^ 32 → parse_uint w 32 ≡ none → equal (decimal n) w ≡ false
no_number n w h k = elim (Bool-cases (equal (decimal n) w)) [
  | inr f ↦ f
  | inl t ↦
      let e : decimal n ≡ w = (equal_iff (decimal n) w).0 t in
      absurd (let r = sym (parse_uint-decimal 32 n h) ∙ ap (λ x. parse_uint x 32) e ∙ k in cc)
]

kill_id-decimal : (b : Bool) (n : ℕ) → n < 2 ^ 32 → kill_id b (decimal n ∷ []) ≡ kill n b
unfolding kill_id
kill_id-decimal b n h = rw (parse_uint-decimal 32 n h, kill_id) refl

not_query : parse_uint (codes "query") 32 ≡ none
unfolding parse_uint
not_query = refl

not_connection : parse_uint (codes "connection") 32 ≡ none
unfolding parse_uint
not_connection = refl

kill_args-decimal :
    (o : Option Bool) (n : ℕ)
    → n < 2 ^ 32
    → kill_args (kill_words o ++ (decimal n ∷ [])) ≡ kill n (asks_query_only o)
unfolding kill_args equal
kill_args-decimal none n h =
    rw (no_number n (codes "query") h not_query, no_number n (codes "connection") h not_connection)
      (kill_id-decimal false n h)
kill_args-decimal (some true) n h = kill_id-decimal true n h
kill_args-decimal (some false) n h = kill_id-decimal false n h

-- A statement that, without its quoted texts, comments, case and final semicolon, has the words of
-- KILL, KILL QUERY or KILL CONNECTION and a connection id is read as the kill of that connection, or
-- of its query only behind QUERY.
parse_kill-decimal :
    (query : Bytes) (o : Option Bool) (n : ℕ)
    → n < 2 ^ 32
    → fields (trim_semicolon (normalize query)) ≡ codes "kill" ∷ kill_words o ++ (decimal n ∷ [])
    → parse_kill query ≡ some (kill n (asks_query_only o))
unfolding parse_kill kill_fields equal
parse_kill-decimal query o n h e = ap kill_fields e ∙ ap some (kill_args-decimal o n h)
