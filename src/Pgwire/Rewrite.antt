-- ===== src/Pgwire/Rewrite.antt =====
-- internal/pgwire/rewrite.go. The regular expression is a function of the bytes; its parts never leave
-- it a choice, so the first try is the match.
pub mod Reads
use redash_wire.Common.{
  ℕ, zero, suc, ◌+◌, Bool, true, false, not, ◌&&◌, ◌||◌, Option, none, some, List, [], ◌∷◌, ◌++◌,
  length, take, drop, ◌==◌, if◌then◌else◌, ◌≡◌, refl, Bool-cases, inl, inr, arith,
}
use redash_wire.Common.Text.{
  Bytes, codes, equal, to_lower, trim_space, trim_left, has_prefix, index, is_digit,
}
use redash_wire.Sqltext.Mask.{postgres}
use redash_wire.Sqltext.Redact.{redact}

abbrev is_blank : ℕ → Bool
is_blank c = c == b' ' || c == 9 || c == 10 || c == 12 || c == 13

-- What a pattern matches and the rest, 'd' being a digit and any other byte itself.
matched : Bytes → Bytes → Option (Bytes × Bytes)
matched [] s = some ([], s)
matched (p ∷ ps) [] = none
matched (p ∷ ps) (c ∷ cs) =
    let rest = matched ps cs in
    if (if p == b'd' then is_digit c else p == c)
    then elim rest [ none ↦ none | some (m, r) ↦ some (c ∷ m, r) ]
    else none

-- At most `n` digits.
digits_up_to : ℕ → Bytes → Bytes × Bytes
digits_up_to zero s = ([], s)
digits_up_to (suc n) [] = ([], [])
digits_up_to (suc n) (c ∷ cs) =
    let (m, r) = digits_up_to n cs in if is_digit c then (c ∷ m, r) else ([], c ∷ cs)

-- `(?:Z|[+-]\d{2}(?::\d{2})?)?`
zone : Bytes → Bytes × Bytes
unfolding matched
zone [] = ([], [])
zone (c ∷ cs) =
    if c == b'Z'
    then (c ∷ [], cs)
    else if c == b'+' || c == b'-'
    then elim (matched (codes "dd") cs) [
      | none ↦ ([], c ∷ cs)
      | some (hours, r) ↦ elim (matched (codes ":dd") r) [
        | none ↦ (c ∷ hours, r)
        | some (minutes, r') ↦ (c ∷ (hours ++ minutes), r')
      ]
    ]
    else ([], c ∷ cs)

-- The timestamp, behind its quote, and what follows the closing one.
timestamp : Bytes → Option (Bytes × Bytes)
unfolding matched digits_up_to zone
timestamp s = elim (matched (codes "dddd-dd-dd dd:dd:dd.") s) [
  | none ↦ none
  | some (m, r) ↦
      let (fraction, r1) = digits_up_to 3 r in
      let (z, r2) = zone r1 in
      elim fraction [
        | [] ↦ none
        | f ∷ fs ↦ elim r2 [
          | [] ↦ none
          | q ∷ r3 ↦ if q == b'\'' then some (m ++ f ∷ (fs ++ z), r3) else none
        ]
      ]
]

-- `[^"]+"`: the name, and what follows the closing quote.
quoted_name : Bytes → Option (Bytes × Bytes)
quoted_name [] = none
quoted_name (c ∷ cs) =
    let rest = quoted_name cs in
    if c == b'"' then some ([], cs) else elim rest [ none ↦ none | some (n, r) ↦ some (c ∷ n, r) ]

-- Past `\s*` and the byte, which must be there.
past : ℕ → Bytes → Option Bytes
unfolding trim_left
past b s = elim (trim_left is_blank s) [ [] ↦ none | c ∷ cs ↦ if c == b then some cs else none ]

-- The name, the literal and the rest of a match at the start of the text.
comparison : Bytes → Option (Bytes × Bytes × Bytes)
unfolding quoted_name past timestamp
comparison [] = none
comparison (c ∷ cs) =
    if c == b'"'
    then elim (quoted_name cs) [
      | none ↦ none
      | some ([], r) ↦ none
      | some (n ∷ ns, r) ↦ elim (past b'=' r) [
        | none ↦ none
        | some r1 ↦ elim (past b'\'' r1) [
          | none ↦ none
          | some r2 ↦ elim (timestamp r2) [ none ↦ none | some (t, r3) ↦ some (n ∷ ns, t, r3) ]
        ]
      ]
    ]
    else none

-- `date_trunc('milliseconds', "$1") = '$2'`
replacement : Bytes → Bytes → Bytes
replacement name literal =
    codes "date_trunc('milliseconds', \"" ++ name ++ codes "\") = '" ++ literal ++ codes "'"

-- `ReplaceAllString`; a match takes at least one byte, so the length is fuel enough.
replace_all : ℕ → Bytes → Bytes
unfolding comparison replacement
replace_all zero s = s
replace_all (suc fuel) [] = []
replace_all (suc fuel) (c ∷ cs) = elim (comparison (c ∷ cs)) [
  | none ↦ c ∷ replace_all fuel cs
  | some (name, literal, rest) ↦ replacement name literal ++ replace_all fuel rest
]

-- The part behind the test of the verb.
rewrite_where : Bytes → Bytes
unfolding index has_prefix to_lower redact replace_all equal
rewrite_where sql = elim (index (to_lower (redact postgres sql)) (codes " where ")) [
  | none ↦ sql
  | some where_idx ↦
      let prefix = take (where_idx + 7) sql in
      let where_clause = drop (where_idx + 7) sql in
      let rewritten = replace_all (length where_clause) where_clause in
      if equal rewritten where_clause then sql else prefix ++ rewritten
]

unfoldable pub rewrite_timestamp_comparisons : Bytes → Bytes
unfolding to_lower trim_space has_prefix rewrite_where
rewrite_timestamp_comparisons sql =
    let lower = to_lower (trim_space sql) in
    if has_prefix lower (codes "update") || has_prefix lower (codes "delete")
    then rewrite_where sql
    else sql
