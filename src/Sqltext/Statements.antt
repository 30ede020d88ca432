-- ===== src/Sqltext/Statements.antt =====
-- internal/sqltext/sqltext.go, `Statements`, `segmentHasCode`, `IsMultiStatement` and
-- `SplitTopLevelCommas`. A segment is a list of bytes, each with its place in the mask.
pub mod Trimmed
pub mod Split
pub mod Commas
use redash_wire.Common.{
  ℕ, suc, ◌+◌, ◌-◌, Bool, true, false, not, ◌&&◌, ◌||◌, List, [], ◌∷◌, ◌++◌, map, ◌==◌, ltb,
  if◌then◌else◌, any, length,
}
use redash_wire.Common.Text.{Bytes, trim_space, trim_left, trim_right}
use redash_wire.Sqltext.Mask.{Dialect, code_mask}

abbrev pub Marked : Type 0
Marked = List (ℕ × Bool)

unfoldable pub with_mask : Bytes → List Bool → Marked
with_mask (c ∷ cs) (m ∷ ms) = (c, m) ∷ with_mask cs ms
with_mask _ _ = []

-- The bytes of a segment.
abbrev pub text : Marked → Bytes
text [] = []
text ((c, m) ∷ r) = c ∷ text r

-- The bytes that `segmentHasCode` takes for blank.
abbrev pub is_blank : ℕ → Bool
is_blank c = c == b' ' || c == b'\t' || c == b'\n' || c == b'\r'

unfoldable pub segment_has_code : Marked → Bool
segment_has_code [] = false
segment_has_code ((c, m) ∷ r) = (m && not (is_blank c)) || segment_has_code r

-- `flush`
unfoldable pub flush : Marked → List Bytes
unfolding segment_has_code trim_space
flush seg = if segment_has_code seg then trim_space (text seg) ∷ [] else []

-- The loop of `Statements`, with the segment from `start` on.
unfoldable pub statements_from : Marked → Marked → List Bytes
statements_from seg [] = flush seg
statements_from seg ((c, m) ∷ r) =
    let after = flush seg ++ statements_from [] r in
    let on = statements_from (seg ++ (c, m) ∷ []) r in if c == b';' && m then after else on

unfoldable pub statements : Dialect → Bytes → List Bytes
unfolding with_mask statements_from flush code_mask
statements d sql = statements_from [] (with_mask sql (code_mask d sql))

unfoldable pub is_multi_statement : Dialect → Bytes → Bool
unfolding statements
is_multi_statement d sql = ltb 1 (length (statements d sql))

-- The loop of `SplitTopLevelCommas`, with the bytes from `start` on.
unfoldable pub commas_from : ℕ → Bytes → Marked → List Bytes
commas_from depth part [] = part ∷ []
commas_from depth part ((c, m) ∷ r) =
    let open_paren = commas_from (depth + 1) (part ++ c ∷ []) r in
    let close_paren = commas_from (depth - 1) (part ++ c ∷ []) r in
    let cut = part ∷ commas_from depth [] r in
    let on = commas_from depth (part ++ c ∷ []) r in
    if not m
    then on
    else if c == b'('
    then open_paren
    else if c == b')'
    then close_paren
    else if c == b',' && depth == 0
    then cut
    else on

unfoldable pub split_top_level_commas : Dialect → Bytes → List Bytes
unfolding with_mask commas_from code_mask
split_top_level_commas d s = commas_from 0 [] (with_mask s (code_mask d s))
