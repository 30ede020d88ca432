-- ===== src/Mysqlwire/Like.antt =====
-- internal/mysqlwire/query.go, `likeMatcher`: a LIKE pattern is compiled to a regular expression of
-- literals, `.` and `.*`, which here are the items below. Pattern and text are runes, which are
-- compared by `fold_rune`: case is that of the letters of ASCII.
pub mod Matches
use redash_wire.Common.{
  ℕ, Bool, true, false, not, ◌&&◌, ◌||◌, List, [], ◌∷◌, ◌++◌, ◌==◌, if◌then◌else◌,
}
use redash_wire.Common.Text.{Bytes}
use redash_wire.Common.Runes.{runes, fold_rune}

pub data Item : Type 0 where
  any_run : Item
  any_rune : Item
  literal : ℕ → Item

-- The loop of `likeMatcher`, with `escaped`.
unfoldable pub compile : Bool → List ℕ → List Item
compile true [] = literal b'\\' ∷ []
compile false [] = []
compile true (c ∷ cs) = literal c ∷ compile false cs
compile false (c ∷ cs) =
    let escape = compile true cs in
    let rest = compile false cs in
    if c == b'\\'
    then escape
    else if c == b'%'
    then any_run ∷ rest
    else if c == b'_'
    then any_rune ∷ rest
    else literal c ∷ rest

-- `MatchString` of the compiled expression, which is anchored at both ends.
unfoldable pub match_items : List Item → List ℕ → Bool
unfolding fold_rune
match_items [] [] = true
match_items [] (c ∷ cs) = false
match_items (any_run ∷ items) [] = match_items items []
match_items (any_run ∷ items) (c ∷ cs) =
    match_items items (c ∷ cs) || match_items (any_run ∷ items) cs
match_items (any_rune ∷ items) [] = false
match_items (any_rune ∷ items) (c ∷ cs) = match_items items cs
match_items (literal b ∷ items) [] = false
match_items (literal b ∷ items) (c ∷ cs) = fold_rune b == fold_rune c && match_items items cs

unfoldable pub like_matcher : Bytes → Bytes → Bool
unfolding compile match_items runes
like_matcher pattern s = match_items (compile false (runes pattern)) (runes s)
