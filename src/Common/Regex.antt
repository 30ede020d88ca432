-- ===== src/Common/Regex.antt =====
-- Go's package regexp on ASCII text: of the matches that begin leftmost, the one that a backtracking
-- search meets first.
use redash_wire.Common.{
  ℕ, zero, suc, ◌-◌, Bool, true, false, not, ◌||◌, Option, none, some, List, [], ◌∷◌, ltb, ◌==◌,
  if◌then◌else◌, length, take, drop,
}
use redash_wire.Common.Text.{Bytes, is_upper, is_lower, is_digit, lower_byte}

pub data Re : Type 0 where
  one : (ℕ → Bool) → Re
  nothing : Re
  seq : Re → Re → Re
  alt : Re → Re → Re
  -- `*` and `*?`
  star : Re → Re
  lazy_star : Re → Re
  group : ℕ → Re → Re
  -- `^`, `$` and `\b`
  at_start : Re
  at_end : Re
  boundary : Re

-- The spans of the groups, the latest first; group 0 is the match.
abbrev pub Groups : Type 0
Groups = List (ℕ × ℕ × ℕ)

-- A place in a text.
pub record At : Type 0 where
  pub place : ℕ
  pub before : Option ℕ
  pub rest : Bytes
  pub groups : Groups

abbrev pub any_byte : ℕ → Bool
any_byte c = true

-- `[A-Za-z_]`, `\w`, `[\w$]` and `\s`
abbrev pub is_letter : ℕ → Bool
is_letter c = is_lower c || is_upper c || c == b'_'

abbrev pub is_word : ℕ → Bool
is_word c = is_letter c || is_digit c

abbrev pub is_name_byte : ℕ → Bool
is_name_byte c = is_word c || c == b'$'

abbrev pub is_blank : ℕ → Bool
is_blank c = c == b' ' || c == 9 || c == 10 || c == 12 || c == 13

abbrev is_word_at : Option ℕ → Bool
is_word_at none = false
is_word_at (some c) = is_word c

abbrev next_byte : Bytes → Option ℕ
next_byte [] = none
next_byte (c ∷ cs) = some c

abbrev differ : Bool → Bool → Bool
differ true b = not b
differ false b = b

abbrev forward : At → ℕ → Bytes → At
forward s c cs = record s { place = suc s.place; before = some c; rest = cs }

abbrev Rest : Type 0
Rest = At → Option At

-- As often as it goes, each round over a byte at least, so never more often than bytes are left.
greedy : (At → Rest → Option At) → ℕ → At → Rest → Option At
greedy m zero s k = k s
greedy m (suc n) s k =
    elim (m s (λ t. elim (ltb s.place t.place) [ true ↦ greedy m n t k | false ↦ none ])) [
      | some t ↦ some t
      | none ↦ k s
    ]

-- As seldom as it goes.
lazily : (At → Rest → Option At) → ℕ → At → Rest → Option At
lazily m zero s k = k s
lazily m (suc n) s k = elim (k s) [
  | some t ↦ some t
  | none ↦ m s (λ t. elim (ltb s.place t.place) [ true ↦ lazily m n t k | false ↦ none ])
]

run : Re → At → Rest → Option At
unfolding greedy lazily
run (one p) s k = elim s.rest [
  | [] ↦ none
  | c ∷ cs ↦ elim (p c) [ true ↦ k (forward s c cs) | false ↦ none ]
]
run nothing s k = k s
run (seq a b) s k = run a s (λ t. run b t k)
run (alt a b) s k = elim (run a s k) [ some t ↦ some t | none ↦ run b s k ]
run (star a) s k = greedy (run a) (suc (length s.rest)) s k
run (lazy_star a) s k = lazily (run a) (suc (length s.rest)) s k
run (group n a) s k = run a s (λ t. k (record t { groups = (n, s.place, t.place) ∷ t.groups }))
run at_start s k = elim s.place [ zero ↦ k s | suc _ ↦ none ]
run at_end s k = elim s.rest [ [] ↦ k s | _ ∷ _ ↦ none ]
run boundary s k = elim (differ (is_word_at s.before) (is_word_at (next_byte s.rest))) [
  | true ↦ k s
  | false ↦ none
]

-- The first match from a place on.
search : Re → ℕ → Option ℕ → Bytes → Option At
unfolding run
search re i b [] = run (group 0 re) (record { place = i; before = b; rest = []; groups = [] }) some
search re i b (c ∷ cs) =
    elim (run (group 0 re) (record { place = i; before = b; rest = c ∷ cs; groups = [] }) some) [
      | some t ↦ some t
      | none ↦ search re (suc i) (some c) cs
    ]

-- `FindStringSubmatchIndex`
unfoldable pub find : Re → Bytes → Option Groups
unfolding search
find re s = elim (search re 0 none s) [ none ↦ none | some t ↦ some t.groups ]

-- `MatchString`
unfoldable pub matches : Re → Bytes → Bool
unfolding find
matches re s = elim (find re s) [ none ↦ false | some _ ↦ true ]

-- Matches one behind the other. A match takes a byte, so there are no more than bytes.
find_from : ℕ → Re → ℕ → Option ℕ → Bytes → List Groups
unfolding search
find_from zero re i b s = []
find_from (suc n) re i b s = elim (search re i b s) [
  | none ↦ []
  | some t ↦ t.groups ∷ find_from n re t.place t.before t.rest
]

-- `FindAllStringSubmatchIndex` for a pattern that does not match the empty text.
unfoldable pub find_all : Re → Bytes → List Groups
unfolding find_from
find_all re s = find_from (length s) re 0 none s

-- The span of a group, (0, 0) for a group that is not there.
unfoldable pub span : ℕ → Groups → ℕ × ℕ
span n [] = (0, 0)
span n ((m, a, b) ∷ gs) = if m == n then (a, b) else span n gs

-- `s[a:b]`
abbrev pub slice : ℕ → ℕ → Bytes → Bytes
slice a b s = take (b - a) (drop a s)

unfoldable pub part : Bytes → ℕ → Groups → Bytes
unfolding span
part s n gs = let (a, b) = span n gs in slice a b s

abbrev pub byte : ℕ → Re
byte c = one (λ d. d == c)

-- A literal text, and one of `(?i)`.
abbrev pub literal : Bytes → Re
literal [] = nothing
literal (c ∷ cs) = seq (byte c) (literal cs)

unfoldable pub literal_fold : Bytes → Re
unfolding lower_byte
literal_fold [] = nothing
literal_fold (c ∷ cs) = seq (one (λ d. lower_byte d == c)) (literal_fold cs)

abbrev pub plus : Re → Re
plus a = seq a (star a)

abbrev pub optional : Re → Re
optional a = alt a nothing

-- `(?:a|b|c)` and `abc`
abbrev pub any_of : Re → List Re → Re
any_of a [] = a
any_of a (b ∷ bs) = alt a (any_of b bs)

abbrev pub sequence : List Re → Re
sequence [] = nothing
sequence (a ∷ rest) = seq a (sequence rest)

-- `\s*` and `\s+`
abbrev pub blanks : Re
blanks = star (one is_blank)

abbrev pub some_blanks : Re
some_blanks = plus (one is_blank)
