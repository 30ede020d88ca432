-- ===== src/Pgwire/Query/Local/Setting.antt =====
-- internal/pgwire/query.go, the expression `readOnlySetting`, and `net.SplitHostPort`.
use redash_wire.Common.{
  ℕ, suc, Bool, true, not, ◌&&◌, ◌||◌, Option, none, some, [], ◌∷◌, any, length, take, drop, ◌==◌,
  if◌then◌else◌,
}
use redash_wire.Common.Text.{
  Bytes, codes, is_upper, is_lower, is_digit, has_prefix, trim_left, index,
}

-- The class \s.
abbrev pub is_blank : ℕ → Bool
is_blank c = c == b' ' || c == 9 || c == 10 || c == 12 || c == 13

abbrev is_alnum : ℕ → Bool
is_alnum c = is_lower c || is_digit c

-- A byte of \w.
abbrev is_word : ℕ → Bool
is_word c = is_alnum c || is_upper c || c == b'_'

take_alnum : Bytes → Bytes
take_alnum [] = []
take_alnum (c ∷ cs) = if is_alnum c then c ∷ take_alnum cs else []

-- `'?([a-z0-9]+)`
quoted_value : Bytes → Bytes
quoted_value [] = []
quoted_value (c ∷ cs) = if c == b'\'' then take_alnum cs else take_alnum (c ∷ cs)

captured : Bytes → Option Bytes
unfolding quoted_value take_alnum
captured s = elim (quoted_value (trim_left is_blank s)) [ [] ↦ none | c ∷ cs ↦ some (c ∷ cs) ]

-- The text does not go on with a byte of \w.
ends_word : Bytes → Bool
ends_word [] = true
ends_word (c ∷ _) = not (is_word c)

-- `\bto\b` behind at least one blank.
to_value : Bytes → Bool → Option Bytes
unfolding captured has_prefix ends_word
to_value s spaced =
    if spaced && has_prefix s (codes "to") && ends_word (drop 2 s)
    then captured (drop 2 s)
    else none

-- `\s*(?:=|\bto\b)\s*'?([a-z0-9]+)`
assigned : Bytes → Option Bytes
unfolding to_value captured trim_left
assigned s = elim (trim_left is_blank s) [
  | [] ↦ none
  | c ∷ cs ↦
      if c == b'=' then captured cs else to_value (c ∷ cs) (not (length (c ∷ cs) == length s))
]

abbrev setting : Bytes
setting = codes "transaction_read_only"

setting_at : Bytes → Option Bytes
unfolding has_prefix assigned
setting_at s =
    let t = if has_prefix s (codes "default_") then drop 8 s else s in
    if has_prefix t setting then assigned (drop (length setting) t) else none

-- A match that starts with a byte outside [a-z0-9_].
setting_behind : Bytes → Option Bytes
unfolding setting_at
setting_behind [] = none
setting_behind (c ∷ cs) =
    let rest = setting_behind cs in
    if is_alnum c || c == b'_' then rest else elim (setting_at cs) [ some v ↦ some v | none ↦ rest ]

-- The value of the leftmost match.
unfoldable pub read_only_setting : Bytes → Option Bytes
unfolding setting_at setting_behind
read_only_setting s = elim (setting_at s) [ some v ↦ some v | none ↦ setting_behind s ]

-- Where the last byte `c` stands.
last_index : ℕ → Bytes → Option ℕ
last_index c [] = none
last_index c (b ∷ bs) = elim (last_index c bs) [
  | some i ↦ some (suc i)
  | none ↦ if b == c then some 0 else none
]

abbrev has_byte : ℕ → Bytes → Bool
has_byte c s = any (λ b. b == c) s

abbrev no_address : Bytes × Bytes
no_address = ([], [])

-- `[host]:port`, the text behind the bracket being `s`.
bracketed : Bytes → Bytes × Bytes
unfolding index has_prefix
bracketed s = elim (index s (codes "]")) [
  | none ↦ no_address
  | some k ↦ elim (drop (suc k) s) [
    | [] ↦ no_address
    | c ∷ port ↦
        if not (c == b':') || has_byte b':' port || has_byte b'[' s || has_byte b']' port
        then no_address
        else (take k s, port)
  ]
]

plain_address : Bytes → Bytes × Bytes
unfolding last_index
plain_address s = elim (last_index b':' s) [
  | none ↦ no_address
  | some i ↦
      if has_byte b':' (take i s) || has_byte b'[' s || has_byte b']' s
      then no_address
      else (take i s, drop (suc i) s)
]

-- `host, port, _ := net.SplitHostPort(s)`
unfoldable pub split_host_port : Bytes → Bytes × Bytes
unfolding bracketed plain_address
split_host_port [] = no_address
split_host_port (c ∷ cs) = if c == b'[' then bracketed cs else plain_address (c ∷ cs)
