-- ===== src/Proxy/PeekConn.antt =====
-- internal/proxy/session.go, `peekConn`: `wire` is what the client has sent and nobody has read.
use mathlib.Core.List.{append_cancel_right}
use redash_wire.Common.{
  ℕ, min, [], ◌∷◌, ◌++◌, take, drop, ◌≡◌, ◌↔◌, sym, ap, ◌∙◌, append_assoc, take-append-drop,
}
use redash_wire.Common.Text.{Bytes}

pub record PeekConn : Type 0 where
  pub unread : Bytes
  pub wire : Bytes

-- `Read` into a buffer of `len` bytes; the socket hands out `most` bytes at most.
unfoldable pub read : PeekConn → ℕ → ℕ → PeekConn × Bytes
read c len most = elim c.unread [
  | [] ↦ (record c { wire = drop (min len most) c.wire }, take (min len most) c.wire)
  | b ∷ bs ↦ (record c { unread = drop len (b ∷ bs) }, take len (b ∷ bs))
]

unfoldable pub push_back : PeekConn → Bytes → PeekConn
push_back c bytes = record c { unread = bytes ++ c.unread }

-- One round of `watchDisconnect`: `n` bytes are read from the socket and pushed back.
unfoldable pub watch_read : PeekConn → ℕ → PeekConn
unfolding push_back
watch_read c n = push_back (record c { wire = drop n c.wire }) (take n c.wire)

-- The bytes that the protocol reader is still to get, in its order.
abbrev pub stream : PeekConn → Bytes
stream c = c.unread ++ c.wire

read_cases :
    (unread wire : Bytes) (len most : ℕ)
    → let (c', bytes) = read (record { unread = unread; wire = wire }) len most in
      bytes ++ stream c' ≡ unread ++ wire
unfolding read
read_cases [] wire len most = take-append-drop (min len most) wire
read_cases (b ∷ bs) wire len most =
    sym (append_assoc (take len (b ∷ bs)) (drop len (b ∷ bs)) wire)
    ∙ ap (λ x. x ++ wire) (take-append-drop len (b ∷ bs))

-- A read takes the next bytes of the stream.
pub stream-read :
    (c : PeekConn) (len most : ℕ)
    → let (c', bytes) = read c len most in bytes ++ stream c' ≡ stream c
stream-read c len most = read_cases c.unread c.wire len most

-- The watcher leaves the stream as it is exactly if what it read commutes with what it pushed back
-- before: with nothing pushed back yet it always does, and a second read in one query does not.
pub stream-watch_read :
    (c : PeekConn) (n : ℕ)
    → (stream (watch_read c n) ≡ stream c) ↔ (take n c.wire ++ c.unread ≡ c.unread ++ take n c.wire)
unfolding watch_read push_back
stream-watch_read c n =
    let chunk = take n c.wire in
    let rest = drop n c.wire in
    let same : c.unread ++ c.wire ≡ (c.unread ++ chunk) ++ rest =
      ap (λ x. c.unread ++ x) (sym (take-append-drop n c.wire))
      ∙ sym (append_assoc c.unread chunk rest) in
    (
      λ h. append_cancel_right (chunk ++ c.unread) (c.unread ++ chunk) rest (h ∙ same),
      λ h. ap (λ x. x ++ rest) h ∙ sym same,
    )
