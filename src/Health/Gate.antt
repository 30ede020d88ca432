-- ===== src/Health/Gate.antt =====
-- internal/health/gate.go. The mutex makes each method one step; the channel `suspect` of depth 1 is
-- a flag.
use redash_wire.Common.{Bool, true, false, not, []}
use redash_wire.Common.Text.{Bytes, codes}

pub data Kind : Type 0 where
  kind_ok : Kind
  kind_unreachable : Kind
  kind_rejected : Kind

-- `==` on kinds.
unfoldable pub same_kind : Kind → Kind → Bool
same_kind kind_ok kind_ok = true
same_kind kind_unreachable kind_unreachable = true
same_kind kind_rejected kind_rejected = true
same_kind _ _ = false

pub record Status : Type 0 where
  pub up : Bool
  pub kind : Kind
  pub reason : Bytes

pub record Gate : Type 0 where
  pub up : Bool
  pub kind : Kind
  pub reason : Bytes
  pub suspect : Bool

unfoldable pub new_gate : Gate
new_gate = record { up = true; kind = kind_ok; reason = []; suspect = false }

unfoldable pub status : Gate → Status
status g = record { up = g.up; kind = g.kind; reason = g.reason }

-- `Fail` and `Recover` report whether the gate moved.
unfoldable pub fail : Gate → Kind → Bytes → Gate × Bool
fail g kind reason = (record g { up = false; kind = kind; reason = reason }, g.up)

unfoldable pub recover : Gate → Gate × Bool
recover g = (record g { up = true; kind = kind_ok; reason = [] }, not g.up)

-- `Suspect`: a token that is already queued is enough.
unfoldable pub suspect_redash : Gate → Gate
suspect_redash g = record g { suspect = true }

-- The checker's receive from `Suspicions`.
unfoldable pub take_suspicion : Gate → Gate
take_suspicion g = record g { suspect = false }

unfoldable pub client_message : Gate → Bytes
client_message g = elim g.kind [
  | kind_rejected ↦
      codes
        "redash-wire: Redash rejected our credentials; check the profile's api_key and redash_url"
  | _ ↦
      codes
        "redash-wire: Redash is unreachable; the proxy will serve queries again once it recovers"
]
