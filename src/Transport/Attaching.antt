-- ===== src/Transport/Attaching.antt =====
-- internal/adapters/transport/client.go: how a client joins a host and leaves it, and what
-- protocol.go's removeMarker leaves of the host's advertisement.
use harnessing.Prelude.{String, Bool, true, false, Option, none, some, if◌then◌else◌}
use harnessing.Domain.Errors.{Result, ok, err, fail, io_failure}
use harnessing.Transport.{attach_operation, detach_operation}
use harnessing.Transport.Files.{Folder, json, remove}
use harnessing.Transport.Codec.{Codec}
use harnessing.Transport.Client.{Exchange, round_trip}
use harnessing.Transport.Serving.{SessionDir}

module _ {B : Type 0} (k : Codec B) where
  abbrev joined : String → Result (Option B) × SessionDir B → Result String × SessionDir B
  joined session (err e, d) = (err e, d)
  joined session (ok r, d) = (ok session, d)

  abbrev attach_with :
      Exchange B → Result String → Option B → SessionDir B → Result String × SessionDir B
  attach_with x (err e) payload d = (fail io_failure, d)
  attach_with x (ok session) none d = (fail io_failure, d)
  attach_with x (ok session) (some payload) d =
      joined session (round_trip k x attach_operation attach_operation (some payload) d)

  -- Attach, in the new directory of the session that it answers.
  unfoldable pub attach : Exchange B → String → SessionDir B → Result String × SessionDir B
  attach x caller d =
      attach_with x x.new_id (k.attach.encode (record { caller_agent_id = caller })) d

  abbrev left : Bool → Result (Option B) × SessionDir B → Result (Unit {0}) × Option (SessionDir B)
  left true (err e, d) = (err e, some d)
  left true (ok r, d) = (fail io_failure, some d)
  left false (err e, d) = (err e, none)
  left false (ok r, d) = (ok tt, none)

  -- Detach, and what is left of the directory that it removes.
  unfoldable pub detach :
      Exchange B → Bool → SessionDir B → Result (Unit {0}) × Option (SessionDir B)
  detach x remove_fails d =
      left remove_fails (round_trip k x detach_operation detach_operation none d)

-- removeMarker
unfoldable pub remove_marker : {B : Type 0} → Bool → Folder B → Result (Unit {0}) × Folder B
remove_marker fails d = if fails then (fail io_failure, d) else (ok tt, remove (json "host") d)
