-- ===== src/Transport/Ticking.antt =====
-- internal/adapters/transport/host.go: a tick of the continuing host over all sessions, and its start
-- and end. Between two ticks the clients change their folders.
use harnessing.Prelude.{
  String, Bool, true, false, Option, none, some, List, [], ◌∷◌, str_eq, if◌then◌else◌,
}
use harnessing.Domain.Errors.{Result, ok, err, fail, io_failure}
use harnessing.Host.{FrontendSession}
use harnessing.Host.Opening.{Workspace}
use harnessing.Transport.{AttachPayload, HostMarker}
use harnessing.Transport.Files.{Folder, json, WriteIo, ReadIo, write_atomic}
use harnessing.Transport.Codec.{Codec}
use harnessing.Transport.Serving.{SessionDir, Turn, service_session, try_bind}

-- What the system answers while one session is looked at.
pub record SessionTurn (B : Type 0) : Type 0 where
  pub read_attach : ReadIo
  pub write_attach : WriteIo B
  pub list : Bool
  pub turns : String → Turn B

-- The sessions' directories in the order of their names, and the map `bound`.
pub record Serving (B : Type 0) : Type 0 where
  pub sessions : List (String × SessionDir B)
  pub bound : String → Option FrontendSession
  pub workspace : Workspace

-- A round of Run: what the clients have made of the folders, and the answers to the tick.
pub record Round (B : Type 0) : Type 0 where
  pub found : List (String × SessionDir B) → List (String × SessionDir B)
  pub list : Bool
  pub at : String → SessionTurn B

abbrev pub update :
    String
    → Option FrontendSession
    → (String → Option FrontendSession)
    → String
    → Option FrontendSession
update id s bound = λ other. if str_eq id other then s else bound other

abbrev pub kept_bound : Bool → FrontendSession → Option FrontendSession
kept_bound true s = none
kept_bound false s = some s

module _ {B : Type 0} where
  -- The rest of the sessions goes on with this one's directory in its place.
  abbrev pub and_dir : String → SessionDir B → Serving B → Serving B
  and_dir id d v = record v { sessions = (id, d) ∷ v.sessions }

  module _ (k : Codec B) (bind : AttachPayload → Result FrontendSession) where
    abbrev pub service_bound :
        SessionTurn B
        → String
        → FrontendSession
        → SessionDir B
        → Serving B
        → SessionDir B × Serving B
    service_bound t id s d v =
        let (detached, p) =
          service_session k t.list t.turns s (record { dir = d; workspace = v.workspace }) in
        (
          p.dir,
          record v { workspace = p.workspace; bound = update id (kept_bound detached s) v.bound },
        )

    abbrev pub service_new :
        SessionTurn B
        → String
        → Option FrontendSession × SessionDir B
        → Serving B
        → SessionDir B × Serving B
    service_new t id (none, d) v = (d, v)
    service_new t id (some s, d) v = service_bound t id s d v

    -- The body of tick's loop.
    abbrev pub service_at :
        SessionTurn B
        → String
        → SessionDir B
        → Option FrontendSession
        → Serving B
        → SessionDir B × Serving B
    service_at t id d (some s) v = service_bound t id s d v
    service_at t id d none v = service_new t id (try_bind k t.read_attach t.write_attach bind d) v

    unfoldable pub service_sessions :
        (String → SessionTurn B) → List (String × SessionDir B) → Serving B → Serving B
    service_sessions at [] v = record v { sessions = [] }
    service_sessions at ((id, d) ∷ ds) v =
        let (d', v') = service_at (at id) id d (v.bound id) v in
        and_dir id d' (service_sessions at ds v')

    -- tick, with the effects that the assembly gave it, on what of the program they change.
    unfoldable pub tick :
        {X : Type 0}
        → Bool
        → (String → SessionTurn B)
        → (Serving B → X → Result (Unit {0}) × Serving B × X)
        → Serving B
        → X
        → Result (Unit {0}) × Serving B × X
    tick list at effects v x =
        if list then (fail io_failure, v, x) else effects (service_sessions at v.sessions v) x

    -- What is left of Run behind a tick.
    abbrev pub unless_failed :
        {X : Type 0}
        → Result (Unit {0}) × Serving B × X
        → (Serving B → X → Result (Unit {0}) × Serving B × X)
        → Result (Unit {0}) × Serving B × X
    unless_failed (err e, v, x) next = (err e, v, x)
    unless_failed (ok u, v, x) next = next v x

    -- The loop of Run, until its context is done behind the last round.
    unfoldable pub run_rounds :
        {X : Type 0}
        → (Serving B → X → Result (Unit {0}) × Serving B × X)
        → List (Round B)
        → Serving B
        → X
        → Result (Unit {0}) × Serving B × X
    run_rounds effects [] v x = (ok tt, v, x)
    run_rounds effects (r ∷ rs) v x =
        unless_failed (tick r.list r.at effects (record v { sessions = r.found v.sessions }) x)
          (run_rounds effects rs)

-- Run's advertisement.
unfoldable pub advertise :
    {B : Type 0} → Codec B → WriteIo B → HostMarker → Folder B → Result (Unit {0}) × Folder B
advertise k io marker d = elim (k.marker.encode marker) [
  | none ↦ (fail io_failure, d)
  | some b ↦ write_atomic io (json "host") b d
]
