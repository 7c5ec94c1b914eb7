-- ===== src/Engine/Commit.antt =====
-- The engine and its `commit` (internal/core/task/engine.go). `commitMu` is held from the store's
-- Commit through the publication, so that the whole is one step here.
use harnessing.Prelude.{ℕ, String, Bool, List, map}
use harnessing.Domain.Errors.{Result, ok, err}
use harnessing.Domain.Records.{Receipt, Event, Snapshot, RunParticipationContext, ExecutionSpec}
use harnessing.Store.{Faults, FileStore, load}
use harnessing.Store
use harnessing.Events.{EventBus, ensure_floor, publish}
use harnessing.Engine.Scope.{CallerScope}

-- A call of the process supervisor.
pub data SupervisorCall : Type 0 where
  start : String → ExecutionSpec → RunParticipationContext → SupervisorCall
  stop : String → SupervisorCall
  recover : String → SupervisorCall

-- `calls` lists what was asked of the supervisor, latest first.
pub record Engine : Type 0 where
  pub store : FileStore
  pub workspace_id : String
  pub events : EventBus
  pub has_supervisor : Bool
  pub calls : List SupervisorCall

-- What the system answers to the load for the floor, and to the commit.
pub record Io : Type 0 where
  pub floor : Faults
  pub commit : Faults

abbrev revision_of : Result Snapshot → Result ℕ
revision_of (err e) = err e
revision_of (ok snap) = ok snap.revision

unfoldable pub current_revision : Faults → Engine → Result ℕ
current_revision f e = revision_of (load f e.workspace_id e.store)

abbrev pub stamp : ℕ → Event → Event
stamp revision ev = record ev { workspace_revision = revision }

abbrev pub finish : Engine → Result (Receipt × List Event) × FileStore → Result Receipt × Engine
finish e (err x, store) = (err x, record e { store = store })
finish e (ok (receipt, evs), store) = (
  ok receipt,
  record e {
    store = store;
    events = publish (map (stamp receipt.committed_revision) evs) e.events;
  },
)

abbrev pub Mutation : Type 0
Mutation = Snapshot → Result (Snapshot × List Event)

abbrev pub request_of : CallerScope → String → String → Mutation → Store.CommitRequest
request_of caller request fingerprint mutate = record {
  caller_agent_id = caller.agent_id;
  request_id = request;
  payload_fingerprint = fingerprint;
  mutate = mutate;
}

abbrev pub with_floor : Io → Engine → Engine
with_floor io e = record e { events = (ensure_floor (current_revision io.floor e) e.events).1 }

unfoldable pub commit :
    Io → CallerScope → String → String → Mutation → Engine → Result Receipt × Engine
commit io caller request fingerprint mutate e =
    finish (with_floor io e)
      (Store.commit io.commit e.workspace_id (request_of caller request fingerprint mutate) e.store)

-- A command whose checks fail returns before any commit.
abbrev pub checked : Result (Unit {0}) → Engine → Result Receipt × Engine → Result Receipt × Engine
checked (err x) e committed = (err x, e)
checked (ok _) e committed = committed
