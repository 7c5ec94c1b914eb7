-- ===== src/Engine/Outcome.antt =====
-- What the answer of a commit of internal/core/task/engine.go says of the store's Commit, and what it
-- leaves of the supervisor's log.
use harnessing.Prelude.{String, Bool, List, [], ◌≡◌, refl, arith}
use harnessing.Domain.Errors.{Result, ok, err}
use harnessing.Domain.Records.{Snapshot, Event, Receipt, Run}
use harnessing.Store.{
  Disk, file, PersistedState, Files, FileStore, CommitRequest, receipt_key, read_locked,
  with_workspace, advance,
}
use harnessing.Store
use harnessing.Engine.Scope.{CallerScope}
use harnessing.Engine.Commit.{Engine, Io, Mutation, commit, finish, with_floor, request_of}

abbrev pub runs_of : Disk → List Run
runs_of (file state) = state.snapshot.runs
runs_of _ = []

pub runs_read :
    (b : Bool) (d : Disk) (state : PersistedState)
    → read_locked b d ≡ ok state
    → runs_of d ≡ state.snapshot.runs
unfolding read_locked
runs_read b d state h = ground arith

pub runs-with_workspace :
    (ws : String) (snap : Snapshot) → (with_workspace ws snap).runs ≡ snap.runs
runs-with_workspace ws snap = ground arith

calls-finish :
    (e : Engine) (r : Result (Receipt × List Event) × FileStore) → (finish e r).1.calls ≡ e.calls
calls-finish e (err x, s) = refl
calls-finish e (ok a, s) = refl

pub calls-commit :
    (io : Io) (caller : CallerScope) (request fingerprint : String) (m : Mutation) (e : Engine)
    → (commit io caller request fingerprint m e).1.calls ≡ e.calls
unfolding commit
calls-commit io caller request fingerprint m e =
    calls-finish (with_floor io e)
      (Store.commit io.commit e.workspace_id (request_of caller request fingerprint m) e.store)

finish-ok :
    (e : Engine) (r : Result (Receipt × List Event) × FileStore) (receipt : Receipt)
    → (finish e r).0 ≡ ok receipt
    → (x : Receipt × List Event) × (r.0 ≡ ok x)
finish-ok e (err x, s) receipt h = absurd (cc)
finish-ok e (ok a, s) receipt h = (a, refl)

pub commit-ok :
    (io : Io) (caller : CallerScope) (request fingerprint : String) (m : Mutation) (e : Engine)
    (receipt : Receipt)
    → (commit io caller request fingerprint m e).0 ≡ ok receipt
    → (x : Receipt × List Event) × ((Store.commit io.commit e.workspace_id
          (request_of caller request fingerprint m)
          e.store).0
        ≡ ok x)
unfolding commit
commit-ok io caller request fingerprint m e receipt h =
    finish-ok (with_floor io e)
      (Store.commit io.commit e.workspace_id (request_of caller request fingerprint m) e.store)
      receipt h
