-- ===== src/Engine/Reachable.antt =====
-- What holds in every state that the engine can reach.
use harnessing.Prelude.{String, List, ◌≡◌, refl, ◌⊎◌, inl, inr}
use harnessing.Domain.Errors.{Result, ok, err}
use harnessing.Domain.Records.{Snapshot, Event, Receipt}
use harnessing.Store.{Disk, FileStore, Files}
use harnessing.Store
use harnessing.Store.Effects.{Holds, commit-Holds, commit-Syncs, resolve_request-Syncs}
use harnessing.Engine.Scope.{CallerScope}
use harnessing.Engine.Commit.{Engine, Io, Mutation, commit, finish, with_floor, request_of}
use harnessing.Engine.Reads.{resolve_request, subscribe, subscribe_floored}
use harnessing.Engine.Consistency.{IsConsistent}
use harnessing.Engine.Invariants.{mutation-IsConsistent}
use harnessing.Engine.Steps.{
  Step, Steps, none_yet, and_then, committed, called, resolved, observed, listened, restarted,
  new_engine,
}

store-finish :
    (e : Engine) (r : Result (Receipt × List Event) × FileStore) → (finish e r).1.store ≡ r.1
store-finish e (err x, s) = refl
store-finish e (ok a, s) = refl

-- The store after a commit of the engine is that of the store's Commit.
pub store-commit :
    (io : Io) (caller : CallerScope) (request fingerprint : String) (m : Mutation) (e : Engine)
    → (commit io caller request fingerprint m e).1.store
      ≡ (Store.commit io.commit e.workspace_id (request_of caller request fingerprint m) e.store).1
unfolding commit
store-commit io caller request fingerprint m e =
    store-finish (with_floor io e)
      (Store.commit io.commit e.workspace_id (request_of caller request fingerprint m) e.store)

store-subscribe_floored :
    (cursor : String) (r : Result (Unit {0})) (e : Engine)
    → (subscribe_floored cursor r e).1.store ≡ e.store
store-subscribe_floored cursor (err x) e = refl
store-subscribe_floored cursor (ok tt) e = refl

pub store-subscribe :
    (f : Store.Faults) (cursor : String) (e : Engine) → (subscribe f cursor e).1.store ≡ e.store
unfolding subscribe
store-subscribe f cursor e = store-subscribe_floored cursor _ _

pub store-resolve_request :
    (f : Store.Faults) (caller request : String) (e : Engine)
    → (resolve_request f caller request e).1.store
      ≡ (Store.resolve_request f e.workspace_id caller request e.store).1
unfolding resolve_request
store-resolve_request f caller request e = refl

-- Both what a reader finds and what a power loss would leave.
abbrev OnDisk : (Snapshot → Type 0) → Files → Type 0
OnDisk P files = Holds P files.state_file × Holds P files.synced

synced_too :
    (P : Snapshot → Type 0) (before after : Files)
    → Holds P after.state_file
    → Holds P before.synced
    → (after.synced ≡ before.synced) ⊎ (after.synced ≡ after.state_file)
    → OnDisk P after
synced_too P before after h k (inl e) = (h, rw e k)
synced_too P before after h k (inr e) = (h, rw e h)

synced_either :
    (P : Snapshot → Type 0) (files : Files) {d : Disk}
    → OnDisk P files
    → (d ≡ files.synced) ⊎ (d ≡ files.state_file)
    → Holds P d
synced_either P files h (inl e) = rw e h.1
synced_either P files h (inr e) = rw e h.0

Step-OnDisk :
    {e e' : Engine}
    → Step e e'
    → OnDisk IsConsistent e.store.files
    → OnDisk IsConsistent e'.store.files
Step-OnDisk {e} (committed io caller request fingerprint m im p) h =
    let req = request_of caller request fingerprint m in
    rw (p, store-commit io caller request fingerprint m e)
      (synced_too IsConsistent e.store.files
        (Store.commit io.commit e.workspace_id req e.store).1.files
        (commit-Holds IsConsistent (record { unique = tt; each = tt }) (λ snap ws c rev k. k)
          io.commit e.workspace_id req e.store
          (λ snap mutated evs k q. mutation-IsConsistent m snap mutated evs im k q) h.0)
        h.1 (commit-Syncs io.commit e.workspace_id req e.store))
Step-OnDisk (called c p) h = rw p h
Step-OnDisk {e} (resolved f caller request p) h =
    let (kept, syncs) = resolve_request-Syncs f e.workspace_id e.store caller request in
    rw (p, store-resolve_request f caller request e, kept)
      (h.0, synced_either IsConsistent e.store.files h syncs)
Step-OnDisk {e} (observed f cursor p) h = rw (p, store-subscribe f cursor e) h
Step-OnDisk (listened subscribers p) h = rw p h
Step-OnDisk (restarted d t (inl q) p) h = rw (p, q) h
Step-OnDisk (restarted d t (inr q) p) h = rw (p, q) (h.1, h.1)

Steps-OnDisk :
    {e e' : Engine}
    → Steps e e'
    → OnDisk IsConsistent e.store.files
    → OnDisk IsConsistent e'.store.files
Steps-OnDisk (none_yet p) h = rw p h
Steps-OnDisk (and_then r s) h = Step-OnDisk s (Steps-OnDisk r h)

-- From a new workspace, after any steps of any commands, with any faults, restarts and power
-- losses, the tasks on disk are consistent, as a reader finds them and as a power loss would leave
-- them: no two have one identifier; each records its latest change at its own revision and
-- status; a Todo task has no current result, an AwaitingReview one has an undecided result of its
-- own, a Done one an accepted one, and a Doing or Blocked one none or a rejected one.
pub reachable-IsConsistent :
    (workspace : String) (e : Engine)
    → Steps (new_engine workspace) e
    → Holds IsConsistent e.store.files.state_file × Holds IsConsistent e.store.files.synced
reachable-IsConsistent workspace e r = Steps-OnDisk r (tt, tt)
