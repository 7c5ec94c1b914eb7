-- ===== src/Engine/Dispatch.antt =====
-- At most one dispatch of each run: the ordering that StartRun of internal/core/task/engine.go
-- keeps between its dispatch marker and its call of the supervisor, with any number of callers,
-- crashes and power losses.
mod Attempts
use harnessing.Prelude.{
  ℕ, suc, ◌+◌, ◌≤◌, String, Bool, true, false, Option, none, some, List, [], ◌∷◌, ◌++◌, ◌≡◌, refl,
  sym, ◌⊎◌, inl, inr, arith, str_eq, eq_iff, if◌then◌else◌, Bool-cases,
}
use native.Mathlib.Nat.{le_trans}
use harnessing.Domain.Errors.{Result, ok, err}
use harnessing.Domain.Records.{
  Snapshot, Event, Receipt, ExecutionSpec, RunParticipationContext, Run,
}
use harnessing.Api.{StartRunRequest}
use harnessing.Store.{
  Disk, file, PersistedState, Files, FileStore, CommitRequest, receipt_key, read_locked,
  with_workspace, advance,
}
use harnessing.Store
use harnessing.Store.Ledger.{lookup}
use harnessing.Store.Effects.{
  Wrote, nothing, mutation, commit-Wrote, commit-Syncs, resolve_request-Syncs,
}
use harnessing.Store.PowerLoss.{receipts_of}
use harnessing.Store.Fresh.{Persisted, persisted, commit-Persisted}
use harnessing.Engine.Scope.{Ambient, CallerScope}
use harnessing.Engine.Commit.{
  Engine, Io, Mutation, SupervisorCall, start, stop, recover, commit, finish, with_floor,
  request_of,
}
use harnessing.Engine.Messages.{host_scope}
use harnessing.Engine.Mutations.{IsMutation}
use harnessing.Engine.Reads.{resolve_request, subscribe}
use harnessing.Engine.Runs.Start.{start_marker_mutation}
use harnessing.Engine.Steps.{
  Step, committed, called, resolved, observed, listened, restarted, new_engine,
}
use harnessing.Engine.Reachable.{store-commit, store-subscribe, store-resolve_request}
use Attempts.{attempted, mutation-attempted, start_marker-attempted}
use harnessing.Engine.System.{
  is_start, starts, occurrences, System, SystemStep, SystemSteps, engine_step, other_call, crashed,
  marking, launching, at_start, next, new_system,
}
use harnessing.Engine.Outcome.{calls-commit, commit-ok, runs_of, runs_read, runs-with_workspace}

abbrev bit : Bool → ℕ
bit true = 1
bit false = 0

-- Whether the marker of the run is on disk.
abbrev is_marked : String → Disk → Bool
is_marked r d = attempted r (runs_of d)

abbrev spent : String → System → ℕ
spent r s = starts r s.engine.calls + occurrences r s.marked

-- What was started or is about to be has its marker on disk, and would have it after a power loss.
record IsSpent (r : String) (s : System) : Type 0 where
  found : spent r s ≤ bit (is_marked r s.engine.store.files.state_file)
  kept : spent r s ≤ bit (is_marked r s.engine.store.files.synced)

Wrote-is_marked :
    (r workspace : String) (req : CommitRequest) (before after : Disk)
    → IsMutation req.mutate
    → Wrote workspace req before after
    → is_marked r before ≡ true
    → is_marked r after ≡ true
Wrote-is_marked r workspace req before after im (nothing e) h = rw e h
Wrote-is_marked r workspace req before after im (mutation f state mutated evs read free m e) h =
    rw e (
      mutation-attempted (with_workspace workspace state.snapshot) mutated evs req.mutate r im m
        (rw (runs-with_workspace workspace state.snapshot, ← runs_read f before state read) h))

bit_mono : (a b : Bool) → (a ≡ true → b ≡ true) → bit a ≤ bit b
bit_mono true b h = ground (arith, h refl)
bit_mono false b h = omega arith

module _ (r : String) (s : System) (h : IsSpent r s) where
  -- A step that leaves the log of calls needs the bound for the files that it leaves.
  with_files :
      {e' : Engine} (files : Files)
      → e'.calls ≡ s.engine.calls
      → e'.store.files ≡ files
      → spent r s ≤ bit (is_marked r files.state_file)
      → spent r s ≤ bit (is_marked r files.synced)
      → IsSpent r (record { engine = e'; marked = s.marked })
  with_files files c e found kept = record { found = rw (c, e) found; kept = rw (c, e) kept }

  module _ (io : Io) (caller : CallerScope) (request fingerprint : String) (m : Mutation)
      (im : IsMutation m) where
    abbrev made : CommitRequest
    made = request_of caller request fingerprint m

    abbrev store' : FileStore
    store' = (Store.commit io.commit s.engine.workspace_id made s.engine.store).1

    commit-found : spent r s ≤ bit (is_marked r store'.files.state_file)
    commit-found = le_trans h.found (
        bit_mono (is_marked r s.engine.store.files.state_file) (is_marked r store'.files.state_file)
          (Wrote-is_marked r s.engine.workspace_id made s.engine.store.files.state_file
            store'.files.state_file im
            (commit-Wrote io.commit s.engine.workspace_id made s.engine.store)))

    commit-kept : spent r s ≤ bit (is_marked r store'.files.synced)
    commit-kept = elim (commit-Syncs io.commit s.engine.workspace_id made s.engine.store) [
      | inl e ↦ rw e h.kept
      | inr e ↦ rw e commit-found
    ]

  Step-IsSpent :
      {e' : Engine}
      → Step s.engine e'
      → e'.calls ≡ s.engine.calls
      → IsSpent r (record { engine = e'; marked = s.marked })
  Step-IsSpent (committed io caller request fingerprint m im p) c =
      with_files (store' io caller request fingerprint m im).files c
        (rw (p, store-commit io caller request fingerprint m s.engine))
        (commit-found io caller request fingerprint m im)
        (commit-kept io caller request fingerprint m im)
  Step-IsSpent (called call p) c = with_files s.engine.store.files c (rw p) h.found h.kept
  Step-IsSpent (resolved f caller request p) c =
      let (same, syncs) =
        resolve_request-Syncs f s.engine.workspace_id s.engine.store caller request in
      with_files
        (Store.resolve_request f s.engine.workspace_id caller request s.engine.store).1.files c
        (rw (p, store-resolve_request f caller request s.engine)) (rw same h.found)
        (elim syncs [ inl e ↦ rw e h.kept | inr e ↦ rw e h.found ])
  Step-IsSpent (observed f cursor p) c =
      with_files s.engine.store.files c (rw (p, store-subscribe f cursor s.engine)) h.found h.kept
  Step-IsSpent (listened subscribers p) c = with_files s.engine.store.files c (rw p) h.found h.kept
  Step-IsSpent (restarted d t (inl q) p) c =
      with_files (record { state_file = d; tmp_file = t; synced = s.engine.store.files.synced }) c
        (rw p) (rw q h.found) h.kept
  Step-IsSpent (restarted d t (inr q) p) c =
      with_files (record { state_file = d; tmp_file = t; synced = s.engine.store.files.synced }) c
        (rw p) (rw q h.kept) h.kept

occurrences-append :
    (r : String) (xs ys : List String)
    → occurrences r (xs ++ ys) ≡ occurrences r xs + occurrences r ys
occurrences-append r [] ys = omega arith
occurrences-append r (x ∷ xs) ys = ground (arith, occurrences-append r xs ys)

-- Calling Start moves one from the marked runs to the started ones.
launch-spent :
    (r run : String) (xs ys : List String) (cs : List SupervisorCall) (spec : ExecutionSpec)
    (context : RunParticipationContext)
    → starts r (start run spec context ∷ cs) + occurrences r (xs ++ ys)
      ≡ starts r cs + occurrences r (xs ++ run ∷ ys)
launch-spent r run xs ys cs spec context =
    ground (arith, occurrences-append r xs ys, occurrences-append r xs (run ∷ ys))

-- A marker goes from absent to present: it can be spent once.
marked_once :
    (a : Ambient) (req : StartRunRequest) (snap snap' : Snapshot) (evs : List Event) (r : String)
    (n : ℕ)
    → start_marker_mutation a req snap ≡ ok (snap', evs)
    → n ≤ bit (attempted r snap.runs)
    → n + bit (str_eq req.run_id r) ≤ bit (attempted r snap'.runs)
marked_once a req snap snap' evs r n m h =
    let keeps = le_trans h (
      bit_mono (attempted r snap.runs) (attempted r snap'.runs) (
        mutation-attempted snap snap' evs (start_marker_mutation a req) r
          (IsMutation.start_marker a req) m)) in
    let (absent, present) = start_marker-attempted snap snap' evs a req m in
    elim (Bool-cases (str_eq req.run_id r)) [
      | inl e ↦
          let same : req.run_id ≡ r = ground (arith, e, eq_iff req.run_id r) in
          let before : attempted r snap.runs ≡ false = rw (← same) absent in
          let after : attempted r snap'.runs ≡ true = rw (← same) present in
          rw (e, after) (omega (arith, rw before at h))
      | inr e ↦ rw e (omega (arith, keeps))
    ]

mark-spent :
    (r run : String) (cs : List SupervisorCall) (marked : List String)
    → starts r cs + occurrences r (run ∷ marked)
      ≡ (starts r cs + occurrences r marked) + bit (str_eq run r)
mark-spent r run cs marked = ground arith

Persisted-IsSpent :
    (a : Ambient) (req : StartRunRequest) (r workspace id fingerprint : String) (before : Disk)
    (after : Files) (n : ℕ)
    → Persisted workspace
        (request_of host_scope id fingerprint (start_marker_mutation a req))
        before
        after
    → n ≤ bit (is_marked r before)
    → (n + bit (str_eq req.run_id r) ≤ bit (is_marked r after.state_file))
      × (n + bit (str_eq req.run_id r) ≤ bit (is_marked r after.synced))
Persisted-IsSpent a req r workspace id fingerprint before after n
      (persisted b state mutated evs read m p q) h =
    let once =
      marked_once a req (with_workspace workspace state.snapshot) mutated evs r n m
        (rw (runs-with_workspace workspace state.snapshot, ← runs_read b before state read) h) in
    (rw p once, rw q once)

SystemStep-IsSpent : (r : String) {s t : System} → SystemStep s t → IsSpent r s → IsSpent r t
SystemStep-IsSpent r {s} (engine_step st c) h = Step-IsSpent r s h st c
SystemStep-IsSpent r {s} (other_call c ne) h = record {
  found = rw (ne r) h.found;
  kept = rw (ne r) h.kept;
}
SystemStep-IsSpent r {s} crashed h = record {
  found = omega (arith, h.found);
  kept = omega (arith, h.kept);
}
SystemStep-IsSpent r {s} (marking io a req id fingerprint receipt new done) h =
    let m = start_marker_mutation a req in
    let (x, ok_x) = commit-ok io host_scope id fingerprint m s.engine receipt done in
    let (found, kept) =
      Persisted-IsSpent a req r s.engine.workspace_id id fingerprint s.engine.store.files.state_file
        (Store.commit io.commit s.engine.workspace_id (request_of host_scope id fingerprint m)
          s.engine.store).1.files
        (spent r s)
        (commit-Persisted io.commit s.engine.workspace_id (request_of host_scope id fingerprint m)
          s.engine.store new x ok_x)
        h.found in
    record {
      found =
          rw
            (
              calls-commit io host_scope id fingerprint m s.engine,
              mark-spent r req.run_id s.engine.calls s.marked,
              store-commit io host_scope id fingerprint m s.engine,
            )
            found;
      kept =
          rw
            (
              calls-commit io host_scope id fingerprint m s.engine,
              mark-spent r req.run_id s.engine.calls s.marked,
              store-commit io host_scope id fingerprint m s.engine,
            )
            kept;
    }
SystemStep-IsSpent r {s} (launching xs ys run spec context e) h = record {
  found = rw (launch-spent r run xs ys s.engine.calls spec context, ← e) h.found;
  kept = rw (launch-spent r run xs ys s.engine.calls spec context, ← e) h.kept;
}

SystemSteps-IsSpent : (r : String) {s t : System} → SystemSteps s t → IsSpent r s → IsSpent r t
SystemSteps-IsSpent r at_start h = h
SystemSteps-IsSpent r (next ss st) h = SystemStep-IsSpent r st (SystemSteps-IsSpent r ss h)

-- From a new workspace, after any steps of any commands, with any faults, process ends, restarts
-- and power losses, and with the supervisor's Start called only by a StartRun that has committed
-- its dispatch marker under an identifier that the ledger did not have and has not called Start
-- since, the supervisor has been asked at most once to start each run.
pub start_at_most_once :
    (workspace : String) (s : System)
    → SystemSteps (new_system workspace) s
    → (r : String) → starts r s.engine.calls ≤ 1
start_at_most_once workspace s steps r =
    let h : IsSpent r s =
      SystemSteps-IsSpent r steps (record { found = omega arith; kept = omega arith }) in
    ground (arith, h.found)
