-- ===== src/Engine/Recovery.antt =====
-- What reconcileStuckRun of internal/core/task/engine.go has done where it returns no error.
use harnessing.Prelude.{
  String, Bool, false, Option, none, some, List, [], ◌∷◌, ◌≡◌, refl, arith, eq_iff, Option-cases,
  Bool-cases, inl, inr,
}
use harnessing.Domain.Errors.{Result, ok, err}
use harnessing.Domain.Records.{Run, Snapshot, Event, Receipt, run_recovery_required}
use harnessing.Table.{find_run, run_id, entry}
use harnessing.Table.Laws.{find-set, key-find}
use harnessing.Text.Fingerprint.{fingerprint, str}
use harnessing.Store.{Disk, Files, receipt_key, with_workspace}
use harnessing.Store
use harnessing.Store.Ledger.{lookup}
use harnessing.Store.PowerLoss.{receipts_of}
use harnessing.Store.Fresh.{Persisted, persisted, commit-Persisted}
use harnessing.Engine.Scope.{Ambient}
use harnessing.Engine.Commit.{Engine, recover, commit, request_of}
use harnessing.Engine.Messages.{host_scope}
use harnessing.Engine.Runs.Reconcile.{
  ReconcileInput, is_stuck, is_unknown_outcome, reconcile_mutation, dropped_receipt, reconcile_with,
  reconcile_stuck_run,
}
use harnessing.Engine.Reachable.{store-commit}
use harnessing.Engine.Outcome.{runs_of, commit-ok}

abbrev pub stuck_of : Option Run → Bool
stuck_of none = false
stuck_of (some run) = is_stuck run.state

-- The run is there, and Starting or Running.
abbrev pub is_stuck_on : String → Disk → Bool
is_stuck_on r d = stuck_of (entry run_id r (runs_of d))

reconcile_mutation-settles :
    (a : Ambient) (r : String) (snap snap' : Snapshot) (evs : List Event)
    → reconcile_mutation a r snap ≡ ok (snap', evs)
    → stuck_of (entry run_id r snap'.runs) ≡ false
unfolding reconcile_mutation
reconcile_mutation-settles a r snap snap' evs e = elim (Option-cases (find_run r snap.runs)) [
  | inl n ↦ ground arith
  | inr ((i, run), found) ↦ elim (Bool-cases (is_stuck run.state)) [
    | inr idle ↦ ground arith
    | inl busy ↦
        let run' : Run = record run { state = run_recovery_required } in
        ground (
          arith,
          find-set run_id r r snap.runs i run run' found (key-find run_id r snap.runs found),
          eq_iff r r,
        )
  ]
]

Persisted-settles :
    (a : Ambient) (r workspace id fingerprint : String) (before : Disk) (after : Files)
    → Persisted workspace
        (request_of host_scope id fingerprint (reconcile_mutation a r))
        before
        after
    → (is_stuck_on r after.state_file ≡ false) × (is_stuck_on r after.synced ≡ false)
Persisted-settles a r workspace id fingerprint before after
      (persisted b state mutated evs read m p q) =
    let done =
      reconcile_mutation-settles a r (with_workspace workspace state.snapshot) mutated evs m in
    (rw p done, rw q done)

pub dropped-ok :
    (r : Result Receipt × Engine)
    → (dropped_receipt r).0 ≡ ok tt
    → ((receipt : Receipt) × (r.0 ≡ ok receipt)) × ((dropped_receipt r).1.store ≡ r.1.store)
dropped-ok (err x, e) h = absurd (cc)
dropped-ok (ok receipt, e) h = ((receipt, refl), refl)

abbrev pub Settled : String → Engine → Type 0
Settled r e =
    (is_stuck_on r e.store.files.state_file ≡ false) × (is_stuck_on r e.store.files.synced ≡ false)

reconcile_with-Settled :
    (inp : ReconcileInput) (r : String) (id : Result String) (e : Engine)
    → ((i : String)
        → id ≡ ok i
        → lookup (receipt_key "" i) (receipts_of e.store.files.state_file) ≡ none)
    → (reconcile_with inp r id e).0 ≡ ok tt
    → Settled r (reconcile_with inp r id e).1
reconcile_with-Settled inp r (err x) e new h = absurd (cc)
reconcile_with-Settled inp r (ok i) e new h =
    let m = reconcile_mutation inp.ambient r in
    let fp = fingerprint (str "RunReconcile" ∷ str r ∷ []) in
    let ((receipt, done), kept) = dropped-ok (commit inp.io host_scope i fp m e) h in
    let (x, ok_x) = commit-ok inp.io host_scope i fp m e receipt done in
    rw (kept, store-commit inp.io host_scope i fp m e)
      (Persisted-settles inp.ambient r e.workspace_id i fp e.store.files.state_file
        (Store.commit inp.io.commit e.workspace_id (request_of host_scope i fp m) e.store).1.files
        (commit-Persisted inp.io.commit e.workspace_id (request_of host_scope i fp m) e.store
          (new i refl) x ok_x))

-- Where the reconciliation of a run returns no error, and the identifier that it drew for its
-- commit was not in the ledger, the run is neither Starting nor Running, as a reader finds it and
-- as a power loss would leave it.
pub reconcile_stuck_run-settles :
    (inp : ReconcileInput) (r : String) (e : Engine)
    → ((i : String)
        → inp.outcome_id ≡ ok i
        → lookup (receipt_key "" i) (receipts_of e.store.files.state_file) ≡ none)
    → (reconcile_stuck_run inp r e).0 ≡ ok tt
    → (is_stuck_on r (reconcile_stuck_run inp r e).1.store.files.state_file ≡ false)
      × (is_stuck_on r (reconcile_stuck_run inp r e).1.store.files.synced ≡ false)
unfolding reconcile_stuck_run
reconcile_stuck_run-settles inp r e new h = elim (Bool-cases (is_unknown_outcome inp.recovered)) [
  | inl c ↦ rw c (
      reconcile_with-Settled inp r inp.outcome_id (record e { calls = recover r ∷ e.calls }) new
        (rw c at h))
  | inr c ↦ absurd (ground arith)
]
