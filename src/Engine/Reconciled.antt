-- ===== src/Engine/Reconciled.antt =====
-- What ReconcileStuckRuns of internal/core/task/engine.go has done where it returns no error.
use harnessing.Prelude.{
  String, Bool, true, false, none, List, [], ◌∷◌, ◌≡◌, refl, ◌⊎◌, arith, eq_iff, Option-cases,
  Bool-cases, inl, inr, All, sym, subst, if◌then◌else◌,
}
use harnessing.Domain.Errors.{Result, ok, err}
use harnessing.Domain.Records.{Run, Snapshot, Event, run_recovery_required}
use harnessing.Table.{find_run, run_id, entry}
use harnessing.Table.Laws.{find-set, key-find}
use harnessing.Text.Fingerprint.{fingerprint, str}
use harnessing.Store.{Disk, Faults, Files, receipt_key, with_workspace, load}
use harnessing.Store
use harnessing.Store.Ledger.{lookup}
use harnessing.Store.PowerLoss.{receipts_of}
use harnessing.Store.Fresh.{Persisted, persisted, commit-Persisted}
use harnessing.Engine.Scope.{Ambient}
use harnessing.Engine.Commit.{Engine, recover, commit, request_of}
use harnessing.Engine.Messages.{host_scope}
use harnessing.Engine.Runs.Reconcile.{
  ReconcileInput, is_stuck, is_unknown_outcome, reconcile_mutation, reconcile_with,
  reconcile_stuck_run, go_on, reconcile_runs, reconcile_stuck_runs,
}
use harnessing.Engine.Reachable.{store-commit}
use harnessing.Engine.Outcome.{runs_read, runs-with_workspace, commit-ok}
use harnessing.Engine.Recovery.{
  stuck_of, is_stuck_on, Settled, dropped-ok, reconcile_stuck_run-settles,
}

-- The identifier of a commit, if one is drawn, is not in the ledger.
abbrev pub IsUnused : Result String → Disk → Type 0
IsUnused (err x) d = Unit
IsUnused (ok i) d = lookup (receipt_key "" i) (receipts_of d) ≡ none

drawn :
    (o : Result String) (d : Disk)
    → IsUnused o d
    → (i : String) → o ≡ ok i
    → lookup (receipt_key "" i) (receipts_of d) ≡ none
drawn (err x) d h i k = absurd (cc)
drawn (ok j) d h i k = let same : i ≡ j = cc in rw same h

-- A reconciliation leaves no other run stuck.
reconcile_mutation-keeps :
    (a : Ambient) (r k : String) (snap snap' : Snapshot) (evs : List Event)
    → reconcile_mutation a r snap ≡ ok (snap', evs)
    → stuck_of (entry run_id k snap.runs) ≡ false
    → stuck_of (entry run_id k snap'.runs) ≡ false
unfolding reconcile_mutation
reconcile_mutation-keeps a r k snap snap' evs e h = elim (Option-cases (find_run r snap.runs)) [
  | inl n ↦ ground (arith, h)
  | inr ((i, run), found) ↦ elim (Bool-cases (is_stuck run.state)) [
    | inr idle ↦ ground (arith, h)
    | inl busy ↦
        let run' : Run = record run { state = run_recovery_required } in
        ground (
          arith,
          h,
          find-set run_id r k snap.runs i run run' found (key-find run_id r snap.runs found),
          eq_iff r k,
        )
  ]
]

Persisted-keeps :
    (a : Ambient) (r k workspace id fp : String) (before : Disk) (after : Files)
    → is_stuck_on k before ≡ false
    → Persisted workspace (request_of host_scope id fp (reconcile_mutation a r)) before after
    → (is_stuck_on k after.state_file ≡ false) × (is_stuck_on k after.synced ≡ false)
Persisted-keeps a r k workspace id fp before after h (persisted b state mutated evs read m p q) =
    let idle : stuck_of (entry run_id k (with_workspace workspace state.snapshot).runs) ≡ false =
      rw (runs-with_workspace workspace state.snapshot, ← runs_read b before state read) h in
    let done =
      reconcile_mutation-keeps a r k (with_workspace workspace state.snapshot) mutated evs m idle in
    (rw p done, rw q done)

reconcile_with-keeps :
    (inp : ReconcileInput) (r k : String) (id : Result String) (e : Engine)
    → IsUnused id e.store.files.state_file
    → (reconcile_with inp r id e).0 ≡ ok tt
    → Settled k e
    → Settled k (reconcile_with inp r id e).1
reconcile_with-keeps inp r k (err x) e new h idle = absurd (cc)
reconcile_with-keeps inp r k (ok i) e new h idle =
    let m = reconcile_mutation inp.ambient r in
    let fp = fingerprint (str "RunReconcile" ∷ str r ∷ []) in
    let ((receipt, done), kept) = dropped-ok (commit inp.io host_scope i fp m e) h in
    let (x, ok_x) = commit-ok inp.io host_scope i fp m e receipt done in
    rw (kept, store-commit inp.io host_scope i fp m e)
      (Persisted-keeps inp.ambient r k e.workspace_id i fp e.store.files.state_file
        (Store.commit inp.io.commit e.workspace_id (request_of host_scope i fp m) e.store).1.files
        idle.0
        (commit-Persisted inp.io.commit e.workspace_id (request_of host_scope i fp m) e.store new x
          ok_x))

reconcile_stuck_run-keeps :
    (inp : ReconcileInput) (r k : String) (e : Engine)
    → IsUnused inp.outcome_id e.store.files.state_file
    → (reconcile_stuck_run inp r e).0 ≡ ok tt
    → Settled k e
    → Settled k (reconcile_stuck_run inp r e).1
unfolding reconcile_stuck_run
reconcile_stuck_run-keeps inp r k e new h idle =
    elim (Bool-cases (is_unknown_outcome inp.recovered)) [
      | inl c ↦ rw c (
          reconcile_with-keeps inp r k inp.outcome_id (record e { calls = recover r ∷ e.calls }) new
            (rw c at h) idle)
      | inr c ↦ absurd (ground arith)
    ]

module _ (inp : String → ReconcileInput) where
  -- What the loop does for one run.
  abbrev pub turn : Run → Engine → Result (Unit {0}) × Engine
  turn run e = if is_stuck run.state then reconcile_stuck_run (inp run.id) run.id e else (ok tt, e)

  abbrev UnusedIf : Bool → Result String → Disk → Type 0
  UnusedIf true o d = IsUnused o d
  UnusedIf false o d = Unit

  -- No identifier that the loop draws is in the ledger by then.
  abbrev pub AllUnused : List Run → Engine → Type 0
  AllUnused [] e = Unit
  AllUnused (run ∷ runs) e =
      UnusedIf (is_stuck run.state) (inp run.id).outcome_id e.store.files.state_file
      × AllUnused runs (turn run e).1

  go_on-ok :
      (r : Result (Unit {0}) × Engine) (rest : Engine → Result (Unit {0}) × Engine)
      → (go_on r rest).0 ≡ ok tt
      → (r.0 ≡ ok tt) × (go_on r rest ≡ rest r.1)
  go_on-ok (err x, e) rest h = absurd (cc)
  go_on-ok (ok tt, e) rest h = (refl, refl)

  turn-keeps :
      (run : Run) (k : String) (e : Engine)
      → UnusedIf (is_stuck run.state) (inp run.id).outcome_id e.store.files.state_file
      → (turn run e).0 ≡ ok tt
      → Settled k e
      → Settled k (turn run e).1
  turn-keeps run k e new h idle = elim (Bool-cases (is_stuck run.state)) [
    | inl c ↦
        rw c (reconcile_stuck_run-keeps (inp run.id) run.id k e (rw c at new) (rw c at h) idle)
    | inr c ↦ rw c idle
  ]

  turn-settles :
      (run : Run) (e : Engine)
      → is_stuck run.state ≡ true
      → UnusedIf (is_stuck run.state) (inp run.id).outcome_id e.store.files.state_file
      → (turn run e).0 ≡ ok tt
      → Settled run.id (turn run e).1
  turn-settles run e c new h = rw c (
      reconcile_stuck_run-settles (inp run.id) run.id e
        (drawn (inp run.id).outcome_id e.store.files.state_file (rw c at new)) (rw c at h))

  reconcile_runs-keeps :
      (runs : List Run) (k : String) (e : Engine)
      → AllUnused runs e
      → (reconcile_runs inp runs e).0 ≡ ok tt
      → Settled k e
      → Settled k (reconcile_runs inp runs e).1
  unfolding reconcile_runs
  reconcile_runs-keeps [] k e new h idle = idle
  reconcile_runs-keeps (run ∷ runs) k e new h idle =
      let (first, on) = go_on-ok (turn run e) (λ e'. reconcile_runs inp runs e') h in
      rw on (
        reconcile_runs-keeps runs k (turn run e).1 new.1 (rw on at h)
          (turn-keeps run k e new.0 first idle))

  -- The run was neither Starting nor Running, or it is so no longer.
  abbrev pub IsDealtWith : Engine → Run → Type 0
  IsDealtWith e run = (is_stuck run.state ≡ false) ⊎ Settled run.id e

  reconcile_runs-deals :
      (runs : List Run) (e : Engine)
      → AllUnused runs e
      → (reconcile_runs inp runs e).0 ≡ ok tt
      → All (IsDealtWith (reconcile_runs inp runs e).1) runs
  unfolding reconcile_runs
  reconcile_runs-deals [] e new h = tt
  reconcile_runs-deals (run ∷ runs) e new h =
      let (first, on) = go_on-ok (turn run e) (λ e'. reconcile_runs inp runs e') h in
      let rest = rw on at h in
      let dealt : IsDealtWith (reconcile_runs inp runs (turn run e).1).1 run =
        elim (Bool-cases (is_stuck run.state)) [
          | inl c ↦ inr (
              reconcile_runs-keeps runs run.id (turn run e).1 new.1 rest
                (turn-settles run e c new.0 first))
          | inr c ↦ inl c
        ] in
      subst (λ r. All (IsDealtWith r.1) (run ∷ runs)) (sym on)
        (dealt, reconcile_runs-deals runs (turn run e).1 new.1 rest)

  -- Where ReconcileStuckRuns loads a snapshot and returns no error, and none of the identifiers
  -- that it drew was in the ledger when it drew it, each run of that snapshot was neither Starting
  -- nor Running, or is so no longer, as a reader finds it and as a power loss would leave it.
  pub reconcile_stuck_runs-settles :
      (f : Faults) (e : Engine) (snap : Snapshot)
      → load f e.workspace_id e.store ≡ ok snap
      → AllUnused snap.runs e
      → (reconcile_stuck_runs f inp e).0 ≡ ok tt
      → All (IsDealtWith (reconcile_stuck_runs f inp e).1) snap.runs
  unfolding reconcile_stuck_runs
  reconcile_stuck_runs-settles f e snap loaded new h =
      rw loaded (reconcile_runs-deals snap.runs e new (rw loaded at h))
