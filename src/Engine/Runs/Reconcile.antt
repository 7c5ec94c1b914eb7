-- ===== src/Engine/Runs/Reconcile.antt =====
-- ReconcileStuckRuns of internal/core/task/engine.go. The host configures a supervisor before the
-- one call of it.
use harnessing.Prelude.{
  ℕ, String, Bool, true, false, not, Option, none, some, List, [], ◌∷◌, set, if◌then◌else◌,
}
use harnessing.Domain.Errors.{
  ErrorCode, recovery_required, GoError, domain_error, Result, ok, err, fail, ◌>>=◌, unsupported,
}
use harnessing.Domain.Records.{
  Run, RunState, starting, running, run_recovery_required, Operation, OperationState, pending,
  op_running, op_recovery_required, Snapshot, Event, Receipt,
}
use harnessing.Table.{find_run, find_operation}
use harnessing.Store.{Faults, load}
use harnessing.Text.Fingerprint.{fingerprint, str}
use harnessing.Engine.Scope.{Ambient, event}
use harnessing.Engine.Commit.{Engine, Io, Mutation, recover, commit}
use harnessing.Engine.Messages.{host_scope}
use harnessing.Engine.Runs.{start_operation_id, code_text, settle}

-- The answers while one run is reconciled.
pub record ReconcileInput : Type 0 where
  pub recovered : Option GoError
  pub outcome_id : Result String
  pub io : Io
  pub ambient : Ambient

abbrev pub is_stuck : RunState → Bool
is_stuck starting = true
is_stuck running = true
is_stuck _ = false

abbrev pub is_open : OperationState → Bool
is_open pending = true
is_open op_running = true
is_open _ = false

abbrev pub unsettled : ℕ → List Operation → Option (ℕ × Operation) → List Operation
unsettled now ops none = ops
unsettled now ops (some (i, op)) =
    if is_open op.state
    then settle op_recovery_required (some now) (code_text recovery_required) ops (some (i, op))
    else ops

abbrev pub reconcile_at :
    Ambient → String → Snapshot → Option (ℕ × Run) → Result (Snapshot × List Event)
reconcile_at a run_id snap none = ok (snap, [])
reconcile_at a run_id snap (some (i, run)) = if not (is_stuck run.state) then ok (snap, []) else (do
  ev ← event a "RunRecoveryRequired" (run_id ∷ [])
  ok (
    record snap {
      runs = set snap.runs i (record run { state = run_recovery_required });
      operations =
          unsettled a.now snap.operations
            (find_operation (start_operation_id run_id) snap.operations);
    },
    ev ∷ [],
  ))

unfoldable pub reconcile_mutation : Ambient → String → Mutation
reconcile_mutation a run_id snap = reconcile_at a run_id snap (find_run run_id snap.runs)

abbrev pub is_recovery_required : ErrorCode → Bool
is_recovery_required recovery_required = true
is_recovery_required _ = false

-- Whether Recover answered with the one outcome that the engine knows.
abbrev pub is_unknown_outcome : Option GoError → Bool
is_unknown_outcome (some (domain_error e)) = is_recovery_required e.code
is_unknown_outcome _ = false

abbrev pub dropped_receipt : Result Receipt × Engine → Result (Unit {0}) × Engine
dropped_receipt (err x, e) = (err x, e)
dropped_receipt (ok r, e) = (ok tt, e)

abbrev pub reconcile_with :
    ReconcileInput → String → Result String → Engine → Result (Unit {0}) × Engine
reconcile_with inp run_id (err x) e = (err x, e)
reconcile_with inp run_id (ok outcome_id) e = dropped_receipt (
    commit inp.io host_scope outcome_id (fingerprint (str "RunReconcile" ∷ str run_id ∷ []))
      (reconcile_mutation inp.ambient run_id) e)

-- reconcileStuckRun
unfoldable pub reconcile_stuck_run : ReconcileInput → String → Engine → Result (Unit {0}) × Engine
reconcile_stuck_run inp run_id e =
    let asked = record e { calls = recover run_id ∷ e.calls } in
    if is_unknown_outcome inp.recovered
    then reconcile_with inp run_id inp.outcome_id asked
    else (fail unsupported, asked)

abbrev pub go_on :
    Result (Unit {0}) × Engine → (Engine → Result (Unit {0}) × Engine) → Result (Unit {0}) × Engine
go_on (err x, e) rest = (err x, e)
go_on (ok _, e) rest = rest e

-- The loop over the runs of the snapshot that was loaded.
unfoldable pub reconcile_runs :
    (String → ReconcileInput) → List Run → Engine → Result (Unit {0}) × Engine
reconcile_runs inp [] e = (ok tt, e)
reconcile_runs inp (run ∷ runs) e =
    go_on (if is_stuck run.state then reconcile_stuck_run (inp run.id) run.id e else (ok tt, e))
      (λ e'. reconcile_runs inp runs e')

abbrev pub reconcile_loaded :
    (String → ReconcileInput) → Result Snapshot → Engine → Result (Unit {0}) × Engine
reconcile_loaded inp (err x) e = (ok tt, e)
reconcile_loaded inp (ok snap) e = reconcile_runs inp snap.runs e

unfoldable pub reconcile_stuck_runs :
    Faults → (String → ReconcileInput) → Engine → Result (Unit {0}) × Engine
reconcile_stuck_runs f inp e = reconcile_loaded inp (load f e.workspace_id e.store) e
