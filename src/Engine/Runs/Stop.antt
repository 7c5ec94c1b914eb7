-- ===== src/Engine/Runs/Stop.antt =====
-- StopRun of internal/core/task/engine.go.
use harnessing.Prelude.{
  ℕ, String, Bool, true, false, not, Option, none, some, List, [], ◌∷◌, ◌++◌, set, str_eq,
}
use harnessing.Domain.Errors.{
  GoError, Result, ok, err, fail, ◌>>=◌, ◌>>◌, reject_if, invalid_argument, not_found, conflict,
  denied, unsupported, recovery_required,
}
use harnessing.Domain.Records.{
  Run, RunState, stopping, exited, run_recovery_required, Operation, op_running, succeeded,
  op_recovery_required, Snapshot, Event, Receipt,
}
use harnessing.Api.{StopRunRequest}
use harnessing.Table.{find_run, find_operation}
use harnessing.Text.Fingerprint.{fingerprint, str, flag}
use harnessing.Engine.Scope.{CallerScope, Ambient, event, is_empty}
use harnessing.Engine.Commit.{Engine, Io, Mutation, stop, commit}
use harnessing.Engine.Messages.{host_scope}
use harnessing.Engine.Runs.{stop_operation_id, code_text, Answer, failed_with, is_error, settle}

pub record StopInput : Type 0 where
  pub intent_io : Io
  pub intent : Ambient
  pub stopped : Option GoError
  pub outcome_id : Result String
  pub outcome_io : Io
  pub outcome : Ambient

unfoldable pub check_stop_run : Bool → StopRunRequest → Result (Unit {0})
check_stop_run has_supervisor req = do
  reject_if (is_empty req.run_id) invalid_argument
  reject_if (not has_supervisor) unsupported

abbrev pub is_exited : RunState → Bool
is_exited exited = true
is_exited _ = false

abbrev pub is_unresolved : RunState → Bool
is_unresolved run_recovery_required = true
is_unresolved _ = false

abbrev pub stop_at :
    Ambient
    → CallerScope
    → StopRunRequest
    → Snapshot
    → Option (ℕ × Run)
    → Result (Snapshot × List Event)
stop_at a caller req snap none = fail not_found
stop_at a caller req snap (some (i, run)) = do
  reject_if (is_exited run.state) conflict
  reject_if (is_unresolved run.state) recovery_required
  reject_if (not (str_eq run.agent_id caller.agent_id)) denied
  ev ← event a "RunStopping" (req.run_id ∷ [])
  ok (
    record snap {
      runs = set snap.runs i (record run { state = stopping });
      operations =
          snap.operations
          ++ record {
            id = stop_operation_id req.run_id;
            run_id = run.id;
            kind = "StopRun";
            state = op_running;
            created_at = a.now;
            completed_at = none;
            outcome = "";
          }
            ∷ [];
    },
    ev ∷ [],
  )

unfoldable pub stop_intent_mutation : Ambient → CallerScope → StopRunRequest → Mutation
stop_intent_mutation a caller req snap = stop_at a caller req snap (find_run req.run_id snap.runs)

abbrev pub after_stop : Option GoError → ℕ → Run → Run
after_stop none now run = record run {
  state = exited;
  exited_at = some now;
  exit_reason = "stopped";
}
after_stop (some e) now run = record run { state = run_recovery_required }

abbrev pub stop_settled :
    Option GoError → ℕ → List Operation → Option (ℕ × Operation) → List Operation
stop_settled none now ops found = settle succeeded (some now) "Stopped" ops found
stop_settled (some e) now ops found =
    settle op_recovery_required (some now) (code_text recovery_required) ops found

abbrev pub stop_event : Option GoError → String
stop_event none = "RunExited"
stop_event (some e) = "RunRecoveryRequired"

abbrev pub stop_outcome_at :
    Ambient
    → StopRunRequest
    → Option GoError
    → Snapshot
    → Option (ℕ × Run)
    → Result (Snapshot × List Event)
stop_outcome_at a req stopped snap none = fail conflict
stop_outcome_at a req stopped snap (some (i, run)) = do
  ev ← event a (stop_event stopped) (req.run_id ∷ [])
  ok (
    record snap {
      runs = set snap.runs i (after_stop stopped a.now run);
      operations =
          stop_settled stopped a.now snap.operations
            (find_operation (stop_operation_id req.run_id) snap.operations);
    },
    ev ∷ [],
  )

unfoldable pub stop_outcome_mutation : Ambient → StopRunRequest → Option GoError → Mutation
stop_outcome_mutation a req stopped snap =
    stop_outcome_at a req stopped snap (find_run req.run_id snap.runs)

abbrev pub finish_stop : Option GoError → Receipt → Result Receipt × Engine → Answer × Engine
finish_stop stopped receipt (err x, e) = (record { receipt = receipt; error = some x }, e)
finish_stop stopped receipt (ok _, e) = (record { receipt = receipt; error = stopped }, e)

abbrev pub conclude :
    StopInput → StopRunRequest → Receipt → Result String → Engine → Answer × Engine
conclude inp req receipt (err x) e = (record { receipt = receipt; error = some x }, e)
conclude inp req receipt (ok outcome_id) e = finish_stop inp.stopped receipt (
    commit inp.outcome_io host_scope outcome_id
      (fingerprint (str "StopRunOutcome" ∷ str req.run_id ∷ flag (is_error inp.stopped) ∷ []))
      (stop_outcome_mutation inp.outcome req inp.stopped) e)

abbrev pub stop_intended : StopInput → StopRunRequest → Result Receipt × Engine → Answer × Engine
stop_intended inp req (err x, e) = (failed_with x, e)
stop_intended inp req (ok receipt, e) =
    conclude inp req (record receipt { operation_id = some (stop_operation_id req.run_id) })
      inp.outcome_id (record e { calls = stop req.run_id ∷ e.calls })

abbrev pub stop_checked :
    StopInput → CallerScope → StopRunRequest → Result (Unit {0}) → Engine → Answer × Engine
stop_checked inp caller req (err x) e = (failed_with x, e)
stop_checked inp caller req (ok _) e = stop_intended inp req (
    commit inp.intent_io caller req.request_id
      (fingerprint (str "StopRun" ∷ str req.run_id ∷ str req.reason ∷ []))
      (stop_intent_mutation inp.intent caller req) e)

unfoldable pub stop_run : StopInput → CallerScope → StopRunRequest → Engine → Answer × Engine
stop_run inp caller req e = stop_checked inp caller req (check_stop_run e.has_supervisor req) e
