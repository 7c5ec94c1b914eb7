-- ===== src/Engine/Lifecycle.antt =====
-- StartRun, StopRun and ReconcileStuckRuns of internal/core/task/engine.go are sequences of steps
-- of the engine: commits one at a time, and calls of the supervisor between them.
use harnessing.Prelude.{
  String, Option, List, [], ◌∷◌, ◌≡◌, refl, inl, inr, if◌then◌else◌, Bool-cases,
}
use harnessing.Domain.Errors.{GoError, Result, ok, err}
use harnessing.Domain.Records.{Receipt, ExecutionSpec, Run, Snapshot}
use harnessing.Api.{StartRunRequest, StopRunRequest}
use harnessing.Store.{Faults, load}
use harnessing.Engine.Scope.{CallerScope}
use harnessing.Engine.Commit.{Engine, start, stop, recover}
use harnessing.Engine.Messages.{host_scope}
use harnessing.Engine.Mutations
use harnessing.Engine.Runs.Start.{
  StartInput, check_start_run, finish_start, observe, dispatch, mark, intend, start_checked,
  start_run,
}
use harnessing.Engine.Runs.Stop.{
  StopInput, finish_stop, conclude, stop_intended, stop_checked, stop_run,
}
use harnessing.Engine.Runs.Reconcile.{
  ReconcileInput, is_stuck, is_unknown_outcome, dropped_receipt, reconcile_with,
  reconcile_stuck_run, go_on, reconcile_runs, reconcile_loaded, reconcile_stuck_runs,
}
use harnessing.Engine.Steps.{Steps, none_yet, and_then, committed, called, one}

pub join : {a b c : Engine} → Steps a b → Steps b c → Steps a c
join p (none_yet e) = rw e p
join p (and_then q s) = and_then (join p q) s

module _ (inp : StartInput) (req : StartRunRequest) (receipt : Receipt) where
  finish_start-Steps :
      (r : Result Receipt × Engine) → Steps r.1 (finish_start inp.started receipt r).1
  finish_start-Steps (err x, e) = none_yet refl
  finish_start-Steps (ok _, e) = none_yet refl

  observe-Steps : (id : Result String) (e : Engine) → Steps e (observe inp req receipt id e).1
  observe-Steps (err x) e = none_yet refl
  observe-Steps (ok id) e =
      join
        (one (
          committed inp.observation_io host_scope id _ _
            (Mutations.start_observation inp.observation req inp.started) refl))
        (finish_start-Steps _)

  dispatch-Steps :
      (spec : ExecutionSpec) (r : Result Receipt × Engine)
      → Steps r.1 (dispatch inp req receipt spec r).1
  dispatch-Steps spec (err x, e) = none_yet refl
  dispatch-Steps spec (ok _, e) =
      join (one (called (start req.run_id spec _) refl)) (observe-Steps inp.outcome_id _)

  mark-Steps : (id : Result String) (e : Engine) → Steps e (mark inp req receipt id e).1
  mark-Steps (err x) e = none_yet refl
  mark-Steps (ok id) e =
      join
        (one
          (committed inp.marker_io host_scope id _ _ (Mutations.start_marker inp.marker req) refl))
        (dispatch-Steps _ _)

intend-Steps :
    (inp : StartInput) (req : StartRunRequest) (r : Result Receipt × Engine)
    → Steps r.1 (intend inp req r).1
intend-Steps inp req (err x, e) = none_yet refl
intend-Steps inp req (ok receipt, e) = mark-Steps inp req _ inp.marker_id e

start_checked-Steps :
    (inp : StartInput) (caller : CallerScope) (req : StartRunRequest) (e : Engine)
    (check : Result (Unit {0}))
    → check_start_run e.has_supervisor caller req ≡ check
    → Steps e (start_checked inp caller req check e).1
start_checked-Steps inp caller req e (err x) c = none_yet refl
start_checked-Steps inp caller req e (ok tt) c =
    join
      (one (
        committed inp.intent_io caller req.request_id _ _
          (Mutations.start_intent inp.intent e.has_supervisor caller req c) refl))
      (intend-Steps inp req _)

-- StartRun is a sequence of steps of the engine, whatever fails on the way.
pub start_run-Steps :
    (inp : StartInput) (caller : CallerScope) (req : StartRunRequest) (e : Engine)
    → Steps e (start_run inp caller req e).1
unfolding start_run
start_run-Steps inp caller req e = start_checked-Steps inp caller req e _ refl

finish_stop-Steps :
    (stopped : Option GoError) (receipt : Receipt) (r : Result Receipt × Engine)
    → Steps r.1 (finish_stop stopped receipt r).1
finish_stop-Steps stopped receipt (err x, e) = none_yet refl
finish_stop-Steps stopped receipt (ok _, e) = none_yet refl

conclude-Steps :
    (inp : StopInput) (req : StopRunRequest) (receipt : Receipt) (id : Result String) (e : Engine)
    → Steps e (conclude inp req receipt id e).1
conclude-Steps inp req receipt (err x) e = none_yet refl
conclude-Steps inp req receipt (ok id) e =
    join
      (one (
        committed inp.outcome_io host_scope id _ _
          (Mutations.stop_outcome inp.outcome req inp.stopped) refl))
      (finish_stop-Steps inp.stopped receipt _)

stop_intended-Steps :
    (inp : StopInput) (req : StopRunRequest) (r : Result Receipt × Engine)
    → Steps r.1 (stop_intended inp req r).1
stop_intended-Steps inp req (err x, e) = none_yet refl
stop_intended-Steps inp req (ok receipt, e) =
    join (one (called (stop req.run_id) refl)) (conclude-Steps inp req _ inp.outcome_id _)

stop_checked-Steps :
    (inp : StopInput) (caller : CallerScope) (req : StopRunRequest) (e : Engine)
    (check : Result (Unit {0}))
    → Steps e (stop_checked inp caller req check e).1
stop_checked-Steps inp caller req e (err x) = none_yet refl
stop_checked-Steps inp caller req e (ok tt) =
    join
      (one (
        committed inp.intent_io caller req.request_id _ _
          (Mutations.stop_intent inp.intent caller req) refl))
      (stop_intended-Steps inp req _)

-- StopRun is a sequence of steps of the engine, whatever fails on the way.
pub stop_run-Steps :
    (inp : StopInput) (caller : CallerScope) (req : StopRunRequest) (e : Engine)
    → Steps e (stop_run inp caller req e).1
unfolding stop_run
stop_run-Steps inp caller req e = stop_checked-Steps inp caller req e _

dropped-Steps : (r : Result Receipt × Engine) → Steps r.1 (dropped_receipt r).1
dropped-Steps (err x, e) = none_yet refl
dropped-Steps (ok _, e) = none_yet refl

reconcile_with-Steps :
    (inp : ReconcileInput) (run_id : String) (id : Result String) (e : Engine)
    → Steps e (reconcile_with inp run_id id e).1
reconcile_with-Steps inp run_id (err x) e = none_yet refl
reconcile_with-Steps inp run_id (ok id) e =
    join
      (one (committed inp.io host_scope id _ _ (Mutations.reconciliation inp.ambient run_id) refl))
      (dropped-Steps _)

reconcile_stuck_run-Steps :
    (inp : ReconcileInput) (run_id : String) (e : Engine)
    → Steps e (reconcile_stuck_run inp run_id e).1
unfolding reconcile_stuck_run
reconcile_stuck_run-Steps inp run_id e = elim (Bool-cases (is_unknown_outcome inp.recovered)) [
  | inl c ↦
      simp c (
        join (one (called (recover run_id) refl))
          (reconcile_with-Steps inp run_id inp.outcome_id _))
  | inr c ↦ simp c (one (called (recover run_id) refl))
]

go_on-Steps :
    (r : Result (Unit {0}) × Engine) (rest : Engine → Result (Unit {0}) × Engine)
    → ((e : Engine) → Steps e (rest e).1)
    → Steps r.1 (go_on r rest).1
go_on-Steps (err x, e) rest h = none_yet refl
go_on-Steps (ok _, e) rest h = h e

reconcile_runs-Steps :
    (inp : String → ReconcileInput) (runs : List Run) (e : Engine)
    → Steps e (reconcile_runs inp runs e).1
unfolding reconcile_runs
reconcile_runs-Steps inp [] e = none_yet refl
reconcile_runs-Steps inp (run ∷ runs) e =
    let rest =
      go_on-Steps
        (if is_stuck run.state then reconcile_stuck_run (inp run.id) run.id e else (ok tt, e))
        (λ e'. reconcile_runs inp runs e') (reconcile_runs-Steps inp runs) in
    elim (Bool-cases (is_stuck run.state)) [
      | inl c ↦ join (rw c (reconcile_stuck_run-Steps (inp run.id) run.id e)) rest
      | inr c ↦ join (rw c (none_yet refl)) rest
    ]

reconcile_loaded-Steps :
    (inp : String → ReconcileInput) (snap : Result Snapshot) (e : Engine)
    → Steps e (reconcile_loaded inp snap e).1
reconcile_loaded-Steps inp (err x) e = none_yet refl
reconcile_loaded-Steps inp (ok snap) e = reconcile_runs-Steps inp snap.runs e

-- ReconcileStuckRuns is a sequence of steps of the engine, whatever fails on the way.
pub reconcile_stuck_runs-Steps :
    (f : Faults) (inp : String → ReconcileInput) (e : Engine)
    → Steps e (reconcile_stuck_runs f inp e).1
unfolding reconcile_stuck_runs
reconcile_stuck_runs-Steps f inp e = reconcile_loaded-Steps inp (load f e.workspace_id e.store) e
