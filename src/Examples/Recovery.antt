-- ===== src/Examples/Recovery.antt =====
-- A run that a crash left Running is reconciled, or stopped.
use harnessing.Prelude.{String, false, none, some, [], ◌∷◌, ◌≡◌, refl, set, All}
use harnessing.Domain.Errors.{ok, coded, recovery_required}
use harnessing.Domain.Records.{Run, Snapshot, running}
use harnessing.Table.{find}
use harnessing.Store.{
  load, absent, file, empty_snapshot, receipt_key, read_locked, write_locked, persist,
}
use harnessing.Store
use harnessing.Store.Ledger.{lookup, put}
use harnessing.Store.PowerLoss.{receipts_of}
use harnessing.Engine.Scope.{claimed_provenance, event}
use harnessing.Engine.Commit.{Engine, commit, stop}
use harnessing.Engine.Runs.Reconcile.{
  ReconcileInput, reconcile_mutation, reconcile_stuck_run, reconcile_runs, reconcile_stuck_runs,
}
use harnessing.Engine.Steps.{new_engine}
use harnessing.Engine.Recovery.{is_stuck_on, reconcile_stuck_run-settles}
use harnessing.Engine.Runs.Stop.{
  check_stop_run, stop_intent_mutation, stop_outcome_mutation, stop_run,
}
use harnessing.Engine.Reconciled.{AllUnused, IsDealtWith, reconcile_stuck_runs-settles}
use harnessing.Engine.Stopped.{after_intent, Exited, stop_run-exits}
use harnessing.Examples.Data.{no_faults, io, at, alice, stopped, stopping_run}

abbrev left_running : Run
left_running = record {
  id = "r1";
  agent_id = "alice";
  profile_id = "shell";
  state = running;
  revision = 1;
  provenance = claimed_provenance alice 1;
  dispatch_attempted_at = some 1;
  started_at = some 2;
  exited_at = none;
  exit_reason = "";
}

abbrev found_running : Snapshot
found_running = record empty_snapshot { workspace_id = "w"; runs = left_running ∷ [] }

abbrev reopened : Engine
reopened = record (new_engine "w") {
  store = record {
    files = record {
      state_file = file (record { snapshot = found_running; receipts = [] });
      tmp_file = absent;
      synced = absent;
    };
    durable_revision = 0;
  };
}

abbrev recovering : ReconcileInput
recovering = record {
  recovered = some (coded recovery_required);
  outcome_id = ok "m4";
  io = io;
  ambient = at 8 "v8";
}

unused :
    (i : String)
    → recovering.outcome_id ≡ ok i
    → lookup (receipt_key "" i) (receipts_of reopened.store.files.state_file) ≡ none
unfolding lookup
unused i h = refl

reconciled : (reconcile_stuck_run recovering "r1" reopened).0 ≡ ok tt
unfolding reconcile_stuck_run commit Store.commit read_locked lookup reconcile_mutation find event
    persist write_locked
reconciled = refl

reconcile_stuck_run-settles_example :
    (is_stuck_on "r1" (reconcile_stuck_run recovering "r1" reopened).1.store.files.state_file
      ≡ false)
    × (is_stuck_on "r1" (reconcile_stuck_run recovering "r1" reopened).1.store.files.synced ≡ false)
reconcile_stuck_run-settles_example =
    reconcile_stuck_run-settles recovering "r1" reopened unused reconciled

loads_it : load no_faults "w" reopened.store ≡ ok (found_running)
unfolding load read_locked
loads_it = refl

none_drawn : AllUnused (λ id. recovering) found_running.runs reopened
unfolding lookup
none_drawn = (refl, tt)

reconciled_all : (reconcile_stuck_runs no_faults (λ id. recovering) reopened).0 ≡ ok tt
unfolding reconcile_stuck_runs reconcile_runs load reconcile_stuck_run commit Store.commit
    read_locked lookup reconcile_mutation find event persist write_locked
reconciled_all = refl

reconcile_stuck_runs-settles_example :
    All
      (IsDealtWith
        (λ id. recovering)
        (reconcile_stuck_runs no_faults (λ id. recovering) reopened).1)
      found_running.runs
reconcile_stuck_runs-settles_example =
    reconcile_stuck_runs-settles (λ id. recovering) no_faults reopened found_running loads_it
      none_drawn reconciled_all

-- The run is stopped instead.
not_drawn :
    lookup
      (receipt_key "" "m3")
      (receipts_of (after_intent stopped alice stopping_run reopened).store.files.state_file)
    ≡ none
unfolding commit Store.commit read_locked lookup stop_intent_mutation find event persist
    write_locked put set
not_drawn = refl

unused_by_stop :
    (i : String)
    → stopped.outcome_id ≡ ok i
    → lookup
        (receipt_key "" i)
        (receipts_of (after_intent stopped alice stopping_run reopened).store.files.state_file)
      ≡ none
unused_by_stop i h = let drawn : i ≡ "m3" = cc in rw drawn not_drawn

stops_it : (stop_run stopped alice stopping_run reopened).0.error ≡ none
unfolding stop_run check_stop_run commit Store.commit read_locked lookup stop_intent_mutation
    stop_outcome_mutation find event persist write_locked put set
stops_it = refl

stop_run-exits_example :
    Exited "r1" (stop_run stopped alice stopping_run reopened).1
    × ((stop_run stopped alice stopping_run reopened).1.calls ≡ stop "r1" ∷ reopened.calls)
stop_run-exits_example = stop_run-exits stopped alice stopping_run reopened unused_by_stop stops_it
