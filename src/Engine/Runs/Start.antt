-- ===== src/Engine/Runs/Start.antt =====
-- StartRun of internal/core/task/engine.go: the intent, the dispatch marker, one call of the
-- supervisor, and the observation, each commit by itself.
mod Commits
use harnessing.Prelude.{
  ℕ, String, Bool, true, false, not, Option, none, some, List, [], ◌∷◌, ◌++◌, set, str_eq, ◌&&◌,
  ◌||◌, if◌then◌else◌,
}
use harnessing.Domain.Errors.{
  GoError, Result, ok, err, fail, ◌>>=◌, ◌>>◌, reject_if, invalid_argument, not_found, conflict,
  denied, unsupported,
}
use harnessing.Domain.Records.{
  ExecutionSpec, Profile, Run, RunState, starting, running, exited, Operation, pending, op_running,
  succeeded, failed, RunParticipationContext, Snapshot, Event, Receipt,
}
use harnessing.Api.{StartRunRequest}
use harnessing.Table.{find_agent, find_profile, find_run, find_operation, is_found}
use harnessing.Store.{PersistedState, Faults, receipt_key, read_locked}
use harnessing.Store.Ledger.{ReceiptRecord, lookup}
use harnessing.Text.Fingerprint.{fingerprint, str, texts, flag}
use harnessing.Engine.Scope.{CallerScope, Ambient, claimed_provenance, event, is_empty}
use harnessing.Engine.Commit.{Engine, Io, Mutation, start, commit}
use harnessing.Engine.Messages.{host_scope, target_of}
use harnessing.Engine.Profiles.{no_args}
use harnessing.Engine.Runs.{
  start_operation_id, start_error_code, find_active_run_for_agent, Answer, failed_with, is_error,
  settle, set_operation_state,
}
unfoldable pub use Commits.{
  is_some, is_executable, intended, intent_at, start_intent_mutation, is_attempted, is_starting,
  marker_at, start_marker_mutation, after_start, start_settled, start_event, observation_at,
  start_observation_mutation,
}

-- What the clock, the identifiers, the disk and the supervisor answer along the way.
pub record StartInput : Type 0 where
  pub intent_io : Io
  pub intent : Ambient
  pub marker_id : Result String
  pub marker_io : Io
  pub marker : Ambient
  pub started : Option GoError
  pub outcome_id : Result String
  pub observation_io : Io
  pub observation : Ambient

unfoldable pub check_start_run : Bool → CallerScope → StartRunRequest → Result (Unit {0})
check_start_run has_supervisor caller req = do
  reject_if (is_empty req.run_id || is_empty req.agent_id || is_empty req.profile_id)
      invalid_argument
  reject_if (not has_supervisor) unsupported
  reject_if (not (str_eq caller.agent_id req.agent_id)) denied
  reject_if (not (is_empty req.tool_executable) && no_args req.tool_argv) invalid_argument

-- The variable `spec`, which the marker's Mutate assigns where it runs.
abbrev pub no_spec : ExecutionSpec
no_spec = record {
  profile_id = "";
  args = [];
  working_directory = "";
  environment_refs = [];
  context_transport = "";
}

abbrev pub invoked : StartRunRequest → ExecutionSpec → ExecutionSpec
invoked req spec =
    if is_empty req.tool_executable
    then spec
    else record spec { args = req.tool_executable ∷ req.tool_argv }

abbrev pub spec_of_profile : StartRunRequest → Option (ℕ × Profile) → ExecutionSpec
spec_of_profile req none = no_spec
spec_of_profile req (some (i, profile)) = invoked req profile.spec

abbrev pub spec_of_run : StartRunRequest → Snapshot → Option (ℕ × Run) → ExecutionSpec
spec_of_run req snap none = no_spec
spec_of_run req snap (some (i, run)) =
    spec_of_profile req (find_profile run.profile_id snap.profiles)

abbrev pub assigned : StartRunRequest → Snapshot → Option ReceiptRecord → ExecutionSpec
assigned req snap (some replayed) = no_spec
assigned req snap none = spec_of_run req snap (find_run req.run_id snap.runs)

abbrev pub spec_of_state : StartRunRequest → String → Result PersistedState → ExecutionSpec
spec_of_state req marker_id (err e) = no_spec
spec_of_state req marker_id (ok state) =
    assigned req state.snapshot (lookup (receipt_key "" marker_id) state.receipts)

unfoldable pub dispatched_spec : Faults → StartRunRequest → String → Engine → ExecutionSpec
dispatched_spec f req marker_id e =
    spec_of_state req marker_id (read_locked f.read e.store.files.state_file)

abbrev pub participation : Engine → StartRunRequest → RunParticipationContext
participation e req = record {
  workspace_id = e.workspace_id;
  run_id = req.run_id;
  agent_id = req.agent_id;
  task_id = target_of req.task_id;
  peer_agent_id = target_of req.peer_agent_id;
}

abbrev pub finish_start : Option GoError → Receipt → Result Receipt × Engine → Answer × Engine
finish_start started receipt (err x, e) = (record { receipt = receipt; error = some x }, e)
finish_start started receipt (ok _, e) = (record { receipt = receipt; error = started }, e)

-- Step 4, from the identifier of its commit.
abbrev pub observe :
    StartInput → StartRunRequest → Receipt → Result String → Engine → Answer × Engine
observe inp req receipt (err x) e = (record { receipt = receipt; error = some x }, e)
observe inp req receipt (ok outcome_id) e = finish_start inp.started receipt (
    commit inp.observation_io host_scope outcome_id
      (fingerprint (str "StartRunObservation" ∷ str req.run_id ∷ flag (is_error inp.started) ∷ []))
      (start_observation_mutation inp.observation req inp.started) e)

-- Step 3, behind a marker that is committed.
abbrev pub dispatch :
    StartInput
    → StartRunRequest
    → Receipt
    → ExecutionSpec
    → Result Receipt × Engine
    → Answer × Engine
dispatch inp req receipt spec (err x, e) = (record { receipt = receipt; error = some x }, e)
dispatch inp req receipt spec (ok _, e) =
    observe inp req receipt inp.outcome_id
      (record e { calls = start req.run_id spec (participation e req) ∷ e.calls })

-- Step 2, from the identifier of its commit.
abbrev pub mark : StartInput → StartRunRequest → Receipt → Result String → Engine → Answer × Engine
mark inp req receipt (err x) e = (record { receipt = receipt; error = some x }, e)
mark inp req receipt (ok marker_id) e =
    dispatch inp req receipt (dispatched_spec inp.marker_io.commit req marker_id e) (
      commit inp.marker_io host_scope marker_id
        (fingerprint (str "StartRunMarker" ∷ str req.run_id ∷ []))
        (start_marker_mutation inp.marker req) e)

abbrev pub intend : StartInput → StartRunRequest → Result Receipt × Engine → Answer × Engine
intend inp req (err x, e) = (failed_with x, e)
intend inp req (ok receipt, e) =
    mark inp req (record receipt { operation_id = some (start_operation_id req.run_id) })
      inp.marker_id e

-- Step 1.
abbrev pub commit_intent :
    StartInput → CallerScope → StartRunRequest → Engine → Result Receipt × Engine
commit_intent inp caller req e =
    commit inp.intent_io caller req.request_id
      (fingerprint (
        str "StartRun"
        ∷ str req.run_id
        ∷ str req.agent_id
        ∷ str req.profile_id
        ∷ str req.tool_executable
        ∷ texts req.tool_argv
        ∷ []))
      (start_intent_mutation inp.intent caller req) e

abbrev pub start_checked :
    StartInput → CallerScope → StartRunRequest → Result (Unit {0}) → Engine → Answer × Engine
start_checked inp caller req (err x) e = (failed_with x, e)
start_checked inp caller req (ok _) e = intend inp req (commit_intent inp caller req e)

unfoldable pub start_run : StartInput → CallerScope → StartRunRequest → Engine → Answer × Engine
start_run inp caller req e =
    start_checked inp caller req (check_start_run e.has_supervisor caller req) e
