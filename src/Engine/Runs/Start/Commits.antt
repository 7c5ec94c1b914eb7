-- ===== src/Engine/Runs/Start/Commits.antt =====
-- The three Mutate functions of StartRun of internal/core/task/engine.go: the intent, the dispatch
-- marker and the observation.
use harnessing.Prelude.{
  ℕ, String, Bool, true, false, not, Option, none, some, List, [], ◌∷◌, ◌++◌, set, str_eq, ◌&&◌,
}
use harnessing.Domain.Errors.{
  GoError, Result, ok, fail, ◌>>=◌, ◌>>◌, reject_if, not_found, conflict, denied,
}
use harnessing.Domain.Records.{
  Profile, Run, RunState, starting, running, exited, Operation, pending, op_running, succeeded,
  failed, Snapshot, Event,
}
use harnessing.Api.{StartRunRequest}
use harnessing.Table.{find_agent, find_profile, find_run, find_operation, is_found}
use harnessing.Engine.Scope.{CallerScope, Ambient, claimed_provenance, event, is_empty}
use harnessing.Engine.Commit.{Mutation}
use harnessing.Engine.Runs.{
  start_operation_id, start_error_code, find_active_run_for_agent, settle, set_operation_state,
}

abbrev pub is_some : Option String → Bool
is_some none = false
is_some (some s) = true

-- The executable that a profile approves is the first argument.
abbrev pub is_executable : String → List String → Bool
is_executable tool [] = false
is_executable tool (exe ∷ rest) = str_eq tool exe

abbrev pub intended : Ambient → CallerScope → StartRunRequest → Run
intended a caller req = record {
  id = req.run_id;
  agent_id = req.agent_id;
  profile_id = req.profile_id;
  state = starting;
  revision = 1;
  provenance = claimed_provenance caller a.now;
  dispatch_attempted_at = none;
  started_at = none;
  exited_at = none;
  exit_reason = "";
}

abbrev pub intent_at :
    Ambient
    → CallerScope
    → StartRunRequest
    → Snapshot
    → Option (ℕ × Profile)
    → Result (Snapshot × List Event)
intent_at a caller req snap none = fail denied
intent_at a caller req snap (some (i, profile)) = do
  reject_if
      (not (is_empty req.tool_executable)
        && not (is_executable req.tool_executable profile.spec.args))
      denied
  reject_if (not (is_found (find_agent req.agent_id snap.agents))) not_found
  ev ← event a "RunStarting" (req.run_id ∷ [])
  ok (
    record snap {
      runs = snap.runs ++ intended a caller req ∷ [];
      operations =
          snap.operations
          ++ record {
            id = start_operation_id req.run_id;
            run_id = req.run_id;
            kind = "StartRun";
            state = pending;
            created_at = a.now;
            completed_at = none;
            outcome = "";
          }
            ∷ [];
    },
    ev ∷ [],
  )

unfoldable pub start_intent_mutation : Ambient → CallerScope → StartRunRequest → Mutation
start_intent_mutation a caller req snap = do
  reject_if (is_found (find_run req.run_id snap.runs)) conflict
  reject_if (is_some (find_active_run_for_agent req.agent_id snap.runs)) conflict
  intent_at a caller req snap (find_profile req.profile_id snap.profiles)

abbrev pub is_attempted : Option ℕ → Bool
is_attempted none = false
is_attempted (some at) = true

abbrev pub is_starting : RunState → Bool
is_starting starting = true
is_starting _ = false

abbrev pub marker_at :
    Ambient → StartRunRequest → Snapshot → Option (ℕ × Run) → Result (Snapshot × List Event)
marker_at a req snap none = fail conflict
marker_at a req snap (some (i, run)) = do
  reject_if (is_attempted run.dispatch_attempted_at) conflict
  reject_if (not (is_starting run.state)) conflict
  reject_if (not (is_found (find_profile run.profile_id snap.profiles))) denied
  ev ← event a "RunDispatchAttempted" (req.run_id ∷ [])
  ok (
    record snap {
      runs = set snap.runs i (record run { dispatch_attempted_at = some a.now });
      operations =
          set_operation_state op_running snap.operations
            (find_operation (start_operation_id req.run_id) snap.operations);
    },
    ev ∷ [],
  )

unfoldable pub start_marker_mutation : Ambient → StartRunRequest → Mutation
start_marker_mutation a req snap = marker_at a req snap (find_run req.run_id snap.runs)

abbrev pub after_start : Option GoError → ℕ → Run → Run
after_start none now run = record run { state = running; started_at = some now }
after_start (some e) now run = record run {
  state = exited;
  exited_at = some now;
  exit_reason = start_error_code e;
}

abbrev pub start_settled :
    Option GoError → ℕ → List Operation → Option (ℕ × Operation) → List Operation
start_settled none now ops found = settle succeeded (some now) "Started" ops found
start_settled (some e) now ops found = settle failed (some now) (start_error_code e) ops found

abbrev pub start_event : Option GoError → String
start_event none = "RunStarted"
start_event (some e) = "RunExited"

abbrev pub observation_at :
    Ambient
    → StartRunRequest
    → Option GoError
    → Snapshot
    → Option (ℕ × Run)
    → Result (Snapshot × List Event)
observation_at a req started snap none = fail conflict
observation_at a req started snap (some (i, run)) = do
  ev ← event a (start_event started) (req.run_id ∷ [])
  ok (
    record snap {
      runs = set snap.runs i (after_start started a.now run);
      operations =
          start_settled started a.now snap.operations
            (find_operation (start_operation_id req.run_id) snap.operations);
    },
    ev ∷ [],
  )

unfoldable pub start_observation_mutation : Ambient → StartRunRequest → Option GoError → Mutation
start_observation_mutation a req started snap =
    observation_at a req started snap (find_run req.run_id snap.runs)
