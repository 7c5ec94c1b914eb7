-- ===== src/Engine/Tasks.antt =====
-- The task commands of internal/core/task/engine.go: for each, the checks that come before the
-- commit, the Mutate function, and the whole handler.
use harnessing.Prelude.{
  ℕ, String, Bool, true, false, not, Option, none, some, List, [], ◌∷◌, ◌++◌, set, str_eq, ◌==◌,
  ◌&&◌, if◌then◌else◌,
}
use harnessing.Domain.Errors.{
  Result, ok, fail, ◌>>=◌, ◌>>◌, reject_if, invalid_argument, not_found, conflict, denied,
}
use harnessing.Domain.Records.{
  TaskStatus, todo, doing, blocked, awaiting_review, done, status_eq, Task, TaskResult, undecided,
  Snapshot, Event, Receipt,
}
use harnessing.Api.{CreateTaskRequest, TransitionTaskRequest, ReportTaskResultRequest}
use harnessing.Table.{find_task, find_agent, find_result, is_found}
use harnessing.Text.Fingerprint.{fingerprint, str, num, texts, status_text}
use harnessing.Engine.Scope.{
  CallerScope, Ambient, increment, claimed_provenance, status_change, event, is_empty,
  no_provenance,
}
use harnessing.Engine.Commit.{Engine, Io, Mutation, commit, checked}

unfoldable pub check_create_task : CreateTaskRequest → Result (Unit {0})
check_create_task req = do
  reject_if (is_empty req.title) invalid_argument
  reject_if (is_empty req.task_id) invalid_argument

abbrev pub created : Ambient → CallerScope → CreateTaskRequest → Task
created a caller req = record {
  id = req.task_id;
  title = req.title;
  assignee_id = req.assignee_id;
  status = todo;
  revision = 1;
  current_result_id = none;
  provenance = claimed_provenance caller a.now;
  last_status_change = some (status_change caller a.now 1 none todo);
}

unfoldable pub create_task_mutation : Ambient → CallerScope → CreateTaskRequest → Mutation
create_task_mutation a caller req snap = do
  reject_if (is_found (find_task req.task_id snap.tasks)) conflict
  reject_if
      (not (is_empty req.assignee_id) && not (is_found (find_agent req.assignee_id snap.agents)))
      not_found
  ev ← event a "TaskCreated" (req.task_id ∷ [])
  ok (record snap { tasks = snap.tasks ++ created a caller req ∷ [] }, ev ∷ [])

unfoldable pub create_task :
    Io → Ambient → CallerScope → CreateTaskRequest → Engine → Result Receipt × Engine
create_task io a caller req e = checked (check_create_task req) e (
    commit io caller req.request_id
      (fingerprint (str "CreateTask" ∷ str req.task_id ∷ str req.title ∷ str req.assignee_id ∷ []))
      (create_task_mutation a caller req) e)

-- genericTransitions
abbrev pub generic_transition : TaskStatus → TaskStatus → Bool
generic_transition todo doing = true
generic_transition doing blocked = true
generic_transition blocked doing = true
generic_transition done todo = true
generic_transition _ _ = false

abbrev pub reopening : TransitionTaskRequest → Bool
reopening req = status_eq req.from_status done && status_eq req.to_status todo

unfoldable pub check_transition_task : CallerScope → TransitionTaskRequest → Result (Unit {0})
check_transition_task caller req = do
  reject_if (not (generic_transition req.from_status req.to_status)) invalid_argument
  reject_if (status_eq req.to_status blocked && is_empty req.reason) invalid_argument
  reject_if (reopening req && is_empty req.reason) invalid_argument
  reject_if (reopening req && not caller.is_human_reviewer) denied

-- A write to the slot of `existing`, with the evidence of the change.
abbrev pub moved : Ambient → CallerScope → Task → TaskStatus → TaskStatus → Option String → Task
moved a caller existing from to current =
    let revision = increment existing.revision in
    record existing {
      status = to;
      revision = revision;
      current_result_id = current;
      last_status_change = some (status_change caller a.now revision (some from) to);
    }

abbrev pub transition_at :
    Ambient
    → CallerScope
    → TransitionTaskRequest
    → Snapshot
    → Option (ℕ × Task)
    → Result (Snapshot × List Event)
transition_at a caller req snap none = fail not_found
transition_at a caller req snap (some (i, existing)) = do
  reject_if (not (status_eq existing.status req.from_status)) conflict
  ev ← event a "TaskTransitioned" (req.task_id ∷ [])
  ok (
    record snap {
      tasks = set snap.tasks i (
          moved a caller existing req.from_status req.to_status
            (if reopening req then none else existing.current_result_id));
    },
    ev ∷ [],
  )

unfoldable pub transition_task_mutation : Ambient → CallerScope → TransitionTaskRequest → Mutation
transition_task_mutation a caller req snap =
    transition_at a caller req snap (find_task req.task_id snap.tasks)

unfoldable pub transition_task :
    Io → Ambient → CallerScope → TransitionTaskRequest → Engine → Result Receipt × Engine
transition_task io a caller req e = checked (check_transition_task caller req) e (
    commit io caller req.request_id
      (fingerprint (
        str "TransitionTask"
        ∷ str req.task_id
        ∷ str (status_text req.from_status)
        ∷ str (status_text req.to_status)
        ∷ str req.reason
        ∷ []))
      (transition_task_mutation a caller req) e)

abbrev pub no_artifacts : List String → Bool
no_artifacts [] = true
no_artifacts _ = false

unfoldable pub check_report_task_result : ReportTaskResultRequest → Result (Unit {0})
check_report_task_result req = do
  reject_if (is_empty req.result_id) invalid_argument
  reject_if (is_empty req.summary) invalid_argument
  reject_if (no_artifacts req.artifacts) invalid_argument

abbrev pub reported : Ambient → CallerScope → ReportTaskResultRequest → TaskResult
reported a caller req = record {
  result_id = req.result_id;
  task_id = req.task_id;
  summary = req.summary;
  artifacts = req.artifacts;
  provenance = claimed_provenance caller a.now;
  decision = undecided;
  decision_reason = "";
  decision_provenance = no_provenance;
}

abbrev pub report_at :
    Ambient
    → CallerScope
    → ReportTaskResultRequest
    → Snapshot
    → Option (ℕ × Task)
    → Result (Snapshot × List Event)
report_at a caller req snap none = fail not_found
report_at a caller req snap (some (i, existing)) = do
  reject_if (not (str_eq existing.assignee_id caller.agent_id)) denied
  reject_if (not (existing.revision == req.expected_task_revision)) conflict
  reject_if (not (status_eq existing.status doing)) invalid_argument
  reject_if (is_found (find_result req.result_id snap.task_results)) conflict
  ev ← event a "TaskResultReported" (req.task_id ∷ req.result_id ∷ [])
  ok (
    record snap {
      tasks =
          set snap.tasks i
            (moved a caller existing existing.status awaiting_review (some req.result_id));
      task_results = snap.task_results ++ reported a caller req ∷ [];
    },
    ev ∷ [],
  )

unfoldable pub report_task_result_mutation :
    Ambient → CallerScope → ReportTaskResultRequest → Mutation
report_task_result_mutation a caller req snap =
    report_at a caller req snap (find_task req.task_id snap.tasks)

unfoldable pub report_task_result :
    Io → Ambient → CallerScope → ReportTaskResultRequest → Engine → Result Receipt × Engine
report_task_result io a caller req e = checked (check_report_task_result req) e (
    commit io caller req.request_id
      (fingerprint (
        str "ReportTaskResult"
        ∷ str req.task_id
        ∷ str req.result_id
        ∷ num req.expected_task_revision
        ∷ str req.summary
        ∷ texts req.artifacts
        ∷ []))
      (report_task_result_mutation a caller req) e)
