-- ===== src/Engine/Reviews.antt =====
-- AcceptTaskResult and RejectTaskResult of internal/core/task/engine.go.
use harnessing.Prelude.{
  ℕ, String, Bool, true, false, not, Option, none, some, List, [], ◌∷◌, set, str_eq, ◌==◌,
}
use harnessing.Domain.Errors.{
  Result, ok, fail, ◌>>=◌, ◌>>◌, reject_if, invalid_argument, not_found, conflict, denied,
}
use harnessing.Domain.Records.{
  doing, awaiting_review, done, status_eq, Task, TaskResult, TaskResultDecision, undecided,
  accepted, rejected, Snapshot, Event, Receipt,
}
use harnessing.Api.{AcceptTaskResultRequest, RejectTaskResultRequest}
use harnessing.Table.{find_task, find_result}
use harnessing.Text.Fingerprint.{fingerprint, str, num}
use harnessing.Engine.Scope.{CallerScope, Ambient, claimed_provenance, event, is_empty}
use harnessing.Engine.Commit.{Engine, Io, Mutation, commit, checked}
use harnessing.Engine.Tasks.{moved}

abbrev pub is_undecided : TaskResultDecision → Bool
is_undecided undecided = true
is_undecided _ = false

abbrev pub refers_to : Option String → String → Bool
refers_to none id = false
refers_to (some current) id = str_eq current id

abbrev pub pending_result : ℕ → Task → Option (ℕ × TaskResult) → Result (ℕ × Task × ℕ × TaskResult)
pending_result i task none = fail not_found
pending_result i task (some (j, result)) = do
  reject_if (not (is_undecided result.decision)) conflict
  ok (i, task, j, result)

abbrev pub pending_task :
    Snapshot → String → ℕ → Option (ℕ × Task) → Result (ℕ × Task × ℕ × TaskResult)
pending_task snap result_id expected none = fail not_found
pending_task snap result_id expected (some (i, task)) = do
  reject_if (not (task.revision == expected)) conflict
  reject_if (not (refers_to task.current_result_id result_id)) conflict
  reject_if (not (status_eq task.status awaiting_review)) invalid_argument
  pending_result i task (find_result result_id snap.task_results)

-- loadPendingDecision
unfoldable pub load_pending_decision :
    Snapshot → String → String → ℕ → Result (ℕ × Task × ℕ × TaskResult)
load_pending_decision snap task_id result_id expected =
    pending_task snap result_id expected (find_task task_id snap.tasks)

unfoldable pub check_accept_task_result : CallerScope → Result (Unit {0})
check_accept_task_result caller = reject_if (not caller.is_human_reviewer) denied

abbrev pub accepted_by : Ambient → CallerScope → TaskResult → TaskResult
accepted_by a caller result = record result {
  decision = accepted;
  decision_provenance = claimed_provenance caller a.now;
}

abbrev pub accept_at :
    Ambient
    → CallerScope
    → AcceptTaskResultRequest
    → Snapshot
    → ℕ × Task × ℕ × TaskResult
    → Result (Snapshot × List Event)
accept_at a caller req snap (i, task, j, result) = do
  ev ← event a "TaskResultAccepted" (req.task_id ∷ req.result_id ∷ [])
  ok (
    record snap {
      tasks = set snap.tasks i (moved a caller task awaiting_review done task.current_result_id);
      task_results = set snap.task_results j (accepted_by a caller result);
    },
    ev ∷ [],
  )

unfoldable pub accept_task_result_mutation :
    Ambient → CallerScope → AcceptTaskResultRequest → Mutation
accept_task_result_mutation a caller req snap =
    load_pending_decision snap req.task_id req.result_id req.expected_task_revision
    >>= accept_at a caller req snap

unfoldable pub accept_task_result :
    Io → Ambient → CallerScope → AcceptTaskResultRequest → Engine → Result Receipt × Engine
accept_task_result io a caller req e = checked (check_accept_task_result caller) e (
    commit io caller req.request_id
      (fingerprint (
        str "AcceptTaskResult"
        ∷ str req.task_id
        ∷ str req.result_id
        ∷ num req.expected_task_revision
        ∷ str req.review_note
        ∷ []))
      (accept_task_result_mutation a caller req) e)

unfoldable pub check_reject_task_result : CallerScope → RejectTaskResultRequest → Result (Unit {0})
check_reject_task_result caller req = do
  reject_if (not caller.is_human_reviewer) denied
  reject_if (is_empty req.reason) invalid_argument

abbrev pub rejected_by : Ambient → CallerScope → RejectTaskResultRequest → TaskResult → TaskResult
rejected_by a caller req result = record result {
  decision = rejected;
  decision_reason = req.reason;
  decision_provenance = claimed_provenance caller a.now;
}

abbrev pub reject_at :
    Ambient
    → CallerScope
    → RejectTaskResultRequest
    → Snapshot
    → ℕ × Task × ℕ × TaskResult
    → Result (Snapshot × List Event)
reject_at a caller req snap (i, task, j, result) = do
  ev ← event a "TaskResultRejected" (req.task_id ∷ req.result_id ∷ [])
  ok (
    record snap {
      tasks = set snap.tasks i (moved a caller task awaiting_review doing task.current_result_id);
      task_results = set snap.task_results j (rejected_by a caller req result);
    },
    ev ∷ [],
  )

unfoldable pub reject_task_result_mutation :
    Ambient → CallerScope → RejectTaskResultRequest → Mutation
reject_task_result_mutation a caller req snap =
    load_pending_decision snap req.task_id req.result_id req.expected_task_revision
    >>= reject_at a caller req snap

unfoldable pub reject_task_result :
    Io → Ambient → CallerScope → RejectTaskResultRequest → Engine → Result Receipt × Engine
reject_task_result io a caller req e = checked (check_reject_task_result caller req) e (
    commit io caller req.request_id
      (fingerprint (
        str "RejectTaskResult"
        ∷ str req.task_id
        ∷ str req.result_id
        ∷ num req.expected_task_revision
        ∷ str req.reason
        ∷ []))
      (reject_task_result_mutation a caller req) e)
