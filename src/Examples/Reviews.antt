-- ===== src/Examples/Reviews.antt =====
-- A task with a reported result that awaits its review.
use harnessing.Prelude.{some, [], ◌∷◌, ◌≡◌, ◌↔◌, refl, set}
use harnessing.Domain.Errors.{GoError, ok, err}
use harnessing.Domain.Records.{Event, Task, TaskResult, Snapshot, awaiting_review, done, undecided}
use harnessing.Store.{empty_snapshot}
use harnessing.Engine.Scope.{claimed_provenance, event}
use harnessing.Engine.Tasks.{moved, check_create_task, create_task_mutation, created}
use harnessing.Engine.Reviews.{
  load_pending_decision, accepted_by, accept_task_result_mutation, reject_task_result_mutation,
}
use harnessing.Engine.Decided.{accepting, rejecting, decided_once}
use harnessing.Api.{AcceptTaskResultRequest, RejectTaskResultRequest}
use harnessing.Engine.Consistency.Reviews.{IsPending, load_pending_decision-IsPending}
use harnessing.Table.{find}
use harnessing.Examples.Data.{at, alice, reviewer, first_task}

abbrev new_task : Task
new_task = created (at 1 "v1") alice first_task

abbrev waiting : Task
waiting = record new_task { status = awaiting_review; current_result_id = some "s1" }

abbrev report : TaskResult
report = record {
  result_id = "s1";
  task_id = "t1";
  provenance = claimed_provenance alice 2;
  summary = "Written";
  artifacts = [];
  decision = undecided;
  decision_reason = "";
  decision_provenance = claimed_provenance alice 2;
}

abbrev awaiting : Snapshot
awaiting = record empty_snapshot { tasks = waiting ∷ []; task_results = report ∷ [] }

loaded : load_pending_decision awaiting "t1" "s1" 1 ≡ ok (0, waiting, 0, report)
unfolding load_pending_decision find
loaded = refl

load_pending_decision-IsPending_example :
    (load_pending_decision awaiting "t1" "s1" 1 ≡ ok (0, waiting, 0, report))
    ↔ IsPending awaiting "t1" "s1" 1 0 waiting 0 report
load_pending_decision-IsPending_example =
    load_pending_decision-IsPending awaiting "t1" "s1" 1 0 waiting 0 report

abbrev acceptance : AcceptTaskResultRequest
acceptance = record {
  request_id = "q5";
  task_id = "t1";
  result_id = "s1";
  expected_task_revision = 1;
  review_note = "";
}

abbrev rejection : RejectTaskResultRequest
rejection = record {
  request_id = "q6";
  task_id = "t1";
  result_id = "s1";
  expected_task_revision = 2;
  reason = "Too short";
}

abbrev accepted : Snapshot
accepted = record awaiting {
  tasks = moved (at 3 "v3") reviewer waiting awaiting_review done (some "s1") ∷ [];
  task_results = accepted_by (at 3 "v3") reviewer report ∷ [];
}

abbrev acceptance_told : Event
acceptance_told = record {
  id = "v3";
  kind = "TaskResultAccepted";
  schema_version = 1;
  workspace_revision = 0;
  timestamp = 3;
  subject_ids = "t1" ∷ "s1" ∷ [];
}

accepting_it :
    accept_task_result_mutation (at 3 "v3") reviewer acceptance awaiting
    ≡ ok (accepted, acceptance_told ∷ [])
unfolding accept_task_result_mutation load_pending_decision find event set
accepting_it = refl

decided_once_example :
    (x : GoError) × (reject_task_result_mutation (at 4 "v4") reviewer rejection accepted ≡ err x)
decided_once_example =
    decided_once (accept_task_result_mutation (at 3 "v3") reviewer acceptance)
      (reject_task_result_mutation (at 4 "v4") reviewer rejection) awaiting accepted "t1" "s1"
      (acceptance_told ∷ []) (accepting (at 3 "v3") reviewer acceptance refl refl refl)
      (rejecting (at 4 "v4") reviewer rejection refl refl refl) accepting_it

abbrev opened : Snapshot
opened = record empty_snapshot { tasks = new_task ∷ [] }

abbrev told : Event
told = record {
  id = "v1";
  kind = "TaskCreated";
  schema_version = 1;
  workspace_revision = 0;
  timestamp = 1;
  subject_ids = "t1" ∷ [];
}

creating : create_task_mutation (at 1 "v1") alice first_task empty_snapshot ≡ ok (opened, told ∷ [])
unfolding create_task_mutation find event
creating = refl

first_task-is_checked : check_create_task first_task ≡ ok tt
unfolding check_create_task
first_task-is_checked = refl
