-- ===== src/Engine/Consistency/Moves.antt =====
-- CreateTask, TransitionTask and ReportTaskResult keep the tasks consistent.
use harnessing.Prelude.{
  ℕ, String, true, false, Option, none, some, List, [], ◌∷◌, ◌++◌, set, ◌≡◌, ◌≢◌, refl, eq_iff,
  All-append, arith, if◌then◌else◌, ◌&&◌, Option-cases, Bool-cases, inl, inr,
}
use harnessing.Domain.Errors.{ok}
use harnessing.Domain.Records.{
  TaskStatus, todo, done, awaiting_review, status_eq, Task, TaskResult, Snapshot, Event,
}
use harnessing.Api.{CreateTaskRequest, TransitionTaskRequest, ReportTaskResultRequest}
use harnessing.Table.{find_task, find_result, task_id, result_id, entry}
use harnessing.Table.Laws.{Unique-append, Unique-set, All-update, All-find, key-find, find-append}
use harnessing.Engine.Scope.{CallerScope, Ambient, status_change}
use harnessing.Engine.Tasks.{
  create_task_mutation, check_transition_task, transition_task_mutation,
  report_task_result_mutation, generic_transition, reopening, created, moved, reported,
}
use harnessing.Engine.Consistency.{
  standing, standing_at, dangling, fits, TaskOk, TasksOk, IsConsistent, status_eq→eq,
}

-- An appended task with a new identifier.
append_ok :
    (tasks : List Task) (results : List TaskResult) (t : Task)
    → TasksOk tasks results
    → find_task t.id tasks ≡ none
    → TaskOk results t
    → TasksOk (tasks ++ t ∷ []) results
append_ok tasks results t h fresh new = record {
  unique = Unique-append task_id tasks t h.unique fresh;
  each = All-append (TaskOk results) tasks (t ∷ []) h.each (new, tt);
}

-- A write to the slot of a task; the others may see other results.
pub write_ok :
    (tasks : List Task) (before after : List TaskResult) (i : ℕ) (t t' : Task) (id : String)
    → TasksOk tasks before
    → find_task id tasks ≡ some (i, t)
    → t'.id ≡ t.id
    → ((w : Task) → w.id ≢ id → TaskOk before w → TaskOk after w)
    → TaskOk after t'
    → TasksOk (set tasks i t') after
write_ok tasks before after i t t' id h found same others new = record {
  unique =
      Unique-set task_id id tasks i t t' h.unique found
        (cc (same, key-find task_id id tasks found));
  each =
      All-update task_id (TaskOk before) (TaskOk after) id others tasks i t t' h.unique h.each found
        new;
}

pub create_task-IsConsistent :
    (a : Ambient) (caller : CallerScope) (req : CreateTaskRequest) (snap snap' : Snapshot)
    (evs : List Event)
    → IsConsistent snap
    → create_task_mutation a caller req snap ≡ ok (snap', evs)
    → IsConsistent snap'
unfolding create_task_mutation status_change
create_task-IsConsistent a caller req snap snap' evs h e =
    let parts : (snap'.tasks ≡ snap.tasks ++ created a caller req ∷ [])
        × (snap'.task_results ≡ snap.task_results)
        × (find_task req.task_id snap.tasks ≡ none) =
      ground arith in
    rw (parts.0, parts.1)
      (append_ok snap.tasks snap.task_results (created a caller req) h parts.2
        (record { evidence = (refl, refl); backed = refl }))

check_transition_task-allowed :
    (caller : CallerScope) (req : TransitionTaskRequest)
    → check_transition_task caller req ≡ ok tt
    → generic_transition req.from_status req.to_status ≡ true
unfolding check_transition_task
check_transition_task-allowed caller req h =
    elim (Bool-cases (generic_transition req.from_status req.to_status)) [
      | inl e ↦ e
      | inr e ↦ ground arith
    ]

-- The four moves of TransitionTask.
transition_fits :
    (from to : TaskStatus) (results : List TaskResult) (id : String) (current : Option String)
    → generic_transition from to ≡ true
    → fits from (standing_at results id current) ≡ true
    → fits to (
        standing_at results id (if status_eq from done && status_eq to todo then none else current))
      ≡ true
transition_fits from to results id current g f = ground arith

pub transition_task-IsConsistent :
    (a : Ambient) (caller : CallerScope) (req : TransitionTaskRequest) (snap snap' : Snapshot)
    (evs : List Event)
    → check_transition_task caller req ≡ ok tt
    → IsConsistent snap
    → transition_task_mutation a caller req snap ≡ ok (snap', evs)
    → IsConsistent snap'
unfolding transition_task_mutation
transition_task-IsConsistent a caller req snap snap' evs c h e =
    elim (Option-cases (find_task req.task_id snap.tasks)) [
      | inl n ↦ absurd (ground arith)
      | inr ((i, t), found) ↦
          let current : Option String = if reopening req then none else t.current_result_id in
          let t' : Task = moved a caller t req.from_status req.to_status current in
          let parts : (snap'.tasks ≡ set snap.tasks i t')
              × (snap'.task_results ≡ snap.task_results)
              × (status_eq t.status req.from_status ≡ true) =
            ground arith in
          let from : t.status ≡ req.from_status = status_eq→eq t.status req.from_status parts.2 in
          let allowed : generic_transition req.from_status req.to_status ≡ true =
            check_transition_task-allowed caller req c in
          let was : fits req.from_status (standing snap.task_results t) ≡ true =
            rw (← from)
              (All-find task_id (TaskOk snap.task_results) req.task_id snap.tasks h.each
                found).backed in
          rw (parts.0, parts.1)
            (write_ok snap.tasks snap.task_results snap.task_results i t t' req.task_id h found refl
              (λ w _ ok_w. ok_w)
              (record {
                evidence = unfold status_change in (refl, refl);
                backed =
                    transition_fits req.from_status req.to_status snap.task_results t.id
                      t.current_result_id allowed was;
              }))
    ]

pub fits-dangling : (s : TaskStatus) → fits s dangling ≡ false
fits-dangling todo = refl
fits-dangling _ = refl

-- A result with a new identifier leaves each task's own result as it stands.
standing-append :
    (s : TaskStatus) (results : List TaskResult) (r : TaskResult) (id : String)
    (current : Option String)
    → fits s (standing_at results id current) ≡ true
    → standing_at (results ++ r ∷ []) id current ≡ standing_at results id current
standing-append s results r id none f = refl
standing-append s results r id (some c) f =
    ground (arith, find-append result_id c results r, fits-dangling s)

entry-append_new :
    (results : List TaskResult) (r : TaskResult)
    → find_result r.result_id results ≡ none
    → entry result_id r.result_id (results ++ r ∷ []) ≡ some r
entry-append_new results r n =
    ground (arith, find-append result_id r.result_id results r, eq_iff r.result_id r.result_id)

pub report_task_result-IsConsistent :
    (a : Ambient) (caller : CallerScope) (req : ReportTaskResultRequest) (snap snap' : Snapshot)
    (evs : List Event)
    → IsConsistent snap
    → report_task_result_mutation a caller req snap ≡ ok (snap', evs)
    → IsConsistent snap'
unfolding report_task_result_mutation
report_task_result-IsConsistent a caller req snap snap' evs h e =
    elim (Option-cases (find_task req.task_id snap.tasks)) [
      | inl n ↦ absurd (ground arith)
      | inr ((i, t), found) ↦
          let r : TaskResult = reported a caller req in
          let t' : Task = moved a caller t t.status awaiting_review (some req.result_id) in
          let parts : (snap'.tasks ≡ set snap.tasks i t')
              × (snap'.task_results ≡ snap.task_results ++ r ∷ [])
              × (find_result req.result_id snap.task_results ≡ none) =
            ground arith in
          let own : t.id ≡ req.task_id = key-find task_id req.task_id snap.tasks found in
          rw (parts.0, parts.1)
            (write_ok snap.tasks snap.task_results (snap.task_results ++ r ∷ []) i t t' req.task_id
              h found refl
              (λ w _ ok_w. record {
                evidence = ok_w.evidence;
                backed =
                    rw
                      (standing-append w.status snap.task_results r w.id w.current_result_id
                        ok_w.backed)
                      ok_w.backed;
              })
              (record {
                evidence = unfold status_change in (refl, refl);
                backed =
                    ground (
                      arith,
                      entry-append_new snap.task_results r parts.2,
                      eq_iff req.task_id t.id,
                    );
              }))
    ]
