-- ===== src/Engine/Decided.antt =====
-- AcceptTaskResult and RejectTaskResult of internal/core/task/engine.go, one after the other.
use harnessing.Prelude.{
  ℕ, String, false, some, List, ◌≡◌, refl, arith, Bool-cases, inl, inr, ◌==◌, set,
}
use harnessing.Domain.Errors.{GoError, ok, err, conflict, invalid_argument, coded}
use harnessing.Domain.Records.{doing, done, awaiting_review, status_eq, Task, Snapshot, Event}
use harnessing.Api.{AcceptTaskResultRequest, RejectTaskResultRequest}
use harnessing.Table.{find_task, task_id}
use harnessing.Table.Laws.{key-find, find-set, str_eq_refl}
use harnessing.Engine.Scope.{CallerScope, Ambient}
use harnessing.Engine.Commit.{Mutation}
use harnessing.Engine.Tasks.{moved}
use harnessing.Engine.Reviews.{
  accept_task_result_mutation, reject_task_result_mutation, load_pending_decision, refers_to,
}
use harnessing.Engine.Consistency.Reviews.{load_pending_decision-IsPending, ok-or-err}

-- The Mutate function of AcceptTaskResult or RejectTaskResult for a task and a result.
pub data IsDecision (task result : String) (m : Mutation) : Type 0 where
  accepting :
      (a : Ambient) (caller : CallerScope) (req : AcceptTaskResultRequest)
      → req.task_id ≡ task
      → req.result_id ≡ result
      → m ≡ accept_task_result_mutation a caller req
      → IsDecision task result m
  rejecting :
      (a : Ambient) (caller : CallerScope) (req : RejectTaskResultRequest)
      → req.task_id ≡ task
      → req.result_id ≡ result
      → m ≡ reject_task_result_mutation a caller req
      → IsDecision task result m

-- The task is there and does not await its review.
abbrev IsSettledTask : String → Snapshot → Type 0
IsSettledTask task snap =
    (i : ℕ) × ((t : Task) × ((find_task task snap.tasks ≡ some (i, t))
        × (status_eq t.status awaiting_review ≡ false)))

not_pending :
    (snap : Snapshot) (task result : String) (expected : ℕ)
    → IsSettledTask task snap
    → (x : GoError) × (load_pending_decision snap task result expected ≡ err x)
unfolding load_pending_decision
not_pending snap task result expected (i, (t, (found, moved_on))) =
    elim (Bool-cases (t.revision == expected)) [
      | inr stale ↦ (coded conflict, ground (arith, found, stale))
      | inl fresh ↦ elim (Bool-cases (refers_to t.current_result_id result)) [
        | inr other ↦ (coded conflict, ground (arith, found, fresh, other))
        | inl own ↦ (coded invalid_argument, ground (arith, found, fresh, own, moved_on))
      ]
    ]

not_decided :
    (m : Mutation) (snap : Snapshot) (task result : String)
    → IsDecision task result m
    → IsSettledTask task snap
    → (x : GoError) × (m snap ≡ err x)
unfolding accept_task_result_mutation reject_task_result_mutation
not_decided m snap task result (accepting a caller req same_task same_result e) h =
    let (x, failed) = not_pending snap task result req.expected_task_revision h in
    (x, rw (e, same_task, same_result, failed) refl)
not_decided m snap task result (rejecting a caller req same_task same_result e) h =
    let (x, failed) = not_pending snap task result req.expected_task_revision h in
    (x, rw (e, same_task, same_result, failed) refl)

settled-set :
    (snap : Snapshot) (task : String) (i : ℕ) (t t' : Task)
    → find_task task snap.tasks ≡ some (i, t)
    → t'.id ≡ t.id
    → find_task task (set snap.tasks i t') ≡ some (i, t')
settled-set snap task i t t' found same = ground (
  arith,
  find-set task_id task task snap.tasks i t t' found
      (ground (arith, key-find task_id task snap.tasks found, same)),
  str_eq_refl task,
)

decided :
    (m : Mutation) (snap snap' : Snapshot) (task result : String) (evs : List Event)
    → IsDecision task result m
    → m snap ≡ ok (snap', evs)
    → IsSettledTask task snap'
unfolding accept_task_result_mutation reject_task_result_mutation
decided m snap snap' task result evs (accepting a caller req same_task same_result e) h =
    let run : accept_task_result_mutation a caller req snap ≡ ok (snap', evs) = cc in
    elim (ok-or-err
      (load_pending_decision snap req.task_id req.result_id req.expected_task_revision)) [
        | inr (x, failed) ↦ absurd (ground (arith, run))
        | inl ((i, t, j, r), loaded) ↦
            let p =
              (load_pending_decision-IsPending snap req.task_id req.result_id
                  req.expected_task_revision i t j r).0
                loaded in
            let t' : Task = moved a caller t awaiting_review done t.current_result_id in
            let tasks : snap'.tasks ≡ set snap.tasks i t' = ground (arith, run) in
            (
              i,
              (
                t',
                (
                  rw (← same_task, tasks) (settled-set snap req.task_id i t t' p.task_found refl),
                  refl,
                ),
              ),
            )
      ]
decided m snap snap' task result evs (rejecting a caller req same_task same_result e) h =
    let run : reject_task_result_mutation a caller req snap ≡ ok (snap', evs) = cc in
    elim (ok-or-err
      (load_pending_decision snap req.task_id req.result_id req.expected_task_revision)) [
        | inr (x, failed) ↦ absurd (ground (arith, run))
        | inl ((i, t, j, r), loaded) ↦
            let p =
              (load_pending_decision-IsPending snap req.task_id req.result_id
                  req.expected_task_revision i t j r).0
                loaded in
            let t' : Task = moved a caller t awaiting_review doing t.current_result_id in
            let tasks : snap'.tasks ≡ set snap.tasks i t' = ground (arith, run) in
            (
              i,
              (
                t',
                (
                  rw (← same_task, tasks) (settled-set snap req.task_id i t t' p.task_found refl),
                  refl,
                ),
              ),
            )
      ]

-- Where AcceptTaskResult or RejectTaskResult has decided on a task's result, the Mutate function of
-- a further one of either for this task and result fails on the snapshot that it left, whoever
-- calls it and whatever revision it expects.
pub decided_once :
    (m m' : Mutation) (snap snap' : Snapshot) (task result : String) (evs : List Event)
    → IsDecision task result m
    → IsDecision task result m'
    → m snap ≡ ok (snap', evs)
    → (x : GoError) × (m' snap' ≡ err x)
decided_once m m' snap snap' task result evs d d' h =
    not_decided m' snap' task result d' (decided m snap snap' task result evs d h)
