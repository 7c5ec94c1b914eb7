-- ===== src/Engine/Consistency/Reviews.antt =====
-- AcceptTaskResult and RejectTaskResult keep the tasks consistent.
use harnessing.Prelude.{
  ℕ, String, true, Option, none, some, List, set, ◌≡◌, ◌≢◌, ◌↔◌, refl, eq_iff, arith, Option-cases,
  inl, inr, ◌⊎◌,
}
use harnessing.Domain.Errors.{GoError, Result, ok, err}
use harnessing.Domain.Records.{
  TaskStatus, doing, done, awaiting_review, Task, TaskResult, undecided, Snapshot, Event,
}
use harnessing.Api.{AcceptTaskResultRequest, RejectTaskResultRequest}
use harnessing.Table.{find_task, find_result, task_id, result_id}
use harnessing.Table.Laws.{All-find, key-find, find-set, str_ne}
use harnessing.Engine.Scope.{CallerScope, Ambient, status_change}
use harnessing.Engine.Tasks.{moved}
use harnessing.Engine.Reviews.{
  accept_task_result_mutation, reject_task_result_mutation, load_pending_decision, accepted_by,
  rejected_by, refers_to,
}
use harnessing.Engine.Consistency.{
  standing_at, reported, Agrees, fits, TaskOk, TasksOk, IsConsistent, status_eq→eq,
}
use harnessing.Engine.Consistency.Moves.{write_ok, fits-dangling}

-- A decision on a result of another task leaves this task's own result as it stands.
standing-decided :
    (s : TaskStatus) (results : List TaskResult) (j : ℕ) (r r' : TaskResult) (id : String)
    (current : Option String) (k : String)
    → find_result k results ≡ some (j, r)
    → r'.result_id ≡ k
    → r.task_id ≢ id
    → fits s (standing_at results id current) ≡ true
    → standing_at (set results j r') id current ≡ standing_at results id current
standing-decided s results j r r' id none k found same other f = refl
standing-decided s results j r r' id (some c) k found same other f = ground (
  arith,
  find-set result_id k c results j r r' found same,
  eq_iff k c,
  str_ne r.task_id id other,
  fits-dangling s,
)

-- What the shared checks have found.
pub record IsPending (snap : Snapshot) (task_id result_id : String) (expected i : ℕ) (t : Task)
    (j : ℕ) (r : TaskResult) : Type 0 where
  pub task_found : find_task task_id snap.tasks ≡ some (i, t)
  pub result_found : find_result result_id snap.task_results ≡ some (j, r)
  pub current : t.current_result_id ≡ some result_id
  pub as_expected : t.revision ≡ expected
  pub awaiting : t.status ≡ awaiting_review
  pub undecided_yet : r.decision ≡ undecided

refers_to→eq : (o : Option String) (id : String) → refers_to o id ≡ true → o ≡ some id
refers_to→eq none id h = cc
refers_to→eq (some c) id h = cc ((eq_iff c id).0 h)

-- A decision is loaded exactly for the task and the result that were asked for: both are found
-- where they stand, the task has the revision that was expected and awaits its review, and the
-- result is its current one and undecided.
pub load_pending_decision-IsPending :
    (snap : Snapshot) (task result : String) (expected i : ℕ) (t : Task) (j : ℕ) (r : TaskResult)
    → (load_pending_decision snap task result expected ≡ ok (i, t, j, r))
      ↔ IsPending snap task result expected i t j r
unfolding load_pending_decision
load_pending_decision-IsPending snap task result expected i t j r = (
  λ h. elim (Option-cases (find_task task snap.tasks)) [
    | inl n ↦ absurd (ground arith)
    | inr ((i', t'), found) ↦ elim (Option-cases (find_result result snap.task_results)) [
      | inl n ↦ absurd (ground arith)
      | inr ((j', r'), found_r) ↦ record {
        task_found = ground arith;
        result_found = ground arith;
        current = ground (arith, refers_to→eq t'.current_result_id result);
        as_expected = ground arith;
        awaiting = ground (arith, status_eq→eq t'.status awaiting_review);
        undecided_yet = ground arith;
      }
    ]
  ],
  λ p. ground (
    arith,
    p.task_found,
    p.result_found,
    p.current,
    p.as_expected,
    p.awaiting,
    p.undecided_yet,
    eq_iff result result,
  ),
)

module _ (snap : Snapshot) (task result : String) (expected i : ℕ) (t : Task) (j : ℕ)
    (r : TaskResult) (h : IsConsistent snap) (p : IsPending snap task result expected i t j r) where
  -- The result that is decided is the task's own.
  own_result : r.task_id ≡ t.id
  own_result =
      let ok_t = All-find task_id (TaskOk snap.task_results) task snap.tasks h.each p.task_found in
      ground (arith, ok_t.backed, p.current, p.awaiting, p.result_found, eq_iff r.task_id t.id)

  decided_ok :
      (t' : Task) (r' : TaskResult)
      → t'.id ≡ t.id
      → t'.current_result_id ≡ some result
      → Agrees t'.last_status_change t'.revision t'.status
      → r'.result_id ≡ r.result_id
      → r'.task_id ≡ r.task_id
      → fits t'.status (reported r'.decision) ≡ true
      → TasksOk (set snap.tasks i t') (set snap.task_results j r')
  decided_ok t' r' same_id cur ev same_result same_task f =
      let key_r : r'.result_id ≡ result =
        cc (same_result, key-find result_id result snap.task_results p.result_found) in
      write_ok snap.tasks snap.task_results (set snap.task_results j r') i t t' task h p.task_found
        same_id
        (λ w ne ok_w. record {
          evidence = ok_w.evidence;
          backed =
              rw
                (standing-decided w.status snap.task_results j r r' w.id w.current_result_id result
                  p.result_found key_r
                  (λ e. ne (cc (e, own_result, key-find task_id task snap.tasks p.task_found)))
                  ok_w.backed)
                ok_w.backed;
        })
        (record {
          evidence = ev;
          backed = ground (
            arith,
            find-set result_id result result snap.task_results j r r' p.result_found key_r,
            eq_iff result result,
            eq_iff r'.task_id t'.id,
            own_result,
            cur,
            f,
          );
        })

pub ok-or-err {ℓ} :
    {A : Type ℓ} (m : Result A) → ((x : A) × (m ≡ ok x)) ⊎ ((e : GoError) × (m ≡ err e))
ok-or-err (ok x) = inl (x, refl)
ok-or-err (err e) = inr (e, refl)

pub accept_task_result-IsConsistent :
    (a : Ambient) (caller : CallerScope) (req : AcceptTaskResultRequest) (snap snap' : Snapshot)
    (evs : List Event)
    → IsConsistent snap
    → accept_task_result_mutation a caller req snap ≡ ok (snap', evs)
    → IsConsistent snap'
unfolding accept_task_result_mutation
accept_task_result-IsConsistent a caller req snap snap' evs h e =
    elim (ok-or-err
      (load_pending_decision snap req.task_id req.result_id req.expected_task_revision)) [
        | inr (x, failed) ↦ absurd (ground arith)
        | inl ((i, t, j, r), loaded) ↦
            let p =
              (load_pending_decision-IsPending snap req.task_id req.result_id
                  req.expected_task_revision i t j r).0
                loaded in
            let t' : Task = moved a caller t awaiting_review done t.current_result_id in
            let r' : TaskResult = accepted_by a caller r in
            let parts : (snap'.tasks ≡ set snap.tasks i t')
                × (snap'.task_results ≡ set snap.task_results j r') =
              ground arith in
            rw (parts.0, parts.1)
              (decided_ok snap req.task_id req.result_id req.expected_task_revision i t j r h p t'
                r' refl p.current (unfold status_change in (refl, refl)) refl refl refl)
      ]

pub reject_task_result-IsConsistent :
    (a : Ambient) (caller : CallerScope) (req : RejectTaskResultRequest) (snap snap' : Snapshot)
    (evs : List Event)
    → IsConsistent snap
    → reject_task_result_mutation a caller req snap ≡ ok (snap', evs)
    → IsConsistent snap'
unfolding reject_task_result_mutation
reject_task_result-IsConsistent a caller req snap snap' evs h e =
    elim (ok-or-err
      (load_pending_decision snap req.task_id req.result_id req.expected_task_revision)) [
        | inr (x, failed) ↦ absurd (ground arith)
        | inl ((i, t, j, r), loaded) ↦
            let p =
              (load_pending_decision-IsPending snap req.task_id req.result_id
                  req.expected_task_revision i t j r).0
                loaded in
            let t' : Task = moved a caller t awaiting_review doing t.current_result_id in
            let r' : TaskResult = rejected_by a caller req r in
            let parts : (snap'.tasks ≡ set snap.tasks i t')
                × (snap'.task_results ≡ set snap.task_results j r') =
              ground arith in
            rw (parts.0, parts.1)
              (decided_ok snap req.task_id req.result_id req.expected_task_revision i t j r h p t'
                r' refl p.current (unfold status_change in (refl, refl)) refl refl refl)
      ]
