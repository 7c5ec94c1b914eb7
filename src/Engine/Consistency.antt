-- ===== src/Engine/Consistency.antt =====
-- What the tasks and results of a workspace have to do with one another, between two commits of
-- internal/core/task/engine.go.
pub mod Moves
pub mod Reviews
use harnessing.Prelude.{
  ℕ, String, Bool, true, false, Option, none, some, List, ◌≡◌, refl, str_eq, eq_iff, All, arith,
  if◌then◌else◌,
}
use harnessing.Domain.Records.{
  TaskStatus, todo, doing, blocked, awaiting_review, done, other_status, status_eq, StatusChange,
  Task, TaskResult, TaskResultDecision, undecided, accepted, rejected, Snapshot,
}
use harnessing.Table.{task_id, result_id, entry}
use harnessing.Table.Laws.{Unique}

-- How the current result of a task stands: there is none, it has this decision, or the task names
-- a result that is missing or belongs to another task.
pub data Standing : Type 0 where
  unreported : Standing
  reported : TaskResultDecision → Standing
  dangling : Standing

abbrev pub standing_of : String → Option TaskResult → Standing
standing_of id none = dangling
standing_of id (some r) = if str_eq r.task_id id then reported r.decision else dangling

abbrev pub standing_at : List TaskResult → String → Option String → Standing
standing_at results id none = unreported
standing_at results id (some current) = standing_of id (entry result_id current results)

abbrev pub standing : List TaskResult → Task → Standing
standing results t = standing_at results t.id t.current_result_id

-- The standings that each status allows.
abbrev pub fits : TaskStatus → Standing → Bool
fits todo unreported = true
fits doing unreported = true
fits doing (reported rejected) = true
fits blocked unreported = true
fits blocked (reported rejected) = true
fits awaiting_review (reported undecided) = true
fits done (reported accepted) = true
fits _ _ = false

-- The latest change is on record, at the task's own revision and status.
abbrev pub Agrees : Option StatusChange → ℕ → TaskStatus → Type 0
Agrees none revision status = ⊥
Agrees (some change) revision status =
    (change.task_revision ≡ revision) × (change.to_status ≡ status)

pub record TaskOk (results : List TaskResult) (t : Task) : Type 0 where
  pub evidence : Agrees t.last_status_change t.revision t.status
  pub backed : fits t.status (standing results t) ≡ true

pub record TasksOk (tasks : List Task) (results : List TaskResult) : Type 0 where
  pub unique : Unique task_id tasks
  pub each : All (TaskOk results) tasks

abbrev pub IsConsistent : Snapshot → Type 0
IsConsistent snap = TasksOk snap.tasks snap.task_results

pub status_eq→eq : (a b : TaskStatus) → status_eq a b ≡ true → a ≡ b
status_eq→eq todo todo h = refl
status_eq→eq doing doing h = refl
status_eq→eq blocked blocked h = refl
status_eq→eq awaiting_review awaiting_review h = refl
status_eq→eq done done h = refl
status_eq→eq (other_status a) (other_status b) h = cc ((eq_iff a b).0 h)
status_eq→eq _ _ h = cc
