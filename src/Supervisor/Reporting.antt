-- ===== src/Supervisor/Reporting.antt =====
-- When a Stop of internal/adapters/process/supervisor.go reports success.
use harnessing.Prelude.{true, ◌≡◌, All}
use harnessing.Supervisor.{RunRecord, Supervision}
use harnessing.Supervisor.Ownership.{reaps, is_quiet}
use harnessing.Supervisor.Later.{IsClosed, IsNil, Reported, Watched, Later}

-- What holds of a supervised run.
record Truthful (s : Supervision) : Type 0 where
  pub watched : Watched s.run s.observer
  pub reported : All (Reported s.run) s.stops
  pub closed : IsNil s.run → IsClosed s.run

-- The outcome is nil, the leader was reaped, once, and no signal was attempted since.
pub record IsStopped (run : RunRecord) : Type 0 where
  pub outcome_nil : IsNil run
  pub leader_reaped : IsClosed run
  pub reaped_once : reaps run.acts ≡ 1
  pub no_late_signal : is_quiet run.acts ≡ true
