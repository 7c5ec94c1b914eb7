-- ===== src/Supervisor/Later.antt =====
-- What a step of the observer or of a Stop of internal/adapters/process/supervisor.go leaves of the
-- run's record as it is.
use harnessing.Prelude.{ℕ, ◌+◌, ◌≤◌, Bool, true, false, Option, none, some, ◌≡◌, refl, ◌||◌, arith}
use harnessing.Domain.Errors.{Result, ok}
use harnessing.Supervisor.{
  RunRecord, ObserverPc, peeking, checking, closing, group_wait, ended, StopPc, entering, in_grace,
  awaiting_exit, stop_closing, stop_group_wait, awaiting_result, returned, Observation, StopAnswers,
  observe_step, stop_step,
}
use harnessing.Supervisor.Ownership.{open_hold, closed_hold, observer_hold, settled_count}

-- The leader has been reaped.
abbrev pub IsClosed : RunRecord → Type 0
IsClosed run = (run.closed ≡ true) × (run.reaped ≡ true)

abbrev pub IsNil : RunRecord → Type 0
IsNil run = run.outcome ≡ some (ok tt)

-- What a Stop goes by behind its reap, what it has reported, and what the observer goes by.
pub record Reported (run : RunRecord) (pc : StopPc) : Type 0 where
  pub waits : (b : Bool) → pc ≡ stop_group_wait b → IsClosed run
  pub reports : pc ≡ returned (ok tt) → IsNil run

abbrev pub Watched : RunRecord → ObserverPc → Type 0
Watched run pc = (b : Bool) → pc ≡ group_wait b → IsClosed run

-- What a step leaves as it is.
pub record Later (run run' : RunRecord) : Type 0 where
  pub stays_closed : IsClosed run → IsClosed run'
  pub stays_nil : IsNil run → IsNil run'
  pub nil_closed : (IsNil run → IsClosed run) → IsNil run' → IsClosed run'

-- Who writes the outcome finds none.
pub record Unset (run : RunRecord) (hold : ℕ) : Type 0 where
  pub held : 1 ≤ hold → run.outcome ≡ none
  pub unclaimed : (run.closed || run.stop_claimed) ≡ false → run.outcome ≡ none

pub unset : (o : Option (Result (Unit {0}))) → settled_count o ≡ 0 → o ≡ none
unset none h = refl
unset (some r) h = cc

pub stop_step-Later :
    (a : StopAnswers) (pc : StopPc) (run : RunRecord)
    → Unset run (open_hold pc + closed_hold pc)
    → Reported run pc
    → Later run (stop_step a pc run).1
unfolding stop_step
stop_step-Later a entering run h k = record {
  stays_closed = ground (arith);
  stays_nil = ground (arith, h.unclaimed);
  nil_closed = ground (arith, h.unclaimed);
}
stop_step-Later a in_grace run h k = record {
  stays_closed = ground (arith);
  stays_nil = ground (arith, h.held);
  nil_closed = ground (arith, h.held);
}
stop_step-Later a awaiting_exit run h k = record {
  stays_closed = ground (arith);
  stays_nil = ground (arith, h.held);
  nil_closed = ground (arith, h.held);
}
stop_step-Later a stop_closing run h k = record {
  stays_closed = ground (arith);
  stays_nil = ground (arith, h.held);
  nil_closed = ground (arith, h.held);
}
stop_step-Later a (stop_group_wait b) run h k = record {
  stays_closed = ground (arith);
  stays_nil = ground (arith, h.held);
  nil_closed = ground (arith, h.held, k.waits b refl);
}
stop_step-Later a awaiting_result run h k = record {
  stays_closed = λ c. c;
  stays_nil = λ c. c;
  nil_closed = λ c d. c d;
}
stop_step-Later a (returned r) run h k = record {
  stays_closed = λ c. c;
  stays_nil = λ c. c;
  nil_closed = λ c d. c d;
}

pub observe_step-Later :
    (o : Observation) (pc : ObserverPc) (run : RunRecord)
    → Unset run (observer_hold pc)
    → Watched run pc
    → Later run (observe_step o pc run).1
unfolding observe_step
observe_step-Later o peeking run h k = record {
  stays_closed = ground (arith);
  stays_nil = ground (arith);
  nil_closed = ground (arith);
}
observe_step-Later o checking run h k = record {
  stays_closed = ground (arith);
  stays_nil = ground (arith);
  nil_closed = ground (arith);
}
observe_step-Later o closing run h k = record {
  stays_closed = ground (arith);
  stays_nil = ground (arith);
  nil_closed = ground (arith);
}
observe_step-Later o (group_wait b) run h k = record {
  stays_closed = ground (arith);
  stays_nil = ground (arith, h.held);
  nil_closed = ground (arith, h.held, k b refl);
}
observe_step-Later o ended run h k = record {
  stays_closed = λ c. c;
  stays_nil = λ c. c;
  nil_closed = λ c d. c d;
}
