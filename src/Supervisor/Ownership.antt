-- ===== src/Supervisor/Ownership.antt =====
-- Who owns a run's record in internal/adapters/process/supervisor.go: of its observer and all calls
-- of Stop, at most one.
use harnessing.Prelude.{
  ℕ, suc, Bool, true, false, ◌||◌, ◌&&◌, ◌==◌, ◌+◌, ◌≤◌, Option, none, some, List, [], ◌∷◌, ◌++◌,
  ◌≡◌, refl, arith, if◌then◌else◌,
}
use harnessing.Domain.Errors.{Result}
use harnessing.Supervisor.{
  Act, signalled, reaped_leader, RunRecord, ObserverPc, peeking, checking, closing, group_wait,
  ended, StopPc, entering, in_grace, awaiting_exit, stop_closing, stop_group_wait, awaiting_result,
  returned, Observation, StopAnswers, observe_step, stop_step, Supervision, started,
  SupervisionStep, observed, called, stepped, SupervisionSteps, at_start, next,
}

-- A Stop that has claimed the record, before the reap and behind it; an observer behind its reap.
abbrev pub open_hold : StopPc → ℕ
open_hold in_grace = 1
open_hold awaiting_exit = 1
open_hold stop_closing = 1
open_hold _ = 0

abbrev pub closed_hold : StopPc → ℕ
closed_hold (stop_group_wait b) = 1
closed_hold _ = 0

abbrev pub observer_hold : ObserverPc → ℕ
observer_hold (group_wait b) = 1
observer_hold _ = 0

unfoldable pub total : (StopPc → ℕ) → List StopPc → ℕ
total f [] = 0
total f (pc ∷ pcs) = f pc + total f pcs

abbrev pub reaps : List Act → ℕ
reaps [] = 0
reaps (signalled s ∷ acts) = reaps acts
reaps (reaped_leader ∷ acts) = suc (reaps acts)

-- No signal is attempted after a reap.
abbrev pub is_quiet : List Act → Bool
is_quiet [] = true
is_quiet (signalled s ∷ acts) = (reaps acts == 0) && is_quiet acts
is_quiet (reaped_leader ∷ acts) = is_quiet acts

abbrev pub settled_count : Option (Result (Unit {0})) → ℕ
settled_count none = 0
settled_count (some r) = 1

-- The record has one owner or none, or had one and has its outcome.
pub record Owned (run : RunRecord) (opens closeds observing : ℕ) : Type 0 where
  pub balance :
      opens + (closeds + (observing + settled_count run.outcome))
      ≡ (if run.closed || run.stop_claimed then 1 else 0)
  pub open_not_closed : run.closed ≡ true → opens ≡ 0
  pub reaped_once : reaps run.acts ≡ (if run.closed then 1 else 0)
  pub quiet : is_quiet run.acts ≡ true
  pub sound : run.crashed ≡ false

stop_step-Owned :
    (a : StopAnswers) (pc : StopPc) (run : RunRecord) (opens closeds observing : ℕ)
    → Owned run (open_hold pc + opens) (closed_hold pc + closeds) observing
    → Owned
        (stop_step a pc run).1
        (open_hold (stop_step a pc run).0 + opens)
        (closed_hold (stop_step a pc run).0 + closeds)
        observing
unfolding stop_step
stop_step-Owned a entering run opens closeds observing h = record {
  balance = ground (arith, h.balance, h.open_not_closed);
  open_not_closed = ground (arith, h.balance, h.open_not_closed);
  reaped_once = ground (arith, h.reaped_once, h.open_not_closed);
  quiet = ground (arith, h.quiet, h.reaped_once, h.open_not_closed);
  sound = ground (arith, h.balance, h.sound);
}
stop_step-Owned a in_grace run opens closeds observing h = record {
  balance = ground (arith, h.balance, h.open_not_closed);
  open_not_closed = ground (arith, h.balance, h.open_not_closed);
  reaped_once = ground (arith, h.reaped_once, h.open_not_closed);
  quiet = ground (arith, h.quiet, h.reaped_once, h.open_not_closed);
  sound = ground (arith, h.balance, h.sound);
}
stop_step-Owned a awaiting_exit run opens closeds observing h = record {
  balance = ground (arith, h.balance, h.open_not_closed);
  open_not_closed = ground (arith, h.balance, h.open_not_closed);
  reaped_once = ground (arith, h.reaped_once, h.open_not_closed);
  quiet = ground (arith, h.quiet, h.reaped_once, h.open_not_closed);
  sound = ground (arith, h.balance, h.sound);
}
stop_step-Owned a stop_closing run opens closeds observing h = record {
  balance = ground (arith, h.balance, h.open_not_closed);
  open_not_closed = ground (arith, h.balance, h.open_not_closed);
  reaped_once = ground (arith, h.reaped_once, h.open_not_closed);
  quiet = ground (arith, h.quiet, h.reaped_once, h.open_not_closed);
  sound = ground (arith, h.balance, h.sound);
}
stop_step-Owned a (stop_group_wait b) run opens closeds observing h = record {
  balance = ground (arith, h.balance, h.open_not_closed);
  open_not_closed = ground (arith, h.balance, h.open_not_closed);
  reaped_once = ground (arith, h.reaped_once, h.open_not_closed);
  quiet = ground (arith, h.quiet, h.reaped_once, h.open_not_closed);
  sound = ground (arith, h.balance, h.sound);
}
stop_step-Owned a awaiting_result run opens closeds observing h = record {
  balance = ground (arith, h.balance);
  open_not_closed = ground (arith, h.open_not_closed);
  reaped_once = ground (arith, h.reaped_once);
  quiet = ground (arith, h.quiet);
  sound = ground (arith, h.sound);
}
stop_step-Owned a (returned r) run opens closeds observing h = h

observe_step-Owned :
    (o : Observation) (pc : ObserverPc) (run : RunRecord) (opens closeds : ℕ)
    → Owned run opens closeds (observer_hold pc)
    → Owned (observe_step o pc run).1 opens closeds (observer_hold (observe_step o pc run).0)
unfolding observe_step
observe_step-Owned o peeking run opens closeds h = record {
  balance = ground (arith, h.balance);
  open_not_closed = ground (arith, h.open_not_closed);
  reaped_once = ground (arith, h.reaped_once);
  quiet = ground (arith, h.quiet);
  sound = ground (arith, h.sound);
}
observe_step-Owned o checking run opens closeds h = record {
  balance = ground (arith, h.balance);
  open_not_closed = ground (arith, h.open_not_closed);
  reaped_once = ground (arith, h.reaped_once);
  quiet = ground (arith, h.quiet);
  sound = ground (arith, h.sound);
}
observe_step-Owned o closing run opens closeds h = record {
  balance = ground (arith, h.balance);
  open_not_closed = ground (arith, h.balance);
  reaped_once = ground (arith, h.reaped_once);
  quiet = ground (arith, h.quiet);
  sound = ground (arith, h.sound);
}
observe_step-Owned o (group_wait b) run opens closeds h = record {
  balance = ground (arith, h.balance);
  open_not_closed = h.open_not_closed;
  reaped_once = h.reaped_once;
  quiet = h.quiet;
  sound = ground (arith, h.balance, h.sound);
}
observe_step-Owned o ended run opens closeds h = h

pub total-append :
    (f : StopPc → ℕ) (before after : List StopPc) (pc : StopPc)
    → total f (before ++ pc ∷ after) ≡ f pc + (total f before + total f after)
unfolding total
total-append f [] after pc = omega arith
total-append f (x ∷ before) after pc = omega (arith, total-append f before after pc)

total-entering :
    (f : StopPc → ℕ) (pcs : List StopPc) → f entering ≡ 0 → total f (entering ∷ pcs) ≡ total f pcs
unfolding total
total-entering f pcs h = omega (arith, h)

abbrev pub IsOwned : Supervision → Type 0
IsOwned s =
    Owned s.run (total open_hold s.stops) (total closed_hold s.stops) (observer_hold s.observer)

SupervisionStep-IsOwned : (s s' : Supervision) → SupervisionStep s s' → IsOwned s → IsOwned s'
SupervisionStep-IsOwned s s' (observed o e) h =
    rw e (
      observe_step-Owned o s.observer s.run (total open_hold s.stops) (total closed_hold s.stops) h)
SupervisionStep-IsOwned s s' (called e) h =
    rw (e, total-entering open_hold s.stops refl, total-entering closed_hold s.stops refl) h
SupervisionStep-IsOwned s s' (stepped a before after pc at e) h =
    let rest : (StopPc → ℕ) → ℕ = λ f. total f before + total f after in
    let split : Owned s.run (open_hold pc + rest open_hold) (closed_hold pc + rest closed_hold)
        (observer_hold s.observer) =
      rw
        (← total-append open_hold before after pc, ← total-append closed_hold before after pc, ← at)
        h in
    let pc' : StopPc = (stop_step a pc s.run).0 in
    rw (e, total-append open_hold before after pc', total-append closed_hold before after pc')
      (stop_step-Owned a pc s.run (rest open_hold) (rest closed_hold) (observer_hold s.observer)
        split)

-- What holds of a run's record.
pub record IsSafe (run : RunRecord) : Type 0 where
  pub no_late_signal : is_quiet run.acts ≡ true
  pub reaped_once : reaps run.acts ≤ 1
  pub done_closed_once : run.crashed ≡ false

pub reachable-IsOwned : (s : Supervision) → SupervisionSteps started s → IsOwned s
unfolding total
reachable-IsOwned s at_start = record {
  balance = refl;
  open_not_closed = λ e. refl;
  reaped_once = refl;
  quiet = refl;
  sound = refl;
}
reachable-IsOwned s (next {s'} steps step) =
    SupervisionStep-IsOwned s' s step (reachable-IsOwned s' steps)

-- From a Start that has returned nil, in every interleaving of the observer with any number of
-- Stops and for all answers of the operating system, no signal is attempted after the leader was
-- reaped, the leader is reaped at most once, and the record's done channel is closed at most once.
pub reachable-IsSafe : (s : Supervision) → SupervisionSteps started s → IsSafe s.run
reachable-IsSafe s steps =
    let h : IsOwned s = reachable-IsOwned s steps in
    record {
      no_late_signal = h.quiet;
      reaped_once = ground (arith, h.reaped_once);
      done_closed_once = h.sound;
    }
