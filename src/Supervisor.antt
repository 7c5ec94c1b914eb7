-- ===== src/Supervisor.antt =====
-- internal/adapters/process/supervisor.go from the moment that Start has returned nil: the run's
-- record, the observer of its natural exit, and the calls of Stop. A step is one critical section of
-- the record's mutex, or what an actor does between two of them.
pub mod Launch
pub mod Ownership
pub mod Stopping
pub mod Later
pub mod Reporting
pub mod Observing
use harnessing.Prelude.{
  ℕ, suc, String, Bool, true, false, not, ◌&&◌, ◌||◌, Option, none, some, List, [], ◌∷◌, ◌++◌, ◌≡◌,
  if◌then◌else◌,
}
use harnessing.Domain.Errors.{GoError, Result, ok, err, fail, spawn_failed, recovery_required}

pub data Signal : Type 0 where
  sigterm sigkill : Signal

-- What the process is subjected to: an attempt to signal its group, and the reaping of its leader.
pub data Act : Type 0 where
  signalled : Signal → Act
  reaped_leader : Act

-- `done` is closed where there is an outcome, which is `result`; `crashed` is the panic of closing
-- `done` a second time. `acts` is newest first.
pub record RunRecord : Type 0 where
  pub stop_claimed : Bool
  pub closed : Bool
  pub reaped : Bool
  pub terminated_observed : Bool
  pub outcome : Option (Result (Unit {0}))
  pub crashed : Bool
  pub acts : List Act

abbrev pub new_record : RunRecord
new_record = record {
  stop_claimed = false;
  closed = false;
  reaped = false;
  terminated_observed = false;
  outcome = none;
  crashed = false;
  acts = [];
}

abbrev has_outcome : Option (Result (Unit {0})) → Bool
has_outcome none = false
has_outcome (some r) = true

-- finalize
abbrev pub finalize : Result (Unit {0}) → RunRecord → RunRecord
finalize r rec = record rec { outcome = some r; crashed = rec.crashed || has_outcome rec.outcome }

-- observeLeaderTerminatedOnce
abbrev pub observe_leader_terminated_once : RunRecord → RunRecord
observe_leader_terminated_once rec = record rec { terminated_observed = true }

abbrev pub kill : Signal → RunRecord → RunRecord
kill s rec = record rec { acts = signalled s ∷ rec.acts }

-- `rec.closed = true`, the reap, `rec.reaped = true`.
abbrev pub close_and_reap : RunRecord → RunRecord
close_and_reap rec = record rec { closed = true; reaped = true; acts = reaped_leader ∷ rec.acts }

-- confirmOtherMembersAbsent
pub data Membership : Type 0 where
  absent_confirmed membership_uncertain others_live : Membership

-- Where observeNaturalExit stands: before the leader's exit, in the loop over the members, before
-- the reap, waiting for the group to go, and returned.
pub data ObserverPc : Type 0 where
  peeking checking closing : ObserverPc
  group_wait : Bool → ObserverPc
  ended : ObserverPc

-- Where a Stop stands: before its claim, in the grace period, after the signals, before the reap,
-- waiting for the group to go, in awaitResult, and returned.
pub data StopPc : Type 0 where
  entering in_grace awaiting_exit stop_closing : StopPc
  stop_group_wait : Bool → StopPc
  awaiting_result : StopPc
  returned : Result (Unit {0}) → StopPc

-- The outcome behind a reap: the group is gone, and the reap had no error.
abbrev pub settled : Bool → Bool → Result (Unit {0})
settled reap_ok group_gone =
    if group_gone
    then (if reap_ok then ok tt else fail recovery_required)
    else fail recovery_required

-- What the operating system answers: waitidPeek (`none` for its error), confirmOtherMembersAbsent,
-- reapLeader and waitGroupGone.
pub record Observation : Type 0 where
  pub peek : Option Bool
  pub members : Membership
  pub reap_ok : Bool
  pub group_gone : Bool

abbrev peeked : Option Bool → RunRecord → ObserverPc × RunRecord
peeked none rec = (ended, rec)
peeked (some true) rec = (checking, observe_leader_terminated_once rec)
peeked (some false) rec = (peeking, rec)

abbrev on_members : Membership → RunRecord → ObserverPc × RunRecord
on_members absent_confirmed rec = (closing, rec)
on_members membership_uncertain rec = (ended, rec)
on_members others_live rec = (checking, rec)

-- observeNaturalExit
unfoldable pub observe_step : Observation → ObserverPc → RunRecord → ObserverPc × RunRecord
observe_step o peeking rec = peeked o.peek rec
observe_step o checking rec =
    if rec.closed || rec.stop_claimed then (ended, rec) else on_members o.members rec
observe_step o closing rec =
    if rec.closed || rec.stop_claimed
    then (ended, rec)
    else (group_wait o.reap_ok, close_and_reap rec)
observe_step o (group_wait reap_ok) rec = (ended, finalize (settled reap_ok o.group_gone) rec)
observe_step o ended rec = (ended, rec)

-- The cases of awaitResult's select, which takes any one of those that are ready.
pub data Arm : Type 0 where
  on_done on_context on_timer : Arm

-- What the operating system answers to a Stop, the error of its context if that has ended, whether
-- awaitResult's timer has run out, and the case that its select takes where that one is ready.
pub record StopAnswers : Type 0 where
  pub sigterm_ok : Bool
  pub exited_within_grace : Bool
  pub sigkill_ok : Bool
  pub leader_exited : Bool
  pub reap_ok : Bool
  pub group_gone : Bool
  pub context_ended : Option GoError
  pub timer_ended : Bool
  pub taken : Arm

-- The first case that is ready, if any.
abbrev pub first_ready : Option (Result (Unit {0})) → Option GoError → Bool → StopPc
first_ready (some r) context timer = returned r
first_ready none (some e) timer = returned (err e)
first_ready none none timer = if timer then returned (fail recovery_required) else awaiting_result

-- awaitResult: the case that the select takes, and another one that is ready where that one is not.
abbrev pub await_result : Arm → Option (Result (Unit {0})) → Option GoError → Bool → StopPc
await_result on_done outcome context timer = first_ready outcome context timer
await_result on_context outcome (some e) timer = returned (err e)
await_result on_context outcome none timer = first_ready outcome none timer
await_result on_timer outcome context timer =
    if timer then returned (fail recovery_required) else first_ready outcome context false

abbrev seen : Bool → RunRecord → RunRecord
seen exited rec = if exited then observe_leader_terminated_once rec else rec

-- Stop
unfoldable pub stop_step : StopAnswers → StopPc → RunRecord → StopPc × RunRecord
stop_step a entering rec =
    if rec.closed || rec.stop_claimed
    then (awaiting_result, rec)
    else if a.sigterm_ok
    then (in_grace, kill sigterm (record rec { stop_claimed = true }))
    else (
      returned (fail spawn_failed),
      finalize (fail spawn_failed) (kill sigterm (record rec { stop_claimed = true })),
    )
stop_step a in_grace rec =
    let now = seen a.exited_within_grace rec in
    if rec.closed
    then (awaiting_result, now)
    else if a.exited_within_grace
    then (awaiting_exit, now)
    else if a.sigkill_ok
    then (awaiting_exit, kill sigkill now)
    else (returned (fail recovery_required), finalize (fail recovery_required) (kill sigkill now))
stop_step a awaiting_exit rec =
    if a.leader_exited
    then (stop_closing, observe_leader_terminated_once rec)
    else (returned (fail recovery_required), finalize (fail recovery_required) rec)
stop_step a stop_closing rec =
    if rec.closed then (awaiting_result, rec) else (stop_group_wait a.reap_ok, close_and_reap rec)
stop_step a (stop_group_wait reap_ok) rec =
    (returned (settled reap_ok a.group_gone), finalize (settled reap_ok a.group_gone) rec)
stop_step a awaiting_result rec =
    (await_result a.taken rec.outcome a.context_ended a.timer_ended, rec)
stop_step a (returned r) rec = (returned r, rec)

-- The record, its observer, and the calls of Stop there have been.
pub record Supervision : Type 0 where
  pub run : RunRecord
  pub observer : ObserverPc
  pub stops : List StopPc

abbrev pub started : Supervision
started = record { run = new_record; observer = peeking; stops = [] }

-- Any actor takes its next step, or another Stop is called.
pub data SupervisionStep (s : Supervision) : Supervision → Type 0 where
  observed :
      {s' : Supervision} (o : Observation)
      → s' ≡ record s {
        run = (observe_step o s.observer s.run).1;
        observer = (observe_step o s.observer s.run).0;
      }
      → SupervisionStep s s'
  called : {s' : Supervision} → s' ≡ record s { stops = entering ∷ s.stops } → SupervisionStep s s'
  stepped :
      {s' : Supervision} (a : StopAnswers) (before after : List StopPc) (pc : StopPc)
      → s.stops ≡ before ++ pc ∷ after
      → s' ≡ record s {
        run = (stop_step a pc s.run).1;
        stops = before ++ (stop_step a pc s.run).0 ∷ after;
      }
      → SupervisionStep s s'

pub data SupervisionSteps (s : Supervision) : Supervision → Type 0 where
  at_start : SupervisionSteps s s
  next :
      {s' s'' : Supervision}
      → SupervisionSteps s s'
      → SupervisionStep s' s''
      → SupervisionSteps s s''
