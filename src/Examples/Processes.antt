-- ===== src/Examples/Processes.antt =====
-- A run that is stopped while another Stop waits.
use harnessing.Prelude.{◌*◌, Bool, true, false, none, some, [], ◌∷◌, ◌≡◌, refl, arith}
use harnessing.Domain.Errors.{fail, recovery_required}
use harnessing.Supervisor.{
  new_record, StopPc, entering, in_grace, awaiting_exit, stop_closing, stop_group_wait,
  awaiting_result, on_timer, Observation, peeking, others_live, StopAnswers, observe_step,
  stop_step, Supervision, started, observed, called, stepped, SupervisionSteps, at_start, next,
}
use harnessing.Supervisor.Observing.{
  leader_exited, no_process, wait_leader_exited, wait_leader_exited_within_grace, wait_group_gone,
  rounds, Sightings, waits_return,
}
use harnessing.Supervisor.Launch.{LaunchAnswers}
use harnessing.Supervisor.Ownership.{IsSafe, reachable-IsSafe}
use harnessing.Supervisor.Stopping.{IsAnswer, stop_step-IsAnswer}

abbrev observation : Observation
observation = record { peek = some true; members = others_live; reap_ok = true; group_gone = true }

abbrev answers : StopAnswers
answers = record {
  sigterm_ok = true;
  exited_within_grace = false;
  sigkill_ok = true;
  leader_exited = true;
  reap_ok = true;
  group_gone = true;
  context_ended = none;
  timer_ended = true;
  taken = on_timer;
}

-- The leader has exited, but not another member of its group.
abbrev observed_once : Supervision
observed_once = record {
  run = (observe_step observation peeking new_record).1;
  observer = (observe_step observation peeking new_record).0;
  stops = [];
}

abbrev two_called : Supervision
two_called = record observed_once { stops = entering ∷ entering ∷ [] }

-- One of two Stops takes a step.
abbrev first_steps : Supervision → StopPc → StopPc → Supervision
first_steps s pc other = record s {
  run = (stop_step answers pc s.run).1;
  stops = (stop_step answers pc s.run).0 ∷ other ∷ [];
}

abbrev claimed : Supervision
claimed = first_steps two_called entering entering

abbrev killed : Supervision
killed = first_steps claimed in_grace entering

killed-SupervisionSteps : SupervisionSteps started killed
unfolding observe_step stop_step
killed-SupervisionSteps =
    next
      (next (next (next (next at_start (observed observation refl)) (called refl)) (called refl))
        (stepped answers [] (entering ∷ []) entering refl refl))
      (stepped answers [] (entering ∷ []) in_grace refl refl)

reachable-IsSafe_example : IsSafe killed.run
reachable-IsSafe_example = reachable-IsSafe killed killed-SupervisionSteps

-- Its timer has run out, and the select takes that case.
stop_step-IsAnswer_example :
    IsAnswer answers awaiting_result
      (stop_step answers awaiting_result killed.run).1
      (fail recovery_required)
unfolding observe_step stop_step
stop_step-IsAnswer_example =
    stop_step-IsAnswer answers awaiting_result killed.run (fail recovery_required) refl refl

abbrev reaped : Supervision
reaped = first_steps (first_steps killed awaiting_exit entering) stop_closing entering

abbrev stopped : Supervision
stopped = first_steps reaped (stop_group_wait true) entering

abbrev shell_answers : LaunchAnswers
shell_answers = record {
  on_path = true;
  context_written = true;
  stdout_pipe = true;
  stderr_pipe = true;
  spawned = true;
  peeks = some false ∷ some false ∷ [];
  reap_ok = true;
}

waits_return_example :
    (exited within gone : Bool) × (wait_leader_exited
        (λ i. leader_exited)
        (λ i. i * 10)
        25
        (rounds 25)
      ≡ some exited)
    × (wait_leader_exited_within_grace
          (λ i. leader_exited)
          (λ i. false)
          (λ i. i * 10)
          25
          (rounds 25)
        ≡ some within)
    × (wait_group_gone (λ i. no_process) (λ i. i * 10) 25 (rounds 25) ≡ some gone)
    × Sightings (λ i. leader_exited) (λ i. no_process) exited within gone
waits_return_example =
    waits_return (λ i. leader_exited) (λ i. no_process) (λ i. false) (λ i. i * 10) 25
      (λ i. omega arith)
