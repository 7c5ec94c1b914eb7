-- ===== src/Supervisor/Stopping.antt =====
-- What a Stop of internal/adapters/process/supervisor.go answers.
use harnessing.Prelude.{Bool, true, false, Option, none, some, ◌≡◌, refl, ◌⊎◌, inl, inr, arith}
use harnessing.Domain.Errors.{GoError, Result, err, fail, recovery_required}
use harnessing.Supervisor.{
  RunRecord, StopPc, entering, in_grace, awaiting_exit, stop_closing, stop_group_wait,
  awaiting_result, returned, Arm, on_done, on_context, on_timer, StopAnswers, stop_step,
  first_ready, await_result,
}

-- The context has ended with this error, or the timer has run out.
abbrev pub IsGivingUp : Option GoError → Bool → Result (Unit {0}) → Type 0
IsGivingUp context timer r =
    ((e : GoError) × ((context ≡ some e) × (r ≡ err e)))
    ⊎ ((timer ≡ true) × (r ≡ fail recovery_required))

module _ (r : Result (Unit {0})) where
  first_ready-answer :
      (outcome : Option (Result (Unit {0}))) (context : Option GoError) (timer : Bool)
      → first_ready outcome context timer ≡ returned r
      → (outcome ≡ some r) ⊎ IsGivingUp context timer r
  first_ready-answer (some x) context timer e = inl (cc)
  first_ready-answer none (some x) timer e = inr (inl (x, (refl, cc)))
  first_ready-answer none none true e = inr (inr (refl, cc))
  first_ready-answer none none false e = cc

  await_result-answer :
      (t : Arm) (outcome : Option (Result (Unit {0}))) (context : Option GoError) (timer : Bool)
      → await_result t outcome context timer ≡ returned r
      → (outcome ≡ some r) ⊎ IsGivingUp context timer r
  await_result-answer on_done outcome context timer e = first_ready-answer outcome context timer e
  await_result-answer on_context outcome (some x) timer e = inr (inl (x, (refl, cc)))
  await_result-answer on_context outcome none timer e = first_ready-answer outcome none timer e
  await_result-answer on_timer outcome context true e = inr (inr (refl, cc))
  await_result-answer on_timer outcome context false e = first_ready-answer outcome context false e

-- The outcome of the record, or the end of the wait for it.
abbrev pub IsAnswer : StopAnswers → StopPc → RunRecord → Result (Unit {0}) → Type 0
IsAnswer a pc run r =
    (run.outcome ≡ some r) ⊎ ((pc ≡ awaiting_result) × IsGivingUp a.context_ended a.timer_ended r)

-- Whether a Stop has yet to return.
abbrev pub is_under_way : StopPc → Bool
is_under_way (returned r) = false
is_under_way _ = true

-- The step with which a Stop returns gives the outcome of the record; or the Stop was waiting for
-- that outcome and gives the error of its context, which has ended, or RecoveryRequired, as its
-- timer has run out.
pub stop_step-IsAnswer :
    (a : StopAnswers) (pc : StopPc) (run : RunRecord) (r : Result (Unit {0}))
    → is_under_way pc ≡ true
    → (stop_step a pc run).0 ≡ returned r
    → IsAnswer a pc (stop_step a pc run).1 r
unfolding stop_step
stop_step-IsAnswer a entering run r h e = inl (ground (arith, e))
stop_step-IsAnswer a in_grace run r h e = inl (ground (arith, e))
stop_step-IsAnswer a awaiting_exit run r h e = inl (ground (arith, e))
stop_step-IsAnswer a stop_closing run r h e = inl (ground (arith, e))
stop_step-IsAnswer a (stop_group_wait b) run r h e = inl (ground (arith, e))
stop_step-IsAnswer a awaiting_result run r h e =
    elim (await_result-answer r a.taken run.outcome a.context_ended a.timer_ended e) [
      | inl there ↦ inl there
      | inr gave_up ↦ inr (refl, gave_up)
    ]
stop_step-IsAnswer a (returned s) run r h e = cc
