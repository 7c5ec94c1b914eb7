-- ===== src/Engine/Dispatch/Attempts.antt =====
-- Once a run's dispatch marker is set, no command of internal/core/task/engine.go clears it.
use harnessing.Prelude.{
  ℕ, String, Bool, true, false, Option, none, some, List, [], ◌∷◌, ◌++◌, set, ◌≡◌, refl, arith,
  eq_iff, Option-cases, inl, inr, ◌⊎◌,
}
use harnessing.Domain.Errors.{Result, ok}
use harnessing.Domain.Records.{Run, Snapshot, Event, stopping, run_recovery_required}
use harnessing.Api.{StartRunRequest}
use harnessing.Table.{find_run, find_profile, run_id, entry}
use harnessing.Table.Laws.{find-append, find-set, key-find}
use harnessing.Engine.Scope.{Ambient}
use harnessing.Engine.Commit.{Mutation}
use harnessing.Engine.Tasks.{
  create_task_mutation, transition_task_mutation, report_task_result_mutation,
}
use harnessing.Engine.Reviews.{accept_task_result_mutation, reject_task_result_mutation}
use harnessing.Engine.Agents.{register_agent_mutation, update_agent_mutation}
use harnessing.Engine.Messages.{
  send_message_mutation, acknowledge_message_mutation, delivery_fact_mutation,
}
use harnessing.Engine.Profiles.{approve_profile_mutation}
use harnessing.Engine.Runs.Start.{
  start_intent_mutation, start_marker_mutation, start_observation_mutation, is_attempted,
  after_start, intended, marker_at, observation_at,
}
use harnessing.Engine.Runs.Stop.{
  stop_intent_mutation, stop_outcome_mutation, after_stop, stop_at, stop_outcome_at,
}
use harnessing.Engine.Runs.Reconcile.{reconcile_mutation, reconcile_at}
use harnessing.Engine.Mutations.{
  IsMutation, start_intent, start_marker, start_observation, stop_intent, stop_outcome,
  reconciliation,
}

abbrev attempted_of : Option Run → Bool
attempted_of none = false
attempted_of (some run) = is_attempted run.dispatch_attempted_at

-- The run is there, with its dispatch marker.
abbrev pub attempted : String → List Run → Bool
attempted r runs = attempted_of (entry run_id r runs)

attempted-append :
    (r : String) (runs : List Run) (run : Run)
    → attempted r runs ≡ true
    → attempted r (runs ++ run ∷ []) ≡ true
attempted-append r runs run h = ground (arith, find-append run_id r runs run)

attempted-set :
    (r k : String) (runs : List Run) (i : ℕ) (run run' : Run)
    → find_run k runs ≡ some (i, run)
    → run'.id ≡ run.id
    → (is_attempted run.dispatch_attempted_at ≡ true
        → is_attempted run'.dispatch_attempted_at ≡ true)
    → attempted r runs ≡ true
    → attempted r (set runs i run') ≡ true
attempted-set r k runs i run run' found same keeps h = ground (
  arith,
  find-set run_id k r runs i run run' found,
  key-find run_id k runs found,
  eq_iff k r,
  keeps,
)

-- How a command may change the runs.
data Rewrites (runs runs' : List Run) : Type 0 where
  same : runs' ≡ runs → Rewrites runs runs'
  added : (run : Run) → runs' ≡ runs ++ run ∷ [] → Rewrites runs runs'
  changed :
      (k : String) (i : ℕ) (run run' : Run)
      → find_run k runs ≡ some (i, run)
      → run'.id ≡ run.id
      → (is_attempted run.dispatch_attempted_at ≡ true
          → is_attempted run'.dispatch_attempted_at ≡ true)
      → runs' ≡ set runs i run'
      → Rewrites runs runs'

Rewrites-attempted :
    (r : String) (runs runs' : List Run)
    → Rewrites runs runs'
    → attempted r runs ≡ true
    → attempted r runs' ≡ true
Rewrites-attempted r runs runs' (same e) h = rw e h
Rewrites-attempted r runs runs' (added run e) h = rw e (attempted-append r runs run h)
Rewrites-attempted r runs runs' (changed k i run run' found id keeps e) h =
    rw e (attempted-set r k runs i run run' found id keeps h)

module _ (snap snap' : Snapshot) (evs : List Event) where
  -- A command that writes the run of one identifier, by a function that keeps the marker.
  written_run :
      (k : String) (change : Run → Run) (at : Option (ℕ × Run) → Result (Snapshot × List Event))
      → ((run : Run) → (change run).id ≡ run.id)
      → ((run : Run)
          → is_attempted run.dispatch_attempted_at ≡ true
          → is_attempted (change run).dispatch_attempted_at ≡ true)
      → (at none ≡ ok (snap', evs) → snap'.runs ≡ snap.runs)
      → ((i : ℕ) (run : Run)
          → at (some (i, run)) ≡ ok (snap', evs)
          → (snap'.runs ≡ set snap.runs i (change run)) ⊎ (snap'.runs ≡ snap.runs))
      → at (find_run k snap.runs) ≡ ok (snap', evs)
      → Rewrites snap.runs snap'.runs
  written_run k change at id keeps missing there h = elim (Option-cases (find_run k snap.runs)) [
    | inl n ↦ same (missing (rw n at h))
    | inr ((i, run), found) ↦ elim (there i run (rw found at h)) [
      | inl e ↦ changed k i run (change run) found (id run) (keeps run) e
      | inr e ↦ same e
    ]
  ]

  mutation-Rewrites :
      (m : Mutation) → IsMutation m → m snap ≡ ok (snap', evs) → Rewrites snap.runs snap'.runs
  unfolding create_task_mutation transition_task_mutation report_task_result_mutation
      accept_task_result_mutation reject_task_result_mutation register_agent_mutation
      update_agent_mutation send_message_mutation acknowledge_message_mutation
      delivery_fact_mutation approve_profile_mutation start_intent_mutation start_marker_mutation
      start_observation_mutation stop_intent_mutation stop_outcome_mutation reconcile_mutation
  mutation-Rewrites m (start_intent a b caller req c) e =
      elim (Option-cases (find_profile req.profile_id snap.profiles)) [
        | inl n ↦ absurd (ground arith)
        | inr ((i, profile), found) ↦ added (intended a caller req) (ground arith)
      ]
  mutation-Rewrites m (start_marker a req) e =
      written_run req.run_id (λ run. record run { dispatch_attempted_at = some a.now })
        (marker_at a req snap) (λ run. refl) (λ run h. refl) (λ h. cc)
        (λ i run h. inl (ground arith)) e
  mutation-Rewrites m (start_observation a req none) e =
      written_run req.run_id (after_start none a.now) (observation_at a req none snap) (λ run. refl)
        (λ run h. h) (λ h. cc) (λ i run h. inl (ground arith)) e
  mutation-Rewrites m (start_observation a req (some x)) e =
      written_run req.run_id (after_start (some x) a.now) (observation_at a req (some x) snap)
        (λ run. refl) (λ run h. h) (λ h. cc) (λ i run h. inl (ground arith)) e
  mutation-Rewrites m (stop_intent a caller req) e =
      written_run req.run_id (λ run. record run { state = stopping }) (stop_at a caller req snap)
        (λ run. refl) (λ run h. h) (λ h. cc) (λ i run h. inl (ground arith)) e
  mutation-Rewrites m (stop_outcome a req none) e =
      written_run req.run_id (after_stop none a.now) (stop_outcome_at a req none snap) (λ run. refl)
        (λ run h. h) (λ h. cc) (λ i run h. inl (ground arith)) e
  mutation-Rewrites m (stop_outcome a req (some x)) e =
      written_run req.run_id (after_stop (some x) a.now) (stop_outcome_at a req (some x) snap)
        (λ run. refl) (λ run h. h) (λ h. cc) (λ i run h. inl (ground arith)) e
  mutation-Rewrites m (reconciliation a run_id) e =
      written_run run_id (λ run. record run { state = run_recovery_required })
        (reconcile_at a run_id snap) (λ run. refl) (λ run h. h) (λ h. ground arith)
        (λ i run h. ground arith) e
  mutation-Rewrites m _ e = same (ground arith)

  pub mutation-attempted :
      (m : Mutation) (r : String)
      → IsMutation m
      → m snap ≡ ok (snap', evs)
      → attempted r snap.runs ≡ true
      → attempted r snap'.runs ≡ true
  mutation-attempted m r im e h =
      Rewrites-attempted r snap.runs snap'.runs (mutation-Rewrites m im e) h

  -- The marker's commit finds the run without a marker and leaves it with one.
  pub start_marker-attempted :
      (a : Ambient) (req : StartRunRequest)
      → start_marker_mutation a req snap ≡ ok (snap', evs)
      → (attempted req.run_id snap.runs ≡ false) × (attempted req.run_id snap'.runs ≡ true)
  unfolding start_marker_mutation
  start_marker-attempted a req e = elim (Option-cases (find_run req.run_id snap.runs)) [
    | inl n ↦ absurd (ground arith)
    | inr ((i, run), found) ↦
        let run' : Run = record run { dispatch_attempted_at = some a.now } in
        let p : (snap'.runs ≡ set snap.runs i run')
            × (is_attempted run.dispatch_attempted_at ≡ false) =
          ground arith in
        (
          rw found p.1,
          rw (p.0) (
              ground (
                arith,
                find-set run_id req.run_id req.run_id snap.runs i run run' found,
                key-find run_id req.run_id snap.runs found,
                eq_iff req.run_id req.run_id,
              )),
        )
  ]
