-- ===== src/Engine/Invariants.antt =====
-- Invariants of the state file under every commit of internal/core/task/engine.go.
use harnessing.Prelude.{List, ◌≡◌, arith}
use harnessing.Domain.Errors.{ok}
use harnessing.Domain.Records.{Snapshot, Event}
use harnessing.Engine.Commit.{Mutation}
use harnessing.Engine.Tasks.{
  create_task_mutation, transition_task_mutation, report_task_result_mutation,
}
use harnessing.Engine.Reviews.{accept_task_result_mutation, reject_task_result_mutation}
use harnessing.Engine.Agents.{register_agent_mutation, update_agent_mutation}
use harnessing.Engine.Messages.{
  send_message_mutation, acknowledge_message_mutation, delivery_fact_mutation,
}
use harnessing.Engine.Profiles.{approve_profile_mutation}
use harnessing.Engine.Runs.Start.{
  start_intent_mutation, start_marker_mutation, start_observation_mutation,
}
use harnessing.Engine.Runs.Stop.{stop_intent_mutation, stop_outcome_mutation}
use harnessing.Engine.Runs.Reconcile.{reconcile_mutation}
use harnessing.Engine.Mutations.{IsMutation, creation, transition, report, acceptance, rejection}
use harnessing.Engine.Consistency.{IsConsistent}
use harnessing.Engine.Consistency.Moves.{
  create_task-IsConsistent, transition_task-IsConsistent, report_task_result-IsConsistent,
}
use harnessing.Engine.Consistency.Reviews.{
  accept_task_result-IsConsistent, reject_task_result-IsConsistent,
}

-- The other commands write neither tasks nor results.
abbrev SameTasks : Snapshot → Snapshot → Type 0
SameTasks snap snap' = (snap'.tasks ≡ snap.tasks) × (snap'.task_results ≡ snap.task_results)

pub mutation-IsConsistent :
    (m : Mutation) (snap snap' : Snapshot) (evs : List Event)
    → IsMutation m
    → IsConsistent snap
    → m snap ≡ ok (snap', evs)
    → IsConsistent snap'
unfolding register_agent_mutation update_agent_mutation send_message_mutation
    acknowledge_message_mutation delivery_fact_mutation approve_profile_mutation
    start_intent_mutation start_marker_mutation start_observation_mutation stop_intent_mutation
    stop_outcome_mutation reconcile_mutation
mutation-IsConsistent m snap snap' evs (creation a caller req c) h e =
    create_task-IsConsistent a caller req snap snap' evs h e
mutation-IsConsistent m snap snap' evs (transition a caller req c) h e =
    transition_task-IsConsistent a caller req snap snap' evs c h e
mutation-IsConsistent m snap snap' evs (report a caller req c) h e =
    report_task_result-IsConsistent a caller req snap snap' evs h e
mutation-IsConsistent m snap snap' evs (acceptance a caller req c) h e =
    accept_task_result-IsConsistent a caller req snap snap' evs h e
mutation-IsConsistent m snap snap' evs (rejection a caller req c) h e =
    reject_task_result-IsConsistent a caller req snap snap' evs h e
mutation-IsConsistent m snap snap' evs _ h e =
    let p : SameTasks snap snap' = ground arith in rw (p.0, p.1) h

-- No command's Mutate writes the workspace revision.
pub mutation-revision :
    (m : Mutation) (snap snap' : Snapshot) (evs : List Event)
    → IsMutation m
    → m snap ≡ ok (snap', evs)
    → snap'.revision ≡ snap.revision
unfolding create_task_mutation transition_task_mutation report_task_result_mutation
    accept_task_result_mutation reject_task_result_mutation register_agent_mutation
    update_agent_mutation send_message_mutation acknowledge_message_mutation delivery_fact_mutation
    approve_profile_mutation start_intent_mutation start_marker_mutation start_observation_mutation
    stop_intent_mutation stop_outcome_mutation reconcile_mutation
mutation-revision m snap snap' evs (creation a caller req c) e = ground arith
mutation-revision m snap snap' evs _ e = ground arith
