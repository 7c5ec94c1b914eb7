-- ===== src/Engine/Mutations.antt =====
-- The Mutate functions that internal/core/task/engine.go hands to the store, each with the checks
-- that its command makes first.
use harnessing.Prelude.{String, Bool, Option, ◌≡◌}
use harnessing.Domain.Errors.{GoError, ok}
use harnessing.Api.{
  CreateTaskRequest, TransitionTaskRequest, ReportTaskResultRequest, AcceptTaskResultRequest,
  RejectTaskResultRequest, RegisterAgentRequest, UpdateAgentRequest, SendMessageRequest,
  AcknowledgeMessageRequest, ApproveProfileRequest, StartRunRequest, StopRunRequest,
}
use harnessing.Engine.Scope.{CallerScope, Ambient}
use harnessing.Engine.Commit.{Mutation}
use harnessing.Engine.Tasks.{
  check_create_task, create_task_mutation, check_transition_task, transition_task_mutation,
  check_report_task_result, report_task_result_mutation,
}
use harnessing.Engine.Reviews.{
  check_accept_task_result, accept_task_result_mutation, check_reject_task_result,
  reject_task_result_mutation,
}
use harnessing.Engine.Agents.{
  check_register_agent, register_agent_mutation, check_update_agent, update_agent_mutation,
}
use harnessing.Engine.Messages.{
  check_send_message, send_message_mutation, acknowledge_message_mutation, delivery_fact_mutation,
  note_published, note_processed,
}
use harnessing.Engine.Profiles.{check_approve_profile, approve_profile_mutation}
use harnessing.Engine.Runs.Start.{
  check_start_run, start_intent_mutation, start_marker_mutation, start_observation_mutation,
}
use harnessing.Engine.Runs.Stop.{stop_intent_mutation, stop_outcome_mutation}
use harnessing.Engine.Runs.Reconcile.{reconcile_mutation}

pub data IsMutation : Mutation → Type 0 where
  creation :
      (a : Ambient) (caller : CallerScope) (req : CreateTaskRequest)
      → check_create_task req ≡ ok tt
      → IsMutation (create_task_mutation a caller req)
  transition :
      (a : Ambient) (caller : CallerScope) (req : TransitionTaskRequest)
      → check_transition_task caller req ≡ ok tt
      → IsMutation (transition_task_mutation a caller req)
  report :
      (a : Ambient) (caller : CallerScope) (req : ReportTaskResultRequest)
      → check_report_task_result req ≡ ok tt
      → IsMutation (report_task_result_mutation a caller req)
  acceptance :
      (a : Ambient) (caller : CallerScope) (req : AcceptTaskResultRequest)
      → check_accept_task_result caller ≡ ok tt
      → IsMutation (accept_task_result_mutation a caller req)
  rejection :
      (a : Ambient) (caller : CallerScope) (req : RejectTaskResultRequest)
      → check_reject_task_result caller req ≡ ok tt
      → IsMutation (reject_task_result_mutation a caller req)
  registration :
      (a : Ambient) (caller : CallerScope) (req : RegisterAgentRequest)
      → check_register_agent caller req ≡ ok tt
      → IsMutation (register_agent_mutation a caller req)
  agent_update :
      (a : Ambient) (caller : CallerScope) (req : UpdateAgentRequest)
      → check_update_agent caller req ≡ ok tt
      → IsMutation (update_agent_mutation a caller req)
  sending :
      (a : Ambient) (workspace : String) (caller : CallerScope) (req : SendMessageRequest)
      → check_send_message req ≡ ok tt
      → IsMutation (send_message_mutation a workspace caller req)
  acknowledgement :
      (a : Ambient) (caller : CallerScope) (req : AcknowledgeMessageRequest)
      → IsMutation (acknowledge_message_mutation a caller req)
  publication :
      (a : Ambient) (message_id : String)
      → IsMutation (delivery_fact_mutation a "MessagePublished" message_id note_published)
  processing_note :
      (a : Ambient) (message_id : String)
      → IsMutation (delivery_fact_mutation a "MessageProcessed" message_id note_processed)
  approval :
      (a : Ambient) (caller : CallerScope) (req : ApproveProfileRequest)
      → check_approve_profile caller req ≡ ok tt
      → IsMutation (approve_profile_mutation a caller req)
  start_intent :
      (a : Ambient) (has_supervisor : Bool) (caller : CallerScope) (req : StartRunRequest)
      → check_start_run has_supervisor caller req ≡ ok tt
      → IsMutation (start_intent_mutation a caller req)
  start_marker : (a : Ambient) (req : StartRunRequest) → IsMutation (start_marker_mutation a req)
  start_observation :
      (a : Ambient) (req : StartRunRequest) (started : Option GoError)
      → IsMutation (start_observation_mutation a req started)
  stop_intent :
      (a : Ambient) (caller : CallerScope) (req : StopRunRequest)
      → IsMutation (stop_intent_mutation a caller req)
  stop_outcome :
      (a : Ambient) (req : StopRunRequest) (stopped : Option GoError)
      → IsMutation (stop_outcome_mutation a req stopped)
  reconciliation : (a : Ambient) (run_id : String) → IsMutation (reconcile_mutation a run_id)
