-- ===== src/Transport/Codec.antt =====
-- The names and the JSON of internal/adapters/transport/dispatch.go and client.go.
use harnessing.Prelude.{
  ℕ, String, Option, none, some, List, [], ◌∷◌, ◌≡◌, refl, str_eq, if◌then◌else◌,
}
use harnessing.Domain.Records.{
  Receipt, Agent, Task, Message, Run, Operation as OperationRecord, Snapshot, Event,
}
use harnessing.Api.{
  RegisterAgentRequest, UpdateAgentRequest, CreateTaskRequest, TransitionTaskRequest,
  ReportTaskResultRequest, AcceptTaskResultRequest, RejectTaskResultRequest, SendMessageRequest,
  AcknowledgeMessageRequest, StartRunRequest, ApproveProfileRequest, StopRunRequest,
  SetRunBudgetRequest,
}
use harnessing.Journal.{RunOutput}
use harnessing.Transport.{Envelope, Response, AttachPayload, HostMarker, Coding}
use harnessing.Transport.Session.{OutputQuery}

-- The operations that the switch of dispatch names.
pub data Operation : Type 0 where
  register_agent update_agent create_task transition_task report_task_result : Operation
  accept_task_result reject_task_result send_message acknowledge_message : Operation
  approve_profile start_run stop_run set_run_budget : Operation
  get_agent get_task get_message get_run read_output get_operation get_snapshot : Operation
  subscribe resolve_request : Operation

abbrev pub operation_text : Operation → String
operation_text register_agent = "RegisterAgent"
operation_text update_agent = "UpdateAgent"
operation_text create_task = "CreateTask"
operation_text transition_task = "TransitionTask"
operation_text report_task_result = "ReportTaskResult"
operation_text accept_task_result = "AcceptTaskResult"
operation_text reject_task_result = "RejectTaskResult"
operation_text send_message = "SendMessage"
operation_text acknowledge_message = "AcknowledgeMessage"
operation_text approve_profile = "ApproveProfile"
operation_text start_run = "StartRun"
operation_text stop_run = "StopRun"
operation_text set_run_budget = "SetRunBudget"
operation_text get_agent = "GetAgent"
operation_text get_task = "GetTask"
operation_text get_message = "GetMessage"
operation_text get_run = "GetRun"
operation_text read_output = "ReadOutput"
operation_text get_operation = "GetOperation"
operation_text get_snapshot = "GetSnapshot"
operation_text subscribe = "Subscribe"
operation_text resolve_request = "ResolveRequest"

abbrev pub operations : List Operation
operations =
    register_agent ∷ update_agent ∷ create_task ∷ transition_task ∷ report_task_result
    ∷ accept_task_result ∷ reject_task_result ∷ send_message ∷ acknowledge_message ∷ approve_profile
    ∷ start_run ∷ stop_run ∷ set_run_budget ∷ get_agent ∷ get_task ∷ get_message ∷ get_run
    ∷ read_output ∷ get_operation ∷ get_snapshot ∷ subscribe ∷ resolve_request ∷ []

abbrev pub named : String → List Operation → Option Operation
named s [] = none
named s (o ∷ os) = let rest = named s os in if str_eq s (operation_text o) then some o else rest

-- The switch, its cases in the order of the source.
unfoldable pub operation_of : String → Option Operation
operation_of s = named s operations

pub operation_of-operation_text : (o : Operation) → operation_of (operation_text o) ≡ some o
unfolding operation_of
operation_of-operation_text register_agent = refl
operation_of-operation_text _ = refl

-- JSON at each type that passes.
pub record Codec (B : Type 0) : Type 0 where
  pub size : B → ℕ
  pub nothing : B
  pub envelope : Coding B (Envelope B)
  pub response : Coding B (Response B)
  pub marker : Coding B HostMarker
  pub attach : Coding B AttachPayload
  pub register_agent : Coding B RegisterAgentRequest
  pub update_agent : Coding B UpdateAgentRequest
  pub create_task : Coding B CreateTaskRequest
  pub transition_task : Coding B TransitionTaskRequest
  pub report_task_result : Coding B ReportTaskResultRequest
  pub accept_task_result : Coding B AcceptTaskResultRequest
  pub reject_task_result : Coding B RejectTaskResultRequest
  pub send_message : Coding B SendMessageRequest
  pub acknowledge_message : Coding B AcknowledgeMessageRequest
  pub approve_profile : Coding B ApproveProfileRequest
  pub start_run : Coding B StartRunRequest
  pub stop_run : Coding B StopRunRequest
  pub set_run_budget : Coding B SetRunBudgetRequest
  pub agent_id : Coding B String
  pub task_id : Coding B String
  pub message_id : Coding B String
  pub run_id : Coding B String
  pub operation_id : Coding B String
  pub request_id : Coding B String
  pub after_cursor : Coding B String
  pub output_query : Coding B OutputQuery
  pub empty_object : Option B
  pub receipt : Coding B Receipt
  pub agent : Coding B Agent
  pub task : Coding B Task
  pub message : Coding B Message
  pub run : Coding B Run
  pub operation : Coding B OperationRecord
  pub snapshot : Coding B Snapshot
  pub output : Coding B RunOutput
  pub events : Coding B (List Event)
