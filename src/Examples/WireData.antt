-- ===== src/Examples/WireData.antt =====
-- A JSON that needs no parsing, for the transport.
use harnessing.Prelude.{String, Bool, Option, none, some, List}
use harnessing.Domain.Records.{Receipt, Agent, Task, Message, Run, Operation, Snapshot, Event}
use harnessing.Api.{
  RegisterAgentRequest, UpdateAgentRequest, CreateTaskRequest, TransitionTaskRequest,
  ReportTaskResultRequest, AcceptTaskResultRequest, RejectTaskResultRequest, SendMessageRequest,
  AcknowledgeMessageRequest, StartRunRequest, ApproveProfileRequest, StopRunRequest,
  SetRunBudgetRequest,
}
use harnessing.Host.{
  Command, registering, updating, creating, transitioning, reporting, accepting, rejecting, sending,
  acknowledging, approving, starting, stopping,
}
use harnessing.Journal.{RunOutput}
use harnessing.Transport.{Envelope, Response, ErrorInfo, AttachPayload, HostMarker}
use harnessing.Transport.Session.{
  OutputQuery, Value, a_receipt, an_agent, a_task, a_message, a_run, an_operation, a_snapshot,
  an_output, some_events,
}

pub data Json : Type 0 where
  empty : Json
  asking : String → Json
  asking_with : String → Json → Json
  responding : Bool → Option ErrorInfo → Json
  responding_with : Bool → Json → Option ErrorInfo → Json
  answering : Value → Json
  commanding : Command → Json
  budget : SetRunBudgetRequest → Json
  text : String → Json
  query : OutputQuery → Json
  advertising : HostMarker → Json
  attaching : AttachPayload → Json

abbrev pub envelope_json : Envelope Json → Json
envelope_json env = elim env.payload [
  | none ↦ asking env.operation
  | some p ↦ asking_with env.operation p
]

abbrev pub envelope_of : Json → Option (Envelope Json)
envelope_of (asking s) = some (record { operation = s; payload = none })
envelope_of (asking_with s p) = some (record { operation = s; payload = some p })
envelope_of _ = none

abbrev pub response_json : Response Json → Json
response_json r = elim r.result [
  | none ↦ responding r.ok r.error
  | some b ↦ responding_with r.ok b r.error
]

abbrev pub response_of : Json → Option (Response Json)
response_of (responding b e) = some (record { ok = b; result = none; error = e })
response_of (responding_with b x e) = some (record { ok = b; result = some x; error = e })
response_of _ = none

abbrev pub text_of : Json → Option String
text_of (text s) = some s
text_of _ = none

abbrev pub budget_of : Json → Option SetRunBudgetRequest
budget_of (budget r) = some r
budget_of _ = none

abbrev pub query_of : Json → Option OutputQuery
query_of (query q) = some q
query_of _ = none

abbrev pub marker_of : Json → Option HostMarker
marker_of (advertising m) = some m
marker_of _ = none

abbrev pub attach_of : Json → Option AttachPayload
attach_of (attaching a) = some a
attach_of _ = none

abbrev pub register_agent_of : Json → Option RegisterAgentRequest
register_agent_of (commanding (registering r)) = some r
register_agent_of _ = none

abbrev pub update_agent_of : Json → Option UpdateAgentRequest
update_agent_of (commanding (updating r)) = some r
update_agent_of _ = none

abbrev pub create_task_of : Json → Option CreateTaskRequest
create_task_of (commanding (creating r)) = some r
create_task_of _ = none

abbrev pub transition_task_of : Json → Option TransitionTaskRequest
transition_task_of (commanding (transitioning r)) = some r
transition_task_of _ = none

abbrev pub report_task_result_of : Json → Option ReportTaskResultRequest
report_task_result_of (commanding (reporting r)) = some r
report_task_result_of _ = none

abbrev pub accept_task_result_of : Json → Option AcceptTaskResultRequest
accept_task_result_of (commanding (accepting r)) = some r
accept_task_result_of _ = none

abbrev pub reject_task_result_of : Json → Option RejectTaskResultRequest
reject_task_result_of (commanding (rejecting r)) = some r
reject_task_result_of _ = none

abbrev pub send_message_of : Json → Option SendMessageRequest
send_message_of (commanding (sending r)) = some r
send_message_of _ = none

abbrev pub acknowledge_message_of : Json → Option AcknowledgeMessageRequest
acknowledge_message_of (commanding (acknowledging r)) = some r
acknowledge_message_of _ = none

abbrev pub approve_profile_of : Json → Option ApproveProfileRequest
approve_profile_of (commanding (approving r)) = some r
approve_profile_of _ = none

abbrev pub start_run_of : Json → Option StartRunRequest
start_run_of (commanding (starting r)) = some r
start_run_of _ = none

abbrev pub stop_run_of : Json → Option StopRunRequest
stop_run_of (commanding (stopping r)) = some r
stop_run_of _ = none

abbrev pub receipt_of : Json → Option Receipt
receipt_of (answering (a_receipt x)) = some x
receipt_of _ = none

abbrev pub agent_of : Json → Option Agent
agent_of (answering (an_agent x)) = some x
agent_of _ = none

abbrev pub task_of : Json → Option Task
task_of (answering (a_task x)) = some x
task_of _ = none

abbrev pub message_of : Json → Option Message
message_of (answering (a_message x)) = some x
message_of _ = none

abbrev pub run_of : Json → Option Run
run_of (answering (a_run x)) = some x
run_of _ = none

abbrev pub operation_of : Json → Option Operation
operation_of (answering (an_operation x)) = some x
operation_of _ = none

abbrev pub snapshot_of : Json → Option Snapshot
snapshot_of (answering (a_snapshot x)) = some x
snapshot_of _ = none

abbrev pub output_of : Json → Option RunOutput
output_of (answering (an_output x)) = some x
output_of _ = none

abbrev pub events_of : Json → Option (List Event)
events_of (answering (some_events x)) = some x
events_of _ = none
