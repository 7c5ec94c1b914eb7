-- ===== src/Api.antt =====
-- internal/api/api.go: the requests of the frontend session. A nilable pointer keeps the address
-- that Go gave it, because the fingerprint of a request prints that address.
use harnessing.Prelude.{ℕ, String, Option, List}
use harnessing.Domain.Records.{TaskStatus, MessageKind, ExecutionSpec}

pub record Pointer : Type 0 where
  pub address : ℕ
  pub target : String

pub record RegisterAgentRequest : Type 0 where
  pub request_id : String
  pub agent_id : String
  pub display_name : String
  pub profile_id : String

pub record UpdateAgentRequest : Type 0 where
  pub request_id : String
  pub agent_id : String
  pub display_name : Option Pointer
  pub profile_id : Option Pointer

pub record CreateTaskRequest : Type 0 where
  pub request_id : String
  pub task_id : String
  pub title : String
  pub assignee_id : String

pub record TransitionTaskRequest : Type 0 where
  pub request_id : String
  pub task_id : String
  pub from_status : TaskStatus
  pub to_status : TaskStatus
  pub reason : String

pub record ReportTaskResultRequest : Type 0 where
  pub request_id : String
  pub task_id : String
  pub result_id : String
  pub expected_task_revision : ℕ
  pub summary : String
  pub artifacts : List String

pub record AcceptTaskResultRequest : Type 0 where
  pub request_id : String
  pub task_id : String
  pub result_id : String
  pub expected_task_revision : ℕ
  pub review_note : String

pub record RejectTaskResultRequest : Type 0 where
  pub request_id : String
  pub task_id : String
  pub result_id : String
  pub expected_task_revision : ℕ
  pub reason : String

-- A Go string, which is UTF-8 or not.
pub data Body : Type 0 where
  utf8 : String → Body
  invalid_utf8 : List ℕ → Body

pub record SendMessageRequest : Type 0 where
  pub request_id : String
  pub message_id : String
  pub sender_agent_id : String
  pub recipient_agent_id : String
  pub kind : MessageKind
  pub body : Body
  pub task_id : Option Pointer
  pub reply_to_message_id : Option Pointer

pub record AcknowledgeMessageRequest : Type 0 where
  pub request_id : String
  pub message_id : String

pub record MessageDeliveryRequest : Type 0 where
  pub request_id : String
  pub message_id : String

pub record ApproveProfileRequest : Type 0 where
  pub request_id : String
  pub profile_id : String
  pub spec : ExecutionSpec

pub record StartRunRequest : Type 0 where
  pub request_id : String
  pub run_id : String
  pub agent_id : String
  pub profile_id : String
  pub task_id : Option Pointer
  pub peer_agent_id : Option Pointer
  pub tool_executable : String
  pub tool_argv : List String

pub record StopRunRequest : Type 0 where
  pub request_id : String
  pub run_id : String
  pub reason : String

pub record SetRunBudgetRequest : Type 0 where
  pub request_id : String
  pub run_id : String
  pub elapsed_time_limit : Option ℕ
  pub reported_token_limit : Option ℕ
