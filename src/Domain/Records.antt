-- ===== src/Domain/Records.antt =====
-- internal/core/domain/records.go and ids.go. Identifiers are opaque strings; an instant is the
-- number that the clock read, since the engine only stores it. A status or kind that a request
-- can carry has one constructor more, for any other string; nothing else can produce one.
use harnessing.Prelude.{ℕ, String, Bool, false, true, Option, List, str_eq}

pub data TaskStatus : Type 0 where
  todo doing blocked awaiting_review done : TaskStatus
  other_status : String → TaskStatus

pub data MessageKind : Type 0 where
  request inform result : MessageKind
  other_kind : String → MessageKind

pub data RunState : Type 0 where
  starting running stopping exited run_recovery_required : RunState

pub data OperationState : Type 0 where
  pending op_running succeeded failed op_recovery_required : OperationState

pub data TaskResultDecision : Type 0 where
  undecided accepted rejected : TaskResultDecision

pub data EntryMechanism : Type 0 where
  no_mechanism command : EntryMechanism

pub data IdentityVerification : Type 0 where
  no_verification unverified : IdentityVerification

-- `==` on the string type TaskStatus
abbrev pub status_eq : TaskStatus → TaskStatus → Bool
status_eq todo todo = true
status_eq doing doing = true
status_eq blocked blocked = true
status_eq awaiting_review awaiting_review = true
status_eq done done = true
status_eq (other_status a) (other_status b) = str_eq a b
status_eq _ _ = false

pub record Provenance : Type 0 where
  pub claimed_agent_id : String
  pub entry_mechanism : EntryMechanism
  pub recorded_at : ℕ
  pub identity_verification : IdentityVerification

pub record StatusChange : Type 0 where
  pub task_revision : ℕ
  pub from_status : Option TaskStatus
  pub to_status : TaskStatus
  pub provenance : Provenance

pub record Agent : Type 0 where
  pub id : String
  pub display_name : String
  pub profile_id : String
  pub provenance : Provenance
  pub last_updated_provenance : Option Provenance

pub record Task : Type 0 where
  pub id : String
  pub title : String
  pub assignee_id : String
  pub status : TaskStatus
  pub revision : ℕ
  pub current_result_id : Option String
  pub provenance : Provenance
  pub last_status_change : Option StatusChange

pub record TaskResult : Type 0 where
  pub result_id : String
  pub task_id : String
  pub summary : String
  pub artifacts : List String
  pub provenance : Provenance
  pub decision : TaskResultDecision
  pub decision_reason : String
  pub decision_provenance : Provenance

pub record Message : Type 0 where
  pub workspace_id : String
  pub message_id : String
  pub sender_agent_id : String
  pub recipient_agent_id : String
  pub kind : MessageKind
  pub body : String
  pub created_at : ℕ
  pub task_id : Option String
  pub reply_to_message_id : Option String
  pub provenance : Provenance
  pub queued_at : Option ℕ
  pub published_at : Option ℕ
  pub processed_at : Option ℕ
  pub acknowledged_by : String
  pub acknowledged_at : Option ℕ

pub record ExecutionSpec : Type 0 where
  pub profile_id : String
  pub args : List String
  pub working_directory : String
  pub environment_refs : List String
  pub context_transport : String

pub record Profile : Type 0 where
  pub profile_id : String
  pub spec : ExecutionSpec
  pub provenance : Provenance

pub record Run : Type 0 where
  pub id : String
  pub agent_id : String
  pub profile_id : String
  pub state : RunState
  pub revision : ℕ
  pub provenance : Provenance
  pub dispatch_attempted_at : Option ℕ
  pub started_at : Option ℕ
  pub exited_at : Option ℕ
  pub exit_reason : String

pub record Operation : Type 0 where
  pub id : String
  pub run_id : String
  pub kind : String
  pub state : OperationState
  pub created_at : ℕ
  pub completed_at : Option ℕ
  pub outcome : String

pub record RunParticipationContext : Type 0 where
  pub workspace_id : String
  pub run_id : String
  pub agent_id : String
  pub task_id : Option String
  pub peer_agent_id : Option String

pub record Receipt : Type 0 where
  pub request_id : String
  pub committed_revision : ℕ
  pub operation_id : Option String

-- `Payload` is never set by the engine and is left out.
pub record Event : Type 0 where
  pub id : String
  pub kind : String
  pub schema_version : ℕ
  pub workspace_revision : ℕ
  pub timestamp : ℕ
  pub subject_ids : List String

pub record Snapshot : Type 0 where
  pub workspace_id : String
  pub revision : ℕ
  pub cursor : String
  pub agents : List Agent
  pub tasks : List Task
  pub task_results : List TaskResult
  pub messages : List Message
  pub profiles : List Profile
  pub runs : List Run
  pub operations : List Operation
