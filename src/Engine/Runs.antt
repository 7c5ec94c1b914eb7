-- ===== src/Engine/Runs.antt =====
-- The runs of internal/core/task/engine.go: what StartRun and StopRun share. A call of the process
-- supervisor is logged in the engine's `calls`, and its answer is an input of the operation.
pub mod Start
pub mod Stop
pub mod Reconcile
use Prim.Native.String.{◌++◌}
use harnessing.Prelude.{
  ℕ, String, Bool, true, false, Option, none, some, List, [], ◌∷◌, set, str_eq, if◌then◌else◌, ◌&&◌,
}
use harnessing.Domain.Errors.{
  ErrorCode, invalid_argument, not_found, conflict, denied, unsupported, busy, io_failure,
  cursor_expired, recovery_required, missing_tool, authentication_required, network_egress_refused,
  spawn_failed, outcome_uncertain, GoError, domain_error, other_error,
}
use harnessing.Domain.Records.{
  Run, RunState, starting, running, stopping, exited, run_recovery_required, Operation,
  OperationState, Receipt,
}

abbrev pub code_text : ErrorCode → String
code_text invalid_argument = "InvalidArgument"
code_text not_found = "NotFound"
code_text conflict = "Conflict"
code_text denied = "Denied"
code_text unsupported = "Unsupported"
code_text busy = "Busy"
code_text io_failure = "IOFailure"
code_text cursor_expired = "CursorExpired"
code_text recovery_required = "RecoveryRequired"
code_text missing_tool = "MissingTool"
code_text authentication_required = "AuthenticationRequired"
code_text network_egress_refused = "NetworkEgressRefused"
code_text spawn_failed = "SpawnFailed"
code_text outcome_uncertain = "OutcomeUncertain"

-- startErrorCode
abbrev pub start_error_code : GoError → String
start_error_code (domain_error e) = code_text e.code
start_error_code (other_error s) = code_text spawn_failed

abbrev pub start_operation_id : String → String
start_operation_id run_id = run_id ++ "-start"

abbrev pub stop_operation_id : String → String
stop_operation_id run_id = run_id ++ "-stop"

-- The states in which a run holds its agent.
abbrev pub is_active : RunState → Bool
is_active starting = true
is_active running = true
is_active stopping = true
is_active exited = false
is_active run_recovery_required = true

-- findActiveRunForAgent
unfoldable pub find_active_run_for_agent : String → List Run → Option String
find_active_run_for_agent agent_id [] = none
find_active_run_for_agent agent_id (r ∷ rs) =
    let rest = find_active_run_for_agent agent_id rs in
    if str_eq r.agent_id agent_id && is_active r.state then some r.id else rest

-- Go returns a receipt beside an error too.
pub record Answer : Type 0 where
  pub receipt : Receipt
  pub error : Option GoError

abbrev pub no_receipt : Receipt
no_receipt = record { request_id = ""; committed_revision = 0; operation_id = none }

abbrev pub failed_with : GoError → Answer
failed_with e = record { receipt = no_receipt; error = some e }

abbrev pub is_error : Option GoError → Bool
is_error none = false
is_error (some e) = true

-- `if opIdx, _, found := findOperation(…); found { … }`
abbrev pub settle :
    OperationState → Option ℕ → String → List Operation → Option (ℕ × Operation) → List Operation
settle state at outcome ops none = ops
settle state at outcome ops (some (i, op)) =
    set ops i (record op { state = state; completed_at = at; outcome = outcome })

abbrev pub set_operation_state :
    OperationState → List Operation → Option (ℕ × Operation) → List Operation
set_operation_state state ops none = ops
set_operation_state state ops (some (i, op)) = set ops i (record op { state = state })
