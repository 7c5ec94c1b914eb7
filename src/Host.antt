-- ===== src/Host.antt =====
-- internal/host/host.go: a workspace gives every command the scope of its caller, and a frontend
-- session is bound to one principal. A reader's copies (cloneTask and the like) are the identity on
-- values.
pub mod Authority
pub mod Isolation
pub mod Opening
use harnessing.Prelude.{String, Bool, none, some}
use harnessing.Domain.Errors.{ok, err, Result, coded, unsupported}
use harnessing.Domain.Records.{Receipt}
use harnessing.Api.{
  RegisterAgentRequest, UpdateAgentRequest, CreateTaskRequest, TransitionTaskRequest,
  ReportTaskResultRequest, AcceptTaskResultRequest, RejectTaskResultRequest, SendMessageRequest,
  AcknowledgeMessageRequest, StartRunRequest, ApproveProfileRequest, StopRunRequest,
}
use harnessing.Store.{Faults}
use harnessing.Engine.Scope.{CallerScope, Ambient}
use harnessing.Engine.Commit.{Engine, Io}
use harnessing.Engine.Tasks.{create_task, transition_task, report_task_result}
use harnessing.Engine.Reviews.{accept_task_result, reject_task_result}
use harnessing.Engine.Agents.{register_agent, update_agent}
use harnessing.Engine.Messages.{send_message, acknowledge_message}
use harnessing.Engine.Profiles.{approve_profile}
use harnessing.Engine.Runs.{Answer, no_receipt}
use harnessing.Engine.Runs.Start.{StartInput, start_run}
use harnessing.Engine.Runs.Stop.{StopInput, stop_run}
use harnessing.Engine.Reads.{resolve_request}
use harnessing.Deliverer.{caller}

-- The commands of a workspace.
pub data Command : Type 0 where
  registering : RegisterAgentRequest → Command
  updating : UpdateAgentRequest → Command
  creating : CreateTaskRequest → Command
  transitioning : TransitionTaskRequest → Command
  reporting : ReportTaskResultRequest → Command
  accepting : AcceptTaskResultRequest → Command
  rejecting : RejectTaskResultRequest → Command
  sending : SendMessageRequest → Command
  acknowledging : AcknowledgeMessageRequest → Command
  approving : ApproveProfileRequest → Command
  starting : StartRunRequest → Command
  stopping : StopRunRequest → Command

-- The commands of a session.
pub data SessionCommand : Type 0 where
  commanding : Command → SessionCommand
  budgeting : SessionCommand

-- The answers that a command gets from the clock, the identifiers, the store and the supervisor.
pub record CommandInput : Type 0 where
  pub io : Io
  pub ambient : Ambient
  pub start_input : StartInput
  pub stop_input : StopInput

-- A bound session: the workspace's reviewers, and the principal.
pub record FrontendSession : Type 0 where
  pub reviewers : String → Bool
  pub principal : String

abbrev pub answered : Result Receipt × Engine → Answer × Engine
answered (err x, e) = (record { receipt = no_receipt; error = some x }, e)
answered (ok receipt, e) = (record { receipt = receipt; error = none }, e)

-- A command of the workspace, in the scope of the agent that calls.
unfoldable pub perform :
    CommandInput → (String → Bool) → String → Command → Engine → Answer × Engine
perform i reviewers agent (registering req) e =
    answered (register_agent i.io i.ambient (caller reviewers agent) req e)
perform i reviewers agent (updating req) e =
    answered (update_agent i.io i.ambient (caller reviewers agent) req e)
perform i reviewers agent (creating req) e =
    answered (create_task i.io i.ambient (caller reviewers agent) req e)
perform i reviewers agent (transitioning req) e =
    answered (transition_task i.io i.ambient (caller reviewers agent) req e)
perform i reviewers agent (reporting req) e =
    answered (report_task_result i.io i.ambient (caller reviewers agent) req e)
perform i reviewers agent (accepting req) e =
    answered (accept_task_result i.io i.ambient (caller reviewers agent) req e)
perform i reviewers agent (rejecting req) e =
    answered (reject_task_result i.io i.ambient (caller reviewers agent) req e)
perform i reviewers agent (sending req) e =
    answered (send_message i.io i.ambient (caller reviewers agent) req e)
perform i reviewers agent (acknowledging req) e =
    answered (acknowledge_message i.io i.ambient (caller reviewers agent) req e)
perform i reviewers agent (approving req) e =
    answered (approve_profile i.io i.ambient (caller reviewers agent) req e)
perform i reviewers agent (starting req) e = start_run i.start_input (caller reviewers agent) req e
perform i reviewers agent (stopping req) e = stop_run i.stop_input (caller reviewers agent) req e

-- A session calls the workspace as its principal.
unfoldable pub execute : CommandInput → FrontendSession → SessionCommand → Engine → Answer × Engine
execute i s (commanding c) e = perform i s.reviewers s.principal c e
execute i s budgeting e = (record { receipt = no_receipt; error = some (coded unsupported) }, e)

-- ResolveRequest, for the session's own requests.
unfoldable pub resolve : Faults → FrontendSession → String → Engine → Result Receipt × Engine
resolve f s request e = resolve_request f s.principal request e
