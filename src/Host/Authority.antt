-- ===== src/Host/Authority.antt =====
-- What the sessions of internal/host/host.go can do to the engine.
use harnessing.Prelude.{String, Bool, true, false, ◌≡◌, refl, arith}
use harnessing.Domain.Errors.{Result, ok, err}
use harnessing.Domain.Records.{Receipt}
use harnessing.Engine.Commit.{Engine}
use harnessing.Engine.Reviews.{
  accept_task_result, reject_task_result, check_accept_task_result, check_reject_task_result,
}
use harnessing.Engine.Profiles.{approve_profile, check_approve_profile}
use harnessing.Engine.Tasks.{create_task, transition_task, report_task_result}
use harnessing.Engine.Agents.{register_agent, update_agent}
use harnessing.Engine.Messages.{send_message, acknowledge_message}
use harnessing.Engine.Steps
use harnessing.Engine.Steps.{Steps, none_yet, IsHandler, handler-Steps}
use harnessing.Engine.Lifecycle.{start_run-Steps, stop_run-Steps}
use harnessing.Deliverer.{caller}
use harnessing.Host.{
  Command, registering, updating, creating, transitioning, reporting, accepting, rejecting, sending,
  acknowledging, approving, starting, stopping, budgeting, CommandInput, FrontendSession, answered,
  perform, execute, SessionCommand, commanding,
}

answered-Steps :
    (e : Engine) (h : Engine → Result Receipt × Engine) → IsHandler h → Steps e (answered (h e)).1
answered-Steps e h k = go (h e) (handler-Steps h e k)
  where
    go : (r : Result Receipt × Engine) → Steps e r.1 → Steps e (answered r).1
    go (err x, e') s = s
    go (ok receipt, e') s = s

perform-Steps :
    (i : CommandInput) (reviewers : String → Bool) (agent : String) (c : Command) (e : Engine)
    → Steps e (perform i reviewers agent c e).1
unfolding perform
perform-Steps i reviewers agent (registering req) e =
    answered-Steps e (register_agent i.io i.ambient (caller reviewers agent) req)
      (Steps.registering i.io i.ambient (caller reviewers agent) req)
perform-Steps i reviewers agent (updating req) e =
    answered-Steps e (update_agent i.io i.ambient (caller reviewers agent) req)
      (Steps.updating i.io i.ambient (caller reviewers agent) req)
perform-Steps i reviewers agent (creating req) e =
    answered-Steps e (create_task i.io i.ambient (caller reviewers agent) req)
      (Steps.creating i.io i.ambient (caller reviewers agent) req)
perform-Steps i reviewers agent (transitioning req) e =
    answered-Steps e (transition_task i.io i.ambient (caller reviewers agent) req)
      (Steps.transitioning i.io i.ambient (caller reviewers agent) req)
perform-Steps i reviewers agent (reporting req) e =
    answered-Steps e (report_task_result i.io i.ambient (caller reviewers agent) req)
      (Steps.reporting i.io i.ambient (caller reviewers agent) req)
perform-Steps i reviewers agent (accepting req) e =
    answered-Steps e (accept_task_result i.io i.ambient (caller reviewers agent) req)
      (Steps.accepting i.io i.ambient (caller reviewers agent) req)
perform-Steps i reviewers agent (rejecting req) e =
    answered-Steps e (reject_task_result i.io i.ambient (caller reviewers agent) req)
      (Steps.rejecting i.io i.ambient (caller reviewers agent) req)
perform-Steps i reviewers agent (sending req) e =
    answered-Steps e (send_message i.io i.ambient (caller reviewers agent) req)
      (Steps.sending i.io i.ambient (caller reviewers agent) req)
perform-Steps i reviewers agent (acknowledging req) e =
    answered-Steps e (acknowledge_message i.io i.ambient (caller reviewers agent) req)
      (Steps.acknowledging i.io i.ambient (caller reviewers agent) req)
perform-Steps i reviewers agent (approving req) e =
    answered-Steps e (approve_profile i.io i.ambient (caller reviewers agent) req)
      (Steps.approving i.io i.ambient (caller reviewers agent) req)
perform-Steps i reviewers agent (starting req) e =
    start_run-Steps i.start_input (caller reviewers agent) req e
perform-Steps i reviewers agent (stopping req) e =
    stop_run-Steps i.stop_input (caller reviewers agent) req e

-- Every command of a frontend session is a sequence of steps of the engine, whatever
-- fails on the way.
pub execute-Steps :
    (i : CommandInput) (s : FrontendSession) (c : SessionCommand) (e : Engine)
    → Steps e (execute i s c e).1
unfolding execute
execute-Steps i s (commanding c) e = perform-Steps i s.reviewers s.principal c e
execute-Steps i s budgeting e = none_yet refl

-- The commands that only a reviewer has.
abbrev pub of_reviewers : SessionCommand → Bool
of_reviewers (commanding (accepting req)) = true
of_reviewers (commanding (rejecting req)) = true
of_reviewers (commanding (approving req)) = true
of_reviewers _ = false

-- AcceptTaskResult, RejectTaskResult and ApproveProfile of a session whose principal is not one of
-- the workspace's reviewers leave the engine as it was, whatever the request says.
pub execute-unauthorised :
    (i : CommandInput) (s : FrontendSession) (c : SessionCommand) (e : Engine)
    → of_reviewers c ≡ true
    → s.reviewers s.principal ≡ false
    → (execute i s c e).1 ≡ e
unfolding execute perform accept_task_result reject_task_result approve_profile
    check_accept_task_result check_reject_task_result check_approve_profile
execute-unauthorised i s (commanding (accepting req)) e k h = ground (arith, h)
execute-unauthorised i s (commanding (rejecting req)) e k h = ground (arith, h)
execute-unauthorised i s (commanding (approving req)) e k h = ground (arith, h)
execute-unauthorised i s _ e k h = absurd (cc)
