-- ===== src/Host/Isolation.antt =====
-- What the sessions of internal/host/host.go cannot do to the receipts of other agents.
use harnessing.Prelude.{Option, String, Bool, false, ◌≡◌, ◌≢◌, refl, ◌∙◌}
use harnessing.Domain.Errors.{GoError, Result, ok, err}
use harnessing.Domain.Records.{Receipt, ExecutionSpec}
use harnessing.Api.{StartRunRequest, StopRunRequest}
use harnessing.Store.{receipt_key}
use harnessing.Store.Ledger.{lookup}
use harnessing.Store.PowerLoss.{receipts_of}
use harnessing.Store.Callers.{has_nul, other_caller}
use harnessing.Engine.Scope.{CallerScope}
use harnessing.Engine.Commit.{Engine, Io, Mutation, commit, checked, request_of}
use harnessing.Engine.Reachable.{store-commit}
use harnessing.Engine.Messages.{host_scope, send_message, acknowledge_message}
use harnessing.Engine.Tasks.{create_task, transition_task, report_task_result}
use harnessing.Engine.Reviews.{accept_task_result, reject_task_result}
use harnessing.Engine.Agents.{register_agent, update_agent}
use harnessing.Engine.Profiles.{approve_profile}
use harnessing.Engine.Runs.Start.{
  StartInput, finish_start, observe, dispatch, mark, intend, start_checked, start_run,
}
use harnessing.Engine.Runs.Stop.{
  StopInput, finish_stop, conclude, stop_intended, stop_checked, stop_run,
}
use harnessing.Deliverer.{caller}
use harnessing.Host.{
  Command, registering, updating, creating, transitioning, reporting, accepting, rejecting, sending,
  acknowledging, approving, starting, stopping, budgeting, CommandInput, FrontendSession, answered,
  perform, execute, SessionCommand, commanding,
}

-- The ledger has the same record, or none, for a request of an agent.
pub record SameReceipt (agent request : String) (e e' : Engine) : Type 0 where
  pub kept :
      lookup (receipt_key agent request) (receipts_of e'.store.files.state_file)
      ≡ lookup (receipt_key agent request) (receipts_of e.store.files.state_file)

module _ (agent request : String) (whole : has_nul agent ≡ false) (no_host : agent ≢ "") where
  abbrev Same : Engine → Engine → Type 0
  Same = SameReceipt agent request

  unchanged : {e e' : Engine} → e'.store ≡ e.store → Same e e'
  unchanged h = record { kept = rw h refl }

  then_on : {a b c : Engine} → Same a b → Same b c → Same a c
  then_on h k = record { kept = k.kept ∙ h.kept }

  -- A caller that is another one.
  abbrev IsOther : CallerScope → Type 0
  IsOther c = (has_nul c.agent_id ≡ false) × (agent ≢ c.agent_id)

  commit-Same :
      (io : Io) (c : CallerScope) (id fp : String) (m : Mutation) (e : Engine)
      → IsOther c
      → Same e (commit io c id fp m e).1
  commit-Same io c id fp m e (plain, other) = record {
    kept = rw (store-commit io c id fp m e) (
        other_caller io.commit e.workspace_id (request_of c id fp m) e.store agent request plain
          whole other);
  }

  host-IsOther : IsOther host_scope
  host-IsOther = (refl, no_host)

  checked-Same :
      (check : Result (Unit {0})) (e : Engine) (r : Result Receipt × Engine)
      → Same e r.1
      → Same e (checked check e r).1
  checked-Same (err x) e r h = unchanged refl
  checked-Same (ok u) e r h = h

  answered-Same : (e : Engine) (r : Result Receipt × Engine) → Same e r.1 → Same e (answered r).1
  answered-Same e (err x, e') h = h
  answered-Same e (ok receipt, e') h = h

  module _ (inp : StartInput) (req : StartRunRequest) (receipt : Receipt) where
    finish_start-Same :
        (r : Result Receipt × Engine) → Same r.1 (finish_start inp.started receipt r).1
    finish_start-Same (err x, e) = unchanged refl
    finish_start-Same (ok y, e) = unchanged refl

    observe-Same : (id : Result String) (e : Engine) → Same e (observe inp req receipt id e).1
    observe-Same (err x) e = unchanged refl
    observe-Same (ok id) e =
        then_on (commit-Same inp.observation_io host_scope id _ _ e host-IsOther)
          (finish_start-Same _)

    dispatch-Same :
        (spec : ExecutionSpec) (r : Result Receipt × Engine)
        → Same r.1 (dispatch inp req receipt spec r).1
    dispatch-Same spec (err x, e) = unchanged refl
    dispatch-Same spec (ok y, e) = then_on (unchanged refl) (observe-Same inp.outcome_id _)

    mark-Same : (id : Result String) (e : Engine) → Same e (mark inp req receipt id e).1
    mark-Same (err x) e = unchanged refl
    mark-Same (ok id) e =
        then_on (commit-Same inp.marker_io host_scope id _ _ e host-IsOther) (dispatch-Same _ _)

  intend-Same :
      (inp : StartInput) (req : StartRunRequest) (r : Result Receipt × Engine)
      → Same r.1 (intend inp req r).1
  intend-Same inp req (err x, e) = unchanged refl
  intend-Same inp req (ok receipt, e) = mark-Same inp req _ inp.marker_id e

  start_checked-Same :
      (inp : StartInput) (c : CallerScope) (req : StartRunRequest) (check : Result (Unit {0}))
      (e : Engine)
      → IsOther c
      → Same e (start_checked inp c req check e).1
  start_checked-Same inp c req (err x) e h = unchanged refl
  start_checked-Same inp c req (ok u) e h =
      then_on (commit-Same inp.intent_io c req.request_id _ _ e h) (intend-Same inp req _)

  finish_stop-Same :
      (stopped : Option GoError) (receipt : Receipt) (r : Result Receipt × Engine)
      → Same r.1 (finish_stop stopped receipt r).1
  finish_stop-Same stopped receipt (err x, e) = unchanged refl
  finish_stop-Same stopped receipt (ok y, e) = unchanged refl

  conclude-Same :
      (inp : StopInput) (req : StopRunRequest) (receipt : Receipt) (id : Result String) (e : Engine)
      → Same e (conclude inp req receipt id e).1
  conclude-Same inp req receipt (err x) e = unchanged refl
  conclude-Same inp req receipt (ok id) e =
      then_on (commit-Same inp.outcome_io host_scope id _ _ e host-IsOther) (finish_stop-Same _ _ _)

  stop_intended-Same :
      (inp : StopInput) (req : StopRunRequest) (r : Result Receipt × Engine)
      → Same r.1 (stop_intended inp req r).1
  stop_intended-Same inp req (err x, e) = unchanged refl
  stop_intended-Same inp req (ok receipt, e) =
      then_on (unchanged refl) (conclude-Same inp req _ inp.outcome_id _)

  stop_checked-Same :
      (inp : StopInput) (c : CallerScope) (req : StopRunRequest) (check : Result (Unit {0}))
      (e : Engine)
      → IsOther c
      → Same e (stop_checked inp c req check e).1
  stop_checked-Same inp c req (err x) e h = unchanged refl
  stop_checked-Same inp c req (ok u) e h =
      then_on (commit-Same inp.intent_io c req.request_id _ _ e h) (stop_intended-Same inp req _)

  perform-Same :
      (i : CommandInput) (reviewers : String → Bool) (p : String) (c : Command) (e : Engine)
      → has_nul p ≡ false
      → agent ≢ p
      → Same e (perform i reviewers p c e).1
  unfolding perform create_task transition_task report_task_result accept_task_result
      reject_task_result register_agent update_agent send_message acknowledge_message
      approve_profile start_run stop_run
  perform-Same i reviewers p (registering req) e n d =
      answered-Same e _ (checked-Same _ e _ (commit-Same i.io (caller reviewers p) _ _ _ e (n, d)))
  perform-Same i reviewers p (updating req) e n d =
      answered-Same e _ (checked-Same _ e _ (commit-Same i.io (caller reviewers p) _ _ _ e (n, d)))
  perform-Same i reviewers p (creating req) e n d =
      answered-Same e _ (checked-Same _ e _ (commit-Same i.io (caller reviewers p) _ _ _ e (n, d)))
  perform-Same i reviewers p (transitioning req) e n d =
      answered-Same e _ (checked-Same _ e _ (commit-Same i.io (caller reviewers p) _ _ _ e (n, d)))
  perform-Same i reviewers p (reporting req) e n d =
      answered-Same e _ (checked-Same _ e _ (commit-Same i.io (caller reviewers p) _ _ _ e (n, d)))
  perform-Same i reviewers p (accepting req) e n d =
      answered-Same e _ (checked-Same _ e _ (commit-Same i.io (caller reviewers p) _ _ _ e (n, d)))
  perform-Same i reviewers p (rejecting req) e n d =
      answered-Same e _ (checked-Same _ e _ (commit-Same i.io (caller reviewers p) _ _ _ e (n, d)))
  perform-Same i reviewers p (sending req) e n d =
      answered-Same e _ (checked-Same _ e _ (commit-Same i.io (caller reviewers p) _ _ _ e (n, d)))
  perform-Same i reviewers p (acknowledging req) e n d =
      answered-Same e _ (commit-Same i.io (caller reviewers p) _ _ _ e (n, d))
  perform-Same i reviewers p (approving req) e n d =
      answered-Same e _ (checked-Same _ e _ (commit-Same i.io (caller reviewers p) _ _ _ e (n, d)))
  perform-Same i reviewers p (starting req) e n d =
      start_checked-Same i.start_input (caller reviewers p) req _ e (n, d)
  perform-Same i reviewers p (stopping req) e n d =
      stop_checked-Same i.stop_input (caller reviewers p) req _ e (n, d)

  -- Whatever command a session performs and whatever fails in it, the ledger keeps, for an agent
  -- other than the session's principal and the host, the receipt of each of its requests, or the
  -- lack of one, where neither identifier has a NUL.
  pub execute_others :
      (i : CommandInput) (s : FrontendSession) (c : SessionCommand) (e : Engine)
      → has_nul s.principal ≡ false
      → agent ≢ s.principal
      → SameReceipt agent request e (execute i s c e).1
  unfolding execute
  execute_others i s (commanding c) e n d = perform-Same i s.reviewers s.principal c e n d
  execute_others i s budgeting e n d = unchanged refl
