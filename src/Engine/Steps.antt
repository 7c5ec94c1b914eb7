-- ===== src/Engine/Steps.antt =====
-- The engine as a transition system: its handlers are sequences of steps that the commit mutex,
-- the bus mutex and the supervisor make one at a time, so every interleaving of callers is one too.
use harnessing.Prelude.{String, List, true, [], ◌∷◌, ◌≡◌, refl, ◌⊎◌}
use harnessing.Domain.Errors.{Result, ok, err}
use harnessing.Domain.Records.{Receipt}
use harnessing.Api.{
  CreateTaskRequest, TransitionTaskRequest, ReportTaskResultRequest, AcceptTaskResultRequest,
  RejectTaskResultRequest, RegisterAgentRequest, UpdateAgentRequest, SendMessageRequest,
  AcknowledgeMessageRequest, MessageDeliveryRequest, ApproveProfileRequest,
}
use harnessing.Store.{Disk, absent, Faults}
use harnessing.Events.{Subscriber, new_event_bus}
use harnessing.Engine.Scope.{CallerScope, Ambient}
use harnessing.Engine.Commit.{Engine, Io, Mutation, SupervisorCall, commit, checked}
use harnessing.Engine.Mutations
use harnessing.Engine.Mutations.{IsMutation}
use harnessing.Engine.Tasks.{create_task, transition_task, report_task_result}
use harnessing.Engine.Reviews.{accept_task_result, reject_task_result}
use harnessing.Engine.Agents.{register_agent, update_agent}
use harnessing.Engine.Messages.{
  host_scope, send_message, acknowledge_message, record_message_published, record_message_processed,
}
use harnessing.Engine.Profiles.{approve_profile}
use harnessing.Engine.Reads.{resolve_request, subscribe}

pub data Step (e : Engine) : Engine → Type 0 where
  committed :
      {e' : Engine} (io : Io) (caller : CallerScope) (request fingerprint : String) (m : Mutation)
      → IsMutation m
      → e' ≡ (commit io caller request fingerprint m e).1
      → Step e e'
  called : {e' : Engine} (c : SupervisorCall) → e' ≡ record e { calls = c ∷ e.calls } → Step e e'
  resolved :
      {e' : Engine} (f : Faults) (caller request : String)
      → e' ≡ (resolve_request f caller request e).1
      → Step e e'
  observed :
      {e' : Engine} (f : Faults) (cursor : String) → e' ≡ (subscribe f cursor e).1 → Step e e'
  -- The readers of subscriptions take events off their channels, and their contexts end.
  listened :
      {e' : Engine} (subscribers : List Subscriber)
      → e' ≡ record e { events = record e.events { subscribers = subscribers } }
      → Step e e'
  -- The process ends, or the power fails, and the workspace is opened again on what is there.
  restarted :
      {e' : Engine} (d t : Disk)
      → (d ≡ e.store.files.state_file) ⊎ (d ≡ e.store.files.synced)
      → e' ≡ record e {
        store = record {
          files = record { state_file = d; tmp_file = t; synced = e.store.files.synced };
          durable_revision = 0;
        };
        events = new_event_bus;
      }
      → Step e e'

pub data Steps (e : Engine) : Engine → Type 0 where
  none_yet : {e' : Engine} → e' ≡ e → Steps e e'
  and_then : {e' e'' : Engine} → Steps e e' → Step e' e'' → Steps e e''

-- A workspace that has no state file yet.
abbrev pub new_engine : String → Engine
new_engine workspace = record {
  store = record {
    files = record { state_file = absent; tmp_file = absent; synced = absent };
    durable_revision = 0;
  };
  workspace_id = workspace;
  events = new_event_bus;
  has_supervisor = true;
  calls = [];
}

-- A step is a sequence of one.
pub one : {e e' : Engine} → Step e e' → Steps e e'
one s = and_then (none_yet refl) s

checked-Steps :
    (check : Result (Unit {0})) (e : Engine) (io : Io) (caller : CallerScope)
    (request fingerprint : String) (m : Mutation)
    → (check ≡ ok tt → IsMutation m)
    → Steps e (checked check e (commit io caller request fingerprint m e)).1
checked-Steps (err x) e io caller request fingerprint m im = none_yet refl
checked-Steps (ok tt) e io caller request fingerprint m im =
    one (committed io caller request fingerprint m (im refl) refl)

-- Every handler with one commit is a sequence of steps.
pub data IsHandler : (Engine → Result Receipt × Engine) → Type 0 where
  creating :
      (io : Io) (a : Ambient) (caller : CallerScope) (req : CreateTaskRequest)
      → IsHandler (create_task io a caller req)
  transitioning :
      (io : Io) (a : Ambient) (caller : CallerScope) (req : TransitionTaskRequest)
      → IsHandler (transition_task io a caller req)
  reporting :
      (io : Io) (a : Ambient) (caller : CallerScope) (req : ReportTaskResultRequest)
      → IsHandler (report_task_result io a caller req)
  accepting :
      (io : Io) (a : Ambient) (caller : CallerScope) (req : AcceptTaskResultRequest)
      → IsHandler (accept_task_result io a caller req)
  rejecting :
      (io : Io) (a : Ambient) (caller : CallerScope) (req : RejectTaskResultRequest)
      → IsHandler (reject_task_result io a caller req)
  registering :
      (io : Io) (a : Ambient) (caller : CallerScope) (req : RegisterAgentRequest)
      → IsHandler (register_agent io a caller req)
  updating :
      (io : Io) (a : Ambient) (caller : CallerScope) (req : UpdateAgentRequest)
      → IsHandler (update_agent io a caller req)
  sending :
      (io : Io) (a : Ambient) (caller : CallerScope) (req : SendMessageRequest)
      → IsHandler (send_message io a caller req)
  acknowledging :
      (io : Io) (a : Ambient) (caller : CallerScope) (req : AcknowledgeMessageRequest)
      → IsHandler (acknowledge_message io a caller req)
  publishing :
      (io : Io) (a : Ambient) (req : MessageDeliveryRequest)
      → IsHandler (record_message_published io a req)
  processing :
      (io : Io) (a : Ambient) (req : MessageDeliveryRequest)
      → IsHandler (record_message_processed io a req)
  approving :
      (io : Io) (a : Ambient) (caller : CallerScope) (req : ApproveProfileRequest)
      → IsHandler (approve_profile io a caller req)

-- Every command with one commit is no step or one step of the engine: its checks reject it, or its
-- Mutate is committed.
pub handler-Steps :
    (h : Engine → Result Receipt × Engine) (e : Engine) → IsHandler h → Steps e (h e).1
unfolding create_task transition_task report_task_result accept_task_result reject_task_result
    register_agent update_agent send_message acknowledge_message record_message_published
    record_message_processed approve_profile
handler-Steps h e (creating io a caller req) =
    checked-Steps _ e io caller _ _ _ (Mutations.creation a caller req)
handler-Steps h e (transitioning io a caller req) =
    checked-Steps _ e io caller _ _ _ (Mutations.transition a caller req)
handler-Steps h e (reporting io a caller req) =
    checked-Steps _ e io caller _ _ _ (Mutations.report a caller req)
handler-Steps h e (accepting io a caller req) =
    checked-Steps _ e io caller _ _ _ (Mutations.acceptance a caller req)
handler-Steps h e (rejecting io a caller req) =
    checked-Steps _ e io caller _ _ _ (Mutations.rejection a caller req)
handler-Steps h e (registering io a caller req) =
    checked-Steps _ e io caller _ _ _ (Mutations.registration a caller req)
handler-Steps h e (updating io a caller req) =
    checked-Steps _ e io caller _ _ _ (Mutations.agent_update a caller req)
handler-Steps h e (sending io a caller req) =
    checked-Steps _ e io caller _ _ _ (Mutations.sending a e.workspace_id caller req)
handler-Steps h e (acknowledging io a caller req) =
    one (committed io caller _ _ _ (Mutations.acknowledgement a caller req) refl)
handler-Steps h e (publishing io a req) =
    one (committed io host_scope _ _ _ (Mutations.publication a _) refl)
handler-Steps h e (processing io a req) =
    one (committed io host_scope _ _ _ (Mutations.processing_note a _) refl)
handler-Steps h e (approving io a caller req) =
    checked-Steps _ e io caller _ _ _ (Mutations.approval a caller req)
