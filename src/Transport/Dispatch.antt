-- ===== src/Transport/Dispatch.antt =====
-- internal/adapters/transport/dispatch.go: an envelope becomes a call of the session, and what that
-- answers a response.
use harnessing.Prelude.{Option, none, some}
use harnessing.Domain.Errors.{Result, ok, err, fail, invalid_argument, io_failure}
use harnessing.Host.{
  registering, updating, creating, transitioning, reporting, accepting, rejecting, sending,
  acknowledging, approving, starting, stopping, FrontendSession,
}
use harnessing.Transport.{Envelope, Response, plain_info, error_info, Coding, succeeded, refused}
use harnessing.Host.Opening.{Workspace}
use harnessing.Transport.Session.{
  Call, performing, setting_run_budget, getting_agent, getting_task, getting_message, getting_run,
  getting_operation, resolving_request, subscribing, reading_output, getting_snapshot, Value,
  a_receipt, an_agent, a_task, a_message, a_run, an_operation, a_snapshot, an_output, some_events,
  CallInput, serve_call,
}
use harnessing.Transport.Codec.{
  Operation, register_agent, update_agent, create_task, transition_task, report_task_result,
  accept_task_result, reject_task_result, send_message, acknowledge_message, approve_profile,
  start_run, stop_run, set_run_budget, get_agent, get_task, get_message, get_run, read_output,
  get_operation, get_snapshot, subscribe, resolve_request, operation_of, Codec,
}

-- `decode(&req)`, and the call with it; json.Unmarshal of an absent payload fails.
abbrev pub decoded : {B A : Type 0} → Coding B A → (A → Call) → Option B → Option Call
decoded c make none = none
decoded c make (some b) = elim (c.decode b) [ none ↦ none | some x ↦ some (make x) ]

module _ {B : Type 0} (k : Codec B) where
  unfoldable pub decode_call : Operation → Option B → Option Call
  decode_call register_agent p = decoded k.register_agent (λ r. performing (registering r)) p
  decode_call update_agent p = decoded k.update_agent (λ r. performing (updating r)) p
  decode_call create_task p = decoded k.create_task (λ r. performing (creating r)) p
  decode_call transition_task p = decoded k.transition_task (λ r. performing (transitioning r)) p
  decode_call report_task_result p = decoded k.report_task_result (λ r. performing (reporting r)) p
  decode_call accept_task_result p = decoded k.accept_task_result (λ r. performing (accepting r)) p
  decode_call reject_task_result p = decoded k.reject_task_result (λ r. performing (rejecting r)) p
  decode_call send_message p = decoded k.send_message (λ r. performing (sending r)) p
  decode_call acknowledge_message p =
      decoded k.acknowledge_message (λ r. performing (acknowledging r)) p
  decode_call approve_profile p = decoded k.approve_profile (λ r. performing (approving r)) p
  decode_call start_run p = decoded k.start_run (λ r. performing (starting r)) p
  decode_call stop_run p = decoded k.stop_run (λ r. performing (stopping r)) p
  decode_call set_run_budget p = decoded k.set_run_budget (λ r. setting_run_budget r) p
  decode_call get_agent p = decoded k.agent_id (λ s. getting_agent s) p
  decode_call get_task p = decoded k.task_id (λ s. getting_task s) p
  decode_call get_message p = decoded k.message_id (λ s. getting_message s) p
  decode_call get_run p = decoded k.run_id (λ s. getting_run s) p
  decode_call read_output p = decoded k.output_query (λ q. reading_output q) p
  decode_call get_operation p = decoded k.operation_id (λ s. getting_operation s) p
  decode_call get_snapshot p = some getting_snapshot
  decode_call subscribe p = decoded k.after_cursor (λ s. subscribing s) p
  decode_call resolve_request p = decoded k.request_id (λ s. resolving_request s) p

  -- json.Marshal(result)
  unfoldable pub encode_value : Value → Option B
  encode_value (a_receipt x) = k.receipt.encode x
  encode_value (an_agent x) = k.agent.encode x
  encode_value (a_task x) = k.task.encode x
  encode_value (a_message x) = k.message.encode x
  encode_value (a_run x) = k.run.encode x
  encode_value (an_operation x) = k.operation.encode x
  encode_value (a_snapshot x) = k.snapshot.encode x
  encode_value (an_output x) = k.output.encode x
  encode_value (some_events x) = k.events.encode x

  abbrev pub call_or_refuse :
      CallInput → FrontendSession → Option Call → Workspace → Result Value × Workspace
  call_or_refuse i s none w = (fail invalid_argument, w)
  call_or_refuse i s (some c) w = serve_call i s c w

  abbrev pub run_operation :
      CallInput
      → FrontendSession
      → Option B
      → Option Operation
      → Workspace
      → Result Value × Workspace
  run_operation i s p none w = (fail invalid_argument, w)
  run_operation i s p (some o) w = call_or_refuse i s (decode_call o p) w

  -- dispatch
  unfoldable pub run_envelope :
      CallInput → FrontendSession → Envelope B → Workspace → Result Value × Workspace
  run_envelope i s env w = run_operation i s env.payload (operation_of env.operation) w

  abbrev encoded_result : Option B → Response B
  encoded_result none = refused (plain_info io_failure)
  encoded_result (some b) = succeeded (some b)

  -- The response to a result.
  unfoldable pub response_of : Result Value → Response B
  response_of (err x) = refused (error_info x)
  response_of (ok v) = encoded_result (encode_value v)

  -- Dispatch
  unfoldable pub dispatch :
      CallInput → FrontendSession → Envelope B → Workspace → Response B × Workspace
  dispatch i s env w = let (r, w') = run_envelope i s env w in (response_of r, w')
