-- ===== src/Transport/Client.antt =====
-- internal/adapters/transport/client.go: a client writes one request and polls for its response. What
-- the host and others do meanwhile is a parameter: what each poll finds in the responses' folder.
use Prim.Native.String.{String}
use harnessing.Prelude.{Option, none, some, List, [], ◌∷◌, str_eq, ◌||◌, if◌then◌else◌}
use harnessing.Domain.Errors.{
  Error, GoError, domain_error, other_error, Result, ok, err, fail, invalid_argument, io_failure,
  ◌>>◌, reject_if,
}
use harnessing.Mailbox.Paths.{has_separator}
use harnessing.Host.{
  registering, updating, creating, transitioning, reporting, accepting, rejecting, sending,
  acknowledging, approving, starting, stopping,
}
use harnessing.Transport.{Response, to_domain_error}
use harnessing.Transport.Files.{Folder, json, WriteIo, ReadIo, write_atomic, read_bounded}
use harnessing.Transport.Session.{
  Call, performing, setting_run_budget, getting_agent, getting_task, getting_message, getting_run,
  getting_operation, resolving_request, subscribing, reading_output, getting_snapshot, Value,
  a_receipt, an_agent, a_task, a_message, a_run, an_operation, a_snapshot, an_output, some_events,
}
use harnessing.Transport.Codec.{
  Operation, register_agent, update_agent, create_task, transition_task, report_task_result,
  accept_task_result, reject_task_result, send_message, acknowledge_message, approve_profile,
  start_run, stop_run, set_run_budget, get_agent, get_task, get_message, get_run, read_output,
  get_operation, get_snapshot, subscribe, resolve_request, operation_text, Codec,
}
use harnessing.Transport.Serving.{SessionDir}

-- validID
unfoldable pub valid_id : String → Result (Unit {0})
valid_id id = do
  reject_if (str_eq id "") invalid_argument
  reject_if (str_eq id "." || str_eq id "..") invalid_argument
  reject_if (has_separator id) invalid_argument

-- Each method's operation.
unfoldable pub operation : Call → Operation
operation (performing (registering r)) = register_agent
operation (performing (updating r)) = update_agent
operation (performing (creating r)) = create_task
operation (performing (transitioning r)) = transition_task
operation (performing (reporting r)) = report_task_result
operation (performing (accepting r)) = accept_task_result
operation (performing (rejecting r)) = reject_task_result
operation (performing (sending r)) = send_message
operation (performing (acknowledging r)) = acknowledge_message
operation (performing (approving r)) = approve_profile
operation (performing (starting r)) = start_run
operation (performing (stopping r)) = stop_run
operation (setting_run_budget r) = set_run_budget
operation (getting_agent id) = get_agent
operation (getting_task id) = get_task
operation (getting_message id) = get_message
operation (getting_run id) = get_run
operation (getting_operation id) = get_operation
operation (resolving_request id) = resolve_request
operation (subscribing cursor) = subscribe
operation (reading_output q) = read_output
operation getting_snapshot = get_snapshot

-- A Go error that holds a nil *domain.Error, which is not a nil error.
abbrev nil_error : GoError
nil_error = other_error "nil"

abbrev error_or_nil : Option Error → GoError
error_or_nil none = nil_error
error_or_nil (some e) = domain_error e

-- What one roundTrip meets: its write, and its polls, given the directory with the request.
pub record Exchange (B : Type 0) : Type 0 where
  pub new_id : Result String
  pub write : WriteIo B
  pub polls : SessionDir B → List (ReadIo × Folder B)

abbrev pub made : {A : Type 0} → (A → Value) → Option A → Option Value
made make none = none
made make (some x) = some (make x)

abbrev pub decoded_result : Option Value → Result (Option Value)
decoded_result none = fail io_failure
decoded_result (some v) = ok (some v)

module _ {B : Type 0} (k : Codec B) where
  -- Each method's payload.
  unfoldable pub encode_call : Call → Option B
  encode_call (performing (registering r)) = k.register_agent.encode r
  encode_call (performing (updating r)) = k.update_agent.encode r
  encode_call (performing (creating r)) = k.create_task.encode r
  encode_call (performing (transitioning r)) = k.transition_task.encode r
  encode_call (performing (reporting r)) = k.report_task_result.encode r
  encode_call (performing (accepting r)) = k.accept_task_result.encode r
  encode_call (performing (rejecting r)) = k.reject_task_result.encode r
  encode_call (performing (sending r)) = k.send_message.encode r
  encode_call (performing (acknowledging r)) = k.acknowledge_message.encode r
  encode_call (performing (approving r)) = k.approve_profile.encode r
  encode_call (performing (starting r)) = k.start_run.encode r
  encode_call (performing (stopping r)) = k.stop_run.encode r
  encode_call (setting_run_budget r) = k.set_run_budget.encode r
  encode_call (getting_agent id) = k.agent_id.encode id
  encode_call (getting_task id) = k.task_id.encode id
  encode_call (getting_message id) = k.message_id.encode id
  encode_call (getting_run id) = k.run_id.encode id
  encode_call (getting_operation id) = k.operation_id.encode id
  encode_call (resolving_request id) = k.request_id.encode id
  encode_call (subscribing cursor) = k.after_cursor.encode cursor
  encode_call (reading_output q) = k.output_query.encode q
  encode_call getting_snapshot = k.empty_object

  -- What the method of each operation unmarshals the result to.
  unfoldable pub decode_value : Operation → B → Option Value
  decode_value register_agent b = made (λ x. a_receipt x) (k.receipt.decode b)
  decode_value update_agent b = made (λ x. a_receipt x) (k.receipt.decode b)
  decode_value create_task b = made (λ x. a_receipt x) (k.receipt.decode b)
  decode_value transition_task b = made (λ x. a_receipt x) (k.receipt.decode b)
  decode_value report_task_result b = made (λ x. a_receipt x) (k.receipt.decode b)
  decode_value accept_task_result b = made (λ x. a_receipt x) (k.receipt.decode b)
  decode_value reject_task_result b = made (λ x. a_receipt x) (k.receipt.decode b)
  decode_value send_message b = made (λ x. a_receipt x) (k.receipt.decode b)
  decode_value acknowledge_message b = made (λ x. a_receipt x) (k.receipt.decode b)
  decode_value approve_profile b = made (λ x. a_receipt x) (k.receipt.decode b)
  decode_value start_run b = made (λ x. a_receipt x) (k.receipt.decode b)
  decode_value stop_run b = made (λ x. a_receipt x) (k.receipt.decode b)
  decode_value set_run_budget b = made (λ x. a_receipt x) (k.receipt.decode b)
  decode_value get_agent b = made (λ x. an_agent x) (k.agent.decode b)
  decode_value get_task b = made (λ x. a_task x) (k.task.decode b)
  decode_value get_message b = made (λ x. a_message x) (k.message.decode b)
  decode_value get_run b = made (λ x. a_run x) (k.run.decode b)
  decode_value read_output b = made (λ x. an_output x) (k.output.decode b)
  decode_value get_operation b = made (λ x. an_operation x) (k.operation.decode b)
  decode_value get_snapshot b = made (λ x. a_snapshot x) (k.snapshot.decode b)
  decode_value subscribe b = made (λ x. some_events x) (k.events.decode b)
  decode_value resolve_request b = made (λ x. a_receipt x) (k.receipt.decode b)

  abbrev pub answer : Option (Response B) → Result (Option B)
  answer none = fail io_failure
  answer (some resp) =
      if resp.ok then ok resp.result else err (error_or_nil (to_domain_error resp.error))

  abbrev pub polled : Result (Option B) → Result (Option B) → Result (Option B)
  polled later (err x) = err x
  polled later (ok none) = later
  polled later (ok (some b)) = answer (k.response.decode b)

  -- The loop of roundTrip; the context ends behind the last poll.
  unfoldable pub await : String → List (ReadIo × Folder B) → Result (Option B)
  await id [] = fail io_failure
  await id ((io, d) ∷ polls) = polled (await id polls) (read_bounded k.size io (json id) d)

  abbrev pub awaited :
      Exchange B
      → String
      → SessionDir B
      → Result (Unit {0}) × Folder B
      → Result (Option B) × SessionDir B
  awaited x id d (err e, intake) = (err e, record d { intake = intake })
  awaited x id d (ok u, intake) =
      let d' = record d { intake = intake } in (await id (x.polls d'), d')

  abbrev pub posted :
      Exchange B
      → String
      → SessionDir B
      → Result (Unit {0})
      → Option B
      → Result (Option B) × SessionDir B
  posted x id d (err e) b = (err e, d)
  posted x id d (ok u) none = (fail io_failure, d)
  posted x id d (ok u) (some b) = awaited x id d (write_atomic x.write (json id) b d.intake)

  -- roundTrip, and the client's directory behind its write.
  unfoldable pub round_trip :
      Exchange B → String → String → Option B → SessionDir B → Result (Option B) × SessionDir B
  round_trip x op id payload d =
      posted x id d (valid_id id) (k.envelope.encode (record { operation = op; payload = payload }))

  -- A result that is absent leaves the zero value, which is `none` here.
  abbrev pub result_value : Operation → Result (Option B) → Result (Option Value)
  result_value o (err e) = err e
  result_value o (ok none) = ok none
  result_value o (ok (some b)) = decoded_result (decode_value o b)

  abbrev pub call_with :
      Exchange B
      → Call
      → Result String
      → Option B
      → SessionDir B
      → Result (Option Value) × SessionDir B
  call_with x c (err e) payload d = (fail io_failure, d)
  call_with x c (ok id) none d = (fail io_failure, d)
  call_with x c (ok id) (some payload) d =
      let (r, d') = round_trip x (operation_text (operation c)) id (some payload) d in
      (result_value (operation c) r, d')

  -- call, for each method.
  unfoldable pub call : Exchange B → Call → SessionDir B → Result (Option Value) × SessionDir B
  call x c d = call_with x c x.new_id (encode_call c) d
