-- ===== src/Transport/Carried.antt =====
-- What internal/adapters/transport carries of one call of a session: client.go's call, dispatch.go and
-- host.go's serviceSession, in a pass in which nothing fails.
use harnessing.Prelude.{ℕ, false, Option, none, some, ◌≡◌, refl, str_eq, arith, ap, ◌∙◌}
use harnessing.Domain.Errors.{
  Result, ok, err, GoError, domain_error, other_error, coded, io_failure,
}
use harnessing.Engine.Commit.{Engine}
use harnessing.Engine.Runs.{Answer}
use harnessing.Engine.Reads.{
  get_task as engine_get_task, get_agent as engine_get_agent, get_message as engine_get_message,
  get_run as engine_get_run, get_operation as engine_get_operation,
  get_snapshot as engine_get_snapshot, subscribe as engine_subscribe,
}
use harnessing.Events.{cancel}
use harnessing.Journal.{read_after}
use harnessing.Host.{Command, registering, FrontendSession, commanding, budgeting, execute, resolve}
use harnessing.Transport.{Coding, IsCoding, detach_operation, error_info, to_domain_error}
use harnessing.Host.Opening.{Workspace}
use harnessing.Transport.Session.{
  Call, performing, setting_run_budget, getting_agent, getting_task, getting_message, getting_run,
  getting_operation, resolving_request, subscribing, reading_output, getting_snapshot, Value,
  a_receipt, an_agent, a_task, a_message, a_run, an_operation, a_snapshot, an_output, some_events,
  CallInput, serve_call, value, answer_value, receipt_or_error, drained, received_by, on_bus,
  at_subscriber, drain,
}
use harnessing.Transport.Codec.{
  Operation, set_run_budget, get_agent, get_task, get_message, get_run, read_output, get_operation,
  get_snapshot, subscribe, resolve_request, Codec, operation_text,
}
use harnessing.Transport.Dispatch.{decode_call, encode_value, response_of}
use harnessing.Transport.Client.{
  operation, decode_value, answer, result_value, decoded_result, made,
}

-- The errors that cross: an error that is no domain error comes as IOFailure.
abbrev pub carried_error : GoError → GoError
carried_error (domain_error e) = domain_error e
carried_error (other_error s) = coded io_failure

abbrev pub carried : Result Value → Result (Option Value)
carried (err x) = err (carried_error x)
carried (ok v) = ok (some v)

-- What the package relies on: envelopes, responses and answers are unmarshalled as they were.
pub record IsFaithful {B : Type 0} (k : Codec B) : Type 0 where
  pub envelope : IsCoding k.envelope
  pub response : IsCoding k.response
  pub receipt : IsCoding k.receipt
  pub agent : IsCoding k.agent
  pub task : IsCoding k.task
  pub message : IsCoding k.message
  pub run : IsCoding k.run
  pub operation : IsCoding k.operation
  pub snapshot : IsCoding k.snapshot
  pub output : IsCoding k.output
  pub events : IsCoding k.events

-- No operation of a session is that of detaching.
pub operation_text-ne-detach : (o : Operation) → str_eq (operation_text o) detach_operation ≡ false
operation_text-ne-detach set_run_budget = refl
operation_text-ne-detach _ = refl

-- A call that was decoded for an operation is one of that operation.
pub decode_call-operation :
    {B : Type 0} (k : Codec B) (o : Operation) (p : Option B) (c : Call)
    → decode_call k o p ≡ some c
    → operation c ≡ o
unfolding decode_call operation
decode_call-operation k set_run_budget p c h = ground (arith, h)
decode_call-operation k _ p c h = ground (arith, h)

module _ {B : Type 0} (k : Codec B) (faithful : IsFaithful k) where
  -- The answer is encoded, and decoded by the method that asked.
  abbrev pub Carries : Operation → Result Value → Type 0
  Carries o (err x) = Unit
  Carries o (ok v) = (b : B) × (encode_value k v ≡ some b) × (decode_value k o b ≡ some v)

  value-Carries :
      {A : Type 0} (o : Operation) (make : A → Value) (j : Coding B A)
      → IsCoding j
      → ((x : A) → encode_value k (make x) ≡ j.encode x)
      → ((b : B) → decode_value k o b ≡ made make (j.decode b))
      → (r : Result A) → Carries o (value make r)
  value-Carries o make j is to from (err x) = tt
  value-Carries o make j is to from (ok x) =
      (is.encoded x, to x ∙ is.encodes x, from (is.encoded x) ∙ ap (made make) (is.decodes x))

  answer-Carries :
      (o : Operation) (a : Answer)
      → ((b : B) → decode_value k o b ≡ made (λ x. a_receipt x) (k.receipt.decode b))
      → Carries o (answer_value a)
  unfolding encode_value
  answer-Carries o a from = go a.error
    where
      go : (e : Option GoError) → Carries o (receipt_or_error a.receipt e)
      go none =
          value-Carries o (λ x. a_receipt x) k.receipt faithful.receipt (λ x. refl) from
            (ok a.receipt)
      go (some x) = tt

  -- Every command is answered by a receipt.
  receipt_operation :
      (c : Command) (b : B)
      → decode_value k (operation (performing c)) b ≡ made (λ x. a_receipt x) (k.receipt.decode b)
  unfolding operation decode_value
  receipt_operation (registering r) b = refl
  receipt_operation _ b = refl

  drained-Carries : (n : ℕ) (r : Result ℕ × Engine) → Carries subscribe (drained n r).0
  unfolding drained encode_value decode_value
  drained-Carries n (err x, e) = tt
  drained-Carries n (ok i, e) =
      value-Carries subscribe (λ x. some_events x) k.events faithful.events (λ x. refl) (λ b. refl)
        (ok (
          received_by i
            (on_bus (at_subscriber i (λ sub. cancel (drain n sub))) e).events.subscribers))

  pub serve_call-Carries :
      (i : CallInput) (s : FrontendSession) (c : Call) (w : Workspace)
      → Carries (operation c) (serve_call i s c w).0
  unfolding serve_call encode_value decode_value operation
  serve_call-Carries i s (performing c) w =
      answer-Carries (operation (performing c)) (execute i.command s (commanding c) w.engine).0
        (receipt_operation c)
  serve_call-Carries i s (setting_run_budget r) w =
      answer-Carries set_run_budget (execute i.command s budgeting w.engine).0 (λ b. refl)
  serve_call-Carries i s (getting_agent id) w =
      value-Carries get_agent (λ x. an_agent x) k.agent faithful.agent (λ x. refl) (λ b. refl)
        (engine_get_agent i.read id w.engine)
  serve_call-Carries i s (getting_task id) w =
      value-Carries get_task (λ x. a_task x) k.task faithful.task (λ x. refl) (λ b. refl)
        (engine_get_task i.read id w.engine)
  serve_call-Carries i s (getting_message id) w =
      value-Carries get_message (λ x. a_message x) k.message faithful.message (λ x. refl)
        (λ b. refl) (engine_get_message i.read id w.engine)
  serve_call-Carries i s (getting_run id) w =
      value-Carries get_run (λ x. a_run x) k.run faithful.run (λ x. refl) (λ b. refl)
        (engine_get_run i.read id w.engine)
  serve_call-Carries i s (getting_operation id) w =
      value-Carries get_operation (λ x. an_operation x) k.operation faithful.operation (λ x. refl)
        (λ b. refl) (engine_get_operation i.read id w.engine)
  serve_call-Carries i s getting_snapshot w =
      value-Carries get_snapshot (λ x. a_snapshot x) k.snapshot faithful.snapshot (λ x. refl)
        (λ b. refl) (engine_get_snapshot i.read w.engine)
  serve_call-Carries i s (reading_output q) w =
      value-Carries read_output (λ x. an_output x) k.output faithful.output (λ x. refl) (λ b. refl)
        (read_after i.width i.journal q.after_offset q.byte_limit (w.journals q.run_id))
  serve_call-Carries i s (resolving_request id) w =
      value-Carries resolve_request (λ x. a_receipt x) k.receipt faithful.receipt (λ x. refl)
        (λ b. refl) (resolve i.read s id w.engine).0
  serve_call-Carries i s (subscribing cursor) w =
      drained-Carries i.received (engine_subscribe i.read cursor w.engine)

  -- A response to a result, as the client reads it.
  pub result_value-response_of :
      (o : Operation) (r : Result Value)
      → Carries o r
      → result_value k o (answer k (some (response_of k r))) ≡ carried r
  unfolding response_of error_info to_domain_error
  result_value-response_of o (err (domain_error e)) h = refl
  result_value-response_of o (err (other_error e)) h = refl
  result_value-response_of o (ok v) (b, encodes, decodes) = rw encodes (ap decoded_result decodes)
