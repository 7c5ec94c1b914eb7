-- ===== src/Transport/Session.antt =====
-- The methods of a frontend session of internal/host/host.go, as the transport calls them, on the
-- workspace: its engine, and the output of each run.
use harnessing.Prelude.{ℕ, zero, suc, String, Option, none, some, List, [], ◌∷◌}
use harnessing.Domain.Errors.{Result, ok, err, GoError}
use harnessing.Domain.Records.{Receipt, Agent, Task, Message, Run, Operation, Snapshot, Event}
use harnessing.Api.{SetRunBudgetRequest}
use harnessing.Store.{Faults}
use harnessing.Events.{Subscriber, receive, cancel}
use harnessing.Engine.Commit.{Engine}
use harnessing.Engine.Runs.{Answer}
use harnessing.Engine.Reads.{
  get_task, get_agent, get_message, get_run, get_operation, get_snapshot, subscribe,
}
use harnessing.Host.{
  Command, commanding, budgeting, CommandInput, FrontendSession, execute, resolve,
}
use harnessing.Host.Opening.{Workspace}
use harnessing.Journal.{JournalIo, RunOutput, Line, read_after}

pub record OutputQuery : Type 0 where
  pub run_id : String
  pub after_offset : ℕ
  pub byte_limit : ℕ

-- The calls of a session that the transport carries.
pub data Call : Type 0 where
  performing : Command → Call
  setting_run_budget : SetRunBudgetRequest → Call
  getting_agent getting_task getting_message getting_run getting_operation : String → Call
  resolving_request subscribing : String → Call
  reading_output : OutputQuery → Call
  getting_snapshot : Call

-- What they answer.
pub data Value : Type 0 where
  a_receipt : Receipt → Value
  an_agent : Agent → Value
  a_task : Task → Value
  a_message : Message → Value
  a_run : Run → Value
  an_operation : Operation → Value
  a_snapshot : Snapshot → Value
  an_output : RunOutput → Value
  some_events : List Event → Value

-- What the system answers during a call. The last field is the number of events that a subscription
-- receives before subscribeDrainWindow has passed.
pub record CallInput : Type 0 where
  pub command : CommandInput
  pub read : Faults
  pub journal : JournalIo
  pub width : Line → ℕ
  pub received : ℕ

abbrev pub value {ℓ} : {A : Type ℓ} → (A → Value) → Result A → Result Value
value make (err x) = err x
value make (ok x) = ok (make x)

-- A receipt beside an error is not answered.
abbrev pub receipt_or_error : Receipt → Option GoError → Result Value
receipt_or_error r none = ok (a_receipt r)
receipt_or_error r (some x) = err x

abbrev pub answer_value : Answer → Result Value
answer_value a = receipt_or_error a.receipt a.error

abbrev pub with_engine : {A : Type 0} → Workspace → A × Engine → A × Workspace
with_engine w (x, e) = (x, record w { engine = e })

-- The loop of dispatch's Subscribe: what is received in `n` turns.
unfoldable pub drain : ℕ → Subscriber → Subscriber
drain zero sub = sub
drain (suc n) sub = drain n (receive sub)

unfoldable pub at_subscriber : ℕ → (Subscriber → Subscriber) → List Subscriber → List Subscriber
at_subscriber i f [] = []
at_subscriber zero f (s ∷ ss) = f s ∷ ss
at_subscriber (suc i) f (s ∷ ss) = s ∷ at_subscriber i f ss

unfoldable pub received_by : ℕ → List Subscriber → List Event
received_by i [] = []
received_by zero (s ∷ ss) = s.received
received_by (suc i) (s ∷ ss) = received_by i ss

abbrev pub on_bus : (List Subscriber → List Subscriber) → Engine → Engine
on_bus f e = record e { events = record e.events { subscribers = f e.events.subscribers } }

-- The batch, and the end of the subscription's context.
unfoldable pub drained : ℕ → Result ℕ × Engine → Result Value × Engine
drained n (err x, e) = (err x, e)
drained n (ok i, e) =
    let e' = on_bus (at_subscriber i (λ sub. cancel (drain n sub))) e in
    (ok (some_events (received_by i e'.events.subscribers)), e')

-- A method of the session.
unfoldable pub serve_call :
    CallInput → FrontendSession → Call → Workspace → Result Value × Workspace
serve_call i s (performing c) w =
    let (a, e) = execute i.command s (commanding c) w.engine in
    (answer_value a, record w { engine = e })
serve_call i s (setting_run_budget req) w =
    let (a, e) = execute i.command s budgeting w.engine in (answer_value a, record w { engine = e })
serve_call i s (getting_agent id) w = (value an_agent (get_agent i.read id w.engine), w)
serve_call i s (getting_task id) w = (value a_task (get_task i.read id w.engine), w)
serve_call i s (getting_message id) w = (value a_message (get_message i.read id w.engine), w)
serve_call i s (getting_run id) w = (value a_run (get_run i.read id w.engine), w)
serve_call i s (getting_operation id) w = (value an_operation (get_operation i.read id w.engine), w)
serve_call i s getting_snapshot w = (value a_snapshot (get_snapshot i.read w.engine), w)
serve_call i s (reading_output q) w = (
  value an_output (read_after i.width i.journal q.after_offset q.byte_limit (w.journals q.run_id)),
  w,
)
serve_call i s (resolving_request id) w =
    let (r, e) = resolve i.read s id w.engine in (value a_receipt r, record w { engine = e })
serve_call i s (subscribing cursor) w =
    with_engine w (drained i.received (subscribe i.read cursor w.engine))
