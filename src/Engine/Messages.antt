-- ===== src/Engine/Messages.antt =====
-- SendMessage, AcknowledgeMessage, RecordMessagePublished and RecordMessageProcessed of
-- internal/core/task/engine.go.
use harnessing.Prelude.{
  ℕ, String, Bool, true, false, not, Option, none, some, List, [], ◌∷◌, ◌++◌, set, str_eq, ◌||◌,
}
use harnessing.Domain.Errors.{
  Result, ok, fail, ◌>>=◌, ◌>>◌, reject_if, invalid_argument, not_found, conflict, denied,
}
use harnessing.Domain.Records.{MessageKind, other_kind, Message, Snapshot, Event, Receipt}
use harnessing.Api.{
  Pointer, Body, utf8, invalid_utf8, SendMessageRequest, AcknowledgeMessageRequest,
  MessageDeliveryRequest,
}
use harnessing.Table.{find_agent, find_task, find_message, is_found}
use harnessing.Text.Fingerprint.{fingerprint, str, pointer, kind_text}
use harnessing.Engine.Scope.{CallerScope, Ambient, claimed_provenance, event, is_empty}
use harnessing.Engine.Commit.{Engine, Io, Mutation, commit, checked}

-- validMessageKind
abbrev pub valid_message_kind : MessageKind → Bool
valid_message_kind (other_kind s) = false
valid_message_kind _ = true

-- utf8.ValidString
abbrev pub valid_string : Body → Bool
valid_string (utf8 s) = true
valid_string (invalid_utf8 bytes) = false

abbrev pub body_text : Body → String
body_text (utf8 s) = s
body_text (invalid_utf8 bytes) = ""

unfoldable pub check_send_message : SendMessageRequest → Result (Unit {0})
check_send_message req = do
  reject_if
      (is_empty req.message_id || is_empty req.sender_agent_id || is_empty req.recipient_agent_id)
      invalid_argument
  reject_if (not (valid_message_kind req.kind)) invalid_argument
  reject_if (not (valid_string req.body)) invalid_argument

abbrev pub target_of : Option Pointer → Option String
target_of none = none
target_of (some p) = some p.target

-- The pointer is set, and what it names is not there.
abbrev pub dangling : Option Pointer → (String → Bool) → Bool
dangling none known = false
dangling (some p) known = not (known p.target)

abbrev pub queued : Ambient → String → CallerScope → SendMessageRequest → Message
queued a workspace caller req = record {
  workspace_id = workspace;
  message_id = req.message_id;
  sender_agent_id = req.sender_agent_id;
  recipient_agent_id = req.recipient_agent_id;
  kind = req.kind;
  body = body_text req.body;
  created_at = a.now;
  task_id = target_of req.task_id;
  reply_to_message_id = target_of req.reply_to_message_id;
  provenance = claimed_provenance caller a.now;
  queued_at = some a.now;
  published_at = none;
  processed_at = none;
  acknowledged_by = "";
  acknowledged_at = none;
}

unfoldable pub send_message_mutation :
    Ambient → String → CallerScope → SendMessageRequest → Mutation
send_message_mutation a workspace caller req snap = do
  reject_if (is_found (find_message req.message_id snap.messages)) conflict
  reject_if (not (is_found (find_agent req.sender_agent_id snap.agents))) not_found
  reject_if (not (is_found (find_agent req.recipient_agent_id snap.agents))) not_found
  reject_if (dangling req.task_id (λ id. is_found (find_task id snap.tasks))) not_found
  reject_if (dangling req.reply_to_message_id (λ id. is_found (find_message id snap.messages)))
      not_found
  ev ← event a "MessageQueued" (req.message_id ∷ [])
  ok (record snap { messages = snap.messages ++ queued a workspace caller req ∷ [] }, ev ∷ [])

unfoldable pub send_message :
    Io → Ambient → CallerScope → SendMessageRequest → Engine → Result Receipt × Engine
send_message io a caller req e = checked (check_send_message req) e (
    commit io caller req.request_id
      (fingerprint (
        str "SendMessage"
        ∷ str req.message_id
        ∷ str req.sender_agent_id
        ∷ str req.recipient_agent_id
        ∷ str (kind_text req.kind)
        ∷ str (body_text req.body)
        ∷ pointer req.task_id
        ∷ pointer req.reply_to_message_id
        ∷ []))
      (send_message_mutation a e.workspace_id caller req) e)

abbrev pub is_noted : Option ℕ → Bool
is_noted none = false
is_noted (some at) = true

abbrev pub acknowledge_now :
    Ambient
    → CallerScope
    → AcknowledgeMessageRequest
    → Snapshot
    → ℕ
    → Message
    → Option ℕ
    → Result (Snapshot × List Event)
acknowledge_now a caller req snap i message (some at) = ok (snap, [])
acknowledge_now a caller req snap i message none = do
  ev ← event a "MessageAcknowledged" (req.message_id ∷ [])
  ok (
    record snap {
      messages =
          set snap.messages i
            (record message { acknowledged_by = caller.agent_id; acknowledged_at = some a.now });
    },
    ev ∷ [],
  )

abbrev pub acknowledge_at :
    Ambient
    → CallerScope
    → AcknowledgeMessageRequest
    → Snapshot
    → Option (ℕ × Message)
    → Result (Snapshot × List Event)
acknowledge_at a caller req snap none = fail not_found
acknowledge_at a caller req snap (some (i, message)) = do
  reject_if (not (str_eq message.recipient_agent_id caller.agent_id)) denied
  acknowledge_now a caller req snap i message message.acknowledged_at

unfoldable pub acknowledge_message_mutation :
    Ambient → CallerScope → AcknowledgeMessageRequest → Mutation
acknowledge_message_mutation a caller req snap =
    acknowledge_at a caller req snap (find_message req.message_id snap.messages)

unfoldable pub acknowledge_message :
    Io → Ambient → CallerScope → AcknowledgeMessageRequest → Engine → Result Receipt × Engine
acknowledge_message io a caller req e =
    commit io caller req.request_id
      (fingerprint (str "AcknowledgeMessage" ∷ str req.message_id ∷ []))
      (acknowledge_message_mutation a caller req) e

-- `CallerScope{}`, under which the host records its own facts.
abbrev pub host_scope : CallerScope
host_scope = record { agent_id = ""; is_human_reviewer = false }

-- The `apply` functions: nothing where the fact is already there.
abbrev pub apply_published : Message → ℕ → Option ℕ → Option Message
apply_published message now (some at) = none
apply_published message now none = some (record message { published_at = some now })

abbrev pub apply_processed : Message → ℕ → Option ℕ → Option Message
apply_processed message now (some at) = none
apply_processed message now none = some (record message { processed_at = some now })

abbrev pub note_published : Message → ℕ → Option Message
note_published message now = apply_published message now message.published_at

abbrev pub note_processed : Message → ℕ → Option Message
note_processed message now = apply_processed message now message.processed_at

abbrev pub deliver_applied :
    Ambient → String → String → Snapshot → ℕ → Option Message → Result (Snapshot × List Event)
deliver_applied a kind message_id snap i none = ok (snap, [])
deliver_applied a kind message_id snap i (some message) = do
  ev ← event a kind (message_id ∷ [])
  ok (record snap { messages = set snap.messages i message }, ev ∷ [])

abbrev pub deliver_at :
    Ambient
    → String
    → String
    → (Message → ℕ → Option Message)
    → Snapshot
    → Option (ℕ × Message)
    → Result (Snapshot × List Event)
deliver_at a kind message_id apply snap none = fail not_found
deliver_at a kind message_id apply snap (some (i, message)) =
    deliver_applied a kind message_id snap i (apply message a.now)

-- recordDeliveryFact
unfoldable pub delivery_fact_mutation :
    Ambient → String → String → (Message → ℕ → Option Message) → Mutation
delivery_fact_mutation a kind message_id apply snap =
    deliver_at a kind message_id apply snap (find_message message_id snap.messages)

unfoldable pub record_delivery_fact :
    Io
    → Ambient
    → MessageDeliveryRequest
    → String
    → (Message → ℕ → Option Message)
    → Engine
    → Result Receipt × Engine
record_delivery_fact io a req kind apply e =
    commit io host_scope req.request_id (fingerprint (str kind ∷ str req.message_id ∷ []))
      (delivery_fact_mutation a kind req.message_id apply) e

unfoldable pub record_message_published :
    Io → Ambient → MessageDeliveryRequest → Engine → Result Receipt × Engine
unfolding record_delivery_fact
record_message_published io a req = record_delivery_fact io a req "MessagePublished" note_published

unfoldable pub record_message_processed :
    Io → Ambient → MessageDeliveryRequest → Engine → Result Receipt × Engine
unfolding record_delivery_fact
record_message_processed io a req = record_delivery_fact io a req "MessageProcessed" note_processed
