-- ===== src/Deliverer/Changes.antt =====
-- How the commands of internal/core/task/engine.go may change the messages, as far as the order of
-- a message's delivery facts goes.
use harnessing.Prelude.{
  ℕ, String, Bool, true, false, Option, none, some, List, [], ◌∷◌, ◌++◌, set, ◌≡◌, refl, ◌∙◌, inl,
  inr, arith, Option-cases, All, All-append,
}
use harnessing.Domain.Errors.{Result, ok}
use harnessing.Domain.Records.{Message, Snapshot, Event}
use harnessing.Table.{find_message, message_id, entry}
use harnessing.Table.Laws.{Unique, Unique-append, Unique-set, key-find, All-update, All-find}
use harnessing.Api.{AcknowledgeMessageRequest, SendMessageRequest}
use harnessing.Engine.Scope.{CallerScope, Ambient}
use harnessing.Engine.Commit.{Mutation}
use harnessing.Engine.Tasks.{
  create_task_mutation, transition_task_mutation, report_task_result_mutation,
}
use harnessing.Engine.Reviews.{accept_task_result_mutation, reject_task_result_mutation}
use harnessing.Engine.Agents.{register_agent_mutation, update_agent_mutation}
use harnessing.Engine.Messages.{
  is_noted, send_message_mutation, acknowledge_message_mutation, delivery_fact_mutation, queued,
  acknowledge_at, deliver_at, note_published, note_processed,
}
use harnessing.Engine.Profiles.{approve_profile_mutation}
use harnessing.Engine.Runs.Start.{
  start_intent_mutation, start_marker_mutation, start_observation_mutation,
}
use harnessing.Engine.Runs.Stop.{stop_intent_mutation, stop_outcome_mutation}
use harnessing.Engine.Runs.Reconcile.{reconcile_mutation}
use harnessing.Engine.Mutations.{IsMutation, sending, acknowledgement, publication, processing_note}

-- What was processed was published.
abbrev pub Causal : Message → Type 0
Causal m = is_noted m.processed_at ≡ true → is_noted m.published_at ≡ true

abbrev pub InOrder : List Message → Type 0
InOrder messages = Unique message_id messages × All Causal messages

-- The message is there, and published.
abbrev pub IsPublished : String → List Message → Type 0
IsPublished id messages =
    (m : Message) × (entry message_id id messages ≡ some m) × (is_noted m.published_at ≡ true)

-- Whether the command is RecordMessageProcessed.
abbrev pub is_processing_note : {m : Mutation} → IsMutation m → Bool
is_processing_note (processing_note a id) = true
is_processing_note _ = false

pub data Touches (messages : List Message) : List Message → Type 0 where
  same : {after : List Message} → after ≡ messages → Touches messages after
  added :
      {after : List Message} (m : Message)
      → find_message m.message_id messages ≡ none
      → Causal m
      → after ≡ messages ++ m ∷ []
      → Touches messages after
  changed :
      {after : List Message} (k : String) (i : ℕ) (m m' : Message)
      → find_message k messages ≡ some (i, m)
      → m'.message_id ≡ m.message_id
      → (Causal m → Causal m')
      → after ≡ set messages i m'
      → Touches messages after

pub Touches-InOrder :
    (messages after : List Message) → Touches messages after → InOrder messages → InOrder after
Touches-InOrder messages after (same e) h = rw e h
Touches-InOrder messages after (added m fresh c e) h =
    rw e (
      Unique-append message_id messages m h.0 fresh,
      All-append Causal messages (m ∷ []) h.1 (c, tt),
    )
Touches-InOrder messages after (changed k i m m' found same_id keeps e) h = rw e (
  Unique-set message_id k messages i m m' h.0 found
      (same_id ∙ key-find message_id k messages found),
  All-update message_id Causal Causal k (λ w n c. c) messages i m m' h.0 h.1 found
      (keeps (All-find message_id Causal k messages h.1 found)),
)

module _ (snap snap' : Snapshot) (evs : List Event) where
  acknowledge-Touches :
      (a : Ambient) (caller : CallerScope) (req : AcknowledgeMessageRequest) (i : ℕ) (m : Message)
      → find_message req.message_id snap.messages ≡ some (i, m)
      → acknowledge_at a caller req snap (some (i, m)) ≡ ok (snap', evs)
      → Touches snap.messages snap'.messages
  acknowledge-Touches a caller req i m found e = elim (Option-cases m.acknowledged_at) [
    | inr (at, done) ↦ same (ground arith)
    | inl unset ↦
        changed req.message_id i m
          (record m { acknowledged_by = caller.agent_id; acknowledged_at = some a.now }) found refl
          (λ c. c) (ground arith)
  ]

  published-Touches :
      (a : Ambient) (id : String) (i : ℕ) (m : Message)
      → find_message id snap.messages ≡ some (i, m)
      → deliver_at a "MessagePublished" id note_published snap (some (i, m)) ≡ ok (snap', evs)
      → Touches snap.messages snap'.messages
  published-Touches a id i m found e = elim (Option-cases m.published_at) [
    | inr (at, done) ↦ same (ground arith)
    | inl unset ↦
        changed id i m (record m { published_at = some a.now }) found refl (λ c k. refl)
          (ground arith)
  ]

  processed-Touches :
      (a : Ambient) (id : String) (i : ℕ) (m : Message)
      → find_message id snap.messages ≡ some (i, m)
      → is_noted m.published_at ≡ true
      → deliver_at a "MessageProcessed" id note_processed snap (some (i, m)) ≡ ok (snap', evs)
      → Touches snap.messages snap'.messages
  processed-Touches a id i m found there e = elim (Option-cases m.processed_at) [
    | inr (at, done) ↦ same (ground arith)
    | inl unset ↦
        changed id i m (record m { processed_at = some a.now }) found refl (λ c k. there)
          (ground arith)
  ]

  sending-Touches :
      (a : Ambient) (workspace : String) (caller : CallerScope) (req : SendMessageRequest)
      → send_message_mutation a workspace caller req snap ≡ ok (snap', evs)
      → Touches snap.messages snap'.messages
  unfolding send_message_mutation
  sending-Touches a workspace caller req e =
      elim (Option-cases (find_message req.message_id snap.messages)) [
        | inl n ↦ added (queued a workspace caller req) n (λ k. cc) (ground arith)
        | inr (p, f) ↦ absurd (ground arith)
      ]

  -- A command that writes the message of one identifier.
  at_message :
      (k : String) (at : Option (ℕ × Message) → Result (Snapshot × List Event))
      → (at none ≡ ok (snap', evs) → ⊥)
      → ((i : ℕ) (m : Message)
          → find_message k snap.messages ≡ some (i, m)
          → at (some (i, m)) ≡ ok (snap', evs)
          → Touches snap.messages snap'.messages)
      → at (find_message k snap.messages) ≡ ok (snap', evs)
      → Touches snap.messages snap'.messages
  at_message k at missing there e = elim (Option-cases (find_message k snap.messages)) [
    | inl n ↦ absurd (missing (rw n at e))
    | inr ((i, m), found) ↦ there i m found (rw found at e)
  ]

  pub processing-Touches :
      (a : Ambient) (id : String)
      → IsPublished id snap.messages
      → delivery_fact_mutation a "MessageProcessed" id note_processed snap ≡ ok (snap', evs)
      → Touches snap.messages snap'.messages
  unfolding delivery_fact_mutation
  processing-Touches a id (n, at, noted) e =
      at_message id (deliver_at a "MessageProcessed" id note_processed snap) (λ h. absurd (cc))
        (λ i m found. processed-Touches a id i m found (ground (arith, found, at, noted))) e

  pub mutation-Touches :
      (m : Mutation) (im : IsMutation m)
      → is_processing_note im ≡ false
      → m snap ≡ ok (snap', evs)
      → Touches snap.messages snap'.messages
  unfolding create_task_mutation transition_task_mutation report_task_result_mutation
      accept_task_result_mutation reject_task_result_mutation register_agent_mutation
      update_agent_mutation acknowledge_message_mutation delivery_fact_mutation
      approve_profile_mutation start_intent_mutation start_marker_mutation
      start_observation_mutation stop_intent_mutation stop_outcome_mutation reconcile_mutation
  mutation-Touches m (sending a workspace caller req c) p e =
      sending-Touches a workspace caller req e
  mutation-Touches m (acknowledgement a caller req) p e =
      at_message req.message_id (acknowledge_at a caller req snap) (λ h. absurd (cc))
        (acknowledge-Touches a caller req) e
  mutation-Touches m (publication a id) p e =
      at_message id (deliver_at a "MessagePublished" id note_published snap) (λ h. absurd (cc))
        (published-Touches a id) e
  mutation-Touches m (processing_note a id) p e = absurd (cc)
  mutation-Touches m _ p e = same (ground arith)
