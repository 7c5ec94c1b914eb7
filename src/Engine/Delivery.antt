-- ===== src/Engine/Delivery.antt =====
-- What the engine of internal/core/task/engine.go has noted of a message stays noted.
use harnessing.Prelude.{
  ℕ, String, Bool, Option, none, some, List, [], ◌∷◌, ◌++◌, set, ◌≡◌, refl, arith, eq_iff, str_eq,
  Option-cases, Bool-cases, inl, inr, ◌⊎◌, if◌then◌else◌, subst,
}
use harnessing.Domain.Errors.{Result, ok}
use harnessing.Domain.Records.{Message, Snapshot, Event}
use harnessing.Table.{find_message, message_id, entry}
use harnessing.Table.Laws.{find-append, find-set, key-find}
use harnessing.Store.{Disk, file, CommitRequest, PersistedState, read_locked, with_workspace}
use harnessing.Store
use harnessing.Store.Effects.{Wrote, nothing, mutation, commit-Wrote}
use harnessing.Api.{AcknowledgeMessageRequest}
use harnessing.Engine.Scope.{CallerScope, Ambient}
use harnessing.Engine.Commit.{Engine, Io, Mutation, commit, request_of}
use harnessing.Engine.Tasks.{
  create_task_mutation, transition_task_mutation, report_task_result_mutation,
}
use harnessing.Engine.Reviews.{accept_task_result_mutation, reject_task_result_mutation}
use harnessing.Engine.Agents.{register_agent_mutation, update_agent_mutation}
use harnessing.Engine.Messages.{
  send_message_mutation, acknowledge_message_mutation, delivery_fact_mutation, queued,
  acknowledge_at, deliver_at, note_published, note_processed,
}
use harnessing.Engine.Profiles.{approve_profile_mutation}
use harnessing.Engine.Runs.Start.{
  start_intent_mutation, start_marker_mutation, start_observation_mutation,
}
use harnessing.Engine.Runs.Stop.{stop_intent_mutation, stop_outcome_mutation}
use harnessing.Engine.Runs.Reconcile.{reconcile_mutation}
use harnessing.Engine.Mutations.{IsMutation, sending, acknowledgement, publication, processing_note}
use harnessing.Engine.Reachable.{store-commit}

-- The envelope as it was queued.
abbrev pub SameEnvelope : Message → Message → Type 0
SameEnvelope m m' =
    (m'.message_id ≡ m.message_id)
    × (m'.workspace_id ≡ m.workspace_id)
    × (m'.task_id ≡ m.task_id)
    × (m'.reply_to_message_id ≡ m.reply_to_message_id)
    × (m'.sender_agent_id ≡ m.sender_agent_id)
    × (m'.recipient_agent_id ≡ m.recipient_agent_id)
    × (m'.kind ≡ m.kind)
    × (m'.body ≡ m.body)
    × (m'.created_at ≡ m.created_at)
    × (m'.queued_at ≡ m.queued_at)

-- A note that was made keeps its time.
abbrev pub StaysNoted : Option ℕ → Option ℕ → Type 0
StaysNoted before after = (before ≡ none) ⊎ (after ≡ before)

pub record Keeps (m m' : Message) : Type 0 where
  pub envelope : SameEnvelope m m'
  pub published : StaysNoted m.published_at m'.published_at
  pub processed : StaysNoted m.processed_at m'.processed_at
  pub acknowledged : StaysNoted m.acknowledged_at m'.acknowledged_at
  pub acknowledger : (m.acknowledged_at ≡ none) ⊎ (m'.acknowledged_by ≡ m.acknowledged_by)

all_kept : (m : Message) → Keeps m m
all_kept m = record {
  envelope = (refl, refl, refl, refl, refl, refl, refl, refl, refl, refl);
  published = inr refl;
  processed = inr refl;
  acknowledged = inr refl;
  acknowledger = inr refl;
}

-- The message is still there, and keeps what was noted.
abbrev pub Still : String → Message → List Message → Type 0
Still k m messages = (m' : Message) × (entry message_id k messages ≡ some m') × Keeps m m'

-- How a command may change the messages.
data Rewrites (messages messages' : List Message) : Type 0 where
  same : messages' ≡ messages → Rewrites messages messages'
  added : (m : Message) → messages' ≡ messages ++ m ∷ [] → Rewrites messages messages'
  changed :
      (k : String) (i : ℕ) (m m' : Message)
      → find_message k messages ≡ some (i, m)
      → Keeps m m'
      → messages' ≡ set messages i m'
      → Rewrites messages messages'

Still-set :
    (j k : String) (messages : List Message) (i : ℕ) (m m' n : Message)
    → find_message k messages ≡ some (i, m)
    → Keeps m m'
    → entry message_id j messages ≡ some n
    → Still j n (set messages i m')
Still-set j k messages i m m' n found keeps h =
    let at : find_message j (set messages i m')
        ≡ (if str_eq k j then some (i, m') else find_message j messages) =
      find-set message_id k j messages i m m' found
        (ground (arith, key-find message_id k messages found, keeps.envelope.0)) in
    elim (Bool-cases (str_eq k j)) [
      | inl e ↦
          let same_id : k ≡ j = ground (arith, e, eq_iff k j) in
          let there : find_message j messages ≡ some (i, m) = rw (← same_id) found in
          let one : m ≡ n = ground (arith, there, h) in
          (m', ground (arith, at, e), subst (λ x. Keeps x m') one keeps)
      | inr e ↦ (n, ground (arith, at), all_kept n)
    ]

Rewrites-Still :
    (j : String) (messages messages' : List Message) (n : Message)
    → Rewrites messages messages'
    → entry message_id j messages ≡ some n
    → Still j n messages'
Rewrites-Still j messages messages' n (same e) h = rw e (n, h, all_kept n)
Rewrites-Still j messages messages' n (added m e) h =
    rw e (n, ground (arith, find-append message_id j messages m), all_kept n)
Rewrites-Still j messages messages' n (changed k i m m' found keeps e) h =
    rw e (Still-set j k messages i m m' n found keeps h)

module _ (snap snap' : Snapshot) (evs : List Event) where
  acknowledge-Rewrites :
      (a : Ambient) (caller : CallerScope) (req : AcknowledgeMessageRequest) (i : ℕ) (m : Message)
      → find_message req.message_id snap.messages ≡ some (i, m)
      → acknowledge_at a caller req snap (some (i, m)) ≡ ok (snap', evs)
      → Rewrites snap.messages snap'.messages
  acknowledge-Rewrites a caller req i m found e = elim (Option-cases m.acknowledged_at) [
    | inr (at, done) ↦ same (ground arith)
    | inl unset ↦
        changed req.message_id i m
          (record m { acknowledged_by = caller.agent_id; acknowledged_at = some a.now }) found
          (record {
            envelope = (refl, refl, refl, refl, refl, refl, refl, refl, refl, refl);
            published = inr refl;
            processed = inr refl;
            acknowledged = inl unset;
            acknowledger = inl unset;
          })
          (ground arith)
  ]

  published-Rewrites :
      (a : Ambient) (id : String) (i : ℕ) (m : Message)
      → find_message id snap.messages ≡ some (i, m)
      → deliver_at a "MessagePublished" id note_published snap (some (i, m)) ≡ ok (snap', evs)
      → Rewrites snap.messages snap'.messages
  published-Rewrites a id i m found e = elim (Option-cases m.published_at) [
    | inr (at, done) ↦ same (ground arith)
    | inl unset ↦
        changed id i m (record m { published_at = some a.now }) found
          (record {
            envelope = (refl, refl, refl, refl, refl, refl, refl, refl, refl, refl);
            published = inl unset;
            processed = inr refl;
            acknowledged = inr refl;
            acknowledger = inr refl;
          })
          (ground arith)
  ]

  processed-Rewrites :
      (a : Ambient) (id : String) (i : ℕ) (m : Message)
      → find_message id snap.messages ≡ some (i, m)
      → deliver_at a "MessageProcessed" id note_processed snap (some (i, m)) ≡ ok (snap', evs)
      → Rewrites snap.messages snap'.messages
  processed-Rewrites a id i m found e = elim (Option-cases m.processed_at) [
    | inr (at, done) ↦ same (ground arith)
    | inl unset ↦
        changed id i m (record m { processed_at = some a.now }) found
          (record {
            envelope = (refl, refl, refl, refl, refl, refl, refl, refl, refl, refl);
            published = inr refl;
            processed = inl unset;
            acknowledged = inr refl;
            acknowledger = inr refl;
          })
          (ground arith)
  ]

  -- A command that writes the message of one identifier.
  at_message :
      (k : String) (at : Option (ℕ × Message) → Result (Snapshot × List Event))
      → (at none ≡ ok (snap', evs) → ⊥)
      → ((i : ℕ) (m : Message)
          → find_message k snap.messages ≡ some (i, m)
          → at (some (i, m)) ≡ ok (snap', evs)
          → Rewrites snap.messages snap'.messages)
      → at (find_message k snap.messages) ≡ ok (snap', evs)
      → Rewrites snap.messages snap'.messages
  at_message k at missing there e = elim (Option-cases (find_message k snap.messages)) [
    | inl n ↦ absurd (missing (rw n at e))
    | inr ((i, m), found) ↦ there i m found (rw found at e)
  ]

  mutation-Rewrites :
      (m : Mutation)
      → IsMutation m
      → m snap ≡ ok (snap', evs)
      → Rewrites snap.messages snap'.messages
  unfolding create_task_mutation transition_task_mutation report_task_result_mutation
      accept_task_result_mutation reject_task_result_mutation register_agent_mutation
      update_agent_mutation send_message_mutation acknowledge_message_mutation
      delivery_fact_mutation approve_profile_mutation start_intent_mutation start_marker_mutation
      start_observation_mutation stop_intent_mutation stop_outcome_mutation reconcile_mutation
  mutation-Rewrites m (sending a workspace caller req c) e =
      added (queued a workspace caller req) (ground arith)
  mutation-Rewrites m (acknowledgement a caller req) e =
      at_message req.message_id (acknowledge_at a caller req snap) (λ h. absurd (cc))
        (acknowledge-Rewrites a caller req) e
  mutation-Rewrites m (publication a id) e =
      at_message id (deliver_at a "MessagePublished" id note_published snap) (λ h. absurd (cc))
        (published-Rewrites a id) e
  mutation-Rewrites m (processing_note a id) e =
      at_message id (deliver_at a "MessageProcessed" id note_processed snap) (λ h. absurd (cc))
        (processed-Rewrites a id) e
  mutation-Rewrites m _ e = same (ground arith)

abbrev pub messages_of : Disk → List Message
messages_of (file state) = state.snapshot.messages
messages_of _ = []

pub messages_read :
    (b : Bool) (d : Disk) (state : PersistedState)
    → read_locked b d ≡ ok state
    → messages_of d ≡ state.snapshot.messages
unfolding read_locked
messages_read b d state h = ground arith

pub messages-with_workspace :
    (ws : String) (snap : Snapshot) → (with_workspace ws snap).messages ≡ snap.messages
messages-with_workspace ws snap = ground arith

Wrote-Still :
    (k workspace : String) (n : Message) (req : CommitRequest) (before after : Disk)
    → IsMutation req.mutate
    → Wrote workspace req before after
    → entry message_id k (messages_of before) ≡ some n
    → Still k n (messages_of after)
Wrote-Still k workspace n req before after im (nothing e) h = rw e (n, h, all_kept n)
Wrote-Still k workspace n req before after im (mutation b state mutated evs read free m e) h =
    let snap = with_workspace workspace state.snapshot in
    rw e (
      Rewrites-Still k snap.messages mutated.messages n
        (mutation-Rewrites snap mutated evs req.mutate im m)
        (rw (messages-with_workspace workspace state.snapshot, ← messages_read b before state read)
          h))

-- Whatever command commits, and whatever fails in it, a message that the state file has is there
-- afterwards with the same envelope; and where it was published, processed or acknowledged before,
-- it has the same time, and the same acknowledger, for that.
pub commit-Still :
    (io : Io) (caller : CallerScope) (request fingerprint : String) (m : Mutation) (e : Engine)
    (k : String) (n : Message)
    → IsMutation m
    → entry message_id k (messages_of e.store.files.state_file) ≡ some n
    → Still k n (messages_of (commit io caller request fingerprint m e).1.store.files.state_file)
commit-Still io caller request fingerprint m e k n im h =
    let req = request_of caller request fingerprint m in
    rw (store-commit io caller request fingerprint m e) (
      Wrote-Still k e.workspace_id n req e.store.files.state_file
        (Store.commit io.commit e.workspace_id req e.store).1.files.state_file im
        (commit-Wrote io.commit e.workspace_id req e.store) h)
