-- ===== src/Deliverer/Order.antt =====
-- The order of a message's delivery facts under internal/adapters/mailbox/deliverer.go, whatever
-- fails and whatever stands in the mailbox.
use harnessing.Prelude.{String, false, List, ◌≡◌, sym, ◌∙◌, inl, inr, arith}
use harnessing.Domain.Errors.{ok}
use harnessing.Domain.Records.{Message, Snapshot, Event}
use harnessing.Store.{Disk, Faults, CommitRequest, PersistedState, read_locked, with_workspace}
use harnessing.Store
use harnessing.Store.Effects.{Wrote, nothing, mutation, commit-Wrote}
use harnessing.Engine.Scope.{CallerScope, Ambient}
use harnessing.Engine.Commit.{Engine, Io, Mutation, commit, request_of}
use harnessing.Engine.Messages.{host_scope, delivery_fact_mutation, note_processed}
use harnessing.Engine.Mutations.{IsMutation}
use harnessing.Engine.Reachable.{store-commit}
use harnessing.Engine.Delivery.{messages_of, messages_read, messages-with_workspace, commit-Still}
use harnessing.Deliverer.Changes.{
  InOrder, IsPublished, is_processing_note, Touches-InOrder, processing-Touches, mutation-Touches,
}

-- What the mutation does to the messages of a snapshot, a commit does to those of the state file,
-- where it does anything.
module _ (P : List Message → Type 0) where
  Wrote-messages :
      (workspace : String) (req : CommitRequest) (before after : Disk)
      → ((snap snap' : Snapshot) (evs : List Event)
          → snap.messages ≡ messages_of before
          → req.mutate snap ≡ ok (snap', evs)
          → P snap'.messages)
      → Wrote workspace req before after
      → P (messages_of before)
      → P (messages_of after)
  Wrote-messages workspace req before after does (nothing e) h = rw e h
  Wrote-messages workspace req before after does (mutation b state mutated evs read free m e) h =
      rw e (
        does (with_workspace workspace state.snapshot) mutated evs
          (messages-with_workspace workspace state.snapshot
            ∙ sym (messages_read b before state read))
          m)

  pub commit-messages :
      (io : Io) (caller : CallerScope) (request fingerprint : String) (m : Mutation) (e : Engine)
      → ((snap snap' : Snapshot) (evs : List Event)
          → snap.messages ≡ messages_of e.store.files.state_file
          → m snap ≡ ok (snap', evs)
          → P snap'.messages)
      → P (messages_of e.store.files.state_file)
      → P (messages_of (commit io caller request fingerprint m e).1.store.files.state_file)
  commit-messages io caller request fingerprint m e does h =
      let req = request_of caller request fingerprint m in
      rw (store-commit io caller request fingerprint m e) (
        Wrote-messages e.workspace_id req e.store.files.state_file
          (Store.commit io.commit e.workspace_id req e.store).1.files.state_file does
          (commit-Wrote io.commit e.workspace_id req e.store) h)

abbrev pub messages_at : Engine → List Message
messages_at e = messages_of e.store.files.state_file

pub commit-InOrder :
    (io : Io) (caller : CallerScope) (request fingerprint : String) (m : Mutation) (e : Engine)
    (im : IsMutation m)
    → is_processing_note im ≡ false
    → InOrder (messages_at e)
    → InOrder (messages_at (commit io caller request fingerprint m e).1)
commit-InOrder io caller request fingerprint m e im p h =
    commit-messages InOrder io caller request fingerprint m e
      (λ snap snap' evs s k.
        Touches-InOrder snap.messages snap'.messages (mutation-Touches snap snap' evs m im p k)
          (rw s h))
      h

pub processing-InOrder :
    (io : Io) (request fingerprint : String) (a : Ambient) (id : String) (e : Engine)
    → IsPublished id (messages_at e)
    → InOrder (messages_at e)
    → InOrder (
        messages_at
          (commit io host_scope request fingerprint
            (delivery_fact_mutation a "MessageProcessed" id note_processed)
            e).1)
processing-InOrder io request fingerprint a id e there h =
    commit-messages InOrder io host_scope request fingerprint
      (delivery_fact_mutation a "MessageProcessed" id note_processed) e
      (λ snap snap' evs s k.
        Touches-InOrder snap.messages snap'.messages
          (processing-Touches snap snap' evs a id (rw s there) k) (rw s h))
      h

-- A published message stays so under every command.
pub commit-IsPublished :
    (io : Io) (caller : CallerScope) (request fingerprint : String) (m : Mutation) (e : Engine)
    (k : String)
    → IsMutation m
    → IsPublished k (messages_at e)
    → IsPublished k (messages_at (commit io caller request fingerprint m e).1)
commit-IsPublished io caller request fingerprint m e k im (n, at, noted) =
    let (n', at', keeps) = commit-Still io caller request fingerprint m e k n im at in
    (n', at', elim keeps.published [ inl e ↦ absurd (ground arith) | inr e ↦ rw e noted ])
