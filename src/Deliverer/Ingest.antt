-- ===== src/Deliverer/Ingest.antt =====
-- IngestPending of internal/adapters/mailbox/deliverer.go keeps the order of the delivery facts.
use harnessing.Prelude.{ℕ, suc, String, true, List, [], ◌∷◌, ◌≡◌, refl, inl, inr, if◌then◌else◌}
use harnessing.Domain.Errors.{Result, ok, err}
use harnessing.Domain.Records.{Snapshot, Receipt}
use harnessing.Store.{Faults}
use harnessing.Engine.Commit.{Engine}
use harnessing.Engine.Messages.{
  host_scope, delivery_fact_mutation, note_processed, record_message_processed,
  record_delivery_fact,
}
use harnessing.Engine.Mutations.{processing_note}
use harnessing.Engine.Reads.{get_snapshot}
use harnessing.Mailbox.Wire.{Envelope, Wire}
use harnessing.Mailbox.Inbox.{scan_inbox, archive_message}
use harnessing.Deliverer.{
  World, Turn, published_ids, recipients, has_key, on_mail, record_processed, ingest_envelope,
  ingest_envelopes, ingest_scanned, ingest_agents, ingest_snapshot, ingest_pending,
  request_id_for_fact,
}
use harnessing.Deliverer.Changes.{InOrder, IsPublished}
use harnessing.Deliverer.Order.{messages_at, processing-InOrder, commit-IsPublished}
use harnessing.Deliverer.Loops.{
  then_on-keeps, if_turn-keeps, on_engine-keeps, messages-get_snapshot, published_ids-IsPublished,
}

module _ {B : Type 0} (w : Wire B) where
  -- Where the published set was taken from a state whose messages are in order, it stays true of
  -- every later one.
  abbrev Ready : List String → World B → Type 0
  Ready published v =
      InOrder (messages_at v.engine)
      × ((id : String) → has_key id published ≡ true → IsPublished id (messages_at v.engine))

  ingest_envelope-Ready :
      (published : List String) (turn : Turn B) (env : Envelope) (v : World B)
      → has_key env.message_id published ≡ true
      → Ready published v
      → Ready published (ingest_envelope w turn env v).1
  unfolding ingest_envelope record_message_processed record_delivery_fact
  ingest_envelope-Ready published turn env v k h =
      then_on-keeps (Ready published) (record_processed turn env.message_id v)
        (λ v'. on_mail (archive_message turn.archive_io env.message_id v'.mail) v')
        (
          on_engine-keeps InOrder answer v (
              processing-InOrder turn.io _ _ turn.ambient env.message_id v.engine
                (h.1 env.message_id k) h.0),
          λ id q. on_engine-keeps (IsPublished id) answer v (
              commit-IsPublished turn.io host_scope _ _
                (delivery_fact_mutation turn.ambient "MessageProcessed" env.message_id
                  note_processed)
                v.engine id (processing_note turn.ambient env.message_id) (h.1 id q)),
        )
        (λ v' g. g)
    where
      answer : Result Receipt × Engine
      answer =
          record_message_processed turn.io turn.ambient
            (record {
              request_id = request_id_for_fact "process" env.message_id;
              message_id = env.message_id;
            })
            v.engine

  ingest_envelopes-Ready :
      (at : ℕ → Turn B) (published : List String) (envs : List Envelope) (v : World B)
      → Ready published v
      → Ready published (ingest_envelopes w at published envs v).1
  unfolding ingest_envelopes
  ingest_envelopes-Ready at published [] v h = h
  ingest_envelopes-Ready at published (env ∷ envs) v h =
      then_on-keeps (Ready published)
        (if has_key env.message_id published then ingest_envelope w (at 0) env v else (ok tt, v))
        (ingest_envelopes w (λ i. at (suc i)) published envs)
        (if_turn-keeps (Ready published) (has_key env.message_id published)
          (ingest_envelope w (at 0) env v) v (λ k. ingest_envelope-Ready published (at 0) env v k h)
          h)
        (λ v' k. ingest_envelopes-Ready (λ i. at (suc i)) published envs v' k)

  ingest_scanned-Ready :
      (at : ℕ → Turn B) (published : List String) (v : World B) (r : Result (List Envelope))
      → Ready published v
      → Ready published (ingest_scanned w at published v r).1
  ingest_scanned-Ready at published v (err e) h = h
  ingest_scanned-Ready at published v (ok envs) h = ingest_envelopes-Ready at published envs v h

  ingest_agents-Ready :
      (at : ℕ → ℕ → Turn B) (published agents : List String) (v : World B)
      → Ready published v
      → Ready published (ingest_agents w at published agents v).1
  unfolding ingest_agents
  ingest_agents-Ready at published [] v h = h
  ingest_agents-Ready at published (agent ∷ agents) v h =
      let scanned = scan_inbox w (at 0 0).mail_io agent v.mail in
      then_on-keeps (Ready published) (ingest_scanned w (λ i. at 0 (suc i)) published v scanned)
        (ingest_agents w (λ i. at (suc i)) published agents)
        (ingest_scanned-Ready (λ i. at 0 (suc i)) published v scanned h)
        (λ v' k. ingest_agents-Ready (λ i. at (suc i)) published agents v' k)

  published_ids-Ready :
      (f : Faults) (e : Engine) (snap : Snapshot)
      → get_snapshot f e ≡ ok snap
      → InOrder (messages_at e)
      → (id : String) → has_key id (published_ids snap.messages) ≡ true
      → IsPublished id (messages_at e)
  unfolding published_ids has_key
  published_ids-Ready f e snap r h id k = elim (messages-get_snapshot f e snap r) [
    | inl same ↦ published_ids-IsPublished id (messages_at e) h.0 (rw same at k)
    | inr nothing ↦
        let none_there : has_key id (published_ids []) ≡ true = rw nothing at k in absurd (cc)
  ]

  ingest_snapshot-InOrder :
      (f : Faults) (at : ℕ → ℕ → Turn B) (visit : List String → List String) (v : World B)
      (r : Result Snapshot)
      → get_snapshot f v.engine ≡ r
      → InOrder (messages_at v.engine)
      → InOrder (messages_at (ingest_snapshot w at visit v r).1.engine)
  ingest_snapshot-InOrder f at visit v (err e) p h = h
  ingest_snapshot-InOrder f at visit v (ok snap) p h =
      (ingest_agents-Ready at (published_ids snap.messages) (visit (recipients snap.messages)) v
        (h, published_ids-Ready f v.engine snap p h)).0

  -- Whatever stands in the mailbox and whatever fails, IngestPending processes no message that is
  -- not published.
  pub ingest_pending-InOrder :
      (f : Faults) (at : ℕ → ℕ → Turn B) (visit : List String → List String) (v : World B)
      → InOrder (messages_at v.engine)
      → InOrder (messages_at (ingest_pending w f at visit v).1.engine)
  unfolding ingest_pending
  ingest_pending-InOrder f at visit v =
      ingest_snapshot-InOrder f at visit v (get_snapshot f v.engine) refl
