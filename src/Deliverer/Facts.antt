-- ===== src/Deliverer/Facts.antt =====
-- DeliverPending and IngestAcks of internal/adapters/mailbox/deliverer.go keep the order of the
-- delivery facts.
use harnessing.Prelude.{
  ℕ, suc, String, Bool, List, [], ◌∷◌, refl, inl, inr, if◌then◌else◌, Bool-cases,
}
use harnessing.Domain.Errors.{Result, ok, err}
use harnessing.Domain.Records.{Message, Snapshot, Receipt}
use harnessing.Store.{Faults}
use harnessing.Engine.Commit.{Engine}
use harnessing.Engine.Messages.{
  host_scope, delivery_fact_mutation, note_published, acknowledge_message_mutation,
  record_message_published, record_delivery_fact, acknowledge_message,
}
use harnessing.Engine.Mutations.{publication, acknowledgement}
use harnessing.Engine.Reads.{get_snapshot}
use harnessing.Mailbox.Wire.{MessageAcknowledgement, Wire}
use harnessing.Mailbox.Inbox.{publish}
use harnessing.Mailbox.Acks.{scan_acks}
use harnessing.Deliverer.{
  World, Turn, envelope_of, awaits_publication, on_mail, record_published, deliver_message,
  deliver_messages, deliver_snapshot, deliver_pending, acknowledge, ingest_answer, ingest_records,
  ingest_found, ingest_acks, quarantined, request_id_for_fact, caller,
}
use harnessing.Deliverer.Changes.{InOrder}
use harnessing.Deliverer.Order.{messages_at, commit-InOrder}
use harnessing.Deliverer.Loops.{then_on-keeps, if_turn-keeps, AtMessages, on_engine-keeps}

module _ {B : Type 0} (w : Wire B) where
  -- Any command that is not the note of a processing keeps the order.
  deliver_message-InOrder :
      (turn : Turn B) (msg : Message) (v : World B)
      → InOrder (messages_at v.engine)
      → InOrder (messages_at (deliver_message w turn msg v).1.engine)
  unfolding deliver_message record_message_published record_delivery_fact
  deliver_message-InOrder turn msg v h =
      then_on-keeps (AtMessages InOrder)
        (on_mail (publish w turn.mail_io msg.message_id (envelope_of msg) v.mail) v)
        (record_published turn msg.message_id) h
        (λ v' k.
          on_engine-keeps InOrder
            (record_message_published turn.io turn.ambient
              (record {
                request_id = request_id_for_fact "publish" msg.message_id;
                message_id = msg.message_id;
              })
              v'.engine)
            v'
            (commit-InOrder turn.io host_scope _ _
              (delivery_fact_mutation turn.ambient "MessagePublished" msg.message_id note_published)
              v'.engine (publication turn.ambient msg.message_id) refl k))

  deliver_messages-InOrder :
      (at : ℕ → Turn B) (msgs : List Message) (v : World B)
      → InOrder (messages_at v.engine)
      → InOrder (messages_at (deliver_messages w at msgs v).1.engine)
  unfolding deliver_messages
  deliver_messages-InOrder at [] v h = h
  deliver_messages-InOrder at (msg ∷ msgs) v h =
      then_on-keeps (AtMessages InOrder)
        (if awaits_publication msg then deliver_message w (at 0) msg v else (ok tt, v))
        (deliver_messages w (λ i. at (suc i)) msgs)
        (if_turn-keeps (AtMessages InOrder) (awaits_publication msg)
          (deliver_message w (at 0) msg v) v (λ k. deliver_message-InOrder (at 0) msg v h) h)
        (λ v' k. deliver_messages-InOrder (λ i. at (suc i)) msgs v' k)

  deliver_snapshot-InOrder :
      (at : ℕ → Turn B) (v : World B) (r : Result Snapshot)
      → InOrder (messages_at v.engine)
      → InOrder (messages_at (deliver_snapshot w at v r).1.engine)
  deliver_snapshot-InOrder at v (err e) h = h
  deliver_snapshot-InOrder at v (ok snap) h = deliver_messages-InOrder at snap.messages v h

  pub deliver_pending-InOrder :
      (f : Faults) (at : ℕ → Turn B) (v : World B)
      → InOrder (messages_at v.engine)
      → InOrder (messages_at (deliver_pending w f at v).1.engine)
  unfolding deliver_pending
  deliver_pending-InOrder f at v = deliver_snapshot-InOrder at v (get_snapshot f v.engine)

  ingest_answer-InOrder :
      (turn : Turn B) (agent : String) (ack : MessageAcknowledgement) (v : World B)
      (r : Result Receipt × Engine)
      → InOrder (messages_at r.1)
      → InOrder (messages_at (ingest_answer w turn agent ack v r).1.engine)
  ingest_answer-InOrder turn agent ack v (err x, e) h = elim (Bool-cases (quarantined x)) [
    | inl c ↦ rw c h
    | inr c ↦ rw c h
  ]
  ingest_answer-InOrder turn agent ack v (ok receipt, e) h = h

  ingest_records-InOrder :
      (reviewers : String → Bool) (at : ℕ → Turn B) (agent : String)
      (acks : List MessageAcknowledgement) (v : World B)
      → InOrder (messages_at v.engine)
      → InOrder (messages_at (ingest_records w reviewers at agent acks v).1.engine)
  unfolding ingest_records acknowledge_message
  ingest_records-InOrder reviewers at agent [] v h = h
  ingest_records-InOrder reviewers at agent (ack ∷ acks) v h =
      then_on-keeps (AtMessages InOrder)
        (ingest_answer w (at 0) agent ack v (acknowledge w reviewers (at 0) agent ack v))
        (ingest_records w reviewers (λ i. at (suc i)) agent acks)
        (ingest_answer-InOrder (at 0) agent ack v (acknowledge w reviewers (at 0) agent ack v) (
          commit-InOrder (at 0).io (caller reviewers agent) _ _
            (acknowledge_message_mutation (at 0).ambient (caller reviewers agent) (record {
              request_id = request_id_for_fact "ack" ack.control_record_id;
              message_id = ack.original_message_id;
            }))
            v.engine
            (acknowledgement (at 0).ambient (caller reviewers agent) (record {
              request_id = request_id_for_fact "ack" ack.control_record_id;
              message_id = ack.original_message_id;
            }))
            refl h))
        (λ v' k. ingest_records-InOrder reviewers (λ i. at (suc i)) agent acks v' k)

  ingest_found-InOrder :
      (reviewers : String → Bool) (at : ℕ → Turn B) (agent : String) (v : World B)
      (r : Result (List MessageAcknowledgement))
      → InOrder (messages_at v.engine)
      → InOrder (messages_at (ingest_found w reviewers at agent v r).1.engine)
  ingest_found-InOrder reviewers at agent v (err e) h = h
  ingest_found-InOrder reviewers at agent v (ok acks) h =
      ingest_records-InOrder reviewers at agent acks v h

  pub ingest_acks-InOrder :
      (reviewers : String → Bool) (at : ℕ → Turn B) (agent : String) (v : World B)
      → InOrder (messages_at v.engine)
      → InOrder (messages_at (ingest_acks w reviewers at agent v).1.engine)
  unfolding ingest_acks
  ingest_acks-InOrder reviewers at agent v =
      ingest_found-InOrder reviewers (λ i. at (suc i)) agent v
        (scan_acks w (at 0).mail_io agent v.mail)
