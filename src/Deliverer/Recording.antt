-- ===== src/Deliverer/Recording.antt =====
-- What internal/adapters/mailbox/deliverer.go does to the engine.
use harnessing.Prelude.{ℕ, suc, String, Bool, true, false, List, [], ◌∷◌, refl, if◌then◌else◌}
use harnessing.Domain.Errors.{Result, ok, err}
use harnessing.Domain.Records.{Message, Receipt, Snapshot}
use harnessing.Api.{MessageDeliveryRequest, AcknowledgeMessageRequest}
use harnessing.Store.{Faults}
use harnessing.Engine.Commit.{Engine}
use harnessing.Engine.Reads.{get_snapshot}
use harnessing.Engine.Messages.{
  record_message_published, record_message_processed, acknowledge_message,
}
use harnessing.Engine.Steps
use harnessing.Engine.Steps.{Steps, none_yet, handler-Steps}
use harnessing.Engine.Lifecycle.{join}
use harnessing.Mailbox.Wire.{Envelope, MessageAcknowledgement, Wire}
use harnessing.Mailbox.Inbox.{scan_inbox}
use harnessing.Mailbox.Acks.{scan_acks}
use harnessing.Deliverer.{
  World, Turn, request_id_for_fact, caller, then_on, on_engine, record_published, record_processed,
  deliver_message, deliver_messages, deliver_snapshot, deliver_pending, ingest_envelope,
  ingest_envelopes, ingest_scanned, ingest_agents, ingest_snapshot, ingest_pending, acknowledge,
  ingest_answer, ingest_records, ingest_found, ingest_acks, published_ids, recipients, has_key,
  awaits_publication, quarantined,
}

module _ {B : Type 0} where
  pub then_on-Steps :
      (e : Engine) (r : Result (Unit {0}) × World B) (next : World B → Result (Unit {0}) × World B)
      → Steps e r.1.engine
      → ((v : World B) → Steps v.engine (next v).1.engine)
      → Steps e (then_on r next).1.engine
  then_on-Steps e (err x, v) next h f = h
  then_on-Steps e (ok u, v) next h f = join h (f v)

  on_engine-Steps :
      (e : Engine) (r : Result Receipt × Engine) (v : World B)
      → Steps e r.1
      → Steps e (on_engine r v).1.engine
  on_engine-Steps e (err x, e') v h = h
  on_engine-Steps e (ok receipt, e') v h = h

  -- A turn of a loop that may do nothing.
  turn-Steps :
      (b : Bool) (v : World B) (r : Result (Unit {0}) × World B)
      → Steps v.engine r.1.engine
      → Steps v.engine (if b then r else (ok tt, v)).1.engine
  turn-Steps true v r h = h
  turn-Steps false v r h = none_yet refl

  record_published-Steps :
      (turn : Turn B) (id : String) (v : World B)
      → Steps v.engine (record_published turn id v).1.engine
  record_published-Steps turn id v =
      let req : MessageDeliveryRequest = record {
        request_id = request_id_for_fact "publish" id;
        message_id = id;
      } in
      on_engine-Steps v.engine (record_message_published turn.io turn.ambient req v.engine) v (
        handler-Steps (record_message_published turn.io turn.ambient req) v.engine
          (Steps.publishing turn.io turn.ambient req))

  record_processed-Steps :
      (turn : Turn B) (id : String) (v : World B)
      → Steps v.engine (record_processed turn id v).1.engine
  record_processed-Steps turn id v =
      let req : MessageDeliveryRequest = record {
        request_id = request_id_for_fact "process" id;
        message_id = id;
      } in
      on_engine-Steps v.engine (record_message_processed turn.io turn.ambient req v.engine) v (
        handler-Steps (record_message_processed turn.io turn.ambient req) v.engine
          (Steps.processing turn.io turn.ambient req))

  module _ (w : Wire B) where
    deliver_message-Steps :
        (turn : Turn B) (msg : Message) (v : World B)
        → Steps v.engine (deliver_message w turn msg v).1.engine
    unfolding deliver_message
    deliver_message-Steps turn msg v =
        then_on-Steps v.engine _ (record_published turn msg.message_id) (none_yet refl)
          (record_published-Steps turn msg.message_id)

    deliver_messages-Steps :
        (at : ℕ → Turn B) (msgs : List Message) (v : World B)
        → Steps v.engine (deliver_messages w at msgs v).1.engine
    unfolding deliver_messages
    deliver_messages-Steps at [] v = none_yet refl
    deliver_messages-Steps at (msg ∷ msgs) v =
        then_on-Steps v.engine _ (deliver_messages w (λ i. at (suc i)) msgs)
          (turn-Steps (awaits_publication msg) v (deliver_message w (at 0) msg v)
            (deliver_message-Steps (at 0) msg v))
          (deliver_messages-Steps (λ i. at (suc i)) msgs)

    pub deliver_pending-Steps :
        (f : Faults) (at : ℕ → Turn B) (v : World B)
        → Steps v.engine (deliver_pending w f at v).1.engine
    unfolding deliver_pending
    deliver_pending-Steps f at v = go (get_snapshot f v.engine)
      where
        go : (r : Result Snapshot) → Steps v.engine (deliver_snapshot w at v r).1.engine
        go (err e) = none_yet refl
        go (ok snap) = deliver_messages-Steps at snap.messages v

    ingest_envelope-Steps :
        (turn : Turn B) (env : Envelope) (v : World B)
        → Steps v.engine (ingest_envelope w turn env v).1.engine
    unfolding ingest_envelope
    ingest_envelope-Steps turn env v =
        then_on-Steps v.engine (record_processed turn env.message_id v) _
          (record_processed-Steps turn env.message_id v) (λ v'. none_yet refl)

    ingest_envelopes-Steps :
        (at : ℕ → Turn B) (published : List String) (envs : List Envelope) (v : World B)
        → Steps v.engine (ingest_envelopes w at published envs v).1.engine
    unfolding ingest_envelopes
    ingest_envelopes-Steps at published [] v = none_yet refl
    ingest_envelopes-Steps at published (env ∷ envs) v =
        then_on-Steps v.engine _ (ingest_envelopes w (λ i. at (suc i)) published envs)
          (turn-Steps (has_key env.message_id published) v (ingest_envelope w (at 0) env v)
            (ingest_envelope-Steps (at 0) env v))
          (ingest_envelopes-Steps (λ i. at (suc i)) published envs)

    ingest_scanned-Steps :
        (at : ℕ → Turn B) (published : List String) (v : World B) (r : Result (List Envelope))
        → Steps v.engine (ingest_scanned w at published v r).1.engine
    ingest_scanned-Steps at published v (err e) = none_yet refl
    ingest_scanned-Steps at published v (ok envs) = ingest_envelopes-Steps at published envs v

    ingest_agents-Steps :
        (at : ℕ → ℕ → Turn B) (published agents : List String) (v : World B)
        → Steps v.engine (ingest_agents w at published agents v).1.engine
    unfolding ingest_agents
    ingest_agents-Steps at published [] v = none_yet refl
    ingest_agents-Steps at published (agent ∷ agents) v =
        then_on-Steps v.engine _ (ingest_agents w (λ i. at (suc i)) published agents)
          (ingest_scanned-Steps (λ i. at 0 (suc i)) published v
            (scan_inbox w (at 0 0).mail_io agent v.mail))
          (ingest_agents-Steps (λ i. at (suc i)) published agents)

    pub ingest_pending-Steps :
        (f : Faults) (at : ℕ → ℕ → Turn B) (visit : List String → List String) (v : World B)
        → Steps v.engine (ingest_pending w f at visit v).1.engine
    unfolding ingest_pending
    ingest_pending-Steps f at visit v = go (get_snapshot f v.engine)
      where
        go : (r : Result Snapshot) → Steps v.engine (ingest_snapshot w at visit v r).1.engine
        go (err e) = none_yet refl
        go (ok snap) =
            ingest_agents-Steps at (published_ids snap.messages) (visit (recipients snap.messages))
              v

    module _ (reviewers : String → Bool) where
      either-Steps :
          (b : Bool) (e : Engine) (r r' : Result (Unit {0}) × World B)
          → Steps e r.1.engine
          → Steps e r'.1.engine
          → Steps e (if b then r else r').1.engine
      either-Steps true e r r' h h' = h
      either-Steps false e r r' h h' = h'

      ingest_answer-Steps :
          (turn : Turn B) (agent : String) (ack : MessageAcknowledgement) (v : World B)
          (r : Result Receipt × Engine)
          → Steps v.engine r.1
          → Steps v.engine (ingest_answer w turn agent ack v r).1.engine
      ingest_answer-Steps turn agent ack v (err x, e) h =
          either-Steps (quarantined x) v.engine (ok tt, record v { engine = e })
            (err x, record v { engine = e }) h h
      ingest_answer-Steps turn agent ack v (ok receipt, e) h = h

      ingest_records-Steps :
          (at : ℕ → Turn B) (agent : String) (acks : List MessageAcknowledgement) (v : World B)
          → Steps v.engine (ingest_records w reviewers at agent acks v).1.engine
      unfolding ingest_records
      ingest_records-Steps at agent [] v = none_yet refl
      ingest_records-Steps at agent (ack ∷ acks) v =
          let req : AcknowledgeMessageRequest = record {
            request_id = request_id_for_fact "ack" ack.control_record_id;
            message_id = ack.original_message_id;
          } in
          let turn = at 0 in
          let scope = caller reviewers agent in
          then_on-Steps v.engine _ (ingest_records w reviewers (λ i. at (suc i)) agent acks)
            (ingest_answer-Steps turn agent ack v (acknowledge w reviewers turn agent ack v) (
              handler-Steps (acknowledge_message turn.io turn.ambient scope req) v.engine
                (Steps.acknowledging turn.io turn.ambient scope req)))
            (ingest_records-Steps (λ i. at (suc i)) agent acks)

      pub ingest_acks-Steps :
          (at : ℕ → Turn B) (agent : String) (v : World B)
          → Steps v.engine (ingest_acks w reviewers at agent v).1.engine
      unfolding ingest_acks
      ingest_acks-Steps at agent v = go (scan_acks w (at 0).mail_io agent v.mail)
        where
          go :
              (r : Result (List MessageAcknowledgement))
              → Steps v.engine (ingest_found w reviewers (λ i. at (suc i)) agent v r).1.engine
          go (err e) = none_yet refl
          go (ok acks) = ingest_records-Steps (λ i. at (suc i)) agent acks v
