-- ===== src/Deliverer.antt =====
-- internal/adapters/mailbox/deliverer.go: DeliverPending, IngestPending and IngestAcks, on the
-- engine and the files of the mailbox.
pub mod Changes
pub mod Order
pub mod Loops
pub mod Ingest
pub mod Facts
pub mod System
pub mod Publication
pub mod Recording
use harnessing.Prelude.{
  ℕ, suc, String, Bool, true, false, not, ◌&&◌, ◌||◌, Option, none, some, List, [], ◌∷◌, str_eq,
  if◌then◌else◌,
}
use Prim.Native.String.{◌++◌}
use harnessing.Domain.Errors.{
  GoError, domain_error, other_error, ErrorCode, denied, not_found, Result, ok, err,
}
use harnessing.Domain.Records.{Message, Receipt, Snapshot}
use harnessing.Store.{Faults}
use harnessing.Engine.Scope.{CallerScope, Ambient}
use harnessing.Engine.Commit.{Engine, Io}
use harnessing.Engine.Messages.{
  is_noted, record_message_published, record_message_processed, acknowledge_message,
}
use harnessing.Engine.Reads.{get_snapshot}
use harnessing.Mailbox.Tree.{Tree, insert_name}
use harnessing.Mailbox.Wire.{Envelope, MessageAcknowledgement, Wire}
use harnessing.Mailbox.Files.{MailIo}
use harnessing.Mailbox.Inbox.{publish, scan_inbox, archive_message}
use harnessing.Mailbox.Acks.{scan_acks, archive_ack}

-- requestIDForFact
abbrev pub request_id_for_fact : String → String → String
request_id_for_fact fact id = "mailbox-" ++ (fact ++ ("-" ++ id))

-- The envelope that DeliverPending builds of a message.
abbrev pub envelope_of : Message → Envelope
envelope_of msg = record {
  schema_version = 1;
  workspace_id = msg.workspace_id;
  message_id = msg.message_id;
  sender_agent_id = msg.sender_agent_id;
  recipient_agent_id = msg.recipient_agent_id;
  kind = msg.kind;
  body = msg.body;
  created_at = msg.created_at;
  task_id = msg.task_id;
  reply_to_message_id = msg.reply_to_message_id;
}

-- internal/host/host.go, caller: the reviewers are a set fixed when the workspace was opened.
abbrev pub caller : (String → Bool) → String → CallerScope
caller reviewers agent = record { agent_id = agent; is_human_reviewer = reviewers agent }

-- The engine behind the recorder, and the mailbox.
pub record World (B : Type 0) : Type 0 where
  pub engine : Engine
  pub mail : Tree B

-- What the system answers to one turn of a loop.
pub record Turn (B : Type 0) : Type 0 where
  pub mail_io : MailIo B
  pub archive_io : MailIo B
  pub io : Io
  pub ambient : Ambient

abbrev pub awaits_publication : Message → Bool
awaits_publication msg = is_noted msg.queued_at && not (is_noted msg.published_at)

abbrev pub awaits_processing : Message → Bool
awaits_processing msg = is_noted msg.published_at && not (is_noted msg.processed_at)

-- The keys of `published`, and of `recipients`.
unfoldable pub published_ids : List Message → List String
published_ids [] = []
published_ids (msg ∷ msgs) =
    let rest = published_ids msgs in
    if awaits_processing msg then insert_name msg.message_id rest else rest

unfoldable pub recipients : List Message → List String
recipients [] = []
recipients (msg ∷ msgs) =
    let rest = recipients msgs in
    if awaits_processing msg then insert_name msg.recipient_agent_id rest else rest

unfoldable pub has_key : String → List String → Bool
has_key id [] = false
has_key id (x ∷ xs) = str_eq x id || has_key id xs

-- errors.As finds a domain error, and it is Denied or NotFound.
abbrev is_refusal : ErrorCode → Bool
is_refusal denied = true
is_refusal not_found = true
is_refusal _ = false

abbrev pub quarantined : GoError → Bool
quarantined (domain_error e) = is_refusal e.code
quarantined (other_error s) = false

module _ {B : Type 0} where
  -- `if err != nil { return err }`, and on with what the call has left.
  abbrev pub then_on :
      Result (Unit {0}) × World B
      → (World B → Result (Unit {0}) × World B)
      → Result (Unit {0}) × World B
  then_on (err e, v) next = (err e, v)
  then_on (ok u, v) next = next v

  -- A recorder's call: its receipt is dropped.
  abbrev pub on_engine : Result Receipt × Engine → World B → Result (Unit {0}) × World B
  on_engine (err x, e) v = (err x, record v { engine = e })
  on_engine (ok receipt, e) v = (ok tt, record v { engine = e })

  abbrev pub on_mail : Result (Unit {0}) × Tree B → World B → Result (Unit {0}) × World B
  on_mail (answer, t) v = (answer, record v { mail = t })

  abbrev pub record_published : Turn B → String → World B → Result (Unit {0}) × World B
  record_published turn id v =
      on_engine
        (record_message_published turn.io turn.ambient
          (record { request_id = request_id_for_fact "publish" id; message_id = id }) v.engine)
        v

  abbrev pub record_processed : Turn B → String → World B → Result (Unit {0}) × World B
  record_processed turn id v =
      on_engine
        (record_message_processed turn.io turn.ambient
          (record { request_id = request_id_for_fact "process" id; message_id = id }) v.engine)
        v

  module _ (w : Wire B) where
    unfoldable pub deliver_message : Turn B → Message → World B → Result (Unit {0}) × World B
    deliver_message turn msg v =
        then_on (on_mail (publish w turn.mail_io msg.message_id (envelope_of msg) v.mail) v)
          (record_published turn msg.message_id)

    -- The loop of DeliverPending.
    unfoldable pub deliver_messages :
        (ℕ → Turn B) → List Message → World B → Result (Unit {0}) × World B
    deliver_messages at [] v = (ok tt, v)
    deliver_messages at (msg ∷ msgs) v =
        then_on (if awaits_publication msg then deliver_message (at 0) msg v else (ok tt, v))
          (deliver_messages (λ i. at (suc i)) msgs)

    abbrev pub deliver_snapshot :
        (ℕ → Turn B) → World B → Result Snapshot → Result (Unit {0}) × World B
    deliver_snapshot at v (err e) = (err e, v)
    deliver_snapshot at v (ok snap) = deliver_messages at snap.messages v

    unfoldable pub deliver_pending : Faults → (ℕ → Turn B) → World B → Result (Unit {0}) × World B
    deliver_pending f at v = deliver_snapshot at v (get_snapshot f v.engine)

    unfoldable pub ingest_envelope : Turn B → Envelope → World B → Result (Unit {0}) × World B
    ingest_envelope turn env v =
        then_on (record_processed turn env.message_id v)
          (λ v'. on_mail (archive_message turn.archive_io env.message_id v'.mail) v')

    -- The inner loop of IngestPending.
    unfoldable pub ingest_envelopes :
        (ℕ → Turn B) → List String → List Envelope → World B → Result (Unit {0}) × World B
    ingest_envelopes at published [] v = (ok tt, v)
    ingest_envelopes at published (env ∷ envs) v =
        then_on
          (if has_key env.message_id published then ingest_envelope (at 0) env v else (ok tt, v))
          (ingest_envelopes (λ i. at (suc i)) published envs)

    abbrev pub ingest_scanned :
        (ℕ → Turn B) → List String → World B → Result (List Envelope) → Result (Unit {0}) × World B
    ingest_scanned at published v (err e) = (err e, v)
    ingest_scanned at published v (ok envs) = ingest_envelopes at published envs v

    -- The outer loop of IngestPending, over the agents as the map's iteration visits them.
    unfoldable pub ingest_agents :
        (ℕ → ℕ → Turn B) → List String → List String → World B → Result (Unit {0}) × World B
    ingest_agents at published [] v = (ok tt, v)
    ingest_agents at published (agent ∷ agents) v =
        then_on
          (ingest_scanned (λ i. at 0 (suc i)) published v
            (scan_inbox w (at 0 0).mail_io agent v.mail))
          (ingest_agents (λ i. at (suc i)) published agents)

    abbrev pub ingest_snapshot :
        (ℕ → ℕ → Turn B)
        → (List String → List String)
        → World B
        → Result Snapshot
        → Result (Unit {0}) × World B
    ingest_snapshot at visit v (err e) = (err e, v)
    ingest_snapshot at visit v (ok snap) =
        ingest_agents at (published_ids snap.messages) (visit (recipients snap.messages)) v

    unfoldable pub ingest_pending :
        Faults
        → (ℕ → ℕ → Turn B)
        → (List String → List String)
        → World B
        → Result (Unit {0}) × World B
    ingest_pending f at visit v = ingest_snapshot at visit v (get_snapshot f v.engine)

    abbrev pub acknowledge :
        (String → Bool)
        → Turn B
        → String
        → MessageAcknowledgement
        → World B
        → Result Receipt × Engine
    acknowledge reviewers turn agent ack v =
        acknowledge_message turn.io turn.ambient (caller reviewers agent)
          (record {
            request_id = request_id_for_fact "ack" ack.control_record_id;
            message_id = ack.original_message_id;
          })
          v.engine

    abbrev pub ingest_answer :
        Turn B
        → String
        → MessageAcknowledgement
        → World B
        → Result Receipt × Engine
        → Result (Unit {0}) × World B
    ingest_answer turn agent ack v (err x, e) =
        if quarantined x then (ok tt, record v { engine = e }) else (err x, record v { engine = e })
    ingest_answer turn agent ack v (ok receipt, e) =
        on_mail (archive_ack turn.archive_io agent ack.control_record_id v.mail)
          (record v { engine = e })

    -- The loop of IngestAcks.
    unfoldable pub ingest_records :
        (String → Bool)
        → (ℕ → Turn B)
        → String
        → List MessageAcknowledgement
        → World B
        → Result (Unit {0}) × World B
    ingest_records reviewers at agent [] v = (ok tt, v)
    ingest_records reviewers at agent (ack ∷ acks) v =
        then_on (ingest_answer (at 0) agent ack v (acknowledge reviewers (at 0) agent ack v))
          (ingest_records reviewers (λ i. at (suc i)) agent acks)

    abbrev pub ingest_found :
        (String → Bool)
        → (ℕ → Turn B)
        → String
        → World B
        → Result (List MessageAcknowledgement)
        → Result (Unit {0}) × World B
    ingest_found reviewers at agent v (err e) = (err e, v)
    ingest_found reviewers at agent v (ok acks) = ingest_records reviewers at agent acks v

    unfoldable pub ingest_acks :
        (String → Bool) → (ℕ → Turn B) → String → World B → Result (Unit {0}) × World B
    ingest_acks reviewers at agent v =
        ingest_found reviewers (λ i. at (suc i)) agent v (scan_acks w (at 0).mail_io agent v.mail)
