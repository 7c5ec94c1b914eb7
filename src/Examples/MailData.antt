-- ===== src/Examples/MailData.antt =====
-- A message from alice to bob, a mailbox whose files need no parsing, and how the message travels.
use harnessing.Prelude.{String, false, Option, none, some, [], ◌∷◌, refl}
use harnessing.Domain.Records.{Message, request}
use harnessing.Store.{absent, file, empty_snapshot}
use harnessing.Engine.Scope.{claimed_provenance}
use harnessing.Engine.Commit.{commit}
use harnessing.Engine.Steps.{new_engine}
use harnessing.Mailbox.Tree.{inbox, regular, Tree}
use harnessing.Mailbox.Wire.{Envelope, MessageAcknowledgement, Wire, IsWire}
use harnessing.Mailbox.Files.{MailIo}
use harnessing.Mailbox.Inbox.{file_at}
use harnessing.Deliverer.{World, Turn, envelope_of, deliver_pending, ingest_pending}
use harnessing.Deliverer.System.{new_world}
use harnessing.Api.{RegisterAgentRequest, SendMessageRequest, utf8}
use harnessing.Engine.Scope.{CallerScope}
use harnessing.Engine.Commit.{Mutation}
use harnessing.Engine.Agents.{register_agent_mutation}
use harnessing.Engine.Messages.{send_message_mutation}
use harnessing.Examples.Data.{io, at, alice, reviewer, registration, no_faults}

-- Files whose content is known without parsing.
pub data Content : Type 0 where
  letter : Envelope → Content
  control : MessageAcknowledgement → Content
  garbage : Content

abbrev pub letter_of : Content → Option Envelope
letter_of (letter env) = some env
letter_of _ = none

abbrev pub control_of : Content → Option MessageAcknowledgement
control_of (control ack) = some ack
control_of _ = none

abbrev pub wire : Wire Content
wire = record {
  size = λ c. 100;
  encode_envelope = letter;
  decode_envelope = letter_of;
  encode_ack = control;
  decode_ack = control_of;
  sort = λ es. es;
}

pub wire-IsWire : IsWire wire
wire-IsWire = record {
  envelope_back = λ env. refl;
  ack_back = λ ack. refl;
  sorted = λ es env. ((λ m. m), (λ m. m));
}

abbrev pub mail_io : MailIo Content
mail_io = record {
  mkdir = false;
  list = false;
  look = λ p. false;
  stat_file = λ p. false;
  read_full = λ p. false;
  marshal = false;
  create_temp = false;
  write = false;
  sync = false;
  close = false;
  remove_temp = false;
  rename = false;
  temp_name = "12345.tmp";
  torn = garbage;
}

abbrev pub turn : Turn Content
turn = record { mail_io = mail_io; archive_io = mail_io; io = io; ambient = at 5 "v9" }

abbrev pub asked : Message
asked = record {
  workspace_id = "w";
  message_id = "g1";
  sender_agent_id = "alice";
  recipient_agent_id = "bob";
  kind = request;
  body = "please";
  created_at = 1;
  task_id = some "t1";
  reply_to_message_id = none;
  provenance = claimed_provenance alice 1;
  queued_at = some 1;
  published_at = none;
  processed_at = none;
  acknowledged_by = "";
  acknowledged_at = none;
}

abbrev pub queued_world : World Content
queued_world = record {
  engine = record (new_engine "w") {
    store = record {
      files = record {
        state_file = file (record {
          snapshot = record empty_snapshot { workspace_id = "w"; messages = asked ∷ [] };
          receipts = [];
        });
        tmp_file = absent;
        synced = absent;
      };
      durable_revision = 0;
    };
  };
  mail = record { agents = []; files = [] };
}

abbrev pub published : Message
published = record asked { published_at = some 5 }

abbrev pub delivered_world : World Content
delivered_world = (deliver_pending wire no_faults (λ i. turn) queued_world).1

-- The inbox of bob has the message already.
abbrev pub delivered_tree : Tree Content
delivered_tree = record {
  agents = "bob" ∷ [];
  files = (file_at "bob" inbox "g1", regular (letter (envelope_of asked))) ∷ [];
}

abbrev pub bob_registration : RegisterAgentRequest
bob_registration = record {
  request_id = "q8";
  agent_id = "bob";
  display_name = "Bob";
  profile_id = "shell";
}

abbrev pub greeting : SendMessageRequest
greeting = record {
  request_id = "q9";
  message_id = "g1";
  sender_agent_id = "alice";
  recipient_agent_id = "bob";
  kind = request;
  body = utf8 "please";
  task_id = none;
  reply_to_message_id = none;
}

-- A commit of a session, on a world.
abbrev pub committed_on : CallerScope → String → Mutation → World Content → World Content
committed_on caller id m v = record v { engine = (commit io caller id id m v.engine).1 }

abbrev pub sent_world : World Content
sent_world = committed_on alice "q9" (send_message_mutation (at 3 "v3") "w" alice greeting) (
    committed_on reviewer "q8" (register_agent_mutation (at 2 "v2") reviewer bob_registration) (
      committed_on reviewer "q1" (register_agent_mutation (at 1 "v1") reviewer registration)
        (new_world "w" delivered_tree)))

abbrev pub delivered_later : World Content
delivered_later = (deliver_pending wire no_faults (λ i. turn) sent_world).1

abbrev pub ingested_world : World Content
ingested_world = (ingest_pending wire no_faults (λ i j. turn) (λ names. names) delivered_later).1
