-- ===== src/Examples/Mail.antt =====
-- A message from alice to bob, on its way through the mailbox.
use harnessing.Prelude.{[], ◌∷◌, ◌≡◌, ◌≢◌, refl, arith, inl}
use harnessing.Domain.Errors.{fail, conflict}
use harnessing.Table.{find}
use harnessing.Store.{absent, file, empty_snapshot}
use harnessing.Engine.Commit.{commit, current_revision}
use harnessing.Mailbox.Paths.{is_json, valid_id}
use harnessing.Prelude.{set}
use harnessing.Store
use harnessing.Store.{load, read_locked, confirm_durable, persist, write_locked}
use harnessing.Store.Ledger
use harnessing.Store.Ledger.{lookup}
use harnessing.Events
use harnessing.Events.{ensure_floor, publish_new, trim}
use harnessing.Text.Decimal.{format_uint}
use harnessing.Text.Fingerprint.{fingerprint}
use harnessing.Engine.Reads.{get_snapshot}
use harnessing.Engine.Scope.{event, can_write_agent_record}
use harnessing.Engine.Messages.{
  record_message_published, record_delivery_fact, delivery_fact_mutation,
}
use harnessing.Mailbox.Tree.{put, remove, insert_name, inbox, acks, regular, Tree, stat, same_path}
use harnessing.Mailbox.Wire.{
  Envelope, MessageAcknowledgement, Member, valid_envelope, same_envelope,
}
use harnessing.Mailbox.Files.{write_atomic, read_bounded, read_dir_names, collect}
use harnessing.Mailbox.Inbox.{
  file_at, publish, scan_inbox, archive_message, versioned, read_envelope,
}
use harnessing.Mailbox.Acks.{scan_acks, read_ack}
use harnessing.Mailbox.Publish.{Readable, publish-Readable, Delivered, publish-Delivered}
use harnessing.Mailbox.Again.{publish-again}
use harnessing.Mailbox.Scan.{publish-scan, scan_inbox-Found, Found, scan_acks-scope}
use harnessing.Mailbox.Archive.{archive_message-IsKept, IsKept, archived}
use harnessing.Deliverer.{envelope_of, deliver_message, deliver_messages, deliver_pending}
use harnessing.Deliverer.Changes.{InOrder}
use harnessing.Deliverer.Order.{messages_at}
use harnessing.Deliverer.Publication.{IsDelivered, deliver_pending-IsDelivered}
use harnessing.Deliverer.System.{at_start, next, committed, delivered, ingested, reachable-InOrder}
use harnessing.Engine.Agents.{register_agent_mutation, check_register_agent}
use harnessing.Engine.Messages.{send_message_mutation, check_send_message}
use harnessing.Engine.Mutations
use harnessing.Examples.MailData.{
  Content, letter, control, wire, wire-IsWire, mail_io, turn, asked, queued_world, published,
  delivered_world, delivered_tree, bob_registration, greeting, ingested_world,
}
use harnessing.Examples.Data.{io, at, alice, reviewer, registration, no_faults}

deliver_pending-IsDelivered_example : IsDelivered wire asked delivered_world.mail
unfolding is_json find deliver_pending get_snapshot load read_locked deliver_messages
    deliver_message publish valid_id valid_envelope read_bounded stat write_atomic
    record_message_published commit Store.commit lookup delivery_fact_mutation current_revision
    record_delivery_fact event Events.deliver ensure_floor Events.publish publish_new trim
    insert_name put remove same_path same_envelope set Ledger.put confirm_durable persist
    write_locked format_uint fingerprint
deliver_pending-IsDelivered_example =
    deliver_pending-IsDelivered wire wire-IsWire asked (omega arith) no_faults (λ i. turn)
      queued_world published (λ i. refl) (refl, tt) refl refl refl refl

reachable-InOrder_example : InOrder (messages_at ingested_world.engine)
unfolding check_register_agent check_send_message can_write_agent_record
reachable-InOrder_example = reachable-InOrder wire "w" delivered_tree ingested_world (
    next
      (next
        (next
          (next
            (next at_start (
              committed io reviewer "q1" "q1"
                (register_agent_mutation (at 1 "v1") reviewer registration)
                (Mutations.registration (at 1 "v1") reviewer registration refl) refl refl))
            (committed io reviewer "q8" "q8"
              (register_agent_mutation (at 2 "v2") reviewer bob_registration)
              (Mutations.registration (at 2 "v2") reviewer bob_registration refl) refl refl))
          (committed io alice "q9" "q9" (send_message_mutation (at 3 "v3") "w" alice greeting)
            (Mutations.sending (at 3 "v3") "w" alice greeting refl) refl refl))
        (delivered no_faults (λ i. turn) refl))
      (ingested no_faults (λ i j. turn) (λ names. names) refl))

abbrev forged : Envelope
forged = record (envelope_of asked) { body = "other" }

publish-Readable_example :
    Readable wire
      (file_at "bob" inbox "g1")
      (letter (envelope_of asked))
      (publish wire mail_io "g1" forged delivered_tree).1
unfolding is_json stat same_path
publish-Readable_example =
    publish-Readable wire mail_io "g1" forged delivered_tree (file_at "bob" inbox "g1")
      (letter (envelope_of asked)) refl refl (refl, omega arith)

abbrev empty_tree : Tree Content
empty_tree = record { agents = []; files = [] }

abbrev published_tree : Tree Content
published_tree = (publish wire mail_io "g1" (envelope_of asked) empty_tree).1

publish-Delivered_example :
    Delivered wire
      (file_at "bob" inbox "g1")
      (versioned (envelope_of asked))
      (publish wire mail_io "g1" (envelope_of asked) empty_tree).1
unfolding publish valid_id valid_envelope read_bounded stat write_atomic
publish-Delivered_example =
    publish-Delivered wire mail_io "g1" (envelope_of asked) empty_tree tt wire-IsWire refl

publish-scan_example : Member (versioned (envelope_of asked)) (envelope_of asked ∷ [])
unfolding publish scan_inbox valid_id valid_envelope read_bounded stat write_atomic collect
    read_dir_names put remove same_path is_json insert_name read_envelope
publish-scan_example =
    publish-scan wire mail_io mail_io "g1" (envelope_of asked) empty_tree tt
      (envelope_of asked ∷ []) wire-IsWire (omega arith) refl refl

scan_inbox-Found_example : Found wire "bob" delivered_tree (envelope_of asked)
unfolding scan_inbox valid_id collect read_dir_names is_json insert_name read_envelope read_bounded
    stat same_path valid_envelope
scan_inbox-Found_example =
    scan_inbox-Found wire mail_io "bob" delivered_tree (envelope_of asked ∷ []) (envelope_of asked)
      wire-IsWire refl (inl refl)

abbrev read_it : MessageAcknowledgement
read_it = record {
  schema_version = 1;
  workspace_id = "w";
  control_record_id = "c1";
  original_message_id = "g1";
  recipient_agent_id = "bob";
}

abbrev acks_tree : Tree Content
acks_tree = record {
  agents = "bob" ∷ [];
  files =
      (file_at "bob" acks "c1", regular (control read_it))
      ∷ (
        file_at "bob" acks "c2",
        regular (control (record read_it { recipient_agent_id = "alice" })),
      )
      ∷ [];
}

scan_acks-scope_example :
    (read_it.recipient_agent_id ≡ "bob")
    × (read_it.control_record_id ≢ "")
    × (read_it.original_message_id ≢ "")
unfolding scan_acks valid_id collect read_dir_names is_json insert_name read_ack read_bounded stat
    same_path
scan_acks-scope_example =
    scan_acks-scope wire mail_io "bob" acks_tree (read_it ∷ []) read_it refl (inl refl)

publish-again_example :
    ((publish wire mail_io "g1" (envelope_of asked) delivered_tree).0 ≡ fail conflict)
    × ((publish wire mail_io "g1" (envelope_of asked) delivered_tree).1.files
        ≡ delivered_tree.files)
unfolding stat valid_id valid_envelope same_path
publish-again_example =
    publish-again wire mail_io "g1" (envelope_of asked) delivered_tree (letter (envelope_of asked))
      refl (refl, refl, refl, refl) (refl, omega arith) refl

archive_message-IsKept_example :
    IsKept
      (file_at "bob" inbox "g1")
      (archived (file_at "bob" inbox "g1"))
      (letter (envelope_of asked))
      (archive_message mail_io "g1" delivered_tree).1
unfolding stat same_path
archive_message-IsKept_example =
    archive_message-IsKept mail_io "g1" delivered_tree (file_at "bob" inbox "g1")
      (letter (envelope_of asked)) refl refl
