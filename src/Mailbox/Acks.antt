-- ===== src/Mailbox/Acks.antt =====
-- The acknowledgements of internal/adapters/mailbox/file.go: WriteAck, ScanAcks and ArchiveAck.
use harnessing.Prelude.{
  String, Bool, Option, none, some, List, not, ◌==◌, ◌&&◌, ◌||◌, str_eq, if◌then◌else◌,
}
use harnessing.Domain.Errors.{
  Result, ok, err, fail, ◌>>=◌, ◌>>◌, reject_if, invalid_argument, io_failure,
}
use harnessing.Mailbox.Paths.{valid_id}
use harnessing.Mailbox.Tree.{acks, acks_archive, FilePath, Tree}
use harnessing.Mailbox.Wire.{MessageAcknowledgement, Wire}
use harnessing.Mailbox.Files.{
  MailIo, mkdir_all, write_atomic, read_dir_names, read_bounded, present, collect,
}
use harnessing.Mailbox.Inbox.{file_at, archive_file}

abbrev versioned_ack : MessageAcknowledgement → MessageAcknowledgement
versioned_ack ack = if ack.schema_version == 0 then record ack { schema_version = 1 } else ack

abbrev check_ack : String → MessageAcknowledgement → Result (Unit {0})
check_ack recipient ack = do
  valid_id recipient
  valid_id ack.control_record_id
  reject_if (not (str_eq ack.recipient_agent_id recipient)) invalid_argument
  reject_if (str_eq ack.original_message_id "") invalid_argument

abbrev pub valid_ack : String → MessageAcknowledgement → Bool
valid_ack recipient ack =
    not (
      not (ack.schema_version == 1)
      || (str_eq ack.control_record_id "" || str_eq ack.original_message_id ""))
    && str_eq ack.recipient_agent_id recipient

abbrev pub checked_ack : String → Option MessageAcknowledgement → Option MessageAcknowledgement
checked_ack recipient none = none
checked_ack recipient (some ack) = if valid_ack recipient ack then some ack else none

abbrev check_archive : String → String → Result (Unit {0})
check_archive recipient control_record_id = do valid_id recipient; valid_id control_record_id

module _ {B : Type 0} (w : Wire B) where
  abbrev write_made :
      MailIo B
      → FilePath
      → MessageAcknowledgement
      → Tree B
      → Result (Tree B)
      → Result (Unit {0}) × Tree B
  write_made io p ack t (err e) = (err e, t)
  write_made io p ack t (ok made) =
      if io.marshal then (fail io_failure, made) else write_atomic io p (w.encode_ack ack) made

  unfoldable pub write_ack :
      MailIo B → String → MessageAcknowledgement → Tree B → Result (Unit {0}) × Tree B
  write_ack io recipient ack t = elim (check_ack recipient ack) [
    | err e ↦ (err e, t)
    | ok u ↦
        write_made io (file_at recipient acks ack.control_record_id) (versioned_ack ack) t
          (mkdir_all io recipient t)
  ]

  abbrev pub decoded_ack : String → Option B → Option MessageAcknowledgement
  decoded_ack recipient none = none
  decoded_ack recipient (some b) = checked_ack recipient (w.decode_ack b)

  -- One turn of the loop of ScanAcks.
  unfoldable pub read_ack :
      MailIo B → String → String → Tree B → Result (Option MessageAcknowledgement)
  read_ack io recipient name t = do
    content ← read_bounded w io (record { agent = recipient; area = acks; name = name }) t
    ok (decoded_ack recipient content)

  unfoldable pub scan_acks : MailIo B → String → Tree B → Result (List MessageAcknowledgement)
  scan_acks io recipient t = do
    valid_id recipient
    reject_if io.list io_failure
    collect (λ name. read_ack io recipient name t) (read_dir_names recipient acks t.files)

module _ {B : Type 0} where
  unfoldable pub archive_ack : MailIo B → String → String → Tree B → Result (Unit {0}) × Tree B
  archive_ack io recipient control_record_id t = elim (check_archive recipient control_record_id) [
    | err e ↦ (err e, t)
    | ok u ↦
        if present io (file_at recipient acks control_record_id) t
        then archive_file io (file_at recipient acks control_record_id)
            (file_at recipient acks_archive control_record_id) t
        else (ok tt, t)
  ]
