-- ===== src/Mailbox/Inbox.antt =====
-- The envelopes of internal/adapters/mailbox/file.go: ScanInbox, Publish and Archive.
use harnessing.Prelude.{
  String, Bool, false, Option, none, some, List, [], ◌∷◌, not, ◌==◌, str_eq, if◌then◌else◌,
}
use harnessing.Domain.Errors.{
  Result, ok, err, fail, ◌>>=◌, ◌>>◌, reject_if, invalid_argument, conflict, io_failure,
}
use harnessing.Mailbox.Paths.{valid_id, json_name}
use harnessing.Mailbox.Tree.{Area, inbox, archive, FilePath, Tree}
use harnessing.Mailbox.Wire.{Envelope, Wire, valid_envelope, same_envelope}
use harnessing.Mailbox.Files.{
  MailIo, mkdir_all, rename, write_atomic, read_dir_names, read_bounded, present, collect,
}

abbrev pub file_at : String → Area → String → FilePath
file_at agent area id = record { agent = agent; area = area; name = json_name id }

module _ {B : Type 0} where
  -- The moves of archiveAcrossAgents and ArchiveAck.
  abbrev pub archive_done : Tree B → Result (Tree B) → Result (Unit {0}) × Tree B
  archive_done made (err e) = (err e, made)
  archive_done made (ok t) = (ok tt, t)

  abbrev pub archive_renamed :
      MailIo B → FilePath → FilePath → Tree B → Result (Tree B) → Result (Unit {0}) × Tree B
  archive_renamed io from to t (err e) = (err e, t)
  archive_renamed io from to t (ok made) = archive_done made (rename io from to made)

  abbrev pub archive_file : MailIo B → FilePath → FilePath → Tree B → Result (Unit {0}) × Tree B
  archive_file io from to t = archive_renamed io from to t (mkdir_all io to.agent t)

  -- The loop of archiveAcrossAgents.
  unfoldable pub archive_first :
      MailIo B → String → Area → Area → List String → Tree B → Result (Unit {0}) × Tree B
  archive_first io id from_dir to_dir [] t = (ok tt, t)
  archive_first io id from_dir to_dir (agent ∷ agents) t =
      let rest = archive_first io id from_dir to_dir agents t in
      if present io (file_at agent from_dir id) t
      then archive_file io (file_at agent from_dir id) (file_at agent to_dir id) t
      else rest

  abbrev pub guarded :
      Result (Unit {0}) → Tree B → Result (Unit {0}) × Tree B → Result (Unit {0}) × Tree B
  guarded (err e) t next = (err e, t)
  guarded (ok u) t next = next

  abbrev pub check_archive : MailIo B → String → Result (Unit {0})
  check_archive io id = do valid_id id; reject_if io.list io_failure

  unfoldable pub archive_across_agents :
      MailIo B → String → Area → Area → Tree B → Result (Unit {0}) × Tree B
  archive_across_agents io id from_dir to_dir t =
      guarded (check_archive io id) t (archive_first io id from_dir to_dir t.agents t)

  -- Archive
  unfoldable pub archive_message : MailIo B → String → Tree B → Result (Unit {0}) × Tree B
  unfolding archive_across_agents
  archive_message io id t = archive_across_agents io id inbox archive t

abbrev pub checked_envelope : Option Envelope → Option Envelope
checked_envelope none = none
checked_envelope (some env) = if valid_envelope env then some env else none

abbrev pub identical : Option Envelope → Envelope → Bool
identical none envelope = false
identical (some prior) envelope = same_envelope prior envelope

-- `if envelope.SchemaVersion == 0 { envelope.SchemaVersion = 1 }`
abbrev pub versioned : Envelope → Envelope
versioned env = if env.schema_version == 0 then record env { schema_version = 1 } else env

abbrev pub check_publish : String → Envelope → Result (Unit {0})
check_publish message_id env = do
  valid_id message_id
  reject_if (not (str_eq env.message_id message_id)) invalid_argument
  reject_if (not (valid_envelope (versioned env))) invalid_argument
  valid_id env.recipient_agent_id

module _ {B : Type 0} (w : Wire B) where
  abbrev pub decoded_envelope : Option B → Option Envelope
  decoded_envelope none = none
  decoded_envelope (some b) = checked_envelope (w.decode_envelope b)

  -- readEnvelope
  unfoldable pub read_envelope : MailIo B → FilePath → Tree B → Result (Option Envelope)
  read_envelope io p t = do existing ← read_bounded w io p t; ok (decoded_envelope existing)

  unfoldable pub scan_envelopes : MailIo B → String → Area → Tree B → Result (List Envelope)
  scan_envelopes io agent area t = do
    valid_id agent
    reject_if io.list io_failure
    envelopes ←
        collect (λ name. read_envelope io (record { agent = agent; area = area; name = name }) t)
          (read_dir_names agent area t.files)
    ok (w.sort envelopes)

  unfoldable pub scan_inbox : MailIo B → String → Tree B → Result (List Envelope)
  unfolding scan_envelopes
  scan_inbox io agent t = scan_envelopes io agent inbox t

  abbrev pub publish_over :
      MailIo B → FilePath → Envelope → Tree B → Result (Option B) → Result (Unit {0}) × Tree B
  publish_over io p envelope t (err e) = (err e, t)
  publish_over io p envelope t (ok (some existing)) =
      if identical (w.decode_envelope existing) envelope then (ok tt, t) else (fail conflict, t)
  publish_over io p envelope t (ok none) =
      if io.marshal then (fail io_failure, t) else write_atomic io p (w.encode_envelope envelope) t

  abbrev pub publish_in :
      MailIo B → FilePath → Envelope → Tree B → Result (Tree B) → Result (Unit {0}) × Tree B
  publish_in io p envelope t (err e) = (err e, t)
  publish_in io p envelope t (ok made) = publish_over io p envelope made (read_bounded w io p made)

  abbrev pub publish_checked :
      MailIo B → String → Envelope → Tree B → Result (Unit {0}) → Result (Unit {0}) × Tree B
  publish_checked io message_id env t (err e) = (err e, t)
  publish_checked io message_id env t (ok u) =
      publish_in io (file_at env.recipient_agent_id inbox message_id) (versioned env) t
        (mkdir_all io env.recipient_agent_id t)

  unfoldable pub publish : MailIo B → String → Envelope → Tree B → Result (Unit {0}) × Tree B
  publish io message_id env t = publish_checked io message_id env t (check_publish message_id env)
