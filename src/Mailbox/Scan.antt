-- ===== src/Mailbox/Scan.antt =====
-- What ScanInbox and ScanAcks of internal/adapters/mailbox/file.go make of a directory that other
-- processes write to.
use harnessing.Prelude.{
  String, true, Option, none, some, List, ◌≡◌, ◌≢◌, refl, sym, subst, inl, inr, ◌≤◌, arith,
  Option-cases, eq_iff,
}
use harnessing.Domain.Errors.{Result, ok, err, ◌>>=◌}
use harnessing.Mailbox.Paths.{is_json, json_name, is_json-json_name}
use harnessing.Mailbox.Tree.{inbox, acks, FilePath, Tree}
use harnessing.Mailbox.Wire.{Envelope, MessageAcknowledgement, Wire, IsWire, Member, valid_envelope}
use harnessing.Mailbox.Files.{MailIo, max_envelope_bytes, read_dir_names, read_bounded, collect}
use harnessing.Mailbox.Inbox.{
  publish, versioned, read_envelope, scan_inbox, scan_envelopes, decoded_envelope,
}
use harnessing.Mailbox.Acks.{read_ack, scan_acks, decoded_ack, valid_ack}
use harnessing.Mailbox.Again.{publish-valid}
use harnessing.Mailbox.Listing.{path_of, read_dir_names-Member, collect_sound, collect_complete}
use harnessing.Mailbox.Publish.{Readable, read_bounded-some, publish-Delivered}

module _ {B : Type 0} (w : Wire B) where
  -- An envelope of the directory: it stands in a file that readers can read whole, and is valid.
  abbrev pub Found : String → Tree B → Envelope → Type 0
  Found agent t env =
      (name : String) × (b : B) × Readable w (path_of agent inbox name) b t
      × (w.decode_envelope b ≡ some env)
      × (valid_envelope env ≡ true)

  read_envelope-Found :
      (io : MailIo B) (agent name : String) (t : Tree B) (env : Envelope)
      → read_envelope w io (path_of agent inbox name) t ≡ ok (some env)
      → Found agent t env
  unfolding read_envelope
  read_envelope-Found io agent name t env h =
      go (read_bounded w io (path_of agent inbox name) t) refl h
    where
      go :
          (r : Result (Option B))
          → read_bounded w io (path_of agent inbox name) t ≡ r
          → (r >>= λ existing. ok (decoded_envelope w existing)) ≡ ok (some env)
          → Found agent t env
      go (err e) k h = absurd (cc)
      go (ok none) k h = absurd (cc)
      go (ok (some b)) k h = elim (Option-cases (w.decode_envelope b)) [
        | inl n ↦ absurd (ground arith)
        | inr (a, d) ↦
            let e : a ≡ env = ground arith in
            (
              name,
              b,
              read_bounded-some w io (path_of agent inbox name) b t k,
              ground arith,
              ground arith,
            )
      ]

  -- Every envelope that a scan of an inbox returns is valid and decoded from a regular file of that
  -- inbox that is within the bound, if sorting keeps the elements.
  pub scan_inbox-Found :
      (io : MailIo B) (agent : String) (t : Tree B) (es : List Envelope) (env : Envelope)
      → IsWire w
      → scan_inbox w io agent t ≡ ok es
      → Member env es
      → Found agent t env
  unfolding scan_inbox scan_envelopes
  scan_inbox-Found io agent t es env iw h m = go (collect one names) refl (ground arith)
    where
      one : String → Result (Option Envelope)
      one name = read_envelope w io (path_of agent inbox name) t

      names : List String
      names = read_dir_names agent inbox t.files

      go :
          (r : Result (List Envelope))
          → collect one names ≡ r
          → (r >>= λ found. ok (w.sort found)) ≡ ok es
          → Found agent t env
      go (err e) k f = absurd (cc)
      go (ok found) k f =
          let e : w.sort found ≡ es = ground arith in
          let there : Member env found =
            (iw.sorted found env).0 (subst (λ l. Member env l) (sym e) m) in
          let (name, read) = collect_sound one names found env k there in
          read_envelope-Found io agent name t env read

  read_envelope-Readable :
      (io : MailIo B) (p : FilePath) (t : Tree B) (env : Envelope) (b : B) (o : Option Envelope)
      → Readable w p b t
      → w.decode_envelope b ≡ some env
      → valid_envelope env ≡ true
      → read_envelope w io p t ≡ ok o
      → o ≡ some env
  unfolding read_envelope read_bounded
  read_envelope-Readable io p t env b o (h, small) d v r = ground (arith, h, small, d, v, r)

  -- What a reader can want of the directory is returned by a scan that returns.
  scan_inbox-Member :
      (io : MailIo B) (agent name : String) (t : Tree B) (es : List Envelope) (env : Envelope)
      (b : B)
      → IsWire w
      → is_json name ≡ true
      → Readable w (path_of agent inbox name) b t
      → w.decode_envelope b ≡ some env
      → valid_envelope env ≡ true
      → scan_inbox w io agent t ≡ ok es
      → Member env es
  unfolding scan_inbox scan_envelopes
  scan_inbox-Member io agent name t es env b iw j h d v s =
      go (collect one names) refl (ground arith)
    where
      one : String → Result (Option Envelope)
      one n = read_envelope w io (path_of agent inbox n) t

      names : List String
      names = read_dir_names agent inbox t.files

      listed : Member name names
      listed = read_dir_names-Member agent inbox name b t.files j h.0

      go :
          (r : Result (List Envelope))
          → collect one names ≡ r
          → (r >>= λ found. ok (w.sort found)) ≡ ok es
          → Member env es
      go (err e) k f = absurd (cc)
      go (ok found) k f =
          let e : w.sort found ≡ es = ground arith in
          let (o, read, there) = collect_complete one names found name k listed in
          let same : o ≡ some env =
            read_envelope-Readable io (path_of agent inbox name) t env b o h d v read in
          subst (λ l. Member env l) e ((iw.sorted found env).1 (there env same))

  -- Where Publish has returned no error for an envelope whose encoding is within the bound, a scan
  -- of the recipient's inbox that returns no error has the envelope, with its version set, if
  -- encoding/json reads back what it wrote and sorting keeps the elements.
  pub publish-scan :
      (io io' : MailIo B) (message_id : String) (env : Envelope) (t : Tree B) (u : Unit {0})
      (es : List Envelope)
      → IsWire w
      → w.size (w.encode_envelope (versioned env)) ≤ max_envelope_bytes
      → (publish w io message_id env t).0 ≡ ok u
      → scan_inbox w io' env.recipient_agent_id (publish w io message_id env t).1 ≡ ok es
      → Member (versioned env) es
  publish-scan io io' message_id env t u es iw small p s =
      let (b, at, d, size) = publish-Delivered w io message_id env t u iw p in
      let fits : w.size b ≤ max_envelope_bytes = elim size [ inl e ↦ e | inr e ↦ rw e small ] in
      scan_inbox-Member io' env.recipient_agent_id (json_name message_id)
        (publish w io message_id env t).1 es (versioned env) b iw (is_json-json_name message_id)
        (at, fits) d (publish-valid w io message_id env t u p).0 s

  read_ack-valid :
      (io : MailIo B) (recipient name : String) (t : Tree B) (ack : MessageAcknowledgement)
      → read_ack w io recipient name t ≡ ok (some ack)
      → valid_ack recipient ack ≡ true
  unfolding read_ack
  read_ack-valid io recipient name t ack h =
      go (read_bounded w io (path_of recipient acks name) t) h
    where
      go :
          (r : Result (Option B))
          → (r >>= λ content. ok (decoded_ack w recipient content)) ≡ ok (some ack)
          → valid_ack recipient ack ≡ true
      go (err e) k = absurd (cc)
      go (ok none) k = absurd (cc)
      go (ok (some b)) k = ground arith

  -- Whatever stands in an agent's directory, ScanAcks of that agent returns only acknowledgements
  -- that name this agent as their recipient, and whose control record and message are not empty.
  pub scan_acks-scope :
      (io : MailIo B) (recipient : String) (t : Tree B) (found : List MessageAcknowledgement)
      (ack : MessageAcknowledgement)
      → scan_acks w io recipient t ≡ ok found
      → Member ack found
      → (ack.recipient_agent_id ≡ recipient)
        × (ack.control_record_id ≢ "")
        × (ack.original_message_id ≢ "")
  unfolding scan_acks
  scan_acks-scope io recipient t found ack h m =
      let one : String → Result (Option MessageAcknowledgement) =
        λ name. read_ack w io recipient name t in
      let names = read_dir_names recipient acks t.files in
      let (name, read) = collect_sound one names found ack (ground arith) m in
      let v : valid_ack recipient ack ≡ true = read_ack-valid io recipient name t ack read in
      (
        ground (arith, v, eq_iff ack.recipient_agent_id recipient),
        λ e. ground (arith, v, e, eq_iff ack.control_record_id ""),
        λ e. ground (arith, v, e, eq_iff ack.original_message_id ""),
      )
