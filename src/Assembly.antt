-- ===== src/Assembly.antt =====
-- internal/assembly/serve.go and session.go: how the host, the mailbox and the transport are put
-- together. What is printed on stderr is left out.
pub mod Steps
pub mod System
use harnessing.Prelude.{
  ℕ, suc, String, Bool, true, false, not, Option, none, some, List, [], ◌∷◌, str_eq, ◌==◌, ◌&&◌,
  if◌then◌else◌,
}
use harnessing.Domain.Errors.{Result, ok, err, GoError}
use harnessing.Domain.Records.{Agent, Snapshot}
use harnessing.Store.{Faults}
use harnessing.Engine.Commit.{Engine}
use harnessing.Engine.Reads.{get_snapshot}
use harnessing.Mailbox.Tree.{Tree}
use harnessing.Mailbox.Wire.{Wire}
use harnessing.Mailbox.Files.{open_mailbox}
use harnessing.Deliverer.{World, Turn, then_on, deliver_pending, ingest_pending, ingest_acks}
use harnessing.Host.{FrontendSession}
use harnessing.Host.Opening.{Workspace}
use harnessing.Transport.{AttachPayload}
use harnessing.Transport.Codec.{Codec}
use harnessing.Transport.Ticking.{SessionTurn, Serving, tick}

-- What the system answers to one pass over the mailbox; `visit` is the order in which Go iterates over
-- a map.
pub record MailPass (B : Type 0) : Type 0 where
  pub abs : Bool
  pub mkdir : Bool
  pub deliver_read : Faults
  pub deliver_turns : ℕ → Turn B
  pub ingest_read : Faults
  pub ingest_turns : ℕ → ℕ → Turn B
  pub visit : List String → List String
  pub snapshot_read : Faults
  pub ack_turns : ℕ → ℕ → Turn B

module _ {B : Type 0} (w : Wire B) where
  abbrev pub opened :
      Result (Unit {0})
      → World B
      → (World B → Result (Unit {0}) × World B)
      → Result (Unit {0}) × World B
  opened (err e) v next = (err e, v)
  opened (ok u) v next = next v

  -- Publish what is queued, and process what was published.
  abbrev pub pump : MailPass B → World B → Result (Unit {0}) × World B
  pump m v =
      then_on (deliver_pending w m.deliver_read m.deliver_turns v)
        (ingest_pending w m.ingest_read m.ingest_turns m.visit)

  module _ (reviewers : String → Bool) where
    abbrev ingest_own : MailPass B → String → World B → Result (Unit {0}) × World B
    ingest_own m caller v =
        if str_eq caller "" then (ok tt, v) else ingest_acks w reviewers (m.ack_turns 0) caller v

    -- driveMailbox
    unfoldable pub drive_mailbox : MailPass B → String → World B → Result (Unit {0}) × World B
    drive_mailbox m caller v =
        opened (open_mailbox m.abs m.mkdir) v (λ v. then_on (pump m v) (ingest_own m caller))

    -- The loop of serve's Tick over the agents of the snapshot.
    unfoldable pub ingest_agents_acks :
        (ℕ → ℕ → Turn B) → List Agent → World B → Result (Unit {0}) × World B
    ingest_agents_acks at [] v = (ok tt, v)
    ingest_agents_acks at (agent ∷ agents) v =
        then_on (ingest_acks w reviewers (at 0) agent.id v)
          (ingest_agents_acks (λ i. at (suc i)) agents)

    abbrev pub acks_of : MailPass B → Result Snapshot → World B → Result (Unit {0}) × World B
    acks_of m (err e) v = (err e, v)
    acks_of m (ok snap) v = ingest_agents_acks m.ack_turns snap.agents v

    unfoldable pub mail_pass : MailPass B → World B → Result (Unit {0}) × World B
    mail_pass m v =
        opened (open_mailbox m.abs m.mkdir) v
          (λ v. then_on (pump m v) (λ v. acks_of m (get_snapshot m.snapshot_read v.engine) v))

    -- serve's Tick, which reports an error on stderr and retries with the next tick.
    unfoldable pub serve_effects :
        {J : Type 0} → MailPass B → Serving J → Tree B → Result (Unit {0}) × Serving J × Tree B
    serve_effects m s mail =
        let v = (mail_pass m (record { engine = s.workspace.engine; mail = mail })).1 in
        (ok tt, record s { workspace = record s.workspace { engine = v.engine } }, v.mail)

    -- A tick of the serve process: its sessions, then its mailbox. Bind never fails there.
    unfoldable pub serve_tick :
        {J : Type 0}
        → Codec J
        → Bool
        → (String → SessionTurn J)
        → MailPass B
        → Serving J
        → Tree B
        → Result (Unit {0}) × Serving J × Tree B
    serve_tick k list at m s mail =
        tick k (λ a. ok (record { reviewers = reviewers; principal = a.caller_agent_id })) list at
          (serve_effects m) s mail

-- What is left of an exit code where the end of the session failed.
abbrev pub exit_code : ℕ → Bool → ℕ
exit_code code failed = if failed && code == 0 then 1 else code

module _ {B : Type 0} (w : Wire B) (reviewers : String → Bool) (m : MailPass B) (caller : String)
    (command : FrontendSession → World B → ℕ × World B) (close_fails : Bool) where
  abbrev pub closed_session : ℕ × World B → ℕ × Option (World B)
  closed_session (code, v) =
      (exit_code code close_fails, some (drive_mailbox w reviewers m caller v).1)

  abbrev pub opened_session : Result (World B) → ℕ × Option (World B)
  opened_session (err e) = (1, none)
  opened_session (ok v) =
      closed_session (command (record { reviewers = reviewers; principal = caller }) v)

  -- withSession: the workspace is opened, the command runs, the mailbox is driven, and the workspace
  -- is closed; the answer is the exit code, and what is left of the world.
  unfoldable pub with_session : String → Result (World B) → ℕ × Option (World B)
  with_session root answer = if str_eq root "" then (1, none) else opened_session answer

abbrev pub is_error {ℓ} : {A : Type ℓ} → Result A → Bool
is_error (err e) = true
is_error (ok x) = false

abbrev pub attached_session :
    {Client : Type 0} → Result Client → (Client → ℕ × Client) → (Client → Result (Unit {0})) → ℕ
attached_session (err e) command detach = 1
attached_session (ok c) command detach =
    let (code, c') = command c in exit_code code (is_error (detach c'))

-- WithAttachedSession
unfoldable pub with_attached_session :
    {Client : Type 0}
    → String
    → Result Client
    → (Client → ℕ × Client)
    → (Client → Result (Unit {0}))
    → ℕ
with_attached_session root attach command detach =
    if str_eq root "" then 1 else attached_session attach command detach
