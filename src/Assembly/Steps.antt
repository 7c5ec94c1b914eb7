-- ===== src/Assembly/Steps.antt =====
-- What a tick of the serve process of internal/assembly/serve.go, and a one-shot session of session.go,
-- do to the engine.
use harnessing.Prelude.{ℕ, suc, String, Bool, true, false, List, [], ◌∷◌, refl}
use harnessing.Domain.Errors.{Result, ok, err}
use harnessing.Domain.Records.{Agent, Snapshot}
use harnessing.Engine.Reads.{get_snapshot}
use harnessing.Engine.Steps.{Steps, none_yet}
use harnessing.Engine.Lifecycle.{join}
use harnessing.Mailbox.Tree.{Tree}
use harnessing.Mailbox.Wire.{Wire}
use harnessing.Mailbox.Files.{open_mailbox}
use harnessing.Deliverer.{World, Turn, then_on, deliver_pending, ingest_pending, ingest_acks}
use harnessing.Deliverer.Recording.{
  then_on-Steps, deliver_pending-Steps, ingest_pending-Steps, ingest_acks-Steps,
}
use harnessing.Transport.Codec.{Codec}
use harnessing.Transport.Ticking.{SessionTurn, Serving, service_sessions, tick}
use harnessing.Transport.Authority.{service_sessions-Steps}
use harnessing.Assembly.{
  MailPass, opened, pump, acks_of, ingest_agents_acks, mail_pass, serve_effects, serve_tick,
}

module _ {B : Type 0} (w : Wire B) (reviewers : String → Bool) where
  opened-Steps :
      (r : Result (Unit {0})) (v : World B) (next : World B → Result (Unit {0}) × World B)
      → ((v : World B) → Steps v.engine (next v).1.engine)
      → Steps v.engine (opened w r v next).1.engine
  opened-Steps (err e) v next f = none_yet refl
  opened-Steps (ok u) v next f = f v

  pump-Steps : (m : MailPass B) (v : World B) → Steps v.engine (pump w m v).1.engine
  pump-Steps m v =
      then_on-Steps v.engine (deliver_pending w m.deliver_read m.deliver_turns v)
        (ingest_pending w m.ingest_read m.ingest_turns m.visit)
        (deliver_pending-Steps w m.deliver_read m.deliver_turns v)
        (ingest_pending-Steps w m.ingest_read m.ingest_turns m.visit)

  ingest_agents_acks-Steps :
      (at : ℕ → ℕ → Turn B) (agents : List Agent) (v : World B)
      → Steps v.engine (ingest_agents_acks w reviewers at agents v).1.engine
  unfolding ingest_agents_acks
  ingest_agents_acks-Steps at [] v = none_yet refl
  ingest_agents_acks-Steps at (agent ∷ agents) v =
      then_on-Steps v.engine (ingest_acks w reviewers (at 0) agent.id v)
        (ingest_agents_acks w reviewers (λ i. at (suc i)) agents)
        (ingest_acks-Steps w reviewers (at 0) agent.id v)
        (ingest_agents_acks-Steps (λ i. at (suc i)) agents)

  acks_of-Steps :
      (m : MailPass B) (r : Result Snapshot) (v : World B)
      → Steps v.engine (acks_of w reviewers m r v).1.engine
  acks_of-Steps m (err e) v = none_yet refl
  acks_of-Steps m (ok snap) v = ingest_agents_acks-Steps m.ack_turns snap.agents v

  pub mail_pass-Steps :
      (m : MailPass B) (v : World B) → Steps v.engine (mail_pass w reviewers m v).1.engine
  unfolding mail_pass
  mail_pass-Steps m v =
      opened-Steps (open_mailbox m.abs m.mkdir) v
        (λ v.
          then_on (pump w m v)
            (λ v'. acks_of w reviewers m (get_snapshot m.snapshot_read v'.engine) v'))
        (λ v.
          then_on-Steps v.engine (pump w m v)
            (λ v'. acks_of w reviewers m (get_snapshot m.snapshot_read v'.engine) v')
            (pump-Steps m v) (λ v'. acks_of-Steps m (get_snapshot m.snapshot_read v'.engine) v'))

  module _ {J : Type 0} (k : Codec J) where
    pub serve_tick-Steps :
        (list : Bool) (at : String → SessionTurn J) (m : MailPass B) (s : Serving J) (mail : Tree B)
        → Steps s.workspace.engine (serve_tick w reviewers k list at m s mail).1.workspace.engine
    unfolding serve_tick tick serve_effects
    serve_tick-Steps true at m s mail = none_yet refl
    serve_tick-Steps false at m s mail =
        let s' = service_sessions k _ at s.sessions s in
        join (service_sessions-Steps k _ at s.sessions s)
          (mail_pass-Steps m (record { engine = s'.workspace.engine; mail = mail }))
