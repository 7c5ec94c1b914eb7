-- ===== src/Deliverer/System.antt =====
-- The host as a transition system: sessions commit, the deliverer of
-- internal/adapters/mailbox/deliverer.go runs, and other processes write into the mailbox.
use harnessing.Prelude.{ℕ, String, Bool, false, List, ◌≡◌}
use harnessing.Store.{Faults}
use harnessing.Engine.Scope.{CallerScope}
use harnessing.Engine.Commit.{Engine, Io, Mutation, commit}
use harnessing.Engine.Mutations.{IsMutation}
use harnessing.Engine.Steps.{new_engine}
use harnessing.Mailbox.Tree.{Tree}
use harnessing.Mailbox.Wire.{Wire}
use harnessing.Deliverer.{World, Turn, deliver_pending, ingest_pending, ingest_acks}
use harnessing.Deliverer.Changes.{InOrder, is_processing_note}
use harnessing.Deliverer.Order.{messages_at, commit-InOrder}
use harnessing.Deliverer.Ingest.{ingest_pending-InOrder}
use harnessing.Deliverer.Facts.{deliver_pending-InOrder, ingest_acks-InOrder}

-- A workspace that has no state file yet, and what there is of a mailbox.
abbrev pub new_world : {B : Type 0} → String → Tree B → World B
new_world workspace t = record { engine = new_engine workspace; mail = t }

module _ {B : Type 0} (w : Wire B) where
  pub data WorldStep (v : World B) : World B → Type 0 where
    -- Any command of a session, or of the host, but the note of a processing.
    committed :
        {v' : World B} (io : Io) (caller : CallerScope) (request fingerprint : String)
        (m : Mutation) (im : IsMutation m)
        → is_processing_note im ≡ false
        → v' ≡ record v { engine = (commit io caller request fingerprint m v.engine).1 }
        → WorldStep v v'
    -- Reads, subscriptions, calls of the supervisor, and the restart of a process.
    idle :
        {v' : World B} (e : Engine)
        → e.store.files.state_file ≡ v.engine.store.files.state_file
        → v' ≡ record v { engine = e }
        → WorldStep v v'
    -- Another process writes into the mailbox, whatever it likes.
    dropped : {v' : World B} (t : Tree B) → v' ≡ record v { mail = t } → WorldStep v v'
    delivered :
        {v' : World B} (f : Faults) (turns : ℕ → Turn B)
        → v' ≡ (deliver_pending w f turns v).1
        → WorldStep v v'
    ingested :
        {v' : World B} (f : Faults) (turns : ℕ → ℕ → Turn B) (visit : List String → List String)
        → v' ≡ (ingest_pending w f turns visit v).1
        → WorldStep v v'
    acknowledged :
        {v' : World B} (reviewers : String → Bool) (turns : ℕ → Turn B) (agent : String)
        → v' ≡ (ingest_acks w reviewers turns agent v).1
        → WorldStep v v'

  pub data WorldSteps (v : World B) : World B → Type 0 where
    at_start : WorldSteps v v
    next : {v' v'' : World B} → WorldSteps v v' → WorldStep v' v'' → WorldSteps v v''

  WorldStep-InOrder :
      (v v' : World B)
      → WorldStep v v'
      → InOrder (messages_at v.engine)
      → InOrder (messages_at v'.engine)
  WorldStep-InOrder v v' (committed io caller request fingerprint m im p e) h =
      rw e (commit-InOrder io caller request fingerprint m v.engine im p h)
  WorldStep-InOrder v v' (idle a s e) h = rw (e, s) h
  WorldStep-InOrder v v' (dropped t e) h = rw e h
  WorldStep-InOrder v v' (delivered f turns e) h = rw e (deliver_pending-InOrder w f turns v h)
  WorldStep-InOrder v v' (ingested f turns visit e) h =
      rw e (ingest_pending-InOrder w f turns visit v h)
  WorldStep-InOrder v v' (acknowledged reviewers turns agent e) h =
      rw e (ingest_acks-InOrder w reviewers turns agent v h)

  -- From a new workspace, after any commands of sessions but the note of a processing, any runs of
  -- DeliverPending, IngestPending and IngestAcks with any faults and in any order, any restarts of
  -- the process and whatever other processes write into the mailbox, no two messages of the state
  -- file have one identifier, and every message that is processed was published.
  pub reachable-InOrder :
      (workspace : String) (t : Tree B) (v : World B)
      → WorldSteps (new_world workspace t) v
      → InOrder (messages_at v.engine)
  reachable-InOrder workspace t v at_start = (tt, tt)
  reachable-InOrder workspace t v (next {v'} steps step) =
      WorldStep-InOrder v' v step (reachable-InOrder workspace t v' steps)
