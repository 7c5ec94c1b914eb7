-- ===== src/Assembly/System.antt =====
-- The whole program as a transition system: a serve process of internal/assembly/serve.go, its clients,
-- the agents that write into the mailbox, and the restarts of the process.
use harnessing.Prelude.{String, Bool, List, none, ◌⊎◌, ◌≡◌, refl}
use harnessing.Store.{Disk}
use harnessing.Engine.Commit.{Engine}
use harnessing.Store.Effects.{Holds}
use harnessing.Engine.Reachable.{reachable-IsConsistent}
use harnessing.Engine.Consistency.{IsConsistent}
use harnessing.Engine.Steps.{Steps, none_yet, one, restarted, new_engine}
use harnessing.Engine.Lifecycle.{join}
use harnessing.Host.Opening.{OpenInput, new_process, open_workspace, open_workspace-Steps}
use harnessing.Journal.{JournalFile}
use harnessing.Mailbox.Tree.{Tree}
use harnessing.Mailbox.Wire.{Wire}
use harnessing.Transport.Codec.{Codec}
use harnessing.Transport.Serving.{SessionDir}
use harnessing.Transport.Ticking.{SessionTurn, Serving}
use harnessing.Assembly.{MailPass, serve_tick}
use harnessing.Assembly.Steps.{serve_tick-Steps}

-- The process with the sessions' folders, and the mailbox.
pub record Process (B J : Type 0) : Type 0 where
  pub serving : Serving J
  pub mail : Tree B

abbrev pub engine_of : {B J : Type 0} → Process B J → Engine
engine_of p = p.serving.workspace.engine

module _ {B J : Type 0} (w : Wire B) (reviewers : String → Bool) (k : Codec J) where
  pub data ProcessStep (p : Process B J) : Process B J → Type 0 where
    ticked :
        {p' : Process B J} (list : Bool) (at : String → SessionTurn J) (m : MailPass B)
        → p' ≡ (
            let r = serve_tick w reviewers k list at m p.serving p.mail in
            record { serving = r.1; mail = r.2 })
        → ProcessStep p p'
    -- The clients write into their folders, and make and remove them.
    asked :
        {p' : Process B J} (sessions : List (String × SessionDir J))
        → p' ≡ record p { serving = record p.serving { sessions = sessions } }
        → ProcessStep p p'
    -- Others write into the mailbox.
    mailed : {p' : Process B J} (t : Tree B) → p' ≡ record p { mail = t } → ProcessStep p p'
    -- The supervisor captures the output of runs.
    captured :
        {p' : Process B J} (journals : String → JournalFile)
        → p' ≡ record p {
          serving = record p.serving {
            workspace = record p.serving.workspace { journals = journals };
          };
        }
        → ProcessStep p p'
    -- The process ends, or the power fails, and the workspace is opened again.
    reopened :
        {p' : Process B J} (d t : Disk) (inp : OpenInput)
        → (d ≡ p.serving.workspace.engine.store.files.state_file)
          ⊎ (d ≡ p.serving.workspace.engine.store.files.synced)
        → p' ≡ record p {
          serving = record {
            sessions = p.serving.sessions;
            bound = λ id. none;
            workspace =
                (open_workspace inp (record p.serving.workspace {
                  engine = new_process d t p.serving.workspace.engine;
                })).1;
          };
        }
        → ProcessStep p p'

  pub data ProcessSteps (p : Process B J) : Process B J → Type 0 where
    at_start : ProcessSteps p p
    next : {p' p'' : Process B J} → ProcessSteps p p' → ProcessStep p' p'' → ProcessSteps p p''

  ProcessStep-Steps : {p p' : Process B J} → ProcessStep p p' → Steps (engine_of p) (engine_of p')
  ProcessStep-Steps {p} (ticked list at m e) =
      rw e (serve_tick-Steps w reviewers k list at m p.serving p.mail)
  ProcessStep-Steps (asked sessions e) = rw e (none_yet refl)
  ProcessStep-Steps (mailed t e) = rw e (none_yet refl)
  ProcessStep-Steps (captured journals e) = rw e (none_yet refl)
  ProcessStep-Steps {p} (reopened d t inp found e) = rw e (
      join (one (restarted d t found refl)) (
        open_workspace-Steps inp
          (record p.serving.workspace { engine = new_process d t (engine_of p) })))

  pub ProcessSteps-Steps :
      {p p' : Process B J} → ProcessSteps p p' → Steps (engine_of p) (engine_of p')
  ProcessSteps-Steps at_start = none_yet refl
  ProcessSteps-Steps (next steps step) = join (ProcessSteps-Steps steps) (ProcessStep-Steps step)

  -- From a new workspace, whatever clients write into the sessions' folders and others into the
  -- mailbox, after any ticks of the serve process with any faults, any output of runs, any restarts
  -- of the process and any power losses, each with an opening of the workspace, the tasks on disk
  -- are consistent, as a reader finds them and as a power loss would leave them.
  pub serving-IsConsistent :
      (workspace : String) (p p' : Process B J)
      → engine_of p ≡ new_engine workspace
      → ProcessSteps p p'
      → Holds IsConsistent (engine_of p').store.files.state_file
        × Holds IsConsistent (engine_of p').store.files.synced
  serving-IsConsistent workspace p p' fresh steps =
      reachable-IsConsistent workspace (engine_of p') (rw fresh at (ProcessSteps-Steps steps))
