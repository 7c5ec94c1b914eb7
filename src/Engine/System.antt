-- ===== src/Engine/System.antt =====
-- The system in which StartRun of internal/core/task/engine.go calls the supervisor: the engine, and
-- the starts that have committed their dispatch marker and not called it yet.
use harnessing.Prelude.{
  ℕ, suc, String, Bool, false, none, List, [], ◌∷◌, ◌++◌, ◌≡◌, str_eq, if◌then◌else◌,
}
use harnessing.Domain.Errors.{ok}
use harnessing.Domain.Records.{Receipt, ExecutionSpec, RunParticipationContext}
use harnessing.Api.{StartRunRequest}
use harnessing.Store.{receipt_key}
use harnessing.Store.Ledger.{lookup}
use harnessing.Store.PowerLoss.{receipts_of}
use harnessing.Engine.Scope.{Ambient}
use harnessing.Engine.Commit.{Engine, Io, SupervisorCall, start, stop, recover, commit}
use harnessing.Engine.Messages.{host_scope}
use harnessing.Engine.Runs.Start.{start_marker_mutation}
use harnessing.Engine.Steps.{Step, new_engine}

abbrev pub is_start : String → SupervisorCall → Bool
is_start r (start run spec context) = str_eq run r
is_start r (stop run) = false
is_start r (recover run) = false

-- How often the supervisor was asked to start the run.
abbrev pub starts : String → List SupervisorCall → ℕ
starts r [] = 0
starts r (c ∷ cs) = let rest = starts r cs in if is_start r c then suc rest else rest

abbrev pub occurrences : String → List String → ℕ
occurrences r [] = 0
occurrences r (x ∷ xs) = let rest = occurrences r xs in if str_eq x r then suc rest else rest

-- The engine, and the runs whose StartRun has committed its marker and not yet called Start.
pub record System : Type 0 where
  pub engine : Engine
  pub marked : List String

pub data SystemStep (s : System) : System → Type 0 where
  -- A step of the engine that is no call of Start: any commit, of any caller, among them.
  engine_step :
      {e' : Engine}
      → Step s.engine e'
      → e'.calls ≡ s.engine.calls
      → SystemStep s (record { engine = e'; marked = s.marked })
  other_call :
      (c : SupervisorCall)
      → ((r : String) → is_start r c ≡ false)
      → SystemStep s
          (record { engine = record (s.engine) { calls = c ∷ s.engine.calls }; marked = s.marked })
  -- Every process that was about to call Start has ended.
  crashed : SystemStep s (record { engine = s.engine; marked = [] })
  -- A StartRun commits its marker, under an identifier that no earlier internal commit had.
  marking :
      (io : Io) (a : Ambient) (req : StartRunRequest) (id fingerprint : String) (receipt : Receipt)
      → lookup (receipt_key "" id) (receipts_of s.engine.store.files.state_file) ≡ none
      → (commit io host_scope id fingerprint (start_marker_mutation a req) s.engine).0 ≡ ok receipt
      → SystemStep s (record {
        engine = (commit io host_scope id fingerprint (start_marker_mutation a req) s.engine).1;
        marked = req.run_id ∷ s.marked;
      })
  -- It calls Start.
  launching :
      (xs ys : List String) (run : String) (spec : ExecutionSpec)
      (context : RunParticipationContext)
      → s.marked ≡ xs ++ run ∷ ys
      → SystemStep s (record {
        engine = record (s.engine) { calls = start run spec context ∷ s.engine.calls };
        marked = xs ++ ys;
      })

pub data SystemSteps (s : System) : System → Type 0 where
  at_start : SystemSteps s s
  next : {t u : System} → SystemSteps s t → SystemStep t u → SystemSteps s u

abbrev pub new_system : String → System
new_system workspace = record { engine = new_engine workspace; marked = [] }
