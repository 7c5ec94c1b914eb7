-- ===== src/Host/Opening.antt =====
-- internal/host/host.go, open: a workspace is opened on the files that are there. What
-- statestore.Open does, which takes the lock, is left out; it may fail.
use harnessing.Prelude.{String, Bool, true, false, some, List, [], ◌∷◌, refl, str_eq, if◌then◌else◌}
use harnessing.Domain.Errors.{Result, ok, err}
use harnessing.Domain.Records.{Run, RunState, run_recovery_required, Snapshot}
use harnessing.Store.{Disk, Faults}
use harnessing.Events.{new_event_bus}
use harnessing.Engine.Commit.{Engine}
use harnessing.Engine.Reads.{get_snapshot}
use harnessing.Engine.Runs.Reconcile.{ReconcileInput, reconcile_stuck_runs}
use harnessing.Engine.Steps.{Steps, none_yet}
use harnessing.Engine.Lifecycle.{reconcile_stuck_runs-Steps}
use harnessing.Journal.{JournalFile, JournalIo, open_journal, finish}

-- An opened workspace: its engine, and the output of each run.
pub record Workspace : Type 0 where
  pub engine : Engine
  pub journals : String → JournalFile

-- What the system answers while a workspace is opened.
pub record OpenInput : Type 0 where
  pub open_store : Result (Unit {0})
  pub make_journal : Bool
  pub reconcile_read : Faults
  pub reconcile : String → ReconcileInput
  pub snapshot_read : Faults
  pub finish_io : String → JournalIo

-- The engine of a new process on a state file and what a crash left of the temporary one. Whether it
-- has a supervisor stays as it was, and the log of the supervisor's calls goes on.
abbrev pub new_process : Disk → Disk → Engine → Engine
new_process d t e = record e {
  store = record {
    files = record { state_file = d; tmp_file = t; synced = e.store.files.synced };
    durable_revision = 0;
  };
  events = new_event_bus;
}

abbrev is_recovery_required : RunState → Bool
is_recovery_required run_recovery_required = true
is_recovery_required _ = false

-- `_ = j.Finish(…, CaptureInterrupted)`
abbrev finish_run : (String → JournalIo) → String → (String → JournalFile) → String → JournalFile
finish_run io id journals other =
    if str_eq id other
    then (finish (io id) (some "interrupted") (journals id)).1
    else journals other

-- The loop over the runs of the snapshot.
unfoldable pub finish_runs :
    (String → JournalIo) → List Run → (String → JournalFile) → String → JournalFile
finish_runs io [] journals = journals
finish_runs io (r ∷ rs) journals =
    finish_runs io rs
      (if is_recovery_required r.state then finish_run io r.id journals else journals)

-- `snapshot, _ := engine.GetSnapshot(…)`
abbrev pub runs_or_none : Result Snapshot → List Run
runs_or_none (err e) = []
runs_or_none (ok snap) = snap.runs

abbrev pub reconciled :
    OpenInput → Workspace → Result (Unit {0}) × Engine → Result (Unit {0}) × Workspace
reconciled inp w (err x, e) = (err x, record w { engine = e })
reconciled inp w (ok u, e) = (
  ok tt,
  record {
    engine = e;
    journals =
        finish_runs inp.finish_io (runs_or_none (get_snapshot inp.snapshot_read e)) w.journals;
  },
)

abbrev pub open_engine :
    OpenInput → Workspace → Result (Unit {0}) → Result (Unit {0}) → Result (Unit {0}) × Workspace
open_engine inp w (err x) journal = (err x, w)
open_engine inp w (ok u) (err x) = (err x, w)
open_engine inp w (ok u) (ok v) =
    reconciled inp w (reconcile_stuck_runs inp.reconcile_read inp.reconcile w.engine)

-- open, on the engine of a new process.
unfoldable pub open_workspace : OpenInput → Workspace → Result (Unit {0}) × Workspace
open_workspace inp w = open_engine inp w inp.open_store (open_journal inp.make_journal)

reconciled-Steps :
    (inp : OpenInput) (w : Workspace) (r : Result (Unit {0}) × Engine)
    → Steps w.engine r.1
    → Steps w.engine (reconciled inp w r).1.engine
reconciled-Steps inp w (err x, e) h = h
reconciled-Steps inp w (ok u, e) h = h

open_engine-Steps :
    (inp : OpenInput) (w : Workspace) (store journal : Result (Unit {0}))
    → Steps w.engine (open_engine inp w store journal).1.engine
open_engine-Steps inp w (err x) journal = none_yet refl
open_engine-Steps inp w (ok u) (err x) = none_yet refl
open_engine-Steps inp w (ok u) (ok v) =
    reconciled-Steps inp w (reconcile_stuck_runs inp.reconcile_read inp.reconcile w.engine)
      (reconcile_stuck_runs-Steps inp.reconcile_read inp.reconcile w.engine)

pub open_workspace-Steps :
    (inp : OpenInput) (w : Workspace) → Steps w.engine (open_workspace inp w).1.engine
unfolding open_workspace
open_workspace-Steps inp w = open_engine-Steps inp w inp.open_store (open_journal inp.make_journal)
