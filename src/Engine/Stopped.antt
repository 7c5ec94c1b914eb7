-- ===== src/Engine/Stopped.antt =====
-- What StopRun of internal/core/task/engine.go has done where it returns no error.
use harnessing.Prelude.{
  String, Bool, true, false, Option, none, some, List, [], ◌∷◌, ◌≡◌, refl, arith, eq_iff,
  Option-cases, inl, inr,
}
use harnessing.Domain.Errors.{GoError, Result, ok, err}
use harnessing.Domain.Records.{Run, Snapshot, Event, Receipt}
use harnessing.Api.{StopRunRequest}
use harnessing.Table.{find_run, run_id, entry}
use harnessing.Table.Laws.{find-set, key-find}
use harnessing.Text.Fingerprint.{fingerprint, str, flag}
use harnessing.Store.{Disk, Files, receipt_key, with_workspace}
use harnessing.Store
use harnessing.Store.Ledger.{lookup}
use harnessing.Store.PowerLoss.{receipts_of}
use harnessing.Store.Fresh.{Persisted, persisted, commit-Persisted}
use harnessing.Engine.Scope.{CallerScope, Ambient}
use harnessing.Engine.Commit.{Engine, stop, commit, request_of}
use harnessing.Engine.Messages.{host_scope}
use harnessing.Engine.Runs.{is_error}
use harnessing.Engine.Runs.Stop.{
  StopInput, is_exited, after_stop, stop_intent_mutation, stop_outcome_mutation, finish_stop,
  conclude, stop_intended, stop_checked, check_stop_run, stop_run,
}
use harnessing.Engine.Reachable.{store-commit}
use harnessing.Engine.Outcome.{runs_of, calls-commit, commit-ok}

abbrev pub exited_of : Option Run → Bool
exited_of none = false
exited_of (some run) = is_exited run.state

-- The run is there, and Exited.
abbrev pub is_exited_on : String → Disk → Bool
is_exited_on r d = exited_of (entry run_id r (runs_of d))

-- On the state file, and as a power loss would leave it.
abbrev pub Exited : String → Engine → Type 0
Exited r e =
    (is_exited_on r e.store.files.state_file ≡ true) × (is_exited_on r e.store.files.synced ≡ true)

-- The engine once the intent of a StopRun has been committed, or not.
abbrev pub after_intent : StopInput → CallerScope → StopRunRequest → Engine → Engine
after_intent inp caller req e =
    (commit inp.intent_io caller req.request_id
      (fingerprint (str "StopRun" ∷ str req.run_id ∷ str req.reason ∷ []))
      (stop_intent_mutation inp.intent caller req) e).1

stop_outcome_mutation-exits :
    (a : Ambient) (req : StopRunRequest) (snap snap' : Snapshot) (evs : List Event)
    → stop_outcome_mutation a req none snap ≡ ok (snap', evs)
    → exited_of (entry run_id req.run_id snap'.runs) ≡ true
unfolding stop_outcome_mutation
stop_outcome_mutation-exits a req snap snap' evs e =
    elim (Option-cases (find_run req.run_id snap.runs)) [
      | inl n ↦ absurd (ground arith)
      | inr ((i, run), found) ↦ ground (
        arith,
        find-set run_id req.run_id req.run_id snap.runs i run (after_stop none a.now run) found
            (key-find run_id req.run_id snap.runs found),
        eq_iff req.run_id req.run_id,
      )
    ]

Persisted-exits :
    (a : Ambient) (req : StopRunRequest) (stopped : Option GoError) (workspace id fp : String)
    (before : Disk) (after : Files)
    → stopped ≡ none
    → Persisted workspace
        (request_of host_scope id fp (stop_outcome_mutation a req stopped))
        before
        after
    → (is_exited_on req.run_id after.state_file ≡ true)
      × (is_exited_on req.run_id after.synced ≡ true)
Persisted-exits a req stopped workspace id fp before after no_error
      (persisted b state mutated evs read m p q) =
    let done =
      stop_outcome_mutation-exits a req (with_workspace workspace state.snapshot) mutated evs
        (rw no_error at m) in
    (rw p done, rw q done)

finish_stop-ok :
    (stopped : Option GoError) (receipt : Receipt) (r : Result Receipt × Engine)
    → (finish_stop stopped receipt r).0.error ≡ none
    → ((x : Receipt) × (r.0 ≡ ok x))
      × ((stopped ≡ none) × ((finish_stop stopped receipt r).1 ≡ r.1))
finish_stop-ok stopped receipt (err x, e) h = absurd (cc)
finish_stop-ok stopped receipt (ok x, e) h = ((x, refl), (h, refl))

conclude-Exited :
    (inp : StopInput) (req : StopRunRequest) (receipt : Receipt) (id : Result String) (e : Engine)
    → ((i : String)
        → id ≡ ok i
        → lookup (receipt_key "" i) (receipts_of e.store.files.state_file) ≡ none)
    → (conclude inp req receipt id e).0.error ≡ none
    → Exited req.run_id (conclude inp req receipt id e).1
      × ((conclude inp req receipt id e).1.calls ≡ e.calls)
conclude-Exited inp req receipt (err x) e new h = absurd (cc)
conclude-Exited inp req receipt (ok i) e new h =
    let m = stop_outcome_mutation inp.outcome req inp.stopped in
    let fp =
      fingerprint (str "StopRunOutcome" ∷ str req.run_id ∷ flag (is_error inp.stopped) ∷ []) in
    let ((x, done), (stopped, same)) =
      finish_stop-ok inp.stopped receipt (commit inp.outcome_io host_scope i fp m e) h in
    let (y, ok_y) = commit-ok inp.outcome_io host_scope i fp m e x done in
    rw same (
      (rw (store-commit inp.outcome_io host_scope i fp m e) (
          Persisted-exits inp.outcome req inp.stopped e.workspace_id i fp e.store.files.state_file
            (Store.commit inp.outcome_io.commit e.workspace_id (request_of host_scope i fp m)
              e.store).1.files
            stopped
            (commit-Persisted inp.outcome_io.commit e.workspace_id (request_of host_scope i fp m)
              e.store (new i refl) y ok_y))),
      calls-commit inp.outcome_io host_scope i fp m e,
    )

stop_intended-Exited :
    (inp : StopInput) (req : StopRunRequest) (r : Result Receipt × Engine)
    → ((i : String)
        → inp.outcome_id ≡ ok i
        → lookup (receipt_key "" i) (receipts_of r.1.store.files.state_file) ≡ none)
    → (stop_intended inp req r).0.error ≡ none
    → Exited req.run_id (stop_intended inp req r).1
      × ((stop_intended inp req r).1.calls ≡ stop req.run_id ∷ r.1.calls)
stop_intended-Exited inp req (err x, e) new h = absurd (cc)
stop_intended-Exited inp req (ok receipt, e) new h =
    conclude-Exited inp req _ inp.outcome_id (record e { calls = stop req.run_id ∷ e.calls }) new h

stop_checked-Exited :
    (inp : StopInput) (caller : CallerScope) (req : StopRunRequest) (check : Result (Unit {0}))
    (e : Engine)
    → ((i : String)
        → inp.outcome_id ≡ ok i
        → lookup
            (receipt_key "" i)
            (receipts_of (after_intent inp caller req e).store.files.state_file)
          ≡ none)
    → (stop_checked inp caller req check e).0.error ≡ none
    → Exited req.run_id (stop_checked inp caller req check e).1
      × ((stop_checked inp caller req check e).1.calls ≡ stop req.run_id ∷ e.calls)
stop_checked-Exited inp caller req (err x) e new h = absurd (cc)
stop_checked-Exited inp caller req (ok tt) e new h =
    let m = stop_intent_mutation inp.intent caller req in
    let fp = fingerprint (str "StopRun" ∷ str req.run_id ∷ str req.reason ∷ []) in
    let (there, called) =
      stop_intended-Exited inp req (commit inp.intent_io caller req.request_id fp m e) new h in
    (there, rw called (rw (calls-commit inp.intent_io caller req.request_id fp m e) refl))

-- Where StopRun returns no error, and the identifier that it drew for its outcome was not in the
-- ledger behind its intent, the run is Exited, as a reader finds it and as a power loss would leave
-- it, and the supervisor's Stop was called once, for this run.
pub stop_run-exits :
    (inp : StopInput) (caller : CallerScope) (req : StopRunRequest) (e : Engine)
    → ((i : String)
        → inp.outcome_id ≡ ok i
        → lookup
            (receipt_key "" i)
            (receipts_of (after_intent inp caller req e).store.files.state_file)
          ≡ none)
    → (stop_run inp caller req e).0.error ≡ none
    → Exited req.run_id (stop_run inp caller req e).1
      × ((stop_run inp caller req e).1.calls ≡ stop req.run_id ∷ e.calls)
unfolding stop_run
stop_run-exits inp caller req e new h =
    stop_checked-Exited inp caller req (check_stop_run e.has_supervisor req) e new h
