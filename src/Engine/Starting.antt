-- ===== src/Engine/Starting.antt =====
-- StartRun of internal/core/task/engine.go within the system of Engine/Dispatch: it calls Start
-- only behind its own marker.
use harnessing.Prelude.{String, none, List, [], ◌∷◌, ◌≡◌, refl, ap, subst}
use harnessing.Domain.Errors.{Result, ok, err}
use harnessing.Domain.Records.{Receipt, ExecutionSpec}
use harnessing.Api.{StartRunRequest}
use harnessing.Store.{receipt_key}
use harnessing.Store.Ledger.{lookup}
use harnessing.Store.PowerLoss.{receipts_of}
use harnessing.Text.Fingerprint.{fingerprint, str}
use harnessing.Engine.Scope.{CallerScope}
use harnessing.Engine.Commit.{Engine, Io, Mutation, commit}
use harnessing.Engine.Messages.{host_scope}
use harnessing.Engine.Mutations
use harnessing.Engine.Mutations.{IsMutation}
use harnessing.Engine.Runs.Start.{
  StartInput, check_start_run, start_marker_mutation, finish_start, observe, dispatch, mark, intend,
  commit_intent, start_checked, start_run, participation,
}
use harnessing.Engine.Steps.{committed}
use harnessing.Engine.System.{System, SystemSteps, at_start, next, engine_step, marking, launching}
use harnessing.Engine.Outcome.{calls-commit}

abbrev sys : Engine → List String → System
sys e marked = record { engine = e; marked = marked }

pub join : {a b c : System} → SystemSteps a b → SystemSteps b c → SystemSteps a c
join p at_start = p
join p (next q s) = next (join p q) s

pub committing :
    (marked : List String) (io : Io) (caller : CallerScope) (request fingerprint : String)
    (m : Mutation) (e : Engine)
    → IsMutation m
    → SystemSteps (sys e marked) (sys (commit io caller request fingerprint m e).1 marked)
committing marked io caller request fingerprint m e im = next at_start (
    engine_step (committed io caller request fingerprint m im refl)
      (calls-commit io caller request fingerprint m e))

module _ (inp : StartInput) (req : StartRunRequest) (receipt : Receipt) (marked : List String) where
  finish_start-System :
      (r : Result Receipt × Engine)
      → SystemSteps (sys r.1 marked) (sys (finish_start inp.started receipt r).1 marked)
  finish_start-System (err x, e) = at_start
  finish_start-System (ok _, e) = at_start

  observe-System :
      (id : Result String) (e : Engine)
      → SystemSteps (sys e marked) (sys (observe inp req receipt id e).1 marked)
  observe-System (err x) e = at_start
  observe-System (ok id) e =
      join
        (committing marked inp.observation_io host_scope id _ _ e
          (Mutations.start_observation inp.observation req inp.started))
        (finish_start-System _)

  abbrev commit_marker : String → Engine → Result Receipt × Engine
  commit_marker id e =
      commit inp.marker_io host_scope id (fingerprint (str "StartRunMarker" ∷ str req.run_id ∷ []))
        (start_marker_mutation inp.marker req) e

  dispatch-System :
      (id : String) (e : Engine) (spec : ExecutionSpec) (r : Result Receipt × Engine)
      → lookup (receipt_key "" id) (receipts_of e.store.files.state_file) ≡ none
      → commit_marker id e ≡ r
      → SystemSteps (sys e marked) (sys (dispatch inp req receipt spec r).1 marked)
  dispatch-System id e spec (err x, e') new p =
      subst (λ r. SystemSteps (sys e marked) (sys r.1 marked)) p
        (committing marked inp.marker_io host_scope id _ _ e
          (Mutations.start_marker inp.marker req))
  dispatch-System id e spec (ok done, e') new p =
      join
        (next
          (subst (λ r. SystemSteps (sys e marked) (sys r.1 (req.run_id ∷ marked))) p
            (next at_start (marking inp.marker_io inp.marker req id _ done new (ap (λ r. r.0) p))))
          (launching [] marked req.run_id spec (participation e' req) refl))
        (observe-System inp.outcome_id _)

  mark-System :
      (id : Result String) (e : Engine)
      → ((i : String)
          → id ≡ ok i
          → lookup (receipt_key "" i) (receipts_of e.store.files.state_file) ≡ none)
      → SystemSteps (sys e marked) (sys (mark inp req receipt id e).1 marked)
  mark-System (err x) e new = at_start
  mark-System (ok id) e new = dispatch-System id e _ (commit_marker id e) (new id refl) refl

module _ (inp : StartInput) (caller : CallerScope) (req : StartRunRequest)
    (marked : List String) where
  -- The identifier of the marker's commit is new to the ledger that the intent left.
  abbrev pub IsNewMarker : Engine → Type 0
  IsNewMarker e =
      (i : String)
      → inp.marker_id ≡ ok i
      → lookup (receipt_key "" i) (receipts_of e.store.files.state_file) ≡ none

  intend-System :
      (r : Result Receipt × Engine)
      → IsNewMarker r.1
      → SystemSteps (sys r.1 marked) (sys (intend inp req r).1 marked)
  intend-System (err x, e) new = at_start
  intend-System (ok receipt, e) new = mark-System inp req _ marked inp.marker_id e new

  start_checked-System :
      (e : Engine) (check : Result (Unit {0}))
      → check_start_run e.has_supervisor caller req ≡ check
      → IsNewMarker (commit_intent inp caller req e).1
      → SystemSteps (sys e marked) (sys (start_checked inp caller req check e).1 marked)
  start_checked-System e (err x) c new = at_start
  start_checked-System e (ok tt) c new =
      join
        (committing marked inp.intent_io caller req.request_id _ _ e
          (Mutations.start_intent inp.intent e.has_supervisor caller req c))
        (intend-System _ new)

-- StartRun is a sequence of steps of the system in which Start is called only behind a committed
-- marker, whatever fails on the way, if the identifier that it draws for the marker's commit is not
-- in the ledger that its intent left.
pub start_run-SystemSteps :
    (inp : StartInput) (caller : CallerScope) (req : StartRunRequest) (marked : List String)
    (e : Engine)
    → ((i : String)
        → inp.marker_id ≡ ok i
        → lookup
            (receipt_key "" i)
            (receipts_of (commit_intent inp caller req e).1.store.files.state_file)
          ≡ none)
    → SystemSteps
        (record { engine = e; marked = marked })
        (record { engine = (start_run inp caller req e).1; marked = marked })
unfolding start_run
start_run-SystemSteps inp caller req marked e new =
    start_checked-System inp caller req marked e _ refl new
