-- ===== src/Engine/Colliding.antt =====
-- The fingerprint of CreateTask in internal/core/task/engine.go, which prints the title and the
-- assignee with a blank between them.
use Prim.Native.String.{◌++◌}
use harnessing.Prelude.{String, false, List, [], ◌∷◌, ◌≡◌, refl}
use harnessing.Domain.Errors.{Result, ok, err}
use harnessing.Domain.Records.{Receipt, Event}
use harnessing.Api.{CreateTaskRequest}
use harnessing.Text.Fingerprint.{fingerprint, str, fingerprint-blank}
use harnessing.Store.{FileStore, receipt_key}
use harnessing.Store
use harnessing.Store.Ledger.{ReceiptRecord}
use harnessing.Store.PowerLoss.{Keeps}
use harnessing.Store.Replay.{run, replay_after}
use harnessing.Engine.Scope.{CallerScope, Ambient}
use harnessing.Engine.Commit.{Engine, Io, commit, finish, request_of, with_floor}
use harnessing.Engine.Tasks.{check_create_task, create_task, create_task_mutation}

-- The words at the end of a title, and at the front of an assignee.
abbrev pub titled : CreateTaskRequest → String → String → String → CreateTaskRequest
titled req s t u = record req { title = s ++ (" " ++ t); assignee_id = u }

abbrev pub assigned : CreateTaskRequest → String → String → String → CreateTaskRequest
assigned req s t u = record req { title = s; assignee_id = t ++ (" " ++ u) }

abbrev pub payload_of : CreateTaskRequest → String
payload_of req =
    fingerprint (str "CreateTask" ∷ str req.task_id ∷ str req.title ∷ str req.assignee_id ∷ [])

finish_ok :
    (e : Engine) (c : Result (Receipt × List Event) × FileStore) (receipt : Receipt)
    (evs : List Event)
    → c.0 ≡ ok (receipt, evs)
    → ((finish e c).0 ≡ ok receipt) × ((finish e c).1.store ≡ c.1)
finish_ok e (err x, s) receipt evs h = absurd (cc)
finish_ok e (ok (r, v), s) receipt evs h = (cc, refl)

-- Where the ledger records a CreateTask whose title ends with a blank and some words, a CreateTask
-- of the same caller under the same request identifier with those words at the front of the
-- assignee instead is answered with the recorded receipt, and leaves the state file as it was,
-- provided that it passes the checks before the commit, that the file can be read and that the
-- directory can be synced.
pub create_task_confuses :
    (io : Io) (a : Ambient) (caller : CallerScope) (req : CreateTaskRequest) (s t u : String)
    (e : Engine) (r : ReceiptRecord)
    → Keeps e.store.files.state_file (receipt_key caller.agent_id req.request_id) r
    → r.payload_fingerprint ≡ payload_of (titled req s t u)
    → check_create_task (assigned req s t u) ≡ ok tt
    → io.commit.read ≡ false
    → io.commit.sync_dir ≡ false
    → ((create_task io a caller (assigned req s t u) e).0 ≡ ok r.receipt)
      × ((create_task io a caller (assigned req s t u) e).1.store.files.state_file
          ≡ e.store.files.state_file)
unfolding create_task commit run
create_task_confuses io a caller req s t u e r kept same checks read sync =
    let q =
      request_of caller req.request_id (payload_of (assigned req s t u))
        (create_task_mutation a caller (assigned req s t u)) in
    let both =
      replay_after e.workspace_id [] e.store io.commit q r kept
        (rw (← fingerprint-blank "CreateTask" req.task_id s t u) same) read sync in
    let (answered, left) =
      finish_ok (with_floor io e) (Store.commit io.commit e.workspace_id q e.store) r.receipt
        r.events both.0 in
    rw checks (answered, rw left both.1)
