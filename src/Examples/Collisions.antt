-- ===== src/Examples/Collisions.antt =====
-- Two tasks that are created under one request identifier.
use harnessing.Prelude.{[], ◌∷◌, ◌≡◌, refl}
use harnessing.Domain.Errors.{ok}
use harnessing.Domain.Records.{Event}
use harnessing.Api.{CreateTaskRequest}
use harnessing.Store.{
  receipt_key, entry_of, empty_snapshot, with_workspace, read_locked, write_locked, persist,
}
use harnessing.Store
use harnessing.Store.Ledger.{ReceiptRecord, lookup, put}
use harnessing.Store.PowerLoss.{Keeps}
use harnessing.Table.{find}
use harnessing.Engine.Scope.{event}
use harnessing.Engine.Commit.{Engine, request_of}
use harnessing.Engine.Commit
use harnessing.Engine.Tasks.{check_create_task, create_task, create_task_mutation, created}
use harnessing.Engine.Colliding.{titled, assigned, payload_of, create_task_confuses}
use harnessing.Engine.Steps.{new_engine}
use harnessing.Examples.Data.{io, at, alice, first_task}

abbrev asked : CreateTaskRequest
asked = titled first_task "Write" "it" ""

abbrev engine : Engine
engine = (create_task io (at 1 "v1") alice asked (new_engine "w")).1

abbrev told : Event
told = record {
  id = "v1";
  kind = "TaskCreated";
  schema_version = 1;
  workspace_revision = 0;
  timestamp = 1;
  subject_ids = "t1" ∷ [];
}

abbrev noted : ReceiptRecord
noted =
    entry_of
      (request_of alice first_task.request_id (payload_of asked)
        (create_task_mutation (at 1 "v1") alice asked))
      (record (with_workspace "w" empty_snapshot) { tasks = created (at 1 "v1") alice asked ∷ [] })
      (told ∷ [])

noted-Keeps :
    Keeps engine.store.files.state_file (receipt_key alice.agent_id first_task.request_id) noted
unfolding create_task create_task_mutation check_create_task Commit.commit Store.commit read_locked
    write_locked persist lookup put find event
noted-Keeps = refl

assigned-checks : check_create_task (assigned first_task "Write" "it" "") ≡ ok tt
unfolding check_create_task
assigned-checks = refl

create_task_confuses_example :
    ((create_task io (at 2 "v2") alice (assigned first_task "Write" "it" "") engine).0
      ≡ ok noted.receipt)
    × ((create_task io
          (at 2 "v2")
          alice
          (assigned first_task "Write" "it" "")
          engine).1.store.files.state_file
        ≡ engine.store.files.state_file)
create_task_confuses_example =
    create_task_confuses io (at 2 "v2") alice first_task "Write" "it" "" engine noted noted-Keeps
      refl assigned-checks refl refl
