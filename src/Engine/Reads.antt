-- ===== src/Engine/Reads.antt =====
-- The reads of internal/core/task/engine.go. Copies of a value are the value here, so cloneSnapshot
-- is the identity.
use harnessing.Prelude.{ℕ, String, Option, none, some, if◌then◌else◌}
use harnessing.Domain.Errors.{Result, ok, err, fail, not_found, ◌>>=◌}
use harnessing.Domain.Records.{Snapshot, Task, Agent, Message, Run, Operation, Receipt}
use harnessing.Table.{find_task, find_agent, find_message, find_run, find_operation}
use harnessing.Store.{Faults, load}
use harnessing.Store
use harnessing.Events.{ensure_floor, subscribe as bus_subscribe}
use harnessing.Text.Decimal.{format_uint}
use harnessing.Engine.Scope.{is_empty}
use harnessing.Engine.Commit.{Engine, current_revision}

abbrev pub found_record : {A : Type 0} → Option (ℕ × A) → Result A
found_record none = fail not_found
found_record (some (i, x)) = ok x

unfoldable pub get_task : Faults → String → Engine → Result Task
get_task f id e = load f e.workspace_id e.store >>= λ snap. found_record (find_task id snap.tasks)

unfoldable pub get_agent : Faults → String → Engine → Result Agent
get_agent f id e =
    load f e.workspace_id e.store >>= λ snap. found_record (find_agent id snap.agents)

unfoldable pub get_message : Faults → String → Engine → Result Message
get_message f id e =
    load f e.workspace_id e.store >>= λ snap. found_record (find_message id snap.messages)

unfoldable pub get_run : Faults → String → Engine → Result Run
get_run f id e = load f e.workspace_id e.store >>= λ snap. found_record (find_run id snap.runs)

unfoldable pub get_operation : Faults → String → Engine → Result Operation
get_operation f id e =
    load f e.workspace_id e.store >>= λ snap. found_record (find_operation id snap.operations)

abbrev pub with_defaults : String → Snapshot → Snapshot
with_defaults workspace snap = record snap {
  workspace_id = if is_empty snap.workspace_id then workspace else snap.workspace_id;
  cursor = if is_empty snap.cursor then format_uint snap.revision else snap.cursor;
}

unfoldable pub get_snapshot : Faults → Engine → Result Snapshot
get_snapshot f e = load f e.workspace_id e.store >>= λ snap. ok (with_defaults e.workspace_id snap)

unfoldable pub resolve_request : Faults → String → String → Engine → Result Receipt × Engine
resolve_request f caller request e =
    let (answer, store) = Store.resolve_request f e.workspace_id caller request e.store in
    (answer, record e { store = store })

abbrev pub subscribe_floored : String → Result (Unit {0}) → Engine → Result ℕ × Engine
subscribe_floored cursor (err x) e = (err x, e)
subscribe_floored cursor (ok _) e =
    let (answer, bus) = bus_subscribe cursor e.events in (answer, record e { events = bus })

unfoldable pub subscribe : Faults → String → Engine → Result ℕ × Engine
subscribe f cursor e =
    let (floored, bus) = ensure_floor (current_revision f e) e.events in
    subscribe_floored cursor floored (record e { events = bus })
