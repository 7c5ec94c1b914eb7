-- ===== src/Table.antt =====
-- The linear searches findTask, findAgent, findResult, findMessage, findProfile, findRun and
-- findOperation of internal/core/task/engine.go: the first record with the identifier, and where
-- it stands. A record is changed by a write at that position.
pub mod Laws
use harnessing.Prelude.{
  ℕ, suc, String, Bool, true, false, Option, none, some, List, [], ◌∷◌, ◌≡◌, str_eq, if◌then◌else◌,
}
use harnessing.Domain.Records.{Agent, Task, TaskResult, Message, Profile, Run, Operation}

module _ {A : Type 0} where
  abbrev pub next : Option (ℕ × A) → Option (ℕ × A)
  next none = none
  next (some (i, x)) = some (suc i, x)

  unfoldable pub find : (A → String) → String → List A → Option (ℕ × A)
  find key k [] = none
  find key k (x ∷ xs) =
      let rest = find key k xs in if str_eq (key x) k then some (0, x) else next rest

  abbrev pub is_found : Option (ℕ × A) → Bool
  is_found none = false
  is_found (some p) = true

  abbrev pub record_of : Option (ℕ × A) → Option A
  record_of none = none
  record_of (some (i, x)) = some x

  -- The table as a map from identifiers, where positions are forgotten.
  abbrev pub entry : (A → String) → String → List A → Option A
  entry key k xs = record_of (find key k xs)

abbrev pub agent_id : Agent → String
agent_id a = a.id

abbrev pub task_id : Task → String
task_id t = t.id

abbrev pub result_id : TaskResult → String
result_id r = r.result_id

abbrev pub message_id : Message → String
message_id m = m.message_id

abbrev pub profile_id : Profile → String
profile_id p = p.profile_id

abbrev pub run_id : Run → String
run_id r = r.id

abbrev pub operation_id : Operation → String
operation_id o = o.id

abbrev pub find_agent : String → List Agent → Option (ℕ × Agent)
find_agent = find agent_id

abbrev pub find_task : String → List Task → Option (ℕ × Task)
find_task = find task_id

abbrev pub find_result : String → List TaskResult → Option (ℕ × TaskResult)
find_result = find result_id

abbrev pub find_message : String → List Message → Option (ℕ × Message)
find_message = find message_id

abbrev pub find_profile : String → List Profile → Option (ℕ × Profile)
find_profile = find profile_id

abbrev pub find_run : String → List Run → Option (ℕ × Run)
find_run = find run_id

abbrev pub find_operation : String → List Operation → Option (ℕ × Operation)
find_operation = find operation_id
