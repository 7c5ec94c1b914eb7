-- ===== src/Examples/Runs.antt =====
-- One run is started, stopped and reconciled.
use harnessing.Prelude.{◌≤◌, String, none, [], ◌≡◌, refl}
use harnessing.Domain.Errors.{ok}
use harnessing.Engine.Tasks.{check_create_task, create_task_mutation}
use harnessing.Store.{receipt_key, Files}
use harnessing.Store
use harnessing.Store.Ledger.{lookup}
use harnessing.Store.PowerLoss.{receipts_of}
use harnessing.Store.Effects.{Holds}
use harnessing.Engine.Scope.{can_write_agent_record, event}
use harnessing.Table.{find}
use harnessing.Engine.Runs.{find_active_run_for_agent}
use harnessing.Engine.Commit.{Engine, commit}
use harnessing.Engine.Agents.{check_register_agent, register_agent_mutation}
use harnessing.Engine.Profiles.{check_approve_profile, approve_profile_mutation}
use harnessing.Engine.Runs.Start.{commit_intent, start_run, start_intent_mutation}
use harnessing.Engine.Mutations.{registration, approval, creation}
use harnessing.Engine.Steps.{Steps, new_engine, one, committed}
use harnessing.Engine.Consistency.{IsConsistent}
use harnessing.Engine.Reachable.{reachable-IsConsistent}
use harnessing.Engine.System.{System, SystemSteps, new_system, starts}
use harnessing.Engine.Dispatch.{start_at_most_once}
use harnessing.Engine.Starting
use harnessing.Engine.Starting.{committing, start_run-SystemSteps}
use harnessing.Examples.Data
use harnessing.Examples.Data.{
  io, at, alice, reviewer, starting_run, started, stopping_run, stopped, no_faults,
}

abbrev registered : Engine
registered =
    (commit io alice "q1" "f1" (register_agent_mutation (at 1 "v1") alice Data.registration)
      (new_engine "w")).1

abbrev approved : Engine
approved =
    (commit io reviewer "q2" "f2" (approve_profile_mutation (at 2 "v2") reviewer Data.approval)
      registered).1

abbrev launched : System
launched = record { engine = (start_run started alice starting_run approved).1; marked = [] }

m1_free :
    lookup
      (receipt_key "" "m1")
      (receipts_of (commit_intent started alice starting_run approved).1.store.files.state_file)
    ≡ none
unfolding commit Store.commit lookup Store.Ledger.put Store.read_locked Store.write_locked
    Store.persist register_agent_mutation approve_profile_mutation start_intent_mutation find event
    find_active_run_for_agent
m1_free = refl

marker_free :
    (i : String)
    → started.marker_id ≡ ok i
    → lookup
        (receipt_key "" i)
        (receipts_of (commit_intent started alice starting_run approved).1.store.files.state_file)
      ≡ none
marker_free i h = let e : i ≡ "m1" = cc in rw e m1_free

launching_it : SystemSteps (new_system "w") launched
unfolding check_register_agent check_approve_profile can_write_agent_record
launching_it =
    Starting.join
      (Starting.join
        (committing [] io alice "q1" "f1" _ (new_engine "w")
          (registration (at 1 "v1") alice Data.registration refl))
        (committing [] io reviewer "q2" "f2" _ registered
          (approval (at 2 "v2") reviewer Data.approval refl)))
      (start_run-SystemSteps started alice starting_run [] approved marker_free)

start_at_most_once_example : starts "r1" launched.engine.calls ≤ 1
start_at_most_once_example = start_at_most_once "w" launched launching_it "r1"

start_run-SystemSteps_example : SystemSteps (record { engine = approved; marked = [] }) launched
start_run-SystemSteps_example =
    start_run-SystemSteps started alice starting_run [] approved marker_free

abbrev created : Engine
created =
    (commit io alice "q5" "f5" (create_task_mutation (at 1 "v1") alice Data.first_task)
      (new_engine "w")).1

creating_it : Steps (new_engine "w") created
unfolding check_create_task
creating_it =
    one (committed io alice "q5" "f5" _ (creation (at 1 "v1") alice Data.first_task refl) refl)

reachable-IsConsistent_example :
    Holds IsConsistent created.store.files.state_file
    × Holds IsConsistent created.store.files.synced
reachable-IsConsistent_example = reachable-IsConsistent "w" created creating_it
