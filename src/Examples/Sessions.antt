-- ===== src/Examples/Sessions.antt =====
-- Sessions of an agent and of a reviewer.
use harnessing.Prelude.{String, ◌≡◌, ◌≢◌, refl, str_eq}
use harnessing.Api.{AcceptTaskResultRequest}
use harnessing.Engine.Steps.{new_engine}
use harnessing.Host.{registering, accepting, commanding, CommandInput, FrontendSession, execute}
use harnessing.Host.Authority.{execute-unauthorised}
use harnessing.Host.Isolation.{SameReceipt, execute_others}
use harnessing.Engine.Commit.{Engine}
use harnessing.Examples.Data.{io, at, registration, started, stopped}

abbrev input : CommandInput
input = record { io = io; ambient = at 1 "v1"; start_input = started; stop_input = stopped }

abbrev session : String → FrontendSession
session principal = record { reviewers = λ agent. str_eq agent "carol"; principal = principal }

abbrev acceptance : AcceptTaskResultRequest
acceptance = record {
  request_id = "q7";
  task_id = "t1";
  result_id = "d1";
  expected_task_revision = 3;
  review_note = "";
}

execute-unauthorised_example :
    (execute input (session "alice") (commanding (accepting acceptance)) (new_engine "w")).1
    ≡ new_engine "w"
execute-unauthorised_example =
    execute-unauthorised input (session "alice") (commanding (accepting acceptance))
      (new_engine "w") refl refl

abbrev registered : Engine
registered =
    (execute input (session "alice") (commanding (registering registration)) (new_engine "w")).1

alice≢bob : ◌≢◌ {A = String} "alice" "bob"
alice≢bob e = absurd (cc)

alice≢nobody : ◌≢◌ {A = String} "alice" ""
alice≢nobody e = absurd (cc)

-- Another agent uses the same request identifier.
execute_others_example :
    SameReceipt "alice" "q1" registered
      (execute input (session "bob") (commanding (registering registration)) registered).1
execute_others_example =
    execute_others "alice" "q1" refl alice≢nobody input (session "bob")
      (commanding (registering registration)) registered refl alice≢bob
