-- ===== src/Examples/Data.antt =====
-- The callers, answers and requests that the examples share.
use harnessing.Prelude.{ℕ, String, true, false, none, [], ◌∷◌}
use harnessing.Domain.Errors.{ok}
use harnessing.Domain.Records.{ExecutionSpec}
use harnessing.Api.{
  CreateTaskRequest, RegisterAgentRequest, ApproveProfileRequest, StartRunRequest, StopRunRequest,
}
use harnessing.Store.{Faults}
use harnessing.Engine.Scope.{CallerScope, Ambient}
use harnessing.Engine.Commit.{Io}
use harnessing.Engine.Runs.Start.{StartInput}
use harnessing.Engine.Runs.Stop.{StopInput}

abbrev pub no_faults : Faults
no_faults = record {
  read = false;
  marshal = false;
  open_tmp = false;
  write = false;
  sync = false;
  close = false;
  rename = false;
  sync_dir = false;
}

abbrev pub io : Io
io = record { floor = no_faults; commit = no_faults }

abbrev pub at : ℕ → String → Ambient
at now id = record { now = now; new_id = ok id }

abbrev pub alice : CallerScope
alice = record { agent_id = "alice"; is_human_reviewer = false }

abbrev pub reviewer : CallerScope
reviewer = record { agent_id = "carol"; is_human_reviewer = true }

abbrev pub registration : RegisterAgentRequest
registration = record {
  request_id = "q1";
  agent_id = "alice";
  display_name = "Alice";
  profile_id = "shell";
}

abbrev pub shell : ExecutionSpec
shell = record {
  profile_id = "shell";
  args = "/bin/sh" ∷ [];
  working_directory = "/tmp";
  environment_refs = [];
  context_transport = "";
}

abbrev pub approval : ApproveProfileRequest
approval = record { request_id = "q2"; profile_id = "shell"; spec = shell }

abbrev pub starting_run : StartRunRequest
starting_run = record {
  request_id = "q3";
  run_id = "r1";
  agent_id = "alice";
  profile_id = "shell";
  task_id = none;
  peer_agent_id = none;
  tool_executable = "";
  tool_argv = [];
}

abbrev pub started : StartInput
started = record {
  intent_io = io;
  intent = at 3 "v3";
  marker_id = ok "m1";
  marker_io = io;
  marker = at 4 "v4";
  started = none;
  outcome_id = ok "m2";
  observation_io = io;
  observation = at 5 "v5";
}

abbrev pub stopping_run : StopRunRequest
stopping_run = record { request_id = "q4"; run_id = "r1"; reason = "done" }

abbrev pub stopped : StopInput
stopped = record {
  intent_io = io;
  intent = at 6 "v6";
  stopped = none;
  outcome_id = ok "m3";
  outcome_io = io;
  outcome = at 7 "v7";
}

abbrev pub first_task : CreateTaskRequest
first_task = record { request_id = "q5"; task_id = "t1"; title = "Write it"; assignee_id = "" }
