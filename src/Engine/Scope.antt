-- ===== src/Engine/Scope.antt =====
-- internal/core/task/engine.go: who calls, and the parts that the commands' Mutate functions share.
-- A Mutate reads the clock at most once and draws at most one event identifier; an `Ambient` holds
-- what the two answer.
use harnessing.Prelude.{ℕ, ◌+◌, ◌%◌, String, Bool, Option, List, ◌||◌, str_eq}
use harnessing.Domain.Errors.{Result, ok, ◌>>=◌}
use harnessing.Domain.Records.{
  TaskStatus, Provenance, StatusChange, Event, command, unverified, no_mechanism, no_verification,
}
use harnessing.Text.Decimal.{u64_mod}

pub record CallerScope : Type 0 where
  pub agent_id : String
  pub is_human_reviewer : Bool

pub record Ambient : Type 0 where
  pub now : ℕ
  pub new_id : Result String

abbrev pub is_empty : String → Bool
is_empty s = str_eq s ""

-- The zero value of the record.
abbrev pub no_provenance : Provenance
no_provenance = record {
  claimed_agent_id = "";
  entry_mechanism = no_mechanism;
  recorded_at = 0;
  identity_verification = no_verification;
}

-- `x++` on a uint64
abbrev pub increment : ℕ → ℕ
increment n = (n + 1) % u64_mod

unfoldable pub claimed_provenance : CallerScope → ℕ → Provenance
claimed_provenance caller now = record {
  claimed_agent_id = caller.agent_id;
  entry_mechanism = command;
  recorded_at = now;
  identity_verification = unverified;
}

unfoldable pub status_change : CallerScope → ℕ → ℕ → Option TaskStatus → TaskStatus → StatusChange
status_change caller now revision from to = record {
  task_revision = revision;
  from_status = from;
  to_status = to;
  provenance = claimed_provenance caller now;
}

unfoldable pub event : Ambient → String → List String → Result Event
event a kind subjects = do
  id ← a.new_id
  ok (record {
    id = id;
    kind = kind;
    schema_version = 1;
    workspace_revision = 0;
    timestamp = a.now;
    subject_ids = subjects;
  })

unfoldable pub can_write_agent_record : CallerScope → String → Bool
can_write_agent_record caller target = caller.is_human_reviewer || str_eq caller.agent_id target
