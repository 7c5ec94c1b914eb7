-- ===== src/Engine/Agents.antt =====
-- RegisterAgent and UpdateAgent of internal/core/task/engine.go.
use harnessing.Prelude.{
  ℕ, String, Bool, true, false, not, Option, none, some, List, [], ◌∷◌, ◌++◌, set, ◌&&◌,
}
use harnessing.Domain.Errors.{
  Result, ok, fail, ◌>>=◌, ◌>>◌, reject_if, invalid_argument, not_found, conflict, denied,
}
use harnessing.Domain.Records.{Agent, Snapshot, Event, Receipt}
use harnessing.Api.{Pointer, RegisterAgentRequest, UpdateAgentRequest}
use harnessing.Table.{find_agent, is_found}
use harnessing.Text.Fingerprint.{fingerprint, str, pointer}
use harnessing.Engine.Scope.{
  CallerScope, Ambient, claimed_provenance, event, is_empty, can_write_agent_record,
}
use harnessing.Engine.Commit.{Engine, Io, Mutation, commit, checked}

unfoldable pub check_register_agent : CallerScope → RegisterAgentRequest → Result (Unit {0})
check_register_agent caller req = do
  reject_if (is_empty req.agent_id) invalid_argument
  reject_if (is_empty req.display_name) invalid_argument
  reject_if (not (can_write_agent_record caller req.agent_id)) denied

unfoldable pub register_agent_mutation : Ambient → CallerScope → RegisterAgentRequest → Mutation
register_agent_mutation a caller req snap = do
  reject_if (is_found (find_agent req.agent_id snap.agents)) conflict
  ev ← event a "AgentRegistered" (req.agent_id ∷ [])
  ok (
    record snap {
      agents =
          snap.agents
          ++ record {
            id = req.agent_id;
            display_name = req.display_name;
            profile_id = req.profile_id;
            provenance = claimed_provenance caller a.now;
            last_updated_provenance = none;
          }
            ∷ [];
    },
    ev ∷ [],
  )

unfoldable pub register_agent :
    Io → Ambient → CallerScope → RegisterAgentRequest → Engine → Result Receipt × Engine
register_agent io a caller req e = checked (check_register_agent caller req) e (
    commit io caller req.request_id
      (fingerprint
        (str "RegisterAgent" ∷ str req.agent_id ∷ str req.display_name ∷ str req.profile_id ∷ []))
      (register_agent_mutation a caller req) e)

abbrev pub is_set : Option Pointer → Bool
is_set none = false
is_set (some p) = true

abbrev pub points_to_empty : Option Pointer → Bool
points_to_empty none = false
points_to_empty (some p) = is_empty p.target

-- A nil pointer leaves the field.
abbrev pub patched : Option Pointer → String → String
patched none old = old
patched (some p) old = p.target

unfoldable pub check_update_agent : CallerScope → UpdateAgentRequest → Result (Unit {0})
check_update_agent caller req = do
  reject_if (is_empty req.agent_id) invalid_argument
  reject_if (not (is_set req.display_name) && not (is_set req.profile_id)) invalid_argument
  reject_if (points_to_empty req.display_name) invalid_argument
  reject_if (not (can_write_agent_record caller req.agent_id)) denied

abbrev pub update_at :
    Ambient
    → CallerScope
    → UpdateAgentRequest
    → Snapshot
    → Option (ℕ × Agent)
    → Result (Snapshot × List Event)
update_at a caller req snap none = fail not_found
update_at a caller req snap (some (i, agent)) = do
  ev ← event a "AgentUpdated" (req.agent_id ∷ [])
  ok (
    record snap {
      agents = set snap.agents i (record agent {
        display_name = patched req.display_name agent.display_name;
        profile_id = patched req.profile_id agent.profile_id;
        last_updated_provenance = some (claimed_provenance caller a.now);
      });
    },
    ev ∷ [],
  )

unfoldable pub update_agent_mutation : Ambient → CallerScope → UpdateAgentRequest → Mutation
update_agent_mutation a caller req snap =
    update_at a caller req snap (find_agent req.agent_id snap.agents)

unfoldable pub update_agent :
    Io → Ambient → CallerScope → UpdateAgentRequest → Engine → Result Receipt × Engine
update_agent io a caller req e = checked (check_update_agent caller req) e (
    commit io caller req.request_id
      (fingerprint (
        str "UpdateAgent"
        ∷ str req.agent_id
        ∷ pointer req.display_name
        ∷ pointer req.profile_id
        ∷ []))
      (update_agent_mutation a caller req) e)
