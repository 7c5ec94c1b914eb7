-- ===== src/Engine/Profiles.antt =====
-- ApproveProfile of internal/core/task/engine.go.
use harnessing.Prelude.{String, Bool, true, false, not, List, [], ◌∷◌, ◌++◌}
use harnessing.Domain.Errors.{
  Result, ok, ◌>>=◌, ◌>>◌, reject_if, invalid_argument, conflict, denied,
}
use harnessing.Domain.Records.{Receipt}
use harnessing.Api.{ApproveProfileRequest}
use harnessing.Table.{find_profile, is_found}
use harnessing.Text.Fingerprint.{fingerprint, str, struct}
use harnessing.Engine.Scope.{CallerScope, Ambient, claimed_provenance, event, is_empty}
use harnessing.Engine.Commit.{Engine, Io, Mutation, commit, checked}

abbrev pub no_args : List String → Bool
no_args [] = true
no_args _ = false

unfoldable pub check_approve_profile : CallerScope → ApproveProfileRequest → Result (Unit {0})
check_approve_profile caller req = do
  reject_if (not caller.is_human_reviewer) denied
  reject_if (is_empty req.profile_id) invalid_argument
  reject_if (no_args req.spec.args) invalid_argument

unfoldable pub approve_profile_mutation : Ambient → CallerScope → ApproveProfileRequest → Mutation
approve_profile_mutation a caller req snap = do
  reject_if (is_found (find_profile req.profile_id snap.profiles)) conflict
  ev ← event a "ProfileApproved" (req.profile_id ∷ [])
  ok (
    record snap {
      profiles =
          snap.profiles
          ++ record {
            profile_id = req.profile_id;
            spec = record (req.spec) { profile_id = req.profile_id };
            provenance = claimed_provenance caller a.now;
          }
            ∷ [];
    },
    ev ∷ [],
  )

unfoldable pub approve_profile :
    Io → Ambient → CallerScope → ApproveProfileRequest → Engine → Result Receipt × Engine
approve_profile io a caller req e = checked (check_approve_profile caller req) e (
    commit io caller req.request_id
      (fingerprint (str "ApproveProfile" ∷ str req.profile_id ∷ struct req.spec ∷ []))
      (approve_profile_mutation a caller req) e)
