-- ===== src/Transport/Repeats.antt =====
-- A response that internal/adapters/transport cannot read back under its own bound.
use harnessing.Prelude.{
  String, true, false, Option, none, some, ◌≡◌, refl, ltb, str_eq, eq_iff, arith, ap, ◌∙◌,
}
use harnessing.Mailbox.Tree.{regular}
use harnessing.Host.{FrontendSession}
use harnessing.Transport.{Envelope, attach_operation, detach_operation}
use harnessing.Transport.Files.{json, Folder, max_envelope_bytes, find, is_directory, read_bounded}
use harnessing.Transport.Session.{CallInput}
use harnessing.Transport.Codec.{Codec}
use harnessing.Transport.Dispatch.{dispatch}
use harnessing.Transport.Serving.{Turn, Pass, service_envelope, service_request, answer_written}
use harnessing.Transport.Written.{find-write_atomic_clean}
use harnessing.Transport.Pending.{
  is_answered, request_of, turns, after_answer, service_request-asked,
}

module _ {B : Type 0} (k : Codec B) (temp : String) (torn : B) (s : FrontendSession) where
  answer_written_workspace :
      (t : Turn B) (id : String) (answer : Option B) (p : Pass B)
      → (answer_written k t.write id answer p).workspace ≡ p.workspace
  answer_written_workspace t id none p = refl
  answer_written_workspace t id (some b) p = refl

  is_answered-oversized :
      (id : String) (answer : B) (responses : Folder B)
      → str_eq id attach_operation ≡ false
      → find (json id) responses ≡ some (regular answer)
      → ltb max_envelope_bytes (k.size answer) ≡ true
      → is_answered k responses id ≡ false
  unfolding read_bounded
  is_answered-oversized id answer responses ordinary there big = rw (ordinary, there, big)

  module _ (inputs again : String → CallInput) (id : String) (env : Envelope B) (answer : B)
      (p : Pass B) (ordinary : str_eq id attach_operation ≡ false)
      (pending : is_answered k p.dir.responses id ≡ false)
      (clear : is_directory (find (json id) p.dir.responses) ≡ false)
      (asked : request_of k p.dir.intake id ≡ some env)
      (stays : str_eq env.operation detach_operation ≡ false)
      (encodes : k.response.encode (dispatch k (inputs id) s env p.workspace).0 ≡ some answer)
      (big : ltb max_envelope_bytes (k.size answer) ≡ true) where
    abbrev answered : Pass B
    answered = after_answer k temp torn inputs s id env answer p

    still_pending : is_answered k answered.dir.responses id ≡ false
    still_pending =
        is_answered-oversized id answer answered.dir.responses ordinary
          (ground (
            arith,
            find-write_atomic_clean temp torn id id answer p.dir.responses clear,
            eq_iff id id,
          ))
          big

    -- A pending request whose response is above the bound is executed, stays unanswered for the
    -- host, and is executed again in the next pass on the workspace that the first execution left,
    -- where no call of the operating system fails and no directory stands in the way of the
    -- response.
    pub oversized-repeats :
        (service_request k (turns k temp torn inputs s id) s id p ≡ (false, answered))
        × (is_answered k answered.dir.responses id ≡ false)
        × ((service_request k (turns k temp torn again s id) s id answered).1.workspace
            ≡ (dispatch k (again id) s env (dispatch k (inputs id) s env p.workspace).1).1)
    oversized-repeats = (
      service_request-asked k temp torn inputs s id p pending
          ∙ ap (λ o. service_envelope k (turns k temp torn inputs s id) s id o p) asked
          ∙ rw (stays, encodes),
      still_pending,
      ap (λ r. r.1.workspace)
            (service_request-asked k temp torn again s id answered still_pending
              ∙ ap (λ o. service_envelope k (turns k temp torn again s id) s id o answered) asked)
          ∙ rw stays (
              answer_written_workspace (turns k temp torn again s id) id
                (k.response.encode (dispatch k (again id) s env answered.workspace).0)
                (record answered {
                  workspace = (dispatch k (again id) s env answered.workspace).1;
                })),
    )
