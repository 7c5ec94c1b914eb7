-- ===== src/Transport/RoundTrip.antt =====
-- A call of internal/adapters/transport/client.go whose host services the session while the client
-- polls.
use harnessing.Prelude.{
  ℕ, String, false, none, some, [], ◌∷◌, ◌≡◌, refl, ◌⊎◌, inl, inr, ltb, str_eq, eq_iff, arith, ap,
  subst,
}
use harnessing.Domain.Errors.{Result, ok}
use harnessing.Mailbox.Tree.{regular}
use harnessing.Host.{FrontendSession}
use harnessing.Transport.{Envelope, attach_operation}
use harnessing.Transport.Files.{
  json, max_envelope_bytes, find, is_directory, write_atomic, json_names,
}
use harnessing.Host.Opening.{Workspace}
use harnessing.Transport.Session.{Call, Value, CallInput, serve_call}
use harnessing.Transport.Codec.{Codec, operation_text, operation_of-operation_text}
use harnessing.Transport.Dispatch.{decode_call, run_envelope, response_of, dispatch}
use harnessing.Transport.Client.{valid_id, operation, encode_call, round_trip, call}
use harnessing.Transport.Serving.{SessionDir, service_session}
use harnessing.Transport.Written.{
  clean_read, clean_write, write_atomic-clean, find-write_atomic_clean, read_bounded-written,
  AllNames, AllNames-json_names, AllNames-write_atomic, AllNames-map, Member-json_names,
}
use harnessing.Transport.Pending.{IsAnswered, request_of, after_answer}
use harnessing.Transport.Carried.{
  carried, IsFaithful, operation_text-ne-detach, decode_call-operation, serve_call-Carries,
  result_value-response_of, Carries,
}
use harnessing.Transport.Serviced.{
  awaited-written, posted_dir, host_pass, attended, requests-pending, await-waiting, await-answer,
}

module _ {B : Type 0} (k : Codec B) (temp : String) (torn : B) (inputs : String → CallInput)
    (s : FrontendSession) (w : Workspace) where
  module _ (faithful : IsFaithful k) (n : ℕ) (id : String) (c c' : Call) (payload : B)
      (d : SessionDir B) (valid : valid_id id ≡ ok tt)
      (ordinary : str_eq id attach_operation ≡ false) (asks : encode_call k c ≡ some payload)
      (arrives : decode_call k (operation c) (some payload) ≡ some c')
      (free : find (json id) d.intake ≡ none) (fresh : find (json id) d.responses ≡ none)
      (quiet : AllNames (IsAnswered k d.responses) d.intake) where
    abbrev the_envelope : Envelope B
    the_envelope = record { operation = operation_text (operation c); payload = some payload }

    abbrev direct : Result Value × Workspace
    direct = serve_call (inputs id) s c' w

    dispatch-arrives : dispatch k (inputs id) s the_envelope w ≡ (response_of k direct.0, direct.1)
    unfolding dispatch run_envelope
    dispatch-arrives = rw (operation_of-operation_text (operation c)) (rw arrives)

    abbrev the_request : B
    the_request = faithful.envelope.encoded the_envelope

    abbrev the_response : B
    the_response = faithful.response.encoded (response_of k direct.0)

    abbrev asked_dir : SessionDir B
    asked_dir = posted_dir temp torn id the_request d

    abbrev Others : String → Type 0
    Others other = (id ≡ other) ⊎ (IsAnswered k d.responses other)

    unblocked : is_directory (find (json id) d.intake) ≡ false
    unblocked = rw free

    found : find (json id) asked_dir.intake ≡ some (regular the_request)
    found = ground (
      arith,
      find-write_atomic_clean temp torn id id the_request d.intake unblocked,
      eq_iff id id,
    )

    request_of-asked :
        ltb max_envelope_bytes (k.size the_request) ≡ false
        → request_of k asked_dir.intake id ≡ some the_envelope
    request_of-asked small =
        rw (read_bounded-written k.size id the_request asked_dir.intake found small)
          (faithful.envelope.decodes the_envelope)

    host_pass-answers :
        ltb max_envelope_bytes (k.size the_request) ≡ false
        → ltb max_envelope_bytes (k.size the_response) ≡ false
        → host_pass k temp torn inputs s w asked_dir ≡ (
          false,
          after_answer k temp torn inputs s id the_envelope the_response
              (record { dir = asked_dir; workspace = w }),
        )
    unfolding service_session
    host_pass-answers small fits =
        requests-pending k temp torn inputs s w id the_envelope the_response ordinary
          (operation_text-ne-detach (operation c)) fits (json_names asked_dir.intake)
          (record { dir = asked_dir; workspace = w }) fresh (request_of-asked small)
          (rw dispatch-arrives (faithful.response.encodes (response_of k direct.0)))
          (Member-json_names id the_request asked_dir.intake found)
          (AllNames-json_names Others asked_dir.intake (
            AllNames-write_atomic Others temp torn id the_request d.intake unblocked (inl refl)
              (AllNames-map (IsAnswered k d.responses) Others d.intake (λ other h. inr h) quiet)))

    answered_found :
        ltb max_envelope_bytes (k.size the_request) ≡ false
        → ltb max_envelope_bytes (k.size the_response) ≡ false
        → find (json id) (host_pass k temp torn inputs s w asked_dir).1.dir.responses
          ≡ some (regular the_response)
    answered_found small fits = rw (host_pass-answers small fits) (
        ground (
          arith,
          find-write_atomic_clean temp torn id id the_response d.responses (rw fresh),
          eq_iff id id,
        ))

    -- A call of the client through the file transport answers what the decoded call of the session
    -- answers directly, an error that is no domain error as IOFailure and a receipt beside an error
    -- left out, and leaves the workspace as the direct call does; where the request's identifier is
    -- valid, new and not the word attach, its payload is encoded and is decoded to the call,
    -- envelopes, responses and answers are unmarshalled as they were, request and response are
    -- within the bound, the other requests of the session are answered, no call of the operating
    -- system fails, and the host makes its pass behind any number of polls.
    pub call-serve :
        ltb max_envelope_bytes (k.size the_request) ≡ false
        → ltb max_envelope_bytes (k.size the_response) ≡ false
        → ((call k (attended k temp torn inputs s w n id) c d).0 ≡ carried direct.0)
          × ((host_pass k temp torn inputs s w asked_dir).1.workspace ≡ direct.1)
    unfolding call round_trip
    call-serve small fits = (
      rw (asks, valid, faithful.envelope.encodes the_envelope)
          (rw
            (awaited-written k (attended k temp torn inputs s w n id) id d
              (write_atomic (clean_write temp torn) (json id) the_request d.intake)
              (write_atomic-clean temp torn id the_request d.intake unblocked))
            (rw
              (await-waiting k temp torn inputs s w n id d.responses
                ((clean_read, (host_pass k temp torn inputs s w asked_dir).1.dir.responses) ∷ [])
                fresh)
              (rw
                (await-answer k temp torn inputs s w id the_response
                  (host_pass k temp torn inputs s w asked_dir).1.dir.responses
                  (answered_found small fits) fits)
                (rw (faithful.response.decodes (response_of k direct.0)) (
                  result_value-response_of k faithful (operation c) direct.0 (
                    subst (λ o. Carries k faithful o direct.0)
                      (decode_call-operation k (operation c) (some payload) c' arrives)
                      (serve_call-Carries k faithful (inputs id) s c' w))))))),
      rw (host_pass-answers small fits) (ap (λ r. r.1) dispatch-arrives),
    )
