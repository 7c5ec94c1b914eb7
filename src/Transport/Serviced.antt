-- ===== src/Transport/Serviced.antt =====
-- The pass of internal/adapters/transport/host.go that finds one request to answer, and the polls of
-- client.go around it.
use harnessing.Prelude.{
  ℕ, zero, suc, String, Bool, false, none, some, List, [], ◌∷◌, ◌≡◌, refl, ◌⊎◌, inl, inr, ltb,
  str_eq, All, Bool-cases, ap, ◌∙◌, subst,
}
use harnessing.Domain.Errors.{Result, ok, err}
use harnessing.Mailbox.Tree.{regular}
use harnessing.Mailbox.Wire.{Member}
use harnessing.Host.{FrontendSession}
use harnessing.Transport.{Envelope, attach_operation, detach_operation}
use harnessing.Transport.Files.{
  json, Folder, ReadIo, max_envelope_bytes, find, is_directory, write_atomic, read_bounded,
}
use harnessing.Host.Opening.{Workspace}
use harnessing.Transport.Session.{CallInput}
use harnessing.Transport.Codec.{Codec}
use harnessing.Transport.Dispatch.{dispatch}
use harnessing.Transport.Client.{Exchange, answer, await, awaited}
use harnessing.Transport.Serving.{
  SessionDir, Pass, service_envelope, service_request, service_requests, service_session,
}
use harnessing.Transport.Written.{clean_read, clean_write, read_bounded-written}
use harnessing.Transport.Pending.{
  IsAnswered, is_answered, request_of, turns, after_answer, service_request-answered,
  service_request-asked, service_requests-answered, after_answer-IsAnswered, after_answer_others,
}

pub awaited-written :
    {B : Type 0} (k : Codec B) (x : Exchange B) (id : String) (d : SessionDir B)
    (r : Result (Unit {0}) × Folder B)
    → r.0 ≡ ok tt
    → awaited k x id d r
      ≡ (await k id (x.polls (record d { intake = r.1 })), record d { intake = r.1 })
awaited-written k x id d (ok u, intake) h = refl
awaited-written k x id d (err e, intake) h = cc

-- The client's directory behind its request.
abbrev pub posted_dir : {B : Type 0} → String → B → String → B → SessionDir B → SessionDir B
posted_dir temp torn id request d = record d {
  intake = (write_atomic (clean_write temp torn) (json id) request d.intake).1;
}

-- The polls before the host's pass find the responses as they were.
abbrev pub waiting :
    {B : Type 0} → ℕ → Folder B → List (ReadIo × Folder B) → List (ReadIo × Folder B)
waiting zero d polls = polls
waiting (suc n) d polls = (clean_read, d) ∷ waiting n d polls

module _ {B : Type 0} (k : Codec B) (temp : String) (torn : B) (inputs : String → CallInput)
    (s : FrontendSession) (w : Workspace) where
  -- A pass of the host, on the directory that it is given.
  abbrev pub host_pass : SessionDir B → Bool × Pass B
  host_pass d =
      service_session k false (turns k temp torn inputs s) s (record { dir = d; workspace = w })

  -- A client that polls `n` times before the host's pass, and once behind it; its own writes and reads
  -- do not fail either.
  abbrev pub attended : ℕ → String → Exchange B
  attended n id = record {
    new_id = ok id;
    write = clean_write temp torn;
    polls = λ d. waiting n d.responses ((clean_read, (host_pass d).1.dir.responses) ∷ []);
  }

  module _ (id : String) (env : Envelope B) (answered : B)
      (ordinary : str_eq id attach_operation ≡ false)
      (stays : str_eq env.operation detach_operation ≡ false)
      (fits : ltb max_envelope_bytes (k.size answered) ≡ false) where
    is_answered-fresh :
        (p : Pass B)
        → find (json id) p.dir.responses ≡ none
        → is_answered k p.dir.responses id ≡ false
    unfolding read_bounded
    is_answered-fresh p fresh = rw (ordinary, fresh)

    service_request-pending :
        (p : Pass B)
        → find (json id) p.dir.responses ≡ none
        → request_of k p.dir.intake id ≡ some env
        → k.response.encode (dispatch k (inputs id) s env p.workspace).0 ≡ some answered
        → service_request k (turns k temp torn inputs s id) s id p
          ≡ (false, after_answer k temp torn inputs s id env answered p)
    service_request-pending p fresh asked encodes =
        service_request-asked k temp torn inputs s id p (is_answered-fresh p fresh)
        ∙ ap (λ o. service_envelope k (turns k temp torn inputs s id) s id o p) asked
        ∙ rw (stays, encodes)

    clear_response :
        (p : Pass B)
        → find (json id) p.dir.responses ≡ none
        → is_directory (find (json id) p.dir.responses) ≡ false
    clear_response p fresh = rw fresh

    other_answered :
        (other : String) (p : Pass B)
        → find (json id) p.dir.responses ≡ none
        → (id ≡ other) ⊎ (IsAnswered k p.dir.responses other)
        → IsAnswered k (after_answer k temp torn inputs s id env answered p).dir.responses other
    other_answered other p fresh (inl same) =
        subst (IsAnswered k (after_answer k temp torn inputs s id env answered p).dir.responses)
          same
          (after_answer-IsAnswered k temp torn inputs s id env answered p (clear_response p fresh)
            fits)
    other_answered other p fresh (inr old) =
        after_answer_others k temp torn inputs s id other env answered p (clear_response p fresh)
          fits old

    -- A name that is not answered is that of the request, which is further on than one that is.
    pending_one :
        (other : String) (p : Pass B)
        → is_answered k p.dir.responses other ≡ false
        → (id ≡ other) ⊎ (IsAnswered k p.dir.responses other)
        → id ≡ other
    pending_one other p new (inl same) = same
    pending_one other p new (inr old) = cc

    further :
        (other : String) (ids : List String) (p : Pass B)
        → find (json id) p.dir.responses ≡ none
        → IsAnswered k p.dir.responses other
        → Member id (other ∷ ids)
        → Member id ids
    further other ids p fresh old (inl same) =
        cc (is_answered-fresh p fresh, subst (IsAnswered k p.dir.responses) same old)
    further other ids p fresh old (inr m) = m

    -- Behind that request, the others have nothing to answer.
    others-answered :
        (ids : List String) (p : Pass B)
        → find (json id) p.dir.responses ≡ none
        → All (λ other. (id ≡ other) ⊎ (IsAnswered k p.dir.responses other)) ids
        → All
            (λ other.
              (IsAnswered k
                (after_answer k temp torn inputs s id env answered p).dir.responses
                other)
              ⊎ (request_of k (after_answer k temp torn inputs s id env answered p).dir.intake other
                  ≡ none))
            ids
    others-answered [] p fresh h = tt
    others-answered (other ∷ ids) p fresh h =
        (inl (other_answered other p fresh h.0), others-answered ids p fresh h.1)

    -- The one request that a pass has to answer is answered.
    pub requests-pending :
        (ids : List String) (p : Pass B)
        → find (json id) p.dir.responses ≡ none
        → request_of k p.dir.intake id ≡ some env
        → k.response.encode (dispatch k (inputs id) s env p.workspace).0 ≡ some answered
        → Member id ids
        → All (λ other. (id ≡ other) ⊎ (IsAnswered k p.dir.responses other)) ids
        → service_requests k (turns k temp torn inputs s) s ids p
          ≡ (false, after_answer k temp torn inputs s id env answered p)
    unfolding service_requests
    requests-pending [] p fresh asked encodes m h = elim m [ ]
    requests-pending (other ∷ ids) p fresh asked encodes m h =
        elim (Bool-cases (is_answered k p.dir.responses other)) [
          | inl old ↦
              rw (service_request-answered k temp torn inputs s other p old)
                (requests-pending ids p fresh asked encodes (further other ids p fresh old m) h.1)
          | inr new ↦ rw (← pending_one other p new h.0) (
              rw (service_request-pending p fresh asked encodes) (
                service_requests-answered k temp torn inputs s ids
                  (after_answer k temp torn inputs s id env answered p)
                  (others-answered ids p fresh h.1)))
        ]

  pub await-waiting :
      (n : ℕ) (id : String) (d : Folder B) (polls : List (ReadIo × Folder B))
      → find (json id) d ≡ none
      → await k id (waiting n d polls) ≡ await k id polls
  unfolding await read_bounded
  await-waiting zero id d polls fresh = refl
  await-waiting (suc n) id d polls fresh = rw fresh (await-waiting n id d polls fresh)

  pub await-answer :
      (id : String) (b : B) (d : Folder B)
      → find (json id) d ≡ some (regular b)
      → ltb max_envelope_bytes (k.size b) ≡ false
      → await k id ((clean_read, d) ∷ []) ≡ answer k (k.response.decode b)
  unfolding await
  await-answer id b d h fits = rw (read_bounded-written k.size id b d h fits)
