-- ===== src/Transport/Once.antt =====
-- internal/adapters/transport/host.go's serviceSession answers each request, and answers it once, where
-- no call of the operating system fails and the responses of the pass can be read back.
use harnessing.Prelude.{
  String, Bool, true, false, Option, none, some, List, [], ◌∷◌, ◌≡◌, refl, ◌⊎◌, inl, inr, ltb,
  str_eq, arith, All, Bool-cases, ◌∙◌, sym, subst,
}
use harnessing.Mailbox.Tree.{regular}
use harnessing.Host.{FrontendSession}
use harnessing.Transport.{Envelope, Response, detach_operation}
use harnessing.Transport.Files.{json, Folder, max_envelope_bytes, find, is_directory, json_names}
use harnessing.Transport.Session.{CallInput}
use harnessing.Transport.Codec.{Codec}
use harnessing.Transport.Dispatch.{dispatch}
use harnessing.Transport.Serving.{
  Pass, unless_detached, service_request, service_requests, service_session, service_envelope,
}
use harnessing.Transport.Written.{
  find-write_atomic_clean, All-Member, Member-json_names, read_bounded-written,
}
use harnessing.Transport.Pending.{
  IsAnswered, is_answered, request_of, turns, after_answer, service_request-answered,
  service_request-asked, service_requests-answered, after_answer-IsAnswered, after_answer_others,
}

module _ {B : Type 0} (k : Codec B) where
  -- No directory stands where a response is written.
  abbrev pub IsClear : Folder B → Type 0
  IsClear responses = (id : String) → is_directory (find (json id) responses) ≡ false

  -- A request that is answered, or whose file holds no request.
  abbrev pub IsSettled : Pass B → String → Type 0
  IsSettled p id = (IsAnswered k p.dir.responses id) ⊎ (request_of k p.dir.intake id ≡ none)

  -- What a pass may do.
  pub record Advances (p q : Pass B) : Type 0 where
    pub intake : q.dir.intake ≡ p.dir.intake
    pub clear : IsClear q.dir.responses
    pub keeps : (id : String) → IsAnswered k p.dir.responses id → IsAnswered k q.dir.responses id

  Advances-trans : (p q r : Pass B) → Advances p q → Advances q r → Advances p r
  Advances-trans p q r a b = record {
    intake = b.intake ∙ a.intake;
    clear = b.clear;
    keeps = λ id h. b.keeps id (a.keeps id h);
  }

  Advances-IsSettled : (p q : Pass B) (id : String) → Advances p q → IsSettled p id → IsSettled q id
  Advances-IsSettled p q id a (inl h) = inl (a.keeps id h)
  Advances-IsSettled p q id a (inr h) = inr (rw a.intake h)

  -- A response that can be marshalled, and read under the bound of readBounded.
  abbrev Fits : Response B → Type 0
  Fits r = (b : B) × ((k.response.encode r ≡ some b) × (ltb max_envelope_bytes (k.size b) ≡ false))

  went_on :
      (r : Bool × Pass B) (next : Pass B → Bool × Pass B)
      → (unless_detached r next).0 ≡ false
      → (r.0 ≡ false) × (unless_detached r next ≡ next r.1)
  went_on (true, p) next h = cc
  went_on (false, p) next h = (refl, refl)

  settled_request :
      (id : String) (content : B) (env : Envelope B) {intake : Folder B} (q : Pass B)
      → q.dir.intake ≡ intake
      → find (json id) intake ≡ some (regular content)
      → ltb max_envelope_bytes (k.size content) ≡ false
      → k.envelope.decode content ≡ some env
      → IsSettled q id
      → IsAnswered k q.dir.responses id
  settled_request id content env q same asked small decoded (inl h) = h
  settled_request id content env q same asked small decoded (inr h) = absurd (
      ground (
        arith,
        h,
        decoded,
        read_bounded-written k.size id content q.dir.intake (rw same asked) small,
      ))

  module _ (temp : String) (torn : B) (inputs : String → CallInput) (s : FrontendSession) where
    -- The response to the request of an intake file fits, in the workspace that the pass has by
    -- then; an answered request is given none.
    abbrev AnswerFits : String → Bool → Option (Envelope B) → Pass B → Type 0
    AnswerFits id true o p = Unit
    AnswerFits id false none p = Unit
    AnswerFits id false (some env) p = Fits (dispatch k (inputs id) s env p.workspace).0

    -- The responses that a pass over these names gives fit.
    abbrev pub PassFits : List String → Pass B → Type 0
    PassFits [] p = Unit
    PassFits (id ∷ ids) p =
        AnswerFits id (is_answered k p.dir.responses id) (request_of k p.dir.intake id) p
        × PassFits ids (service_request k (turns k temp torn inputs s id) s id p).1

    answer-Advances :
        (id : String) (env : Envelope B) (answer : B) (p : Pass B)
        → IsClear p.dir.responses
        → ltb max_envelope_bytes (k.size answer) ≡ false
        → Advances p (after_answer k temp torn inputs s id env answer p)
          × IsSettled (after_answer k temp torn inputs s id env answer p) id
    answer-Advances id env answer p c fits = (
      record {
        intake = refl;
        clear = λ other. ground (
          arith,
          c other,
          find-write_atomic_clean temp torn id other answer p.dir.responses (c id),
        );
        keeps =
            λ other h. after_answer_others k temp torn inputs s id other env answer p (c id) fits h;
      },
      inl (after_answer-IsAnswered k temp torn inputs s id env answer p (c id) fits),
    )

    envelope-Advances :
        (id : String) (p : Pass B) (o : Option (Envelope B))
        → IsClear p.dir.responses
        → AnswerFits id false o p
        → request_of k p.dir.intake id ≡ o
        → (service_envelope k (turns k temp torn inputs s id) s id o p).0 ≡ false
        → Advances p (service_envelope k (turns k temp torn inputs s id) s id o p).1
          × IsSettled (service_envelope k (turns k temp torn inputs s id) s id o p).1 id
    envelope-Advances id p none c fits e h =
        (record { intake = refl; clear = c; keeps = λ other k'. k' }, inr e)
    envelope-Advances id p (some env) c (answer, (encoded, small)) e h =
        elim (Bool-cases (str_eq env.operation detach_operation)) [
          | inl detaches ↦ absurd (ground (arith, h, detaches))
          | inr stays ↦ rw (stays, encoded) (answer-Advances id env answer p c small)
        ]

    request-Advances :
        (id : String) (p : Pass B)
        → IsClear p.dir.responses
        → AnswerFits id (is_answered k p.dir.responses id) (request_of k p.dir.intake id) p
        → (service_request k (turns k temp torn inputs s id) s id p).0 ≡ false
        → Advances p (service_request k (turns k temp torn inputs s id) s id p).1
          × IsSettled (service_request k (turns k temp torn inputs s id) s id p).1 id
    request-Advances id p c fits h = elim (Bool-cases (is_answered k p.dir.responses id)) [
      | inl answered ↦
          rw (service_request-answered k temp torn inputs s id p answered)
            (record { intake = refl; clear = c; keeps = λ other k'. k' }, inl answered)
      | inr unanswered ↦
          let asked = service_request-asked k temp torn inputs s id p unanswered in
          rw asked (
            envelope-Advances id p (request_of k p.dir.intake id) c (rw unanswered at fits) refl
              (rw asked at h))
    ]

    requests_advance :
        (ids : List String) (p : Pass B)
        → IsClear p.dir.responses
        → PassFits ids p
        → (service_requests k (turns k temp torn inputs s) s ids p).0 ≡ false
        → Advances p (service_requests k (turns k temp torn inputs s) s ids p).1
          × All (IsSettled (service_requests k (turns k temp torn inputs s) s ids p).1) ids
    unfolding service_requests
    requests_advance [] p c fits h =
        (record { intake = refl; clear = c; keeps = λ other k'. k' }, tt)
    requests_advance (id ∷ ids) p c fits h =
        let first = service_request k (turns k temp torn inputs s id) s id p in
        let (stayed, e) = went_on first (service_requests k (turns k temp torn inputs s) s ids) h in
        let (a, settled) = request-Advances id p c fits.0 stayed in
        let (b, others) = requests_advance ids first.1 a.clear fits.1 (rw e at h) in
        let last = (service_requests k (turns k temp torn inputs s) s ids first.1).1 in
        subst (λ r. Advances p r.1 × All (IsSettled r.1) (id ∷ ids)) (sym e)
          (
            Advances-trans p first.1 last a b,
            (Advances-IsSettled first.1 last id b settled, others),
          )

    module _ (p : Pass B) (clear : IsClear p.dir.responses)
        (fits : PassFits (json_names p.dir.intake) p)
        (stayed : (service_session k false (turns k temp torn inputs s) s p).0 ≡ false) where
      -- Where no call of the operating system fails, no directory stands in the way of a response
      -- and each response that the pass gives can be marshalled and is within the bound, one pass
      -- over a session that was not detached leaves a readable response to each request of the
      -- intake that is within the bound and decodes, the attach request left out.
      pub service_session-answers :
          (id : String) (content : B) (env : Envelope B)
          → find (json id) p.dir.intake ≡ some (regular content)
          → ltb max_envelope_bytes (k.size content) ≡ false
          → k.envelope.decode content ≡ some env
          → IsAnswered k
              (service_session k false (turns k temp torn inputs s) s p).1.dir.responses
              id
      unfolding service_session
      service_session-answers id content env asked small decoded =
          let (a, settled) = requests_advance (json_names p.dir.intake) p clear fits stayed in
          let q =
            (service_requests k (turns k temp torn inputs s) s (json_names p.dir.intake) p).1 in
          settled_request id content env q (a.intake) asked small decoded (
            All-Member (IsSettled q) id (json_names p.dir.intake) settled
              (Member-json_names id content p.dir.intake asked))

      -- Where no call of the operating system fails, no directory stands in the way of a response
      -- and each response that the pass gives can be marshalled and is within the bound, such a
      -- pass over a session that was not detached leaves nothing to do: the next pass in which no
      -- call of the operating system fails, of whatever session and whatever the calls of a session
      -- would meet, leaves the folders and the workspace as they were.
      pub service_session-once :
          (temp' : String) (torn' : B) (inputs' : String → CallInput) (s' : FrontendSession)
          → service_session k false
              (turns k temp' torn' inputs' s')
              s'
              (service_session k false (turns k temp torn inputs s) s p).1
            ≡ (false, (service_session k false (turns k temp torn inputs s) s p).1)
      unfolding service_session
      service_session-once temp' torn' inputs' s' =
          let (a, settled) = requests_advance (json_names p.dir.intake) p clear fits stayed in
          rw a.intake (
            service_requests-answered k temp' torn' inputs' s' (json_names p.dir.intake)
              (service_requests k (turns k temp torn inputs s) s (json_names p.dir.intake) p).1
              settled)
