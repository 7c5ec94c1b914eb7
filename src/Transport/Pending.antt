-- ===== src/Transport/Pending.antt =====
-- One pass of internal/adapters/transport/host.go's serviceSession in which no call of the operating
-- system fails, request by request.
use harnessing.Prelude.{
  String, Bool, true, false, Option, none, some, List, [], ◌∷◌, ◌≡◌, refl, ◌⊎◌, inl, inr, ltb,
  str_eq, eq_iff, arith, All, Bool-cases, ◌||◌, ap, ◌∙◌,
}
use harnessing.Domain.Errors.{Result, ok, err}
use harnessing.Mailbox.Tree.{regular}
use harnessing.Host.{FrontendSession}
use harnessing.Transport.{Envelope, attach_operation}
use harnessing.Transport.Files.{json, Folder, max_envelope_bytes, find, is_directory, read_bounded}
use harnessing.Transport.Session.{CallInput}
use harnessing.Transport.Codec.{Codec}
use harnessing.Transport.Dispatch.{dispatch}
use harnessing.Transport.Serving.{
  Turn, Pass, is_read, written, service_read, service_envelope, service_request, service_requests,
}
use harnessing.Transport.Written.{
  clean_read, clean_write, find-write_atomic_clean, read_bounded-written,
}

abbrev pub clean_turn : {B : Type 0} → String → B → CallInput → Turn B
clean_turn temp torn i = record {
  read_response = clean_read;
  read_request = clean_read;
  write = clean_write temp torn;
  call = i;
}

module _ {B : Type 0} (k : Codec B) where
  abbrev pub is_answered : Folder B → String → Bool
  is_answered responses id =
      str_eq id attach_operation || is_read (read_bounded k.size clean_read (json id) responses)

  -- A request that a pass leaves alone: the attach request, or one with a readable response.
  abbrev pub IsAnswered : Folder B → String → Type 0
  IsAnswered responses id = is_answered responses id ≡ true

  abbrev pub decoded_request : Result (Option B) → Option (Envelope B)
  decoded_request (ok (some b)) = k.envelope.decode b
  decoded_request _ = none

  -- The envelope that a pass reads of a request's file, if any.
  abbrev pub request_of : Folder B → String → Option (Envelope B)
  request_of intake id = decoded_request (read_bounded k.size clean_read (json id) intake)

  find-IsAnswered :
      (id : String) (b : B) (responses : Folder B)
      → find (json id) responses ≡ some (regular b)
      → ltb max_envelope_bytes (k.size b) ≡ false
      → IsAnswered responses id
  find-IsAnswered id b responses h fits =
      ground (arith, read_bounded-written k.size id b responses h fits)

  same-IsAnswered :
      (id : String) (d e : Folder B)
      → find (json id) d ≡ find (json id) e
      → IsAnswered e id
      → IsAnswered d id
  unfolding read_bounded
  same-IsAnswered id d e same h = rw same h

  module _ (temp : String) (torn : B) (inputs : String → CallInput) (s : FrontendSession) where
    abbrev pub turns : String → Turn B
    turns id = clean_turn temp torn (inputs id)

    -- The pass behind an answered request.
    abbrev pub after_answer : String → Envelope B → B → Pass B → Pass B
    after_answer id env answer p = record p {
      dir = written (clean_write temp torn) id answer p.dir;
      workspace = (dispatch k (inputs id) s env p.workspace).1;
    }

    service_read-request :
        (id : String) (r : Result (Option B)) (p : Pass B)
        → service_read k (turns id) s id r p
          ≡ service_envelope k (turns id) s id (decoded_request r) p
    service_read-request id (ok (some b)) p = refl
    service_read-request id (ok none) p = refl
    service_read-request id (err x) p = refl

    pub service_request-answered :
        (id : String) (p : Pass B)
        → IsAnswered p.dir.responses id
        → service_request k (turns id) s id p ≡ (false, p)
    unfolding service_request
    service_request-answered id p h = ground (arith, h)

    pub service_request-asked :
        (id : String) (p : Pass B)
        → is_answered p.dir.responses id ≡ false
        → service_request k (turns id) s id p
          ≡ service_envelope k (turns id) s id (request_of p.dir.intake id) p
    unfolding service_request
    service_request-asked id p h = ground (
      arith,
      h,
      service_read-request id (read_bounded k.size clean_read (json id) p.dir.intake) p,
    )

    service_request-left :
        (id : String) (p : Pass B)
        → (is_answered p.dir.responses id ≡ true) ⊎ (is_answered p.dir.responses id ≡ false)
        → (IsAnswered p.dir.responses id) ⊎ (request_of p.dir.intake id ≡ none)
        → service_request k (turns id) s id p ≡ (false, p)
    service_request-left id p (inl yes_answered) h = service_request-answered id p yes_answered
    service_request-left id p (inr unanswered) (inl answered) =
        service_request-answered id p answered
    service_request-left id p (inr unanswered) (inr absent) =
        service_request-asked id p unanswered
        ∙ ap (λ o. service_envelope k (turns id) s id o p) absent

    -- A pass that has nothing to answer.
    pub service_requests-answered :
        (ids : List String) (p : Pass B)
        → All (λ id. (IsAnswered p.dir.responses id) ⊎ (request_of p.dir.intake id ≡ none)) ids
        → service_requests k turns s ids p ≡ (false, p)
    unfolding service_requests
    service_requests-answered [] p h = refl
    service_requests-answered (id ∷ ids) p h =
        rw (service_request-left id p (Bool-cases (is_answered p.dir.responses id)) h.0)
          (service_requests-answered ids p h.1)

    -- What an answer leaves.
    pub after_answer-IsAnswered :
        (id : String) (env : Envelope B) (answer : B) (p : Pass B)
        → is_directory (find (json id) p.dir.responses) ≡ false
        → ltb max_envelope_bytes (k.size answer) ≡ false
        → IsAnswered (after_answer id env answer p).dir.responses id
    after_answer-IsAnswered id env answer p clear fits =
        find-IsAnswered id answer (after_answer id env answer p).dir.responses
          (ground (
            arith,
            find-write_atomic_clean temp torn id id answer p.dir.responses clear,
            eq_iff id id,
          ))
          fits

    pub after_answer_others :
        (id other : String) (env : Envelope B) (answer : B) (p : Pass B)
        → is_directory (find (json id) p.dir.responses) ≡ false
        → ltb max_envelope_bytes (k.size answer) ≡ false
        → IsAnswered p.dir.responses other
        → IsAnswered (after_answer id env answer p).dir.responses other
    after_answer_others id other env answer p clear fits h = elim (Bool-cases (str_eq id other)) [
      | inl same ↦
          find-IsAnswered other answer (after_answer id env answer p).dir.responses
            (ground (
              arith,
              same,
              find-write_atomic_clean temp torn id other answer p.dir.responses clear,
            ))
            fits
      | inr differ ↦
          same-IsAnswered other (after_answer id env answer p).dir.responses p.dir.responses
            (ground (
              arith,
              differ,
              find-write_atomic_clean temp torn id other answer p.dir.responses clear,
            ))
            h
    ]
