-- ===== src/Transport/Serving.antt =====
-- internal/adapters/transport/host.go: what the continuing host does in one tick with the sessions'
-- folders. All of it runs in one goroutine.
use harnessing.Prelude.{
  String, Bool, true, false, Option, none, some, List, [], ◌∷◌, str_eq, if◌then◌else◌,
}
use harnessing.Domain.Errors.{Result, ok, err}
use harnessing.Host.{FrontendSession}
use harnessing.Transport.{
  Envelope, error_info, AttachPayload, attach_operation, detach_operation, Coding, succeeded,
  refused,
}
use harnessing.Transport.Files.{
  Folder, json, WriteIo, ReadIo, write_atomic, json_names, read_bounded,
}
use harnessing.Host.Opening.{Workspace}
use harnessing.Transport.Session.{CallInput}
use harnessing.Transport.Codec.{Codec}
use harnessing.Transport.Dispatch.{dispatch}

-- A session's directory: its intake and its responses.
pub record SessionDir (B : Type 0) : Type 0 where
  pub intake : Folder B
  pub responses : Folder B

-- What the system answers while one request is serviced.
pub record Turn (B : Type 0) : Type 0 where
  pub read_response : ReadIo
  pub read_request : ReadIo
  pub write : WriteIo B
  pub call : CallInput

-- What a pass over one session changes.
pub record Pass (B : Type 0) : Type 0 where
  pub dir : SessionDir B
  pub workspace : Workspace

module _ {B : Type 0} where
  abbrev pub is_read : Result (Option B) → Bool
  is_read (ok (some b)) = true
  is_read _ = false

  -- `_ = writeAtomic(…)` of a response.
  abbrev pub written : WriteIo B → String → B → SessionDir B → SessionDir B
  written io id b d = record d { responses = (write_atomic io (json id) b d.responses).1 }

  abbrev pub wrote : WriteIo B → String → B → SessionDir B → Result (Unit {0})
  wrote io id b d = (write_atomic io (json id) b d.responses).0

  -- `encoded, _ := json.Marshal(resp)`
  abbrev or_nothing : B → Option B → B
  or_nothing nothing none = nothing
  or_nothing nothing (some b) = b

  abbrev pub in_dir : (SessionDir B → SessionDir B) → Pass B → Pass B
  in_dir f p = record p { dir = f p.dir }

  abbrev pub decode_with : {A : Type 0} → Coding B A → Option B → Option A
  decode_with c none = none
  decode_with c (some b) = c.decode b

  -- On with the loop, unless the session was detached.
  abbrev pub unless_detached : Bool × Pass B → (Pass B → Bool × Pass B) → Bool × Pass B
  unless_detached (true, p) next = (true, p)
  unless_detached (false, p) next = next p

  module _ (k : Codec B) where
    abbrev pub answer_written : WriteIo B → String → Option B → Pass B → Pass B
    answer_written io id none p = p
    answer_written io id (some b) p = in_dir (written io id b) p

    abbrev pub dispatch_envelope : Turn B → FrontendSession → String → Envelope B → Pass B → Pass B
    dispatch_envelope t s id env p =
        let (resp, w) = dispatch k t.call s env p.workspace in
        answer_written t.write id (k.response.encode resp) (record p { workspace = w })

    abbrev pub service_envelope :
        Turn B → FrontendSession → String → Option (Envelope B) → Pass B → Bool × Pass B
    service_envelope t s id none p = (false, p)
    service_envelope t s id (some env) p =
        if str_eq env.operation detach_operation
        then (
          true,
          in_dir (written t.write id (or_nothing k.nothing (k.response.encode (succeeded none)))) p,
        )
        else (false, dispatch_envelope t s id env p)

    abbrev pub service_read :
        Turn B → FrontendSession → String → Result (Option B) → Pass B → Bool × Pass B
    service_read t s id (ok (some b)) p = service_envelope t s id (k.envelope.decode b) p
    service_read t s id _ p = (false, p)

    -- The body of the loop of serviceSession.
    unfoldable pub service_request : Turn B → FrontendSession → String → Pass B → Bool × Pass B
    service_request t s id p =
        if str_eq id attach_operation
        then (false, p)
        else if is_read (read_bounded k.size t.read_response (json id) p.dir.responses)
        then (false, p)
        else service_read t s id (read_bounded k.size t.read_request (json id) p.dir.intake) p

    unfoldable pub service_requests :
        (String → Turn B) → FrontendSession → List String → Pass B → Bool × Pass B
    service_requests at s [] p = (false, p)
    service_requests at s (id ∷ ids) p =
        unless_detached (service_request (at id) s id p) (service_requests at s ids)

    -- serviceSession; `list` is the failure of its ReadDir.
    unfoldable pub service_session :
        Bool → (String → Turn B) → FrontendSession → Pass B → Bool × Pass B
    service_session list at s p =
        if list then (false, p) else service_requests at s (json_names p.dir.intake) p

    abbrev pub attach_of : Option (Envelope B) → Option AttachPayload
    attach_of none = none
    attach_of (some env) = decode_with k.attach env.payload

    abbrev confirmed : FrontendSession → Result (Unit {0}) → Option FrontendSession
    confirmed s (ok u) = some s
    confirmed s (err x) = none

    abbrev pub confirm :
        WriteIo B
        → FrontendSession
        → Option B
        → SessionDir B
        → Option FrontendSession × SessionDir B
    confirm io s none d = (none, d)
    confirm io s (some b) d =
        (confirmed s (wrote io attach_operation b d), written io attach_operation b d)

    abbrev pub bind_answer :
        WriteIo B → Result FrontendSession → SessionDir B → Option FrontendSession × SessionDir B
    bind_answer io (err x) d = (
      none,
      written io attach_operation
          (or_nothing k.nothing (k.response.encode (refused (error_info x)))) d,
    )
    bind_answer io (ok s) d = confirm io s (k.response.encode (succeeded none)) d

    abbrev pub bind_attach :
        WriteIo B
        → (AttachPayload → Result FrontendSession)
        → Option AttachPayload
        → SessionDir B
        → Option FrontendSession × SessionDir B
    bind_attach io bind none d = (none, d)
    bind_attach io bind (some a) d = bind_answer io (bind a) d

    abbrev pub bind_read :
        WriteIo B
        → (AttachPayload → Result FrontendSession)
        → Result (Option B)
        → SessionDir B
        → Option FrontendSession × SessionDir B
    bind_read io bind (ok (some b)) d = bind_attach io bind (attach_of (k.envelope.decode b)) d
    bind_read io bind _ d = (none, d)

    -- tryBind, whose caller goes on alike after an error and where nothing was there to bind.
    unfoldable pub try_bind :
        ReadIo
        → WriteIo B
        → (AttachPayload → Result FrontendSession)
        → SessionDir B
        → Option FrontendSession × SessionDir B
    try_bind read io bind d =
        bind_read io bind (read_bounded k.size read (json attach_operation) d.intake) d
