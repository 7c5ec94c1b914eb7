-- ===== src/Transport/Authority.antt =====
-- What the sessions' folders of internal/adapters/transport/host.go can do to the engine.
use harnessing.Prelude.{
  ℕ, String, Bool, true, false, Option, none, some, List, [], ◌∷◌, refl, Bool-cases, inl, inr,
  str_eq, if◌then◌else◌,
}
use harnessing.Domain.Errors.{Result, ok, err}
use harnessing.Engine.Commit.{Engine}
use harnessing.Engine.Reads.{subscribe}
use harnessing.Engine.Steps.{Steps, none_yet, one, resolved, observed, listened}
use harnessing.Engine.Lifecycle.{join}
use harnessing.Host.{FrontendSession, commanding, budgeting, resolve}
use harnessing.Host.Authority.{execute-Steps}
use harnessing.Transport.{Envelope, AttachPayload, attach_operation, detach_operation}
use harnessing.Transport.Files.{json, read_bounded}
use harnessing.Host.Opening.{Workspace}
use harnessing.Transport.Session.{
  Call, performing, setting_run_budget, resolving_request, subscribing, CallInput, drained,
  serve_call,
}
use harnessing.Transport.Codec.{Codec, Operation, operation_of}
use harnessing.Transport.Dispatch.{
  decode_call, run_envelope, dispatch, call_or_refuse, run_operation,
}
use harnessing.Transport.Serving.{
  SessionDir, Turn, Pass, unless_detached, service_envelope, service_read, service_request,
  service_requests, service_session, is_read, answer_written,
}
use harnessing.Transport.Ticking.{SessionTurn, Serving, service_new, service_at, service_sessions}

drained-Steps : (n : ℕ) (r : Result ℕ × Engine) → Steps r.1 (drained n r).1
unfolding drained
drained-Steps n (err x, e) = none_yet refl
drained-Steps n (ok i, e) = one (listened _ refl)

serve_call-Steps :
    (i : CallInput) (s : FrontendSession) (c : Call) (w : Workspace)
    → Steps w.engine (serve_call i s c w).1.engine
unfolding serve_call resolve
serve_call-Steps i s (performing c) w = execute-Steps i.command s (commanding c) w.engine
serve_call-Steps i s (setting_run_budget r) w = execute-Steps i.command s budgeting w.engine
serve_call-Steps i s (resolving_request id) w = one (resolved i.read s.principal id refl)
serve_call-Steps i s (subscribing cursor) w =
    join (one (observed i.read cursor refl))
      (drained-Steps i.received (subscribe i.read cursor w.engine))
serve_call-Steps i s _ w = none_yet refl

module _ {B : Type 0} (k : Codec B) where
  call_or_refuse-Steps :
      (i : CallInput) (s : FrontendSession) (c : Option Call) (w : Workspace)
      → Steps w.engine (call_or_refuse k i s c w).1.engine
  call_or_refuse-Steps i s none w = none_yet refl
  call_or_refuse-Steps i s (some c) w = serve_call-Steps i s c w

  run_operation-Steps :
      (i : CallInput) (s : FrontendSession) (p : Option B) (o : Option Operation) (w : Workspace)
      → Steps w.engine (run_operation k i s p o w).1.engine
  run_operation-Steps i s p none w = none_yet refl
  run_operation-Steps i s p (some o) w = call_or_refuse-Steps i s (decode_call k o p) w

  answer_written-Steps :
      (t : Turn B) (id : String) (answer : Option B) (e : Engine) (p : Pass B)
      → Steps e p.workspace.engine
      → Steps e (answer_written k t.write id answer p).workspace.engine
  answer_written-Steps t id none e p h = h
  answer_written-Steps t id (some b) e p h = h

  service_envelope-Steps :
      (t : Turn B) (s : FrontendSession) (id : String) (o : Option (Envelope B)) (p : Pass B)
      → Steps p.workspace.engine (service_envelope k t s id o p).1.workspace.engine
  unfolding dispatch run_envelope
  service_envelope-Steps t s id none p = none_yet refl
  service_envelope-Steps t s id (some env) p =
      elim (Bool-cases (str_eq env.operation detach_operation)) [
        | inl detaches ↦ rw detaches (none_yet refl)
        | inr stays ↦ rw stays (
            answer_written-Steps t id (k.response.encode (dispatch k t.call s env p.workspace).0)
              p.workspace.engine (record p { workspace = (dispatch k t.call s env p.workspace).1 })
              (run_operation-Steps t.call s env.payload (operation_of env.operation) p.workspace))
      ]

  service_read-Steps :
      (t : Turn B) (s : FrontendSession) (id : String) (r : Result (Option B)) (p : Pass B)
      → Steps p.workspace.engine (service_read k t s id r p).1.workspace.engine
  service_read-Steps t s id (ok (some b)) p = service_envelope-Steps t s id (k.envelope.decode b) p
  service_read-Steps t s id (ok none) p = none_yet refl
  service_read-Steps t s id (err x) p = none_yet refl

  left_or_Steps :
      (left : Bool) (e : Engine) (p : Bool × Pass B) (r : Bool × Pass B)
      → Steps e p.1.workspace.engine
      → Steps e r.1.workspace.engine
      → Steps e (if left then p else r).1.workspace.engine
  left_or_Steps true e p r h h' = h
  left_or_Steps false e p r h h' = h'

  service_request-Steps :
      (t : Turn B) (s : FrontendSession) (id : String) (p : Pass B)
      → Steps p.workspace.engine (service_request k t s id p).1.workspace.engine
  unfolding service_request
  service_request-Steps t s id p =
      let old = is_read (read_bounded k.size t.read_response (json id) p.dir.responses) in
      let asked = read_bounded k.size t.read_request (json id) p.dir.intake in
      let serviced = service_read k t s id asked p in
      left_or_Steps (str_eq id attach_operation) p.workspace.engine (false, p)
        (if old then (false, p) else serviced) (none_yet refl)
        (left_or_Steps old p.workspace.engine (false, p) serviced (none_yet refl)
          (service_read-Steps t s id asked p))

  unless_detached-Steps :
      (e : Engine) (r : Bool × Pass B) (next : Pass B → Bool × Pass B)
      → Steps e r.1.workspace.engine
      → ((p : Pass B) → Steps p.workspace.engine (next p).1.workspace.engine)
      → Steps e (unless_detached r next).1.workspace.engine
  unless_detached-Steps e (true, p) next h f = h
  unless_detached-Steps e (false, p) next h f = join h (f p)

  service_requests-Steps :
      (at : String → Turn B) (s : FrontendSession) (ids : List String) (p : Pass B)
      → Steps p.workspace.engine (service_requests k at s ids p).1.workspace.engine
  unfolding service_requests
  service_requests-Steps at s [] p = none_yet refl
  service_requests-Steps at s (id ∷ ids) p =
      unless_detached-Steps p.workspace.engine (service_request k (at id) s id p)
        (service_requests k at s ids) (service_request-Steps (at id) s id p)
        (λ q. service_requests-Steps at s ids q)

  service_session-Steps :
      (list : Bool) (at : String → Turn B) (s : FrontendSession) (p : Pass B)
      → Steps p.workspace.engine (service_session k list at s p).1.workspace.engine
  unfolding service_session
  service_session-Steps true at s p = none_yet refl
  service_session-Steps false at s p = service_requests-Steps at s _ p

  module _ (bind : AttachPayload → Result FrontendSession) where
    service_new-Steps :
        (t : SessionTurn B) (id : String) (r : Option FrontendSession × SessionDir B)
        (v : Serving B)
        → Steps v.workspace.engine (service_new k bind t id r v).1.workspace.engine
    service_new-Steps t id (none, d) v = none_yet refl
    service_new-Steps t id (some s, d) v = service_session-Steps t.list t.turns s _

    service_at-Steps :
        (t : SessionTurn B) (id : String) (d : SessionDir B) (bound : Option FrontendSession)
        (v : Serving B)
        → Steps v.workspace.engine (service_at k bind t id d bound v).1.workspace.engine
    service_at-Steps t id d none v = service_new-Steps t id _ v
    service_at-Steps t id d (some s) v = service_session-Steps t.list t.turns s _

    -- Whatever the folders of the sessions hold and whatever fails, a pass over them moves the engine
    -- by its own steps.
    pub service_sessions-Steps :
        (at : String → SessionTurn B) (ds : List (String × SessionDir B)) (v : Serving B)
        → Steps v.workspace.engine (service_sessions k bind at ds v).workspace.engine
    unfolding service_sessions
    service_sessions-Steps at [] v = none_yet refl
    service_sessions-Steps at ((id, d) ∷ ds) v =
        join (service_at-Steps (at id) id d (v.bound id) v)
          (service_sessions-Steps at ds (service_at k bind (at id) id d (v.bound id) v).1)
