-- ===== src/Examples/Calls.antt =====
-- A client that registers an agent over the transport.
use harnessing.Prelude.{false, none, some, [], ◌≡◌, refl, eq_iff, arith}
use harnessing.Domain.Errors.{ok}
use harnessing.Host.{registering}
use harnessing.Mailbox.Tree.{regular, insert_name}
use harnessing.Transport.{Envelope}
use harnessing.Transport.Files.{put, remove, json, find, json_names, read_bounded, write_atomic}
use harnessing.Transport.Session.{serve_call}
use harnessing.Transport.Dispatch.{dispatch, decode_call}
use harnessing.Transport.Client.{valid_id, operation, encode_call, call}
use harnessing.Transport.Serving.{service_request, service_requests, service_session}
use harnessing.Transport.Pending.{turns, IsAnswered}
use harnessing.Transport.Carried.{carried}
use harnessing.Transport.Serviced.{posted_dir, host_pass, attended}
use harnessing.Transport.RoundTrip.{call-serve}
use harnessing.Transport.Once.{IsClear, PassFits, service_session-answers, service_session-once}
use harnessing.Examples.Data.{registration}
use harnessing.Examples.WireCodec.{codec, codec-IsFaithful}
use harnessing.Examples.WireData.{Json, empty, commanding, response_json}
use harnessing.Examples.ServeData.{
  call_input, session, workspace, folder, registers, request, busy_pass,
}

texts_tests :
    (valid_id "r1" ≡ ok tt)
    × (encode_call codec registers ≡ some (commanding (registering registration)))
    × (decode_call codec (operation registers) (some (commanding (registering registration)))
        ≡ some registers)
    × (find {B = Json} (json "r1") [] ≡ none)
unfolding valid_id encode_call decode_call operation find
texts_tests = (refl, refl, refl, refl)

call-serve_example :
    ((call codec
        (attended codec "tmp" empty (λ id. call_input) session workspace 2 "r1")
        registers
        folder).0
      ≡ carried (serve_call call_input session registers workspace).0)
    × ((host_pass codec "tmp" empty
          (λ id. call_input)
          session
          workspace
          (posted_dir "tmp" empty "r1" request folder)).1.workspace
        ≡ (serve_call call_input session registers workspace).1)
unfolding operation
call-serve_example =
    call-serve codec "tmp" empty (λ id. call_input) session workspace codec-IsFaithful 2 "r1"
      registers registers (commanding (registering registration)) folder texts_tests.0 refl
      texts_tests.1 texts_tests.2 texts_tests.3 texts_tests.3 tt refl refl

busy_pass-stays :
    (service_session codec false
      (turns codec "tmp" empty (λ id. call_input) session)
      session
      busy_pass).0
    ≡ false
unfolding service_session service_requests service_request read_bounded find json_names insert_name
    write_atomic put remove
busy_pass-stays = refl

busy_pass-asks : find (json "r1") busy_pass.dir.intake ≡ some (regular request)
unfolding find
busy_pass-asks = refl

responses-IsClear : IsClear codec busy_pass.dir.responses
unfolding find
responses-IsClear id = ground (arith, eq_iff "r0" id)

-- What the request of the pass asks.
abbrev asking : Envelope Json
asking = record {
  operation = "RegisterAgent";
  payload = some (commanding (registering registration));
}

responses_fit :
    PassFits codec "tmp" empty
      (λ id. call_input)
      session
      (json_names busy_pass.dir.intake)
      busy_pass
unfolding service_request read_bounded find json_names insert_name write_atomic put remove
responses_fit = (
  tt,
  ((response_json (dispatch codec call_input session asking workspace).0, (refl, refl)), (tt, tt)),
)

service_session-answers_example :
    IsAnswered codec
      (service_session codec false
        (turns codec "tmp" empty (λ id. call_input) session)
        session
        busy_pass).1.dir.responses
      "r1"
service_session-answers_example =
    service_session-answers codec "tmp" empty (λ id. call_input) session busy_pass responses-IsClear
      responses_fit busy_pass-stays "r1" request asking busy_pass-asks refl refl

service_session-once_example :
    service_session codec false
      (turns codec "tmp" empty (λ id. call_input) session)
      session
      (service_session codec false
        (turns codec "tmp" empty (λ id. call_input) session)
        session
        busy_pass).1
    ≡ (
      false,
      (service_session codec false
          (turns codec "tmp" empty (λ id. call_input) session)
          session
          busy_pass).1,
    )
service_session-once_example =
    service_session-once codec "tmp" empty (λ id. call_input) session busy_pass responses-IsClear
      responses_fit busy_pass-stays "tmp" empty (λ id. call_input) session
