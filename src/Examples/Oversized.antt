-- ===== src/Examples/Oversized.antt =====
-- A response that the transport cannot read back.
use harnessing.Prelude.{ℕ, true, false, none, some, [], ◌∷◌, ◌≡◌, refl}
use harnessing.Store.{empty_snapshot, load, read_locked}
use harnessing.Engine.Reads.{get_snapshot}
use harnessing.Text.Decimal.{format_uint}
use harnessing.Mailbox.Tree.{regular}
use harnessing.Transport.{Envelope}
use harnessing.Transport.Files.{is_directory, json, find, read_bounded}
use harnessing.Transport.Session.{a_snapshot, serve_call}
use harnessing.Transport.Codec.{Codec, operation_of}
use harnessing.Transport.Dispatch.{decode_call, encode_value, response_of, run_envelope, dispatch}
use harnessing.Transport.Serving.{Pass, service_request}
use harnessing.Transport.Pending.{turns, is_answered, request_of, after_answer}
use harnessing.Transport.Repeats.{oversized-repeats}
use harnessing.Examples.WireCodec.{codec}
use harnessing.Examples.WireData.{Json, empty, asking_with, responding_with, answering}
use harnessing.Examples.ServeData.{call_input, session, workspace}

-- A codec whose responses do not fit.
abbrev size_of : Json → ℕ
size_of (responding_with b x e) = 300000
size_of _ = 0

abbrev big_codec : Codec Json
big_codec = record codec { size = size_of }

abbrev reading : Envelope Json
reading = record { operation = "GetSnapshot"; payload = some empty }

abbrev reading_pass : Pass Json
reading_pass = record {
  dir = record {
    intake = (json "r1", regular (asking_with "GetSnapshot" empty)) ∷ [];
    responses = [];
  };
  workspace = workspace;
}

abbrev snapshot_response : Json
snapshot_response =
    responding_with true
      (answering (a_snapshot (record empty_snapshot { workspace_id = "w"; cursor = "0" }))) none

reading_tests :
    (is_answered big_codec reading_pass.dir.responses "r1" ≡ false)
    × (is_directory (find (json "r1") reading_pass.dir.responses) ≡ false)
    × (request_of big_codec reading_pass.dir.intake "r1" ≡ some reading)
    × (big_codec.response.encode (dispatch big_codec call_input session reading workspace).0
        ≡ some snapshot_response)
unfolding find read_bounded dispatch response_of run_envelope operation_of decode_call serve_call
    get_snapshot load read_locked encode_value format_uint
reading_tests = (refl, refl, refl, refl)

oversized-repeats_example :
    (service_request big_codec
        (turns big_codec "tmp" empty (λ id. call_input) session "r1")
        session
        "r1"
        reading_pass
      ≡ (
        false,
        after_answer big_codec "tmp" empty
            (λ id. call_input)
            session
            "r1"
            reading
            snapshot_response
            reading_pass,
      ))
    × (is_answered big_codec
          (after_answer big_codec "tmp" empty
            (λ id. call_input)
            session
            "r1"
            reading
            snapshot_response
            reading_pass).dir.responses
          "r1"
        ≡ false)
    × ((service_request big_codec
          (turns big_codec "tmp" empty (λ id. call_input) session "r1")
          session
          "r1"
          (after_answer big_codec "tmp" empty
            (λ id. call_input)
            session
            "r1"
            reading
            snapshot_response
            reading_pass)).1.workspace
        ≡ (dispatch big_codec call_input session reading
            (dispatch big_codec call_input session reading workspace).1).1)
oversized-repeats_example =
    oversized-repeats big_codec "tmp" empty session (λ id. call_input) (λ id. call_input) "r1"
      reading snapshot_response reading_pass refl reading_tests.0 reading_tests.1 reading_tests.2
      refl reading_tests.3 refl
