-- ===== src/Examples/WireCodec.antt =====
-- The JSON of the transport that needs no parsing, as a codec.
use harnessing.Prelude.{String, Bool, Option, none, some, ◌≡◌, refl}
use harnessing.Host.{
  registering, updating, creating, transitioning, reporting, accepting, rejecting, sending,
  acknowledging, approving, starting, stopping,
}
use harnessing.Transport.{Envelope, Response, ErrorInfo, Coding}
use harnessing.Transport.Session.{
  a_receipt, an_agent, a_task, a_message, a_run, an_operation, a_snapshot, an_output, some_events,
}
use harnessing.Transport.Codec.{Codec}
use harnessing.Transport.Carried.{IsFaithful}
use harnessing.Examples.WireData.{
  Json, empty, answering, commanding, budget, text, query, advertising, attaching, envelope_json,
  envelope_of, response_json, response_of, text_of, budget_of, query_of, marker_of, attach_of,
  register_agent_of, update_agent_of, create_task_of, transition_task_of, report_task_result_of,
  accept_task_result_of, reject_task_result_of, send_message_of, acknowledge_message_of,
  approve_profile_of, start_run_of, stop_run_of, receipt_of, agent_of, task_of, message_of, run_of,
  operation_of, snapshot_of, output_of, events_of,
}

abbrev pub texts : Coding Json String
texts = record { encode = λ s. some (text s); decode = text_of }

abbrev pub codec : Codec Json
codec = record {
  size = λ b. 0;
  nothing = empty;
  empty_object = some empty;
  envelope = record { encode = λ x. some (envelope_json x); decode = envelope_of };
  response = record { encode = λ x. some (response_json x); decode = response_of };
  marker = record { encode = λ x. some (advertising x); decode = marker_of };
  attach = record { encode = λ x. some (attaching x); decode = attach_of };
  register_agent = record {
    encode = λ x. some (commanding (registering x));
    decode = register_agent_of;
  };
  update_agent = record { encode = λ x. some (commanding (updating x)); decode = update_agent_of };
  create_task = record { encode = λ x. some (commanding (creating x)); decode = create_task_of };
  transition_task = record {
    encode = λ x. some (commanding (transitioning x));
    decode = transition_task_of;
  };
  report_task_result = record {
    encode = λ x. some (commanding (reporting x));
    decode = report_task_result_of;
  };
  accept_task_result = record {
    encode = λ x. some (commanding (accepting x));
    decode = accept_task_result_of;
  };
  reject_task_result = record {
    encode = λ x. some (commanding (rejecting x));
    decode = reject_task_result_of;
  };
  send_message = record { encode = λ x. some (commanding (sending x)); decode = send_message_of };
  acknowledge_message = record {
    encode = λ x. some (commanding (acknowledging x));
    decode = acknowledge_message_of;
  };
  approve_profile = record {
    encode = λ x. some (commanding (approving x));
    decode = approve_profile_of;
  };
  start_run = record { encode = λ x. some (commanding (starting x)); decode = start_run_of };
  stop_run = record { encode = λ x. some (commanding (stopping x)); decode = stop_run_of };
  set_run_budget = record { encode = λ x. some (budget x); decode = budget_of };
  agent_id = texts;
  task_id = texts;
  message_id = texts;
  run_id = texts;
  operation_id = texts;
  request_id = texts;
  after_cursor = texts;
  output_query = record { encode = λ x. some (query x); decode = query_of };
  receipt = record { encode = λ x. some (answering (a_receipt x)); decode = receipt_of };
  agent = record { encode = λ x. some (answering (an_agent x)); decode = agent_of };
  task = record { encode = λ x. some (answering (a_task x)); decode = task_of };
  message = record { encode = λ x. some (answering (a_message x)); decode = message_of };
  run = record { encode = λ x. some (answering (a_run x)); decode = run_of };
  operation = record { encode = λ x. some (answering (an_operation x)); decode = operation_of };
  snapshot = record { encode = λ x. some (answering (a_snapshot x)); decode = snapshot_of };
  output = record { encode = λ x. some (answering (an_output x)); decode = output_of };
  events = record { encode = λ x. some (answering (some_events x)); decode = events_of };
}

pub envelope_back : (env : Envelope Json) → envelope_of (envelope_json env) ≡ some env
envelope_back env = go env.operation env.payload
  where
    go :
        (s : String) (p : Option Json)
        → envelope_of (envelope_json (record { operation = s; payload = p }))
          ≡ some (record { operation = s; payload = p })
    go s none = refl
    go s (some x) = refl

pub response_back : (r : Response Json) → response_of (response_json r) ≡ some r
response_back r = go r.ok r.result r.error
  where
    go :
        (b : Bool) (x : Option Json) (e : Option ErrorInfo)
        → response_of (response_json (record { ok = b; result = x; error = e }))
          ≡ some (record { ok = b; result = x; error = e })
    go b none e = refl
    go b (some x) e = refl

abbrev pub codec-IsFaithful : IsFaithful codec
codec-IsFaithful = record {
  envelope = record { encoded = envelope_json; encodes = λ x. refl; decodes = envelope_back };
  response = record { encoded = response_json; encodes = λ x. refl; decodes = response_back };
  receipt = record {
    encoded = λ x. answering (a_receipt x);
    encodes = λ x. refl;
    decodes = λ x. refl;
  };
  agent = record {
    encoded = λ x. answering (an_agent x);
    encodes = λ x. refl;
    decodes = λ x. refl;
  };
  task = record { encoded = λ x. answering (a_task x); encodes = λ x. refl; decodes = λ x. refl };
  message = record {
    encoded = λ x. answering (a_message x);
    encodes = λ x. refl;
    decodes = λ x. refl;
  };
  run = record { encoded = λ x. answering (a_run x); encodes = λ x. refl; decodes = λ x. refl };
  operation = record {
    encoded = λ x. answering (an_operation x);
    encodes = λ x. refl;
    decodes = λ x. refl;
  };
  snapshot = record {
    encoded = λ x. answering (a_snapshot x);
    encodes = λ x. refl;
    decodes = λ x. refl;
  };
  output = record {
    encoded = λ x. answering (an_output x);
    encodes = λ x. refl;
    decodes = λ x. refl;
  };
  events = record {
    encoded = λ x. answering (some_events x);
    encodes = λ x. refl;
    decodes = λ x. refl;
  };
}
