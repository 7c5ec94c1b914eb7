-- ===== src/Examples/Messages.antt =====
-- A message that was published is processed.
use harnessing.Prelude.{none, some, [], ◌∷◌, refl}
use harnessing.Domain.Records.{Message, inform}
use harnessing.Table.{find}
use harnessing.Store.{absent, file, empty_snapshot}
use harnessing.Engine.Scope.{claimed_provenance}
use harnessing.Engine.Commit.{Engine, commit}
use harnessing.Engine.Messages.{host_scope, delivery_fact_mutation, note_processed}
use harnessing.Engine.Mutations.{processing_note}
use harnessing.Engine.Steps.{new_engine}
use harnessing.Engine.Delivery.{Still, messages_of, commit-Still}
use harnessing.Examples.Data.{io, at, alice}

abbrev greeting : Message
greeting = record {
  workspace_id = "w";
  message_id = "g1";
  sender_agent_id = "alice";
  recipient_agent_id = "bob";
  kind = inform;
  body = "hello";
  created_at = 1;
  task_id = none;
  reply_to_message_id = none;
  provenance = claimed_provenance alice 1;
  queued_at = some 1;
  published_at = some 2;
  processed_at = none;
  acknowledged_by = "";
  acknowledged_at = none;
}

abbrev greeted : Engine
greeted = record (new_engine "w") {
  store = record {
    files = record {
      state_file =
          file (record {
            snapshot = record empty_snapshot { messages = greeting ∷ [] };
            receipts = [];
          });
      tmp_file = absent;
      synced = absent;
    };
    durable_revision = 0;
  };
}

commit-Still_example : Still "g1" greeting (
    messages_of
      (commit io host_scope "m1" "f"
        (delivery_fact_mutation (at 3 "v3") "MessageProcessed" "g1" note_processed)
        greeted).1.store.files.state_file)
unfolding find
commit-Still_example =
    commit-Still io host_scope "m1" "f"
      (delivery_fact_mutation (at 3 "v3") "MessageProcessed" "g1" note_processed) greeted "g1"
      greeting (processing_note (at 3 "v3") "g1") refl
