-- ===== src/Examples/Bus.antt =====
-- A bus that publishes one event to a subscriber, and the texts of cursors and fingerprints.
use harnessing.Prelude.{[], ◌∷◌}
use harnessing.Domain.Records.{Event}
use harnessing.Events.{EventBus, new_event_bus, subscribe, publish}
use harnessing.Events.NoLoss.{
  Reach, created, subscribed, published, accepted, IsLossless, Reach-IsLossless,
}

abbrev told : Event
told = record {
  id = "v1";
  kind = "TaskCreated";
  schema_version = 1;
  workspace_revision = 1;
  timestamp = 1;
  subject_ids = "t1" ∷ [];
}

abbrev watched : EventBus
watched = (subscribe "" new_event_bus).1

watching : Reach (publish (told ∷ []) watched) (accepted (told ∷ []) watched)
watching = published (told ∷ []) (subscribed "" created)

Reach-IsLossless_example : IsLossless (publish (told ∷ []) watched) (accepted (told ∷ []) watched)
Reach-IsLossless_example = Reach-IsLossless watching
