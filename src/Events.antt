-- ===== src/Events.antt =====
-- internal/core/task/events.go: the bounded buffer of committed events and its subscribers. Each
-- function is one critical section of the bus's mutex. A channel is the list of what it holds, and
-- `received` lists what its reader has taken off it.
pub mod Delivery
pub mod NoLoss
use harnessing.Prelude.{
  ℕ, suc, ◌+◌, String, Bool, true, false, Option, none, some, List, [], ◌∷◌, ◌++◌, map, length, ltb,
  leb, str_eq, if◌then◌else◌,
}
use harnessing.Domain.Errors.{Result, ok, err, fail, cursor_expired}
use harnessing.Domain.Records.{Event}
use harnessing.Text.Decimal.{parse_uint}

abbrev pub event_buffer_capacity : ℕ
event_buffer_capacity = 256

abbrev pub subscriber_queue_capacity : ℕ
subscriber_queue_capacity = event_buffer_capacity

pub record Subscriber : Type 0 where
  pub queue : List Event
  pub received : List Event
  pub after : ℕ
  pub closed : Bool

pub record EventBus : Type 0 where
  pub seeded : Bool
  pub buffer : List Event
  pub trimmed_up_to : ℕ
  pub last_published : ℕ
  pub subscribers : List Subscriber

unfoldable pub new_event_bus : EventBus
new_event_bus = record {
  seeded = false;
  buffer = [];
  trimmed_up_to = 0;
  last_published = 0;
  subscribers = [];
}

abbrev pub seed : Result ℕ → EventBus → Result (Unit {0}) × EventBus
seed (err e) b = (err e, b)
seed (ok revision) b = (ok tt, record b { trimmed_up_to = revision; seeded = true })

-- ensureFloor; `loaded` is what the load answers, which is asked for only where it is needed.
unfoldable pub ensure_floor : Result ℕ → EventBus → Result (Unit {0}) × EventBus
ensure_floor loaded b = if b.seeded then (ok tt, b) else seed loaded b

-- The loop of publish that evicts the oldest events.
unfoldable pub trim : List Event → ℕ → List Event × ℕ
trim [] up_to = ([], up_to)
trim (evicted ∷ rest) up_to =
    let shorter =
      trim rest
        (if ltb up_to evicted.workspace_revision then evicted.workspace_revision else up_to) in
    if ltb event_buffer_capacity (length (evicted ∷ rest)) then shorter else (evicted ∷ rest, up_to)

-- The loop of publish over the events of one commit, for one subscriber.
unfoldable pub deliver : List Event → Subscriber → Subscriber
deliver [] sub = sub
deliver (ev ∷ evs) sub =
    let skipped = deliver evs sub in
    let sent = deliver evs (record sub { queue = sub.queue ++ ev ∷ [] }) in
    if leb ev.workspace_revision sub.after
    then skipped
    else if ltb (length sub.queue) subscriber_queue_capacity
    then sent
    else record sub { closed = true }

-- A closed subscriber is no longer in the bus's set.
abbrev pub fan_out : List Event → Subscriber → Subscriber
fan_out evs sub = if sub.closed then sub else deliver evs sub

unfoldable pub publish_new : ℕ → List Event → EventBus → EventBus
publish_new revision evs b =
    let (kept, up_to) = trim (b.buffer ++ evs) b.trimmed_up_to in
    record b {
      last_published = revision;
      buffer = kept;
      trimmed_up_to = up_to;
      subscribers = map (fan_out evs) b.subscribers;
    }

unfoldable pub publish : List Event → EventBus → EventBus
publish [] b = b
publish (ev ∷ evs) b =
    if leb ev.workspace_revision b.last_published
    then b
    else publish_new ev.workspace_revision (ev ∷ evs) b

unfoldable pub events_after : ℕ → List Event → List Event
events_after after [] = []
events_after after (ev ∷ evs) =
    let rest = events_after after evs in if ltb after ev.workspace_revision then ev ∷ rest else rest

abbrev parsed : Option ℕ → Result ℕ
parsed none = fail cursor_expired
parsed (some v) = ok v

unfoldable pub resume_point : String → Result ℕ
resume_point cursor = if str_eq cursor "" then ok 0 else parsed (parse_uint cursor)

abbrev pub register : Result ℕ → EventBus → Result ℕ × EventBus
register (err e) b = (err e, b)
register (ok after) b = if ltb after b.trimmed_up_to then (fail cursor_expired, b) else (
  ok (length b.subscribers),
  record b {
    subscribers =
        b.subscribers
        ++ record {
          queue = events_after after b.buffer;
          received = [];
          after = after;
          closed = false;
        }
          ∷ [];
  },
)

-- subscribe; the answer is the number of the new subscriber.
unfoldable pub subscribe : String → EventBus → Result ℕ × EventBus
subscribe cursor b = register (resume_point cursor) b

-- The goroutine that waits for the end of the subscriber's context.
unfoldable pub cancel : Subscriber → Subscriber
cancel sub = record sub { closed = true }

-- The reader takes the oldest event off its channel, also after it was closed.
abbrev pub take : List Event → Subscriber → Subscriber
take [] sub = sub
take (ev ∷ evs) sub = record sub { queue = evs; received = sub.received ++ ev ∷ [] }

unfoldable pub receive : Subscriber → Subscriber
receive sub = take sub.queue sub
