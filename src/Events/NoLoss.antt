-- ===== src/Events/NoLoss.antt =====
-- An open subscriber of the bus has every committed event after its cursor, in commit order.
use harnessing.Prelude.{
  ℕ, ◌≤◌, String, false, List, [], ◌∷◌, ◌++◌, map, length, ◌≡◌, refl, sym, ap, subst, ◌∙◌, ltb, leb,
  Bool-cases, inl, inr, arith, All, All-append, if◌then◌else◌,
}
use mathlib.Core.List.{append_assoc, append-nil}
use harnessing.Domain.Errors.{Result, ok, err}
use harnessing.Domain.Records.{Event}
use harnessing.Events.{
  Subscriber, EventBus, new_event_bus, ensure_floor, trim, deliver, fan_out, publish_new, publish,
  events_after, resume_point, register, subscribe, cancel, receive, event_buffer_capacity, take,
}
use harnessing.Events.Delivery.{
  events_after-append, events_after-floor, deliver-IsDelivery, trim-suffix,
}

-- What one publish adds to the history: nothing where it is a replay.
abbrev pub accepted : List Event → EventBus → List Event
accepted [] b = []
accepted (ev ∷ evs) b = if leb ev.workspace_revision b.last_published then [] else ev ∷ evs

-- A bus, and the events that it accepted, oldest first. The store's revision at the time of the
-- floor is not behind what was evicted already.
pub data Reach : EventBus → List Event → Type 0 where
  created : Reach new_event_bus []
  floored :
      {b : EventBus} {h : List Event} (loaded : Result ℕ)
      → Reach b h
      → ((revision : ℕ) → loaded ≡ ok revision → b.trimmed_up_to ≤ revision)
      → Reach (ensure_floor loaded b).1 h
  published :
      {b : EventBus} {h : List Event} (evs : List Event)
      → Reach b h
      → Reach (publish evs b) (h ++ accepted evs b)
  subscribed :
      {b : EventBus} {h : List Event} (cursor : String) → Reach b h → Reach (subscribe cursor b).1 h
  cancelled :
      {b : EventBus} {h : List Event} (xs ys : List Subscriber) (sub : Subscriber)
      → Reach b h
      → b.subscribers ≡ xs ++ sub ∷ ys
      → Reach (record b { subscribers = xs ++ cancel sub ∷ ys }) h
  taken :
      {b : EventBus} {h : List Event} (xs ys : List Subscriber) (sub : Subscriber)
      → Reach b h
      → b.subscribers ≡ xs ++ sub ∷ ys
      → Reach (record b { subscribers = xs ++ receive sub ∷ ys }) h

-- What a subscriber was given, and what it was not because it was cut off first.
pub record IsServed (h : List Event) (sub : Subscriber) : Type 0 where
  pub rest : List Event
  pub in_order : (sub.received ++ sub.queue) ++ rest ≡ events_after sub.after h
  pub complete : sub.closed ≡ false → rest ≡ []

pub record IsLossless (b : EventBus) (h : List Event) : Type 0 where
  pub evicted : List Event
  pub retained : h ≡ evicted ++ b.buffer
  pub floor : All (λ ev. ev.workspace_revision ≤ b.trimmed_up_to) evicted
  pub bounded : length b.buffer ≤ event_buffer_capacity
  pub served : All (IsServed h) b.subscribers

All-weaken :
    (n m : ℕ) (xs : List Event)
    → n ≤ m
    → All (λ ev. ev.workspace_revision ≤ n) xs
    → All (λ ev. ev.workspace_revision ≤ m) xs
All-weaken n m [] le h = tt
All-weaken n m (x ∷ xs) le h = (omega arith, All-weaken n m xs le h.1)

regroup : (a b c d : List Event) → (a ++ (b ++ c)) ++ d ≡ (a ++ b) ++ (c ++ d)
regroup a b c d = simp append_assoc

-- A published batch reaches a subscriber behind what it has.
fan_out-IsServed :
    (h evs : List Event) (sub : Subscriber) → IsServed h sub → IsServed (h ++ evs) (fan_out evs sub)
fan_out-IsServed h evs sub v = elim (Bool-cases sub.closed) [
  | inl c ↦ rw c (record {
    rest = v.rest ++ events_after sub.after evs;
    in_order =
        sym (append_assoc (sub.received ++ sub.queue) v.rest (events_after sub.after evs))
        ∙ ap (λ xs. xs ++ events_after sub.after evs) v.in_order
        ∙ sym (events_after-append sub.after h evs);
    complete = λ e. cc;
  })
  | inr c ↦
      let d = deliver-IsDelivery evs sub in
      let all : sub.received ++ sub.queue ≡ events_after sub.after h =
        sym (append-nil (sub.received ++ sub.queue))
        ∙ ap (λ xs. (sub.received ++ sub.queue) ++ xs) (sym (v.complete c))
        ∙ v.in_order in
      let whole : (sub.received ++ (sub.queue ++ d.sent)) ++ d.left
          ≡ events_after sub.after (h ++ evs) =
        regroup sub.received sub.queue d.sent d.left
        ∙ ap (λ xs. (sub.received ++ sub.queue) ++ xs) d.all_sent
        ∙ ap (λ xs. xs ++ events_after sub.after evs) all
        ∙ sym (events_after-append sub.after h evs) in
      let opened : fan_out evs sub ≡ deliver evs sub = ground arith in
      subst (IsServed (h ++ evs)) (sym opened) (record {
        rest = d.left;
        in_order = rw (d.received_kept, d.queue_grows, d.after_kept) whole;
        complete = d.open_complete;
      })
]

serve-All :
    (h evs : List Event) (subs : List Subscriber)
    → All (IsServed h) subs
    → All (IsServed (h ++ evs)) (map (fan_out evs) subs)
serve-All h evs [] a = tt
serve-All h evs (s ∷ ss) a = (fan_out-IsServed h evs s a.0, serve-All h evs ss a.1)

publish-IsLossless :
    (b : EventBus) (h evs : List Event)
    → IsLossless b h
    → IsLossless (publish evs b) (h ++ accepted evs b)
unfolding publish publish_new
publish-IsLossless b h [] v = rw append-nil v
publish-IsLossless b h (ev ∷ evs) v =
    elim (Bool-cases (leb ev.workspace_revision b.last_published)) [
      | inl old ↦ rw (old, append-nil) v
      | inr new ↦
          let (gone, whole, below, grows, short) =
            trim-suffix (b.buffer ++ ev ∷ evs) b.trimmed_up_to in
          rw new (record {
            evicted = v.evicted ++ gone;
            retained =
                ap (λ xs. xs ++ ev ∷ evs) v.retained
                ∙ append_assoc v.evicted b.buffer (ev ∷ evs)
                ∙ ap (λ xs. v.evicted ++ xs) whole
                ∙ sym (append_assoc v.evicted gone (trim (b.buffer ++ ev ∷ evs) b.trimmed_up_to).0);
            floor =
                All-append
                  (λ e. e.workspace_revision ≤ (trim (b.buffer ++ ev ∷ evs) b.trimmed_up_to).1)
                  v.evicted gone
                  (All-weaken b.trimmed_up_to (trim (b.buffer ++ ev ∷ evs) b.trimmed_up_to).1
                    v.evicted grows v.floor)
                  below;
            bounded = short;
            served = serve-All h (ev ∷ evs) b.subscribers v.served;
          })
    ]

register-IsLossless :
    (b : EventBus) (h : List Event) (r : Result ℕ) → IsLossless b h → IsLossless (register r b).1 h
register-IsLossless b h (err e) v = v
register-IsLossless b h (ok after) v = elim (Bool-cases (ltb after b.trimmed_up_to)) [
  | inl late ↦ rw late v
  | inr fine ↦ rw fine (record {
    evicted = v.evicted;
    retained = v.retained;
    floor = v.floor;
    bounded = v.bounded;
    served = All-append (IsServed h) b.subscribers _ v.served (
      record {
        rest = [];
        in_order =
            append-nil (events_after after b.buffer)
            ∙ sym (
                ap (events_after after) v.retained
                ∙ events_after-append after v.evicted b.buffer
                ∙ ap (λ xs. xs ++ events_after after b.buffer)
                    (events_after-floor after b.trimmed_up_to v.evicted v.floor (ground arith)));
        complete = λ _. refl;
      },
      tt,
    );
  })
]

ensure_floor-IsLossless :
    (b : EventBus) (h : List Event) (r : Result ℕ)
    → ((revision : ℕ) → r ≡ ok revision → b.trimmed_up_to ≤ revision)
    → IsLossless b h
    → IsLossless (ensure_floor r b).1 h
unfolding ensure_floor
ensure_floor-IsLossless b h (err e) le v = elim (Bool-cases b.seeded) [
  | inl c ↦ simp c v
  | inr c ↦ simp c v
]
ensure_floor-IsLossless b h (ok revision) le v = elim (Bool-cases b.seeded) [
  | inl c ↦ simp c v
  | inr c ↦ simp c (record {
    evicted = v.evicted;
    retained = v.retained;
    floor = All-weaken b.trimmed_up_to revision v.evicted (le revision refl) v.floor;
    bounded = v.bounded;
    served = v.served;
  })
]

cancel-IsServed : (h : List Event) (sub : Subscriber) → IsServed h sub → IsServed h (cancel sub)
unfolding cancel
cancel-IsServed h sub v = record { rest = v.rest; in_order = v.in_order; complete = λ e. cc }

take-IsServed :
    (h q : List Event) (sub : Subscriber) → sub.queue ≡ q → IsServed h sub → IsServed h (take q sub)
take-IsServed h [] sub e v = v
take-IsServed h (ev ∷ evs) sub e v = record {
  rest = v.rest;
  in_order =
      ap (λ xs. xs ++ v.rest) (append_assoc sub.received (ev ∷ []) evs)
      ∙ ap (λ xs. (sub.received ++ xs) ++ v.rest) (sym e)
      ∙ v.in_order;
  complete = v.complete;
}

-- One subscriber of the list is put in another's place.
replace :
    (h : List Event) (xs ys : List Subscriber) (old new : Subscriber)
    → (IsServed h old → IsServed h new)
    → All (IsServed h) (xs ++ old ∷ ys)
    → All (IsServed h) (xs ++ new ∷ ys)
replace h [] ys old new f a = (f a.0, a.1)
replace h (x ∷ xs) ys old new f a = (a.0, replace h xs ys old new f a.1)

-- In every state that a bus can reach, the buffer is the end of the accepted history and within its
-- capacity, what was evicted lies at or below the floor, and each subscriber has received and
-- queued the accepted events after its cursor, in order and once each, all of them if it is still
-- open and an initial part of them otherwise.
pub Reach-IsLossless : {b : EventBus} {h : List Event} → Reach b h → IsLossless b h
unfolding new_event_bus subscribe receive
Reach-IsLossless created = record {
  evicted = [];
  retained = refl;
  floor = tt;
  bounded = omega arith;
  served = tt;
}
Reach-IsLossless (floored {b = b} {h = h} loaded r le) =
    ensure_floor-IsLossless b h loaded le (Reach-IsLossless r)
Reach-IsLossless (published {b = b} {h = h} evs r) = publish-IsLossless b h evs (Reach-IsLossless r)
Reach-IsLossless (subscribed {b = b} {h = h} cursor r) =
    register-IsLossless b h (resume_point cursor) (Reach-IsLossless r)
Reach-IsLossless (cancelled {b = b} {h = h} xs ys sub r e) =
    let v = Reach-IsLossless r in
    record {
      evicted = v.evicted;
      retained = v.retained;
      floor = v.floor;
      bounded = v.bounded;
      served = replace h xs ys sub (cancel sub) (cancel-IsServed h sub) (rw e at (v.served));
    }
Reach-IsLossless (taken {b = b} {h = h} xs ys sub r e) =
    let v = Reach-IsLossless r in
    record {
      evicted = v.evicted;
      retained = v.retained;
      floor = v.floor;
      bounded = v.bounded;
      served =
          replace h xs ys sub (receive sub) (take-IsServed h sub.queue sub refl)
            (rw e at (v.served));
    }
