-- ===== src/Events/Delivery.antt =====
-- The loops of publish in internal/core/task/events.go: what a delivery adds to one queue, and what
-- an eviction leaves of the buffer.
use harnessing.Prelude.{
  ℕ, ◌≤◌, true, false, List, [], ◌∷◌, ◌++◌, length, ◌≡◌, refl, sym, ap, ◌∙◌, ltb, leb, Bool-cases,
  inl, inr, arith, All, if◌then◌else◌,
}
use mathlib.Core.List.{append_assoc, append-nil}
use harnessing.Domain.Records.{Event}
use harnessing.Events.{
  Subscriber, trim, deliver, events_after, event_buffer_capacity, subscriber_queue_capacity,
}

pub events_after-append :
    (n : ℕ) (xs ys : List Event)
    → events_after n (xs ++ ys) ≡ events_after n xs ++ events_after n ys
unfolding events_after
events_after-append n [] ys = refl
events_after-append n (x ∷ xs) ys = ground (arith, events_after-append n xs ys)

pub events_after-floor :
    (n m : ℕ) (xs : List Event)
    → All (λ ev. ev.workspace_revision ≤ m) xs
    → m ≤ n
    → events_after n xs ≡ []
unfolding events_after
events_after-floor n m [] h le = refl
events_after-floor n m (x ∷ xs) h le = ground (arith, events_after-floor n m xs h.1 le, h.0)

-- The parts of a delivery: what joins the queue, and what is left when the queue is full.
pub record IsDelivery (evs : List Event) (sub sub' : Subscriber) : Type 0 where
  pub sent : List Event
  pub left : List Event
  pub queue_grows : sub'.queue ≡ sub.queue ++ sent
  pub received_kept : sub'.received ≡ sub.received
  pub after_kept : sub'.after ≡ sub.after
  pub all_sent : sent ++ left ≡ events_after sub.after evs
  pub open_complete : sub'.closed ≡ false → left ≡ []

pub deliver-IsDelivery :
    (evs : List Event) (sub : Subscriber) → IsDelivery evs sub (deliver evs sub)
unfolding deliver events_after
deliver-IsDelivery [] sub = record {
  sent = [];
  left = [];
  queue_grows = sym (append-nil sub.queue);
  received_kept = refl;
  after_kept = refl;
  all_sent = refl;
  open_complete = λ _. refl;
}
deliver-IsDelivery (ev ∷ evs) sub = elim (Bool-cases (leb ev.workspace_revision sub.after)) [
  | inl c ↦
      let d = deliver-IsDelivery evs sub in
      let skip : ltb sub.after ev.workspace_revision ≡ false = ground arith in
      rw c (record {
        sent = d.sent;
        left = d.left;
        queue_grows = d.queue_grows;
        received_kept = d.received_kept;
        after_kept = d.after_kept;
        all_sent = rw skip d.all_sent;
        open_complete = d.open_complete;
      })
  | inr c ↦
      let keep : ltb sub.after ev.workspace_revision ≡ true = ground arith in
      elim (Bool-cases (ltb (length sub.queue) subscriber_queue_capacity)) [
        | inl room ↦
            let d = deliver-IsDelivery evs (record sub { queue = sub.queue ++ ev ∷ [] }) in
            rw (c, room)
              (record {
                sent = ev ∷ d.sent;
                left = d.left;
                queue_grows = d.queue_grows ∙ append_assoc sub.queue (ev ∷ []) d.sent;
                received_kept = d.received_kept;
                after_kept = d.after_kept;
                all_sent = rw keep (ap (λ xs. ev ∷ xs) d.all_sent);
                open_complete = d.open_complete;
              })
        | inr full ↦
            rw (c, full)
              (record {
                sent = [];
                left = events_after sub.after (ev ∷ evs);
                queue_grows = sym (append-nil sub.queue);
                received_kept = refl;
                after_kept = refl;
                all_sent = refl;
                open_complete = λ e. cc;
              })
      ]
]

pub trim-suffix :
    (xs : List Event) (n : ℕ)
    → (gone : List Event) × (xs ≡ gone ++ (trim xs n).0)
      × All (λ ev. ev.workspace_revision ≤ (trim xs n).1) gone
      × (n ≤ (trim xs n).1)
      × (length (trim xs n).0 ≤ event_buffer_capacity)
unfolding trim
trim-suffix [] n = ([], refl, tt, omega arith, omega arith)
trim-suffix (x ∷ xs) n =
    let up : ℕ = if ltb n x.workspace_revision then x.workspace_revision else n in
    let (gone, whole, below, grows, short) = trim-suffix xs up in
    let higher : (n ≤ up) × (x.workspace_revision ≤ up) = ground arith in
    elim (Bool-cases (ltb event_buffer_capacity (length (x ∷ xs)))) [
      | inl long ↦
          rw long (x ∷ gone, ap (λ ys. x ∷ ys) whole, (omega arith, below), omega arith, short)
      | inr fits ↦ rw fits ([], refl, tt, omega arith, ground arith)
    ]
