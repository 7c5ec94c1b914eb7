-- ===== src/Deliverer/Publication.antt =====
-- DeliverPending of internal/adapters/mailbox/deliverer.go records a publication after the file is
-- in place.
use harnessing.Prelude.{
  ℕ, suc, String, true, false, none, some, List, [], ◌∷◌, set, ◌≡◌, refl, sym, ap, subst, ◌⊎◌, inl,
  inr, ◌≤◌, arith, str_eq, eq_iff, if◌then◌else◌, Bool-cases, Option-cases, All,
}
use harnessing.Domain.Errors.{Result, ok, err}
use harnessing.Domain.Records.{Message, Snapshot, Event, Receipt}
use harnessing.Table.{find, find_message, message_id, entry}
use harnessing.Table.Laws.{Unique, find-set, key-find}
use harnessing.Store.{Faults}
use harnessing.Engine.Scope.{Ambient}
use harnessing.Engine.Commit.{Engine}
use harnessing.Engine.Messages.{
  is_noted, host_scope, delivery_fact_mutation, note_published, record_message_published,
  record_delivery_fact,
}
use harnessing.Engine.Reads.{get_snapshot}
use harnessing.Mailbox.Paths.{is_json, is_json-json_name}
use harnessing.Mailbox.Tree.{inbox, Tree}
use harnessing.Mailbox.Wire.{Wire, IsWire}
use harnessing.Mailbox.Files.{max_envelope_bytes}
use harnessing.Mailbox.Inbox.{file_at, publish}
use harnessing.Mailbox.Publish.{Readable, publish-Readable, publish-Delivered}
use harnessing.Deliverer.{
  World, Turn, envelope_of, awaits_publication, then_on, on_mail, record_published, on_engine,
  deliver_message, deliver_messages, deliver_snapshot, deliver_pending, request_id_for_fact,
}
use harnessing.Deliverer.Order.{messages_at, commit-messages}
use harnessing.Deliverer.Loops.{
  then_on-keeps, if_turn-keeps, on_engine-keeps, messages-get_snapshot,
}

-- The message is not noted as published.
abbrev pub Unpublished : String → List Message → Type 0
Unpublished id messages =
    (n : Message) → entry message_id id messages ≡ some n → is_noted n.published_at ≡ false

publication-others :
    (a : Ambient) (k id : String) (snap snap' : Snapshot) (evs : List Event)
    → str_eq k id ≡ false
    → delivery_fact_mutation a "MessagePublished" k note_published snap ≡ ok (snap', evs)
    → Unpublished id snap.messages
    → Unpublished id snap'.messages
unfolding delivery_fact_mutation
publication-others a k id snap snap' evs other e h n =
    elim (Option-cases (find_message k snap.messages)) [
      | inl missing ↦ absurd (ground arith)
      | inr ((i, m), found) ↦ elim (Option-cases m.published_at) [
        | inr (time, done) ↦
            let same : snap'.messages ≡ snap.messages = ground arith in rw same (h n)
        | inl unset ↦
            let m' : Message = record m { published_at = some a.now } in
            let written : snap'.messages ≡ set snap.messages i m' = ground arith in
            let frame : find_message id (set snap.messages i m') ≡ find_message id snap.messages =
              ground (
                arith,
                other,
                find-set message_id k id snap.messages i m m' found
                    (key-find message_id k snap.messages found),
              ) in
            rw (written, frame) (h n)
      ]
    ]

mail-on_engine :
    {B : Type 0} (r : Result Receipt × Engine) (v : World B) → (on_engine r v).1.mail ≡ v.mail
mail-on_engine (err x, e) v = refl
mail-on_engine (ok receipt, e) v = refl

module _ (m : Message) where
  abbrev Own : Message → Type 0
  Own msg = msg.message_id ≡ m.message_id → msg ≡ m

  All-absent-Own :
      (messages : List Message) → find message_id m.message_id messages ≡ none → All Own messages
  unfolding find
  All-absent-Own [] h = tt
  All-absent-Own (x ∷ xs) h = (
    λ e. absurd (ground (arith, h, e, eq_iff x.message_id m.message_id)),
    All-absent-Own xs (ground arith),
  )

  Unique-Own :
      (messages : List Message)
      → Unique message_id messages
      → entry message_id m.message_id messages ≡ some m
      → All Own messages
  unfolding find
  Unique-Own [] u h = tt
  Unique-Own (x ∷ xs) u h = elim (Bool-cases (str_eq x.message_id m.message_id)) [
    | inl c ↦
        let e : x ≡ m = ground arith in
        let same : x.message_id ≡ m.message_id = (eq_iff x.message_id m.message_id).0 c in
        ((λ k. e), All-absent-Own xs (cc (u.0, same)))
    | inr c ↦ (
      (λ e. absurd (ground (arith, e, c, eq_iff x.message_id m.message_id))),
      Unique-Own xs u.1 (elim (Option-cases (find message_id m.message_id xs)) [
        | inl n ↦ absurd (ground arith)
        | inr ((i, y), found) ↦ ground (arith, found, h, c)
      ]),
    )
  ]

module _ {B : Type 0} (w : Wire B) (m : Message) where
  -- The message's file is in its recipient's inbox, whole.
  abbrev pub IsDelivered : Tree B → Type 0
  IsDelivered t =
      (b : B) × Readable w (file_at m.recipient_agent_id inbox m.message_id) b t
      × (w.decode_envelope b ≡ some (envelope_of m))

  abbrev Behind : World B → Type 0
  Behind v = Unpublished m.message_id (messages_at v.engine) ⊎ IsDelivered v.mail

module _ {B : Type 0} (w : Wire B) (iw : IsWire w) (m : Message)
    (small : w.size (w.encode_envelope (envelope_of m)) ≤ max_envelope_bytes) where
  publish-IsDelivered :
      (turn : Turn B) (msg : Message) (t : Tree B)
      → is_json turn.mail_io.temp_name ≡ false
      → IsDelivered w m t
      → IsDelivered w m (publish w turn.mail_io msg.message_id (envelope_of msg) t).1
  publish-IsDelivered turn msg t json (b, there, d) = (
    b,
    publish-Readable w turn.mail_io msg.message_id (envelope_of msg) t
        (file_at m.recipient_agent_id inbox m.message_id) b json (is_json-json_name m.message_id)
        there,
    d,
  )

  publish-delivers :
      (turn : Turn B) (t : Tree B) (u : Unit {0})
      → (publish w turn.mail_io m.message_id (envelope_of m) t).0 ≡ ok u
      → IsDelivered w m (publish w turn.mail_io m.message_id (envelope_of m) t).1
  publish-delivers turn t u h =
      let (b, there, d, size) =
        publish-Delivered w turn.mail_io m.message_id (envelope_of m) t u iw h in
      (b, (there, elim size [ inl e ↦ e | inr e ↦ rw e small ]), d)

  recorded-Behind :
      (turn : Turn B) (msg : Message) (v : World B)
      → (str_eq msg.message_id m.message_id ≡ true → IsDelivered w m v.mail)
      → Behind w m v
      → Behind w m (record_published turn msg.message_id v).1
  unfolding record_message_published record_delivery_fact
  recorded-Behind turn msg v own h = elim (Bool-cases (str_eq msg.message_id m.message_id)) [
    | inl e ↦ inr (subst (λ t. IsDelivered w m t) (sym (mail-on_engine answer v)) (own e))
    | inr e ↦ elim h [
      | inr there ↦ inr (subst (λ t. IsDelivered w m t) (sym (mail-on_engine answer v)) there)
      | inl not_yet ↦ inl (
          on_engine-keeps (Unpublished m.message_id) answer v (
            commit-messages (Unpublished m.message_id) turn.io host_scope _ _
              (delivery_fact_mutation turn.ambient "MessagePublished" msg.message_id note_published)
              v.engine
              (λ snap snap' evs s k.
                publication-others turn.ambient msg.message_id m.message_id snap snap' evs e k
                  (rw s not_yet))
              not_yet))
    ]
  ]
    where
      answer : Result Receipt × Engine
      answer =
          record_message_published turn.io turn.ambient
            (record {
              request_id = request_id_for_fact "publish" msg.message_id;
              message_id = msg.message_id;
            })
            v.engine

  published-Behind :
      (turn : Turn B) (msg : Message) (v : World B)
      → is_json turn.mail_io.temp_name ≡ false
      → Behind w m v
      → Behind w m
          (record v { mail = (publish w turn.mail_io msg.message_id (envelope_of msg) v.mail).1 })
  published-Behind turn msg v json (inl not_yet) = inl not_yet
  published-Behind turn msg v json (inr there) =
      inr (publish-IsDelivered turn msg v.mail json there)

  own-delivers :
      (turn : Turn B) (msg : Message) (t : Tree B) (u : Unit {0})
      → msg ≡ m
      → (publish w turn.mail_io msg.message_id (envelope_of msg) t).0 ≡ ok u
      → IsDelivered w m (publish w turn.mail_io msg.message_id (envelope_of msg) t).1
  own-delivers turn msg t u e =
      subst
        (λ x.
          (publish w turn.mail_io x.message_id (envelope_of x) t).0 ≡ ok u
          → IsDelivered w m (publish w turn.mail_io x.message_id (envelope_of x) t).1)
        (sym e) (publish-delivers turn t u)

  deliver_message-Behind :
      (turn : Turn B) (msg : Message) (v : World B)
      → is_json turn.mail_io.temp_name ≡ false
      → (msg.message_id ≡ m.message_id → msg ≡ m)
      → Behind w m v
      → Behind w m (deliver_message w turn msg v).1
  unfolding deliver_message
  deliver_message-Behind turn msg v json own h =
      go (publish w turn.mail_io msg.message_id (envelope_of msg) v.mail) refl
    where
      go :
          (r : Result (Unit {0}) × Tree B)
          → publish w turn.mail_io msg.message_id (envelope_of msg) v.mail ≡ r
          → Behind w m (then_on (on_mail r v) (record_published turn msg.message_id)).1
      go (err e, t) p =
          subst (λ x. Behind w m (record v { mail = x })) (ap (λ r. r.1) p)
            (published-Behind turn msg v json h)
      go (ok u, t) p =
          recorded-Behind turn msg (record v { mail = t })
            (λ e.
              subst (λ x. IsDelivered w m x) (ap (λ r. r.1) p)
                (own-delivers turn msg v.mail u (own ((eq_iff msg.message_id m.message_id).0 e))
                  (ap (λ r. r.0) p)))
            (subst (λ x. Behind w m (record v { mail = x })) (ap (λ r. r.1) p)
              (published-Behind turn msg v json h))

  deliver_messages-Behind :
      (turns : ℕ → Turn B) (msgs : List Message) (v : World B)
      → ((i : ℕ) → is_json (turns i).mail_io.temp_name ≡ false)
      → All (Own m) msgs
      → Behind w m v
      → Behind w m (deliver_messages w turns msgs v).1
  unfolding deliver_messages
  deliver_messages-Behind turns [] v json own h = h
  deliver_messages-Behind turns (msg ∷ msgs) v json own h =
      then_on-keeps (Behind w m)
        (if awaits_publication msg then deliver_message w (turns 0) msg v else (ok tt, v))
        (deliver_messages w (λ i. turns (suc i)) msgs)
        (if_turn-keeps (Behind w m) (awaits_publication msg) (deliver_message w (turns 0) msg v) v
          (λ k. deliver_message-Behind (turns 0) msg v (json 0) own.0 h) h)
        (λ v' k. deliver_messages-Behind (λ i. turns (suc i)) msgs v' (λ i. json (suc i)) own.1 k)

  deliver_snapshot-Behind :
      (f : Faults) (turns : ℕ → Turn B) (v : World B) (r : Result Snapshot)
      → get_snapshot f v.engine ≡ r
      → ((i : ℕ) → is_json (turns i).mail_io.temp_name ≡ false)
      → All (Own m) (messages_at v.engine)
      → Behind w m v
      → Behind w m (deliver_snapshot w turns v r).1
  deliver_snapshot-Behind f turns v (err e) p json own h = h
  deliver_snapshot-Behind f turns v (ok snap) p json own h =
      deliver_messages-Behind turns snap.messages v json
        (elim (messages-get_snapshot f v.engine snap p) [ inl e ↦ rw e own | inr e ↦ rw e tt ]) h

  -- A message that was not published and is so after DeliverPending, whatever failed in it and
  -- wherever it stopped, has its file in its recipient's inbox, within the bound and with the
  -- message's envelope, where identifiers are distinct, the encoded envelope is within the bound,
  -- no temporary file is named like an envelope and encoding/json reads back what it wrote.
  pub deliver_pending-IsDelivered :
      (f : Faults) (turns : ℕ → Turn B) (v : World B) (n : Message)
      → ((i : ℕ) → is_json (turns i).mail_io.temp_name ≡ false)
      → Unique message_id (messages_at v.engine)
      → entry message_id m.message_id (messages_at v.engine) ≡ some m
      → is_noted m.published_at ≡ false
      → entry message_id m.message_id (messages_at (deliver_pending w f turns v).1.engine) ≡ some n
      → is_noted n.published_at ≡ true
      → IsDelivered w m (deliver_pending w f turns v).1.mail
  unfolding deliver_pending
  deliver_pending-IsDelivered f turns v n json unique before unset after noted =
      elim (deliver_snapshot-Behind f turns v (get_snapshot f v.engine) refl json
        (Unique-Own m (messages_at v.engine) unique before)
        (inl (λ o e. ground (arith, before, unset, e)))) [
          | inr there ↦ there
          | inl not_yet ↦ absurd (ground (arith, not_yet n after, noted))
        ]
