-- ===== src/Deliverer/Loops.antt =====
-- What passes through the loops of internal/adapters/mailbox/deliverer.go, and what the snapshot that
-- they start from says.
use Prim.Native.Nat.{Ordering}
use Prim.Native.String.{compare}
use harnessing.Prelude.{
  String, Bool, true, false, none, List, [], ◌∷◌, ◌≡◌, refl, ◌⊎◌, inl, inr, arith, str_eq, eq_iff,
  if◌then◌else◌, Bool-cases,
}
use harnessing.Domain.Errors.{Result, ok, err}
use harnessing.Domain.Records.{Message, Snapshot, Receipt}
use harnessing.Table.{find, message_id}
use harnessing.Table.Laws.{Unique}
use harnessing.Store.{Faults, read_locked, load}
use harnessing.Engine.Commit.{Engine}
use harnessing.Engine.Messages.{is_noted}
use harnessing.Engine.Reads.{get_snapshot}
use harnessing.Mailbox.Tree.{insert_name}
use harnessing.Deliverer.{World, awaits_processing, published_ids, has_key, then_on, on_engine}
use harnessing.Deliverer.Changes.{IsPublished}
use harnessing.Deliverer.Order.{messages_at}

module _ {B : Type 0} (P : World B → Type 0) where
  pub then_on-keeps :
      (r : Result (Unit {0}) × World B) (next : World B → Result (Unit {0}) × World B)
      → P r.1
      → ((v : World B) → P v → P (next v).1)
      → P (then_on r next).1
  then_on-keeps (err e, v) next h keeps = h
  then_on-keeps (ok u, v) next h keeps = keeps v h

  pub if_turn-keeps :
      (b : Bool) (r : Result (Unit {0}) × World B) (v : World B)
      → (b ≡ true → P r.1)
      → P v
      → P (if b then r else (ok tt, v)).1
  if_turn-keeps true r v h k = h refl
  if_turn-keeps false r v h k = k

module _ {B : Type 0} (P : List Message → Type 0) where
  abbrev pub AtMessages : World B → Type 0
  AtMessages v = P (messages_at v.engine)

  pub on_engine-keeps :
      (r : Result Receipt × Engine) (v : World B)
      → P (messages_at r.1)
      → AtMessages (on_engine r v).1
  on_engine-keeps (err x, e) v h = h
  on_engine-keeps (ok receipt, e) v h = h

-- The snapshot that is read has the messages of the state file, or none.
pub messages-get_snapshot :
    (f : Faults) (e : Engine) (snap : Snapshot)
    → get_snapshot f e ≡ ok snap
    → (snap.messages ≡ messages_at e) ⊎ (snap.messages ≡ [])
unfolding get_snapshot load read_locked
messages-get_snapshot f e snap h = ground arith

has_key-insert_name :
    (id s : String) (xs : List String)
    → has_key id (insert_name s xs) ≡ true
    → (s ≡ id) ⊎ (has_key id xs ≡ true)
unfolding has_key insert_name
has_key-insert_name id s [] h = inl (ground (arith, eq_iff s id))
has_key-insert_name id s (t ∷ ts) h = elim (Bool-cases (str_eq s t)) [
  | inl e ↦ inr (rw e at h)
  | inr e ↦ go (compare s t) (rw e at h) (has_key-insert_name id s ts)
]
  where
    go :
        (o : Ordering)
        → has_key id (elim o [ Ordering.lt ↦ s ∷ t ∷ ts | _ ↦ t ∷ insert_name s ts ]) ≡ true
        → (has_key id (insert_name s ts) ≡ true → (s ≡ id) ⊎ (has_key id ts ≡ true))
        → (s ≡ id) ⊎ (has_key id (t ∷ ts) ≡ true)
    go Ordering.lt k ih = ground (arith, eq_iff s id)
    go Ordering.eq k ih = ground (arith, ih)
    go Ordering.gt k ih = ground (arith, ih)

pub published_ids-IsPublished :
    (id : String) (messages : List Message)
    → Unique message_id messages
    → has_key id (published_ids messages) ≡ true
    → IsPublished id messages
unfolding find published_ids has_key
published_ids-IsPublished id [] u h = absurd (cc)
published_ids-IsPublished id (m ∷ ms) u h = elim (Bool-cases (awaits_processing m)) [
  | inr e ↦ there (published_ids-IsPublished id ms u.1 (rw e at h))
  | inl e ↦ elim (has_key-insert_name id m.message_id (published_ids ms) (rw e at h)) [
    | inl same ↦ here same (ground arith)
    | inr k ↦ there (published_ids-IsPublished id ms u.1 k)
  ]
]
  where
    here : m.message_id ≡ id → is_noted m.published_at ≡ true → IsPublished id (m ∷ ms)
    here e noted = (m, ground (arith, e, eq_iff m.message_id id), noted)

    there : IsPublished id ms → IsPublished id (m ∷ ms)
    there (n, found, noted) = elim (Bool-cases (str_eq m.message_id id)) [
      | inl e ↦
          let same : m.message_id ≡ id = (eq_iff m.message_id id).0 e in
          let absent : find message_id id ms ≡ none = cc (u.0, same) in
          absurd (ground (arith, found, absent))
      | inr e ↦ (n, ground (arith, found, e), noted)
    ]
