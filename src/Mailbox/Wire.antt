-- ===== src/Mailbox/Wire.antt =====
-- The records that internal/adapters/mailbox/file.go reads and writes (internal/core/domain's
-- Envelope and MessageAcknowledgement), and encoding/json and sort.Slice as the package uses them.
use harnessing.Prelude.{
  ℕ, String, Bool, true, false, Option, none, some, List, [], ◌∷◌, not, ◌&&◌, ◌||◌, ◌==◌, ◌≡◌, ◌↔◌,
  ◌⊎◌, refl, ap, arith, str_eq, eq_iff,
}
use harnessing.Domain.Records.{MessageKind, request, inform, result, other_kind}
use harnessing.Engine.Messages.{valid_message_kind}

-- Every check of a version compares it with 0 or 1, so a negative one is like any that is greater.
pub record Envelope : Type 0 where
  pub schema_version : ℕ
  pub workspace_id : String
  pub message_id : String
  pub sender_agent_id : String
  pub recipient_agent_id : String
  pub kind : MessageKind
  pub body : String
  pub created_at : ℕ
  pub task_id : Option String
  pub reply_to_message_id : Option String

pub record MessageAcknowledgement : Type 0 where
  pub schema_version : ℕ
  pub workspace_id : String
  pub control_record_id : String
  pub original_message_id : String
  pub recipient_agent_id : String

-- validEnvelope
unfoldable pub valid_envelope : Envelope → Bool
valid_envelope env =
    env.schema_version == 1
    && (not (
          str_eq env.message_id ""
          || (str_eq env.sender_agent_id "" || str_eq env.recipient_agent_id ""))
        && valid_message_kind env.kind)

abbrev pub kind_eq : MessageKind → MessageKind → Bool
kind_eq request request = true
kind_eq inform inform = true
kind_eq result result = true
kind_eq (other_kind a) (other_kind b) = str_eq a b
kind_eq _ _ = false

abbrev pub both_nil : Option String → Option String → Bool
both_nil none none = true
both_nil _ _ = false

-- `prior == envelope` for a `prior` that json.Unmarshal has just filled: a pointer that it
-- allocated is no pointer of the caller's, so the two fields are equal only where both are nil.
unfoldable pub same_envelope : Envelope → Envelope → Bool
same_envelope a b =
    a.schema_version == b.schema_version
    && (str_eq a.workspace_id b.workspace_id
        && (str_eq a.message_id b.message_id
            && (str_eq a.sender_agent_id b.sender_agent_id
                && (str_eq a.recipient_agent_id b.recipient_agent_id
                    && (kind_eq a.kind b.kind
                        && (str_eq a.body b.body
                            && (a.created_at == b.created_at
                                && (both_nil a.task_id b.task_id
                                    && both_nil a.reply_to_message_id b.reply_to_message_id))))))))

-- A file's content, json.MarshalIndent and json.Unmarshal on it, and the sort by CreatedAt.
pub record Wire (B : Type 0) : Type 0 where
  pub size : B → ℕ
  pub encode_envelope : Envelope → B
  pub decode_envelope : B → Option Envelope
  pub encode_ack : MessageAcknowledgement → B
  pub decode_ack : B → Option MessageAcknowledgement
  pub sort : List Envelope → List Envelope

-- An element of a list.
abbrev pub Member : {A : Type 0} → A → List A → Type 0
Member x [] = ⊥
Member x (y ∷ ys) = (y ≡ x) ⊎ Member x ys

-- What the package relies on: what was marshalled is unmarshalled to the same, and sorting
-- keeps the elements.
pub record IsWire {B : Type 0} (w : Wire B) : Type 0 where
  pub envelope_back : (env : Envelope) → w.decode_envelope (w.encode_envelope env) ≡ some env
  pub ack_back : (ack : MessageAcknowledgement) → w.decode_ack (w.encode_ack ack) ≡ some ack
  pub sorted : (es : List Envelope) (env : Envelope) → Member env (w.sort es) ↔ Member env es

kind_eq-eq : (a b : MessageKind) → kind_eq a b ≡ true → a ≡ b
kind_eq-eq request request h = refl
kind_eq-eq inform inform h = refl
kind_eq-eq result result h = refl
kind_eq-eq (other_kind a) (other_kind b) h = ap (λ s. other_kind s) ((eq_iff a b).0 h)
kind_eq-eq _ _ h = cc

both_nil-eq : (a b : Option String) → both_nil a b ≡ true → a ≡ b
both_nil-eq none none h = refl
both_nil-eq _ _ h = cc

pub same_envelope-eq : (a b : Envelope) → same_envelope a b ≡ true → a ≡ b
unfolding same_envelope
same_envelope-eq a b h = ground (
  arith,
  eq_iff a.workspace_id b.workspace_id,
  eq_iff a.message_id b.message_id,
  eq_iff a.sender_agent_id b.sender_agent_id,
  eq_iff a.recipient_agent_id b.recipient_agent_id,
  kind_eq-eq a.kind b.kind,
  eq_iff a.body b.body,
  both_nil-eq a.task_id b.task_id,
  both_nil-eq a.reply_to_message_id b.reply_to_message_id,
)

kind_eq_refl : (a : MessageKind) → kind_eq a a ≡ true
kind_eq_refl request = refl
kind_eq_refl inform = refl
kind_eq_refl result = refl
kind_eq_refl (other_kind a) = (eq_iff a a).1 refl

-- Neither of the two nilable fields is set.
abbrev pub has_no_reference : Envelope → Bool
has_no_reference env =
    both_nil env.task_id env.task_id && both_nil env.reply_to_message_id env.reply_to_message_id

pub same_envelope_refl : (a : Envelope) → same_envelope a a ≡ has_no_reference a
unfolding same_envelope
same_envelope_refl a = ground (
  arith,
  (eq_iff a.workspace_id a.workspace_id).1 refl,
  (eq_iff a.message_id a.message_id).1 refl,
  (eq_iff a.sender_agent_id a.sender_agent_id).1 refl,
  (eq_iff a.recipient_agent_id a.recipient_agent_id).1 refl,
  kind_eq_refl a.kind,
  (eq_iff a.body a.body).1 refl,
)
