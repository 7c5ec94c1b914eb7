-- ===== src/Transport.antt =====
-- internal/adapters/transport/protocol.go: what passes between a continuing host and an attached
-- client. JSON is a parameter: per type, what json.Marshal and json.Unmarshal do. Go's conversions
-- between string types, such as string(derr.Code), are the identity.
pub mod Files
pub mod Session
pub mod Codec
pub mod Dispatch
pub mod Serving
pub mod Client
pub mod Ticking
pub mod Attaching
pub mod Written
pub mod Pending
pub mod Once
pub mod Repeats
pub mod Carried
pub mod Serviced
pub mod RoundTrip
pub mod Authority
use harnessing.Prelude.{
  ℕ, String, Bool, true, false, Option, none, some, List, ◌≡◌, str_eq, ◌||◌, if◌then◌else◌,
}
use harnessing.Domain.Errors.{
  ErrorCode, io_failure, outcome_uncertain, Effect, unset_effect, ConfirmationKind,
  unset_confirmation, Error, GoError, domain_error, other_error,
}

-- A request, its payload the JSON that the client sent.
pub record Envelope (B : Type 0) : Type 0 where
  pub operation : String
  pub payload : Option B

pub record ErrorInfo : Type 0 where
  pub code : ErrorCode
  pub request_id : String
  pub workspace_id : String
  pub effect : Effect
  pub confirmation : ConfirmationKind
  pub observed_revision : Option ℕ
  pub uncertain : Bool

-- An answer.
pub record Response (B : Type 0) : Type 0 where
  pub ok : Bool
  pub result : Option B
  pub error : Option ErrorInfo

pub record AttachPayload : Type 0 where
  pub caller_agent_id : String

pub record HostMarker : Type 0 where
  pub generation : String
  pub pid : ℕ

abbrev pub is_uncertain : ErrorCode → Bool
is_uncertain outcome_uncertain = true
is_uncertain _ = false

abbrev pub plain_info : ErrorCode → ErrorInfo
plain_info c = record {
  code = c;
  request_id = "";
  workspace_id = "";
  effect = unset_effect;
  confirmation = unset_confirmation;
  observed_revision = none;
  uncertain = false;
}

-- errorInfo
unfoldable pub error_info : GoError → ErrorInfo
error_info (other_error s) = plain_info io_failure
error_info (domain_error e) = record {
  code = e.code;
  request_id = e.request_id;
  workspace_id = e.workspace_id;
  effect = e.effect;
  confirmation = e.confirmation;
  observed_revision = e.observed_revision;
  uncertain = is_uncertain e.code;
}

-- ToDomainError, which a nil receiver answers by nil.
unfoldable pub to_domain_error : Option ErrorInfo → Option Error
to_domain_error none = none
to_domain_error (some e) = some (record {
  code = e.code;
  request_id = e.request_id;
  workspace_id = e.workspace_id;
  effect = e.effect;
  confirmation = e.confirmation;
  observed_revision = e.observed_revision;
})

abbrev pub attach_operation : String
attach_operation = "attach"

abbrev pub detach_operation : String
detach_operation = "detach"

-- json.Marshal and json.Unmarshal at one type; each may fail.
pub record Coding (B A : Type 0) : Type 0 where
  pub encode : A → Option B
  pub decode : B → Option A

-- What the package relies on where a value is read back as it was written.
pub record IsCoding {B A : Type 0} (c : Coding B A) : Type 0 where
  pub encoded : A → B
  pub encodes : (x : A) → c.encode x ≡ some (encoded x)
  pub decodes : (x : A) → c.decode (encoded x) ≡ some x

abbrev pub succeeded : {B : Type 0} → Option B → Response B
succeeded result = record { ok = true; result = result; error = none }

abbrev pub refused : {B : Type 0} → ErrorInfo → Response B
refused e = record { ok = false; result = none; error = some e }
