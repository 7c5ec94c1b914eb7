-- ===== src/Domain/Errors.antt =====
-- internal/core/domain/errors.go. The human text `Detail` is left out: by the type's contract
-- callers branch on the code and the structured fields, never on it.
use harnessing.Prelude.{ℕ, String, Bool, true, false, Option, none}

pub data ErrorCode : Type 0 where
  invalid_argument not_found conflict denied unsupported busy io_failure : ErrorCode
  cursor_expired recovery_required missing_tool authentication_required : ErrorCode
  network_egress_refused spawn_failed outcome_uncertain : ErrorCode

-- `""` for every code but `outcome_uncertain`.
pub data Effect : Type 0 where
  unset_effect applied unknown_effect : Effect

pub data ConfirmationKind : Type 0 where
  unset_confirmation durability outcome : ConfirmationKind

pub record Error : Type 0 where
  pub code : ErrorCode
  pub request_id : String
  pub workspace_id : String
  pub effect : Effect
  pub confirmation : ConfirmationKind
  pub observed_revision : Option ℕ

-- A Go `error`: a `*domain.Error`, or any other.
pub data GoError : Type 0 where
  domain_error : Error → GoError
  other_error : String → GoError

pub data Result {ℓ} (A : Type ℓ) : Type ℓ where
  ok : A → Result A
  err : GoError → Result A

-- `&domain.Error{Code: code, …}`
abbrev pub coded : ErrorCode → GoError
coded c = domain_error (record {
  code = c;
  request_id = "";
  workspace_id = "";
  effect = unset_effect;
  confirmation = unset_confirmation;
  observed_revision = none;
})

abbrev pub fail {ℓ} : {A : Type ℓ} → ErrorCode → Result A
fail c = err (coded c)

-- `if err != nil { return …, err }`, and on with the value.
infixl 5 ◌>>=◌ ◌>>◌
abbrev pub ◌>>=◌ {κ ℓ} :
    {After : Type κ} {Value : Type ℓ}
    → (attempt : Result Value) (next : Value → Result After) → Result After
err failure >>= next = err failure
ok value >>= next = next value

-- The same behind a check, which has no value to hand on.
abbrev pub ◌>>◌ {κ} :
    {After : Type κ} (check : Result (Unit {0})) (next : Result After) → Result After
check >> next = check >>= (λ passed. next)

-- `if bad { return …, &domain.Error{Code: c} }`
abbrev pub reject_if : Bool → ErrorCode → Result (Unit {0})
reject_if true c = fail c
reject_if false c = ok tt
