-- ===== src/Batch/Requests.antt =====
-- rust/facilitator/src/batch.rs: the requests of the batch scheme, and what checks them.
pub mod Fields
pub mod Requirements
pub mod Deposits
pub mod Claims
pub mod Verify
pub mod Settle
pub mod Backed
pub mod Claimed
use ic_facilitator.Prelude.{
  ℕ, Bool, false, not, Option, none, some, Result, Checked, ok, fail_if, is_some, if◌then◌else◌,
}
use ic_facilitator.Text.{Text, text, text_eq, is_blank}
use ic_facilitator.Rpc.Json.{Json, get, get_str, and_then}
use ic_facilitator.Payment.{PaymentRequirements, ResourceInfo}
use ic_facilitator.Tx.{BatchRequestPayload}

pub record BatchPaymentPayload : Type 0 where
  pub x402_version : ℕ
  pub resource : Option ResourceInfo
  pub accepted : PaymentRequirements
  pub payload : Json
  pub extensions : Option Json

pub record BatchFacilitatorRequest : Type 0 where
  pub x402_version : ℕ
  pub payment_payload : BatchPaymentPayload
  pub payment_requirements : PaymentRequirements

pub record BatchVerification : Type 0 where
  pub payer : Text
  pub receiver : Text

pub record BatchSettleValidation : Type 0 where
  pub payer : Option Text
  pub receiver : Text

-- `option == Some(expected)`
abbrev pub is_text : Text → Option Text → Bool
is_text expected none = false
is_text expected (some value) = text_eq value expected

-- `option.filter(|value| !value.trim().is_empty())`
abbrev pub not_blank : Option Text → Option Text
not_blank none = none
not_blank (some value) = if is_blank value then none else some value

-- `if let Some(value) = option { check(value)? }`
abbrev pub if_some {ℓ} : {A : Type ℓ} → Option A → (A → Checked) → Checked
if_some none check = ok tt
if_some (some value) check = check value

abbrev pub batch_scheme : Text
batch_scheme = text "batch-settlement"

unfoldable pub is_batch_request : Json → Bool
is_batch_request value =
    is_text batch_scheme
      (and_then (get (text "paymentRequirements") value) (get_str (text "scheme")))

-- `serde_json::from_value` for a payload, with the message of its error
pub record PayloadReader : Type 0 where
  pub from_value : Json → Result BatchRequestPayload
