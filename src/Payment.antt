-- ===== src/Payment.antt =====
-- rust/facilitator/src/types.rs, facilitator.rs and eip712.rs: payments by an EIP-3009
-- authorization.
pub mod Signer
pub mod Validation
pub mod Accepted
use ic_facilitator.Prelude.{ℕ, Option}
use ic_facilitator.Text.{Text}
use ic_facilitator.Rpc.Json.{Json}

pub record PaymentRequirements : Type 0 where
  pub scheme : Text
  pub network : Text
  pub amount : Text
  pub asset : Text
  pub pay_to : Text
  pub max_timeout_seconds : ℕ
  pub extra : Json

pub record ResourceInfo : Type 0 where
  pub url : Text
  pub description : Option Text
  pub mime_type : Option Text

pub record Eip3009Authorization : Type 0 where
  pub from : Text
  pub to : Text
  pub value : Text
  pub valid_after : Text
  pub valid_before : Text
  pub nonce : Text

pub record Eip3009Payload : Type 0 where
  pub signature : Text
  pub authorization : Eip3009Authorization

pub record PaymentPayload : Type 0 where
  pub x402_version : ℕ
  pub resource : Option ResourceInfo
  pub accepted : PaymentRequirements
  pub payload : Eip3009Payload
  pub extensions : Option Json

pub record FacilitatorRequest : Type 0 where
  pub x402_version : ℕ
  pub payment_payload : PaymentPayload
  pub payment_requirements : PaymentRequirements
