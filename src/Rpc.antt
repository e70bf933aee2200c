-- ===== src/Rpc.antt =====
-- rust/facilitator/src/rpc.rs: what the node answers, and what the canister makes of it.
pub mod Decimal
pub mod Json
pub mod Receipts
pub mod Contracts
pub mod Outcomes
pub mod Verdicts
pub mod Sent
pub mod Logs
pub mod Settled
pub mod Words
pub mod Monitored
use ic_facilitator.Prelude.{ℕ, Option}
use ic_facilitator.Text.{Text}

pub record FeeQuote : Type 0 where
  pub max_fee_per_gas : ℕ
  pub max_priority_fee_per_gas : ℕ

pub data ContractSettlementOutcome : Type 0 where
  settled : (tx : Text) → (settled_amount : Option Text) → ContractSettlementOutcome
  pending : (nonce : ℕ) → (tx : Text) → ContractSettlementOutcome
  failed : (tx : Text) → (message : Text) → ContractSettlementOutcome

pub data SettlementSendError : Type 0 where
  gas_too_expensive : SettlementSendError
  ambiguous : (nonce : ℕ) → (tx : Text) → (message : Text) → SettlementSendError
  other : (message : Text) → SettlementSendError
