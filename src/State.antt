-- ===== src/State.antt =====
-- The data that the canister keeps: rust/facilitator/src/state.rs, types.rs, batch.rs, rpc.rs and
-- the structs and stable maps at the top of lib.rs and auto_claim.rs.
use ic_facilitator.Prelude.{ℕ, Bool, Option, List}
use ic_facilitator.Text.{Text}
use ic_facilitator.Map.{Map}

pub record SettleResponse : Type 0 where
  pub success : Bool
  pub transaction : Text
  pub network : Text
  pub payer : Option Text
  pub amount : Option Text
  pub error_reason : Option Text
  pub error_message : Option Text
  pub extra : Option (Map Text)
  pub extra_json : Option Text

pub record BatchChannelSnapshot : Type 0 where
  pub channel_id : Text
  pub balance : Text
  pub total_claimed : Text
  pub withdraw_requested_at : ℕ
  pub refund_nonce : Text

pub record BroadcastSettlement : Type 0 where
  pub amount : Text
  pub batch_pre_refund_snapshot : Option BatchChannelSnapshot
  pub payer : Text
  pub pay_to : Text
  pub tx : Text

pub record SettlementRecord : Type 0 where
  pub status : Text
  pub response : SettleResponse
  pub pay_to : Option Text
  pub batch_pre_refund_snapshot : Option BatchChannelSnapshot
  pub settlement_kind : Option Text
  pub charged_fee : Option Text
  pub attempt_started_at : Option ℕ
  pub target_total_claimed : Option Text
  pub created_at : ℕ
  pub updated_at : ℕ
  pub expires_at : ℕ

pub record SellerCredit : Type 0 where
  pub credit_atoms : ℕ
  pub updated_at : ℕ

pub record ActiveSettlement : Type 0 where
  pub key : Text
  pub nonce : Option ℕ
  pub tx : Option Text

pub record NonceState : Type 0 where
  pub next_nonce : Option ℕ

pub record BatchChannelConfig : Type 0 where
  pub payer : Text
  pub payer_authorizer : Text
  pub receiver : Text
  pub receiver_authorizer : Text
  pub token : Text
  pub withdraw_delay : ℕ
  pub salt : Text

pub record BatchPendingRequest : Type 0 where
  pub pending_id : Text
  pub signed_max_claimable : Text
  pub expires_at : ℕ

pub record BatchChannel : Type 0 where
  pub channel_id : Text
  pub channel_config : BatchChannelConfig
  pub charged_cumulative_amount : Text
  pub signed_max_claimable : Text
  pub signature : Text
  pub balance : Text
  pub total_claimed : Text
  pub withdraw_requested_at : ℕ
  pub refund_nonce : Text
  pub onchain_synced_at : Option ℕ
  pub last_request_timestamp : ℕ
  pub pending_request : Option BatchPendingRequest
  pub revision : ℕ

pub record BatchDeletedChannel : Type 0 where
  pub channel : BatchChannel
  pub deleted_at : ℕ
  pub deleted_by : Text

-- auto_claim.rs
pub record Charge : Type 0 where
  pub amount : ℕ
  pub at : ℕ

pub record Attempt : Type 0 where
  pub key : Text
  pub channel : BatchChannel
  pub target : ℕ
  pub from : Text
  pub contract : Text
  pub chain_id : ℕ
  pub scope : Text
  pub fee : ℕ
  pub nonce : Option ℕ
  pub raw : Option Text
  pub tx : Option Text

pub record Collection : Type 0 where
  pub seed : BatchChannel
  pub charges : List Charge
  pub claimed : ℕ
  pub oldest_legacy : Option ℕ
  pub force : Bool
  pub next_due : ℕ
  pub monitored_at : Option ℕ
  pub withdrawal_at : ℕ
  pub balance : ℕ
  pub monitor_calls : ℕ
  pub monitor_cycles_reserved : ℕ
  pub error : Option Text
  pub attempt : Option Attempt
  pub halted : Bool
  pub attempt_sequence : ℕ

-- The stable maps. (The SQLite tables of sellers and writer scopes are not here: the one question
-- that the modelled code asks them is a parameter of the operations that ask it.)
pub record State : Type 0 where
  pub env : Map Text
  pub settlements : Map SettlementRecord
  pub seller_credits : Map SellerCredit
  pub credited_settlements : Map Text
  pub active_settlements : Map ActiveSettlement
  pub nonces : Map NonceState
  pub batch_channels : Map BatchChannel
  pub batch_deleted_channels : Map BatchDeletedChannel
  pub seller_settlement_index : Map Text
  pub policies : Map ℕ
  pub collections : Map Collection
  pub due : Map ℕ
