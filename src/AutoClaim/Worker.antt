-- ===== src/AutoClaim/Worker.antt =====
-- rust/facilitator/src/auto_claim.rs: the worker of one collection. `run`, `prepare` and `resume`
-- are cut where they wait for an answer of the node; the locals that are used after the wait are
-- kept by the phase.
pub mod Prepare
pub mod Resume
pub mod Start
pub mod Monitor
pub mod Turn
pub mod Kept
pub mod Journal
pub mod Parts
pub mod Receipts
pub mod Plans
pub mod Readings
pub mod Runs
pub mod Begins
pub mod Turns
pub mod Elsewhere
pub mod Requests
pub mod Steps
pub mod Resends
pub mod Outcomes
pub mod Attempts
pub mod Starts
pub mod Resolution
use ic_facilitator.Prelude.{
  ℕ, Bool, true, false, not, ◌&&◌, Option, none, some, List, leb, if◌then◌else◌, is_some, Result,
  Checked, ok, err, ◌≡◌,
}
use ic_facilitator.Text.{Text, text, text_eq}
use ic_facilitator.Map
use ic_facilitator.Crates.{Message}
use ic_facilitator.State.{State, BatchChannel, Collection, Attempt}
use ic_facilitator.Config.{RpcConfig}
use ic_facilitator.Rpc.{FeeQuote, ContractSettlementOutcome}
use ic_facilitator.Batch.Checks.{now_ms}
use ic_facilitator.Batch.Store.{get_batch_channel}
use ic_facilitator.AutoClaim.{amount}
use ic_facilitator.AutoClaim.Hooks.{live}
use ic_facilitator.AutoClaim.Journal.{abandon_prepared}

-- What `prepare_contract_transaction_reserving` is called with, the sender's chain included.
pub record Unsigned : Type 0 where
  pub private_key : Text
  pub to : List ℕ
  pub «data» : List ℕ
  pub chain_id : ℕ
  pub nonce : ℕ

-- What the worker waits for: nothing, the answer to one of its reads, or the end of a sending.
pub data Phase : Type 0 where
  idle : Phase
  channel_state : RpcConfig → Text → Phase
  latest_claimed : RpcConfig → Attempt → Phase
  pending_nonce : RpcConfig → Attempt → Phase
  fee_quote : RpcConfig → Attempt → Unsigned → Phase
  gas_estimate : RpcConfig → Attempt → Unsigned → FeeQuote → Phase
  sending : Attempt → Phase
  receipt : RpcConfig → Attempt → Phase

-- `auto_claim_channel_state`: the balance, the claimed total and the time of a withdrawal.
pub record ChannelState : Type 0 where
  pub balance : Text
  pub claimed : Text
  pub withdrawal : ℕ

-- What the functions of rpc.rs make of the node's answer, each for the phase that waits for it.
pub record Answers : Type 0 where
  pub channel_state : Result ChannelState
  pub latest_claimed : Result ℕ
  pub pending_nonce : Result ℕ
  pub fee_quote : Result FeeQuote
  pub gas_estimate : Result ℕ
  pub receipt : Result ContractSettlementOutcome

-- The end of a part of `run`: it waits, or it has returned. A `none` in its place is a trap.
pub data Progress : Type 0 where
  waits : Phase → Progress
  returned : Checked → Progress

-- The channel has nothing to claim and no live payment; `none` is a trap.
unfoldable pub caught_up : Message → Option BatchChannel → ℕ → Option Bool
caught_up m none claimed = some false
caught_up m (some channel) claimed = elim (amount channel.charged_cumulative_amount) [
  | none ↦ none
  | some charged ↦ some (leb charged claimed && not (live (now_ms m) channel.pending_request))
]

-- The collection waits for no worker: no attempt, nothing forced, and the channel is caught up.
unfoldable pub quiescent : Message → Text → Collection → State → Option Bool
quiescent m id c s =
    if not (is_some c.attempt) && not c.force
    then caught_up m (get_batch_channel id s.batch_channels) c.claimed
    else some false

-- `prepare` gives an attempt up after an error; that the claim was mined already is none.
unfoldable pub give_up : Message → Text → Attempt → Text → State → Option (Progress × State)
give_up m id a e s = elim (abandon_prepared m id a s) [
  | none ↦ none
  | some s' ↦
      some (returned (if text_eq e (text "auto_claim_already_mined") then ok tt else err e), s')
]

-- The attempt that is stored for a collection.
abbrev attempt_in : Option Collection → Option Attempt
attempt_in none = none
attempt_in (some c) = c.attempt

abbrev pub attempt_of : Text → State → Option Attempt
attempt_of id s = attempt_in (Map.get id s.collections)
