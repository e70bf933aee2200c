-- ===== src/Settlement/Record.antt =====
-- rust/facilitator/src/state.rs, with the responses of facilitator.rs.
use ic_facilitator.Prelude.{
  ℕ, ◌+◌, ◌≡◌, ◌↔◌, Bool, true, false, not, ◌||◌, Option, none, some, arith, if◌then◌else◌, or_else,
}
use ic_facilitator.Text.{Text, text, text_eq, text_eq_iff, is_blank}
use ic_facilitator.Map.{Map}
use ic_facilitator.Crates.{Message}
use ic_facilitator.State.{SettleResponse, SettlementRecord, BroadcastSettlement}
use ic_facilitator.Config.{configured_network, sat_u64}

unfoldable pub failed_settlement : Text → Text → Text → Option Text → SettleResponse
failed_settlement network reason message payer = record {
  success = false;
  transaction = text "";
  network = network;
  payer = payer;
  amount = none;
  error_reason = some reason;
  error_message = some message;
  extra = none;
  extra_json = none;
}

unfoldable pub successful_settlement : Message → Map Text → Text → Text → Text → SettleResponse
successful_settlement m vars tx payer amount = record {
  success = true;
  transaction = tx;
  network = configured_network m vars;
  payer = some payer;
  amount = some amount;
  error_reason = none;
  error_message = none;
  extra = none;
  extra_json = none;
}

unfoldable pub pending_response :
    Message → Map Text → Text → Text → Text → Text → Text → SettleResponse
unfolding failed_settlement
pending_response m vars tx reason message payer amount =
    record (failed_settlement (configured_network m vars) reason message (some payer)) {
      transaction = tx;
      amount = some amount;
    }

-- `SettlementRecord::new`
unfoldable pub new_record : Text → SettleResponse → Option Text → ℕ → ℕ → SettlementRecord
new_record status response pay_to now ttl = record {
  status = status;
  response = response;
  pay_to = pay_to;
  batch_pre_refund_snapshot = none;
  settlement_kind = none;
  charged_fee = none;
  attempt_started_at = if text_eq status (text "checking") then some now else none;
  target_total_claimed = none;
  created_at = now;
  updated_at = now;
  expires_at = sat_u64 (now + ttl);
}

module _ (m : Message) (vars : Map Text) where
  unfoldable pub checking : Text → Text → Text → ℕ → ℕ → SettlementRecord
  unfolding new_record pending_response
  checking payer pay_to amount now ttl =
      new_record (text "checking")
        (pending_response m vars (text "") (text "settlement_checking")
          (text "settlement validation is in progress") payer amount)
        (some pay_to) now ttl

  unfoldable pub broadcast : Text → Text → Text → Text → ℕ → ℕ → SettlementRecord
  unfolding new_record pending_response
  broadcast tx payer pay_to amount now ttl =
      new_record (text "broadcast")
        (pending_response m vars tx (text "settlement_pending")
          (text "settlement tx is pending confirmation") payer amount)
        (some pay_to) now ttl

  unfoldable pub settled : Text → Text → Text → Text → ℕ → ℕ → SettlementRecord
  unfolding new_record successful_settlement
  settled tx payer pay_to amount now ttl =
      new_record (text "settled") (successful_settlement m vars tx payer amount) (some pay_to) now
        ttl

  unfoldable pub failed : Text → Text → Text → Text → ℕ → ℕ → SettlementRecord
  unfolding new_record failed_settlement
  failed tx message payer pay_to now ttl =
      new_record (text "failed")
        (record (failed_settlement (configured_network m vars) (text "settlement_failed") message
          (some payer)) { transaction = tx })
        (some pay_to) now ttl

unfoldable pub settled_response : SettleResponse → Text → ℕ → ℕ → SettlementRecord
unfolding new_record
settled_response response pay_to now ttl =
    new_record (text "settled") response (some pay_to) now ttl

unfoldable pub status_code : SettlementRecord → ℕ
status_code r =
    if text_eq r.status (text "settled")
    then 200
    else if text_eq r.status (text "checking") || text_eq r.status (text "broadcast")
    then 202
    else 502

unfoldable pub is_broadcast : SettlementRecord → Bool
is_broadcast r = text_eq r.status (text "broadcast")

-- The `?` on each optional field, and the filter on the transaction.
abbrev details :
    SettlementRecord → Option Text → Option Text → Option Text → Option BroadcastSettlement
details r none payer pay_to = none
details r (some amount) none pay_to = none
details r (some amount) (some payer) none = none
details r (some amount) (some payer) (some pay_to) =
    if is_blank r.response.transaction
    then none
    else some (record {
      amount = amount;
      batch_pre_refund_snapshot = r.batch_pre_refund_snapshot;
      payer = payer;
      pay_to = pay_to;
      tx = r.response.transaction;
    })

unfoldable pub broadcast_settlement : SettlementRecord → Option BroadcastSettlement
unfolding is_broadcast
broadcast_settlement r =
    if not (is_broadcast r) then none else details r r.response.amount r.response.payer r.pay_to

unfoldable pub with_metadata :
    SettlementRecord → Text → Option Text → Option Text → SettlementRecord
with_metadata r settlement_kind charged_fee target_total_claimed = record r {
  settlement_kind = some settlement_kind;
  charged_fee = charged_fee;
  target_total_claimed = target_total_claimed;
  attempt_started_at =
      if text_eq r.status (text "checking") then some r.created_at else r.attempt_started_at;
}

unfoldable pub inherit_metadata_from : SettlementRecord → SettlementRecord → SettlementRecord
inherit_metadata_from r previous = record r {
  created_at = previous.created_at;
  settlement_kind = previous.settlement_kind;
  charged_fee = previous.charged_fee;
  attempt_started_at = previous.attempt_started_at;
  target_total_claimed = previous.target_total_claimed;
  batch_pre_refund_snapshot =
      or_else r.batch_pre_refund_snapshot previous.batch_pre_refund_snapshot;
}

-- A record exposes details of a broadcast exactly if its status is "broadcast", its transaction is
-- not blank and its amount, payer and seller are known; they are then those of the record.
pub broadcast_settlement_iff :
    (r : SettlementRecord) (d : BroadcastSettlement)
    → (broadcast_settlement r ≡ some d) ↔ (
        (r.status ≡ text "broadcast")
        × (is_blank d.tx ≡ false)
        × (r.response.transaction ≡ d.tx)
        × (r.response.amount ≡ some d.amount)
        × (r.response.payer ≡ some d.payer)
        × (r.pay_to ≡ some d.pay_to)
        × (r.batch_pre_refund_snapshot ≡ d.batch_pre_refund_snapshot))
unfolding broadcast_settlement
broadcast_settlement_iff r d = ground (arith, text_eq_iff r.status (text "broadcast"))
