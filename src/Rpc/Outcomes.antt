-- ===== src/Rpc/Outcomes.antt =====
-- rust/facilitator/src/rpc.rs: what the canister does with an answer: fees, sending, receipts.
use ic_facilitator.Prelude.{
  ℕ, ◌+◌, ◌*◌, Bool, false, not, ◌&&◌, ◌||◌, ◌==◌, Option, none, some, List, [], ◌∷◌, ◌++◌,
  if◌then◌else◌, Result, Checked, ok, err, ◌>>=◌, ◌>>◌, ok_or, fail_if,
}
use ic_facilitator.Text.{Text, text, text_eq, eq_ignore_ascii_case, starts_with, to_ascii_lowercase}
use ic_facilitator.Map.{Map}
use ic_facilitator.Crates.{Crates, Message}
use ic_facilitator.Config.{sat_u128}
use ic_facilitator.Hexutil.{parse_hex}
use ic_facilitator.Rpc.{FeeQuote, ContractSettlementOutcome, SettlementSendError}
use ic_facilitator.Rpc.Json.{
  Json, null, SerdeJson, get, get_str, get_array, as_str, as_u64, as_array, and_then,
}
use ic_facilitator.Rpc.Receipts.{
  parse_hex_quantity, holds_of, ReceiptStatus, ExpectedTransfer, receipt_status,
}
use ic_facilitator.Rpc.Contracts.{
  ContractExpectation, ContractReceiptStatus, receipt_status_for_contract,
}

abbrev first : List Json → Option Json
first [] = none
first (value ∷ values) = some value

abbrev last : List Json → Option Json
last [] = none
last (value ∷ []) = some value
last (value ∷ next ∷ values) = last (next ∷ values)

unfoldable pub fee_quote_from_history : Json → Result FeeQuote
fee_quote_from_history value = do
  base ←
      ok_or (and_then (and_then (get_array (text "baseFeePerGas") value) last) as_str)
        (text "eth_feeHistory: missing next baseFeePerGas")
  base_fee ← parse_hex_quantity (text "baseFeePerGas") base
  reward ←
      ok_or
        (and_then
          (and_then (and_then (and_then (get_array (text "reward") value) first) as_array) first)
          as_str)
        (text "eth_feeHistory: missing reward percentile")
  priority_fee ← parse_hex_quantity (text "reward") reward
  ok (record {
    max_fee_per_gas = sat_u128 (sat_u128 (base_fee * 2) + priority_fee);
    max_priority_fee_per_gas = priority_fee;
  })

unfoldable pub require_receipt_transaction_hash : Json → Text → Checked
require_receipt_transaction_hash receipt expected =
    fail_if
      (not (
        holds_of (get_str (text "transactionHash") receipt)
          (λ actual. eq_ignore_ascii_case actual expected)))
      (text "eth_getTransactionReceipt: transaction hash mismatch")

-- `value.get("jsonrpc") == "2.0" && value.get("id") == 1`
abbrev pub is_one : Option ℕ → Bool
is_one none = false
is_one (some n) = n == 1

unfoldable pub is_envelope : Json → Bool
is_envelope value =
    holds_of (get_str (text "jsonrpc") value) (λ v. text_eq v (text "2.0"))
    && is_one (and_then (get (text "id") value) as_u64)

-- `haystack.contains(needle)`
unfoldable pub contains : Text → Text → Bool
contains [] needle = starts_with [] needle
contains (c ∷ s) needle = starts_with (c ∷ s) needle || contains s needle

unfoldable pub raw_transaction_hash : Crates → Text → Result Text
raw_transaction_hash c raw = do
  bytes ← parse_hex c raw none
  ok (text "0x" ++ c.hex_encode (c.keccak256 bytes))

-- What `eth_sendRawTransaction` came to.
pub data Sending : Type 0 where
  accepted : (tx : Text) → Sending
  ambiguous : (tx : Text) → (message : Text) → Sending
  rejected : (message : Text) → Sending

abbrev send_message : Text → Text
send_message message = text "eth_sendRawTransaction" ++ message

-- The hash is that of the bytes; the node's answer only confirms it.
unfoldable pub confirmed_hash : Text → Option Text → Sending
confirmed_hash hash none = ambiguous hash (send_message (text ": missing string result"))
confirmed_hash hash (some returned) =
    if eq_ignore_ascii_case returned hash
    then accepted hash
    else ambiguous hash (send_message (text ": returned transaction hash mismatch: " ++ returned))

module _ (json : SerdeJson) where
  unfoldable pub parse_rpc_value : Text → Text → Result Json
  parse_rpc_value method body = do
    value ← ok_or (json.from_str body) (text "invalid rpc json: " ++ body)
    fail_if (not (is_envelope value)) (method ++ text ": invalid JSON-RPC envelope")
    elim (get (text "error") value) [
      | some error ↦ err (method ++ (text ": " ++ json.to_string error))
      | none ↦ ok_or (get (text "result") value) (method ++ text ": missing result")
    ]

  unfoldable pub sent_value : Text → Json → Sending
  sent_value hash value =
      if not (is_envelope value)
      then ambiguous hash (send_message (text ": invalid JSON-RPC envelope"))
      else elim (get (text "error") value) [
        | some error ↦
            if contains (to_ascii_lowercase (send_message (text ": " ++ json.to_string error)))
              (text "already known")
            then accepted hash
            else rejected (send_message (text ": " ++ json.to_string error))
        | none ↦ confirmed_hash hash (and_then (get (text "result") value) as_str)
      ]

  -- `send_raw_transaction`, for the text that `rpc_post` answers
  unfoldable pub send_raw_transaction : Crates → Text → Result Text → Sending
  send_raw_transaction c raw answer = elim (raw_transaction_hash c raw) [
    | err message ↦ rejected message
    | ok hash ↦ elim answer [
      | err message ↦ ambiguous hash message
      | ok body ↦ elim (json.from_str body) [
        | none ↦ ambiguous hash (send_message (text ": invalid JSON-RPC response"))
        | some value ↦ sent_value hash value
      ]
    ]
  ]

-- `Result<BroadcastedTransaction, SettlementSendError>`
pub data Broadcast : Type 0 where
  broadcasted : (nonce : ℕ) → (tx : Text) → Broadcast
  not_broadcast : SettlementSendError → Broadcast

-- `send_prepared_transaction`, for what the sending came to
unfoldable pub with_nonce : ℕ → Sending → Broadcast
with_nonce nonce (accepted tx) = broadcasted nonce tx
with_nonce nonce (ambiguous tx message) =
    not_broadcast (SettlementSendError.ambiguous nonce tx message)
with_nonce nonce (rejected message) = not_broadcast (SettlementSendError.other message)

unfoldable pub post_contract_broadcast_outcome :
    Text → ℕ → Result ContractReceiptStatus → ContractSettlementOutcome
post_contract_broadcast_outcome tx nonce (ok (ContractReceiptStatus.success settled_amount)) =
    ContractSettlementOutcome.settled tx settled_amount
post_contract_broadcast_outcome tx nonce (ok ContractReceiptStatus.pending) =
    ContractSettlementOutcome.pending nonce tx
post_contract_broadcast_outcome tx nonce (err _) = ContractSettlementOutcome.pending nonce tx
post_contract_broadcast_outcome tx nonce (ok (ContractReceiptStatus.failed message)) =
    ContractSettlementOutcome.failed tx message

-- `receipt_status_for_contract_tx`, for what the receipt and the latest block were answered with
unfoldable pub receipt_status_for_contract_tx :
    Crates
    → Text
    → Result Json
    → Result ℕ
    → List ℕ
    → Option Text
    → ContractExpectation
    → ℕ
    → Result ContractReceiptStatus
receipt_status_for_contract_tx c tx (err e) latest to from expectation min_confirmations = err e
receipt_status_for_contract_tx c tx (ok null) latest to from expectation min_confirmations =
    ok ContractReceiptStatus.pending
receipt_status_for_contract_tx c tx (ok result) latest to from expectation min_confirmations = do
  require_receipt_transaction_hash result tx
  latest_block ← latest
  ok (receipt_status_for_contract c result to from expectation latest_block min_confirmations)

-- `refresh_contract_settlement`, which unlike the outcome after a broadcast passes on an error
unfoldable pub refresh_contract_settlement :
    Text → Result ContractReceiptStatus → Result ContractSettlementOutcome
refresh_contract_settlement tx (err e) = err e
refresh_contract_settlement tx (ok status) = ok (post_contract_broadcast_outcome tx 0 (ok status))

pub data SettlementOutcome : Type 0 where
  settled : (tx : Text) → SettlementOutcome
  pending : (nonce : ℕ) → (tx : Text) → SettlementOutcome
  failed : (tx : Text) → (message : Text) → SettlementOutcome

unfoldable pub post_broadcast_outcome : Text → ℕ → Result ReceiptStatus → SettlementOutcome
post_broadcast_outcome tx nonce (ok ReceiptStatus.success) = settled tx
post_broadcast_outcome tx nonce (ok ReceiptStatus.pending) = pending nonce tx
post_broadcast_outcome tx nonce (err _) = pending nonce tx
post_broadcast_outcome tx nonce (ok (ReceiptStatus.failed message)) = failed tx message

unfoldable pub receipt_status_for_tx :
    Message → Map Text → Text → Result Json → Result ℕ → ExpectedTransfer → ℕ → Result ReceiptStatus
receipt_status_for_tx m vars tx (err e) latest expected min_confirmations = err e
receipt_status_for_tx m vars tx (ok null) latest expected min_confirmations =
    ok ReceiptStatus.pending
receipt_status_for_tx m vars tx (ok result) latest expected min_confirmations = do
  require_receipt_transaction_hash result tx
  latest_block ← latest
  ok (receipt_status m vars result expected latest_block min_confirmations)

unfoldable pub refresh_settlement : Text → Result ReceiptStatus → Result SettlementOutcome
refresh_settlement tx (err e) = err e
refresh_settlement tx (ok status) = ok (post_broadcast_outcome tx 0 (ok status))
