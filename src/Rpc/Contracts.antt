-- ===== src/Rpc/Contracts.antt =====
-- rust/facilitator/src/rpc.rs: the verdict on the receipt of a call of the batch contract.
use ic_facilitator.Prelude.{
  ℕ, Bool, true, false, not, ◌&&◌, ◌||◌, Option, none, some, List, [], ◌∷◌, if◌then◌else◌,
  to_option,
}
use ic_facilitator.Text.{Text, text, eq_ignore_ascii_case}
use ic_facilitator.Crates.{Crates}
use ic_facilitator.Hexutil.{address_hex, same_address}
use ic_facilitator.Rpc.Decimal.{decimal_add, decimal_greater}
use ic_facilitator.Rpc.Json.{Json, get_str, get_array, as_str, and_then}
use ic_facilitator.Rpc.Receipts.{
  topic_address, uint256_hex_decimal, is_removed, holds_of, confirmation, reverted, unconfirmed,
  confirmed,
}

pub data ContractExpectation : Type 0 where
  deposit : ContractExpectation
  claim : ContractExpectation
  settle : (receiver : Text) → (token : Text) → ContractExpectation
  refund : ContractExpectation

abbrev pub settled_topic : Text
settled_topic = text "0x7337b4386b690fdb8ba66905b92b9d45d33bc6626ee2620c905fb150ec0cc47d"

-- The topic's address is `expected`.
abbrev pub names : Text → Json → Bool
names expected topic =
    holds_of (and_then (as_str topic) topic_address) (λ address. same_address address expected)

abbrev pub settled_topics : Text → Text → Text → List Json → Bool
settled_topics receiver token sender (t0 ∷ t1 ∷ t2 ∷ t3 ∷ topics) =
    holds_of (as_str t0) (eq_ignore_ascii_case settled_topic)
    && names receiver t1
    && names token t2
    && names sender t3
settled_topics receiver token sender _ = false

unfoldable pub settled_log_amount : Crates → Json → Text → Text → Text → Text → Option Text
settled_log_amount c log contract receiver token sender =
    if is_removed log
      || not (holds_of (get_str (text "address") log) (λ address. same_address address contract))
    then none
    else and_then (get_array (text "topics") log) (λ topics.
      if settled_topics receiver token sender topics
      then and_then (get_str (text "data") log) (uint256_hex_decimal c)
      else none)

-- The loop of `settled_event_amount`, for what a log pays.
unfoldable pub settled_loop : (Json → Option Text) → List Json → Text → Bool → Option Text
settled_loop paid [] total matched = if matched then some total else none
settled_loop paid (log ∷ logs) total matched = elim (paid log) [
  | none ↦ settled_loop paid logs total matched
  | some amount ↦ elim (to_option (decimal_add total amount)) [
    | none ↦ none
    | some sum ↦ settled_loop paid logs sum true
  ]
]

unfoldable pub settled_event_amount : Crates → Json → List ℕ → Text → Text → Option Text
settled_event_amount c receipt contract receiver token =
    and_then (get_array (text "logs") receipt) (λ logs.
      and_then (get_str (text "from") receipt) (λ sender.
        settled_loop
          (λ log. settled_log_amount c log (address_hex c contract) receiver token sender) logs
          (text "0") false))

pub data ContractReceiptStatus : Type 0 where
  success : (settled_amount : Option Text) → ContractReceiptStatus
  failed : Text → ContractReceiptStatus
  pending : ContractReceiptStatus

-- The event that a settlement must have emitted; other calls emit none.
unfoldable pub expected_event : Crates → Json → List ℕ → ContractExpectation → ContractReceiptStatus
expected_event c result expected_to (settle receiver token) =
    elim (settled_event_amount c result expected_to receiver token) [
      | none ↦ failed (text "expected batch Settled event not found")
      | some amount ↦
          if not (decimal_greater amount (text "0"))
          then failed (text "batch settled amount mismatch")
          else success (some amount)
    ]
expected_event c result expected_to _ = success none

-- `expected_from.is_some_and(|from| …)`
abbrev other_sender : Json → Option Text → Bool
other_sender result none = false
other_sender result (some from) =
    not (holds_of (get_str (text "from") result) (λ actual. same_address actual from))

unfoldable pub addressed :
    Crates → Json → List ℕ → Option Text → ContractExpectation → ContractReceiptStatus
addressed c result expected_to expected_from expectation =
    if not
      (holds_of (get_str (text "to") result) (λ to. same_address to (address_hex c expected_to)))
    then failed (text "settlement tx recipient mismatch")
    else if other_sender result expected_from
    then failed (text "settlement tx sender mismatch")
    else expected_event c result expected_to expectation

unfoldable pub receipt_status_for_contract :
    Crates → Json → List ℕ → Option Text → ContractExpectation → ℕ → ℕ → ContractReceiptStatus
receipt_status_for_contract c result expected_to expected_from expectation latest_block
      min_confirmations =
    elim (confirmation result latest_block min_confirmations) [
      | reverted ↦ failed (text "settlement tx failed")
      | unconfirmed ↦ pending
      | confirmed ↦ addressed c result expected_to expected_from expectation
    ]
