-- ===== src/Rpc/Verdicts.antt =====
-- What a verdict on a receipt means: rust/facilitator/src/rpc.rs.
use ic_facilitator.Prelude.{
  ℕ, ◌+◌, ◌-◌, ◌≡◌, ◌≢◌, ◌≤◌, refl, true, some, List, arith, inl, inr, ok, Option-cases,
  Result-cases, Any,
}
use ic_facilitator.Text.{Text, text, text_eq_iff}
use ic_facilitator.Map.{Map}
use ic_facilitator.Crates.{Message}
use ic_facilitator.Config.{sat_u128}
use ic_facilitator.Hexutil.{address_hex, same_address}
use ic_facilitator.Rpc.Json.{Json, get_str, get_array}
use ic_facilitator.Rpc.Receipts.{
  success, pending, ExpectedTransfer, receipt_status, transferred, settle_to_address, confirmation,
  confirmed, unconfirmed, status_text, block_number, has_expected_transfer, holds_of,
}
use ic_facilitator.Rpc.Logs.{IsTransferOf, has_expected_transfer-Any, holds_of-true}

-- The transaction succeeded in a block below which enough others stand, itself counted.
abbrev pub IsConfirmed : Json → ℕ → ℕ → Type 0
IsConfirmed result latest_block min_confirmations =
    (status_text result ≡ text "0x1")
    × ((n : ℕ) × (block_number result ≡ some n)
        × (min_confirmations ≤ sat_u128 ((latest_block - n) + 1)))

confirmation-IsConfirmed :
    (result : Json) (latest_block min_confirmations : ℕ)
    → confirmation result latest_block min_confirmations ≡ confirmed
    → IsConfirmed result latest_block min_confirmations
unfolding confirmation
confirmation-IsConfirmed result latest_block min_confirmations e =
    elim (Option-cases (block_number result)) [
      | inl missing ↦ absurd (let f = rw (confirmation, missing) at e in ground arith)
      | inr (n, found) ↦
          let f = rw (confirmation, found) at e in
          ground (arith, text_eq_iff (status_text result) (text "0x1"))
    ]

-- A receipt that is confirmed stays so, and one that is reverted, as the chain grows.
confirmation-grows :
    (result : Json) (latest later min_confirmations : ℕ)
    → latest ≤ later
    → confirmation result latest min_confirmations ≢ unconfirmed
    → confirmation result later min_confirmations ≡ confirmation result latest min_confirmations
unfolding confirmation
confirmation-grows result latest later min_confirmations grows decided =
    elim (Option-cases (block_number result)) [
      | inl missing ↦ rw (confirmation, missing) (ground arith)
      | inr (n, found) ↦
          let d = rw (confirmation, found) at decided in rw (confirmation, found) (ground arith)
    ]

transferred-success :
    (m : Message) (vars : Map Text) (result : Json) (expected : ExpectedTransfer)
    → transferred m vars result expected ≡ success
    → (token : List ℕ) × (settle_to_address m vars ≡ ok token)
      × (holds_of (get_str (text "to") result) (λ to. same_address to (address_hex m.crates token))
          ≡ true)
      × (has_expected_transfer m vars result expected ≡ true)
unfolding transferred
transferred-success m vars result expected e = elim (Result-cases (settle_to_address m vars)) [
  | inr (message, bad) ↦ absurd (let f = rw (transferred, bad) at e in cc)
  | inl (token, found) ↦
      let f = rw (transferred, found) at e in (token, found, ground arith, ground arith)
]

receipt_status-cases :
    (m : Message) (vars : Map Text) (result : Json) (expected : ExpectedTransfer)
    (latest min_confirmations : ℕ)
    → receipt_status m vars result expected latest min_confirmations ≡ success
    → (confirmation result latest min_confirmations ≡ confirmed)
      × (transferred m vars result expected ≡ success)
unfolding receipt_status
receipt_status-cases m vars result expected latest min_confirmations e = ground arith

-- A settlement counts as successful only if its transaction succeeded, its block has the confirmations
-- asked for, it was sent to the token's address, and a log of it, not removed, is of the configured
-- token and is a transfer of the expected amount from the expected sender to the expected receiver.
pub receipt_status-success :
    (m : Message) (vars : Map Text) (result : Json) (expected : ExpectedTransfer)
    (latest min_confirmations : ℕ)
    → receipt_status m vars result expected latest min_confirmations ≡ success
    → IsConfirmed result latest min_confirmations
      × ((token : List ℕ) × (settle_to_address m vars ≡ ok token)
          × ((to : Text) × (get_str (text "to") result ≡ some to)
              × (same_address to (address_hex m.crates token) ≡ true)))
      × ((logs : List Json) × (get_array (text "logs") result ≡ some logs)
          × Any (IsTransferOf m vars expected) logs)
receipt_status-success m vars result expected latest min_confirmations e =
    let (sure, moved) = receipt_status-cases m vars result expected latest min_confirmations e in
    let (token, found, addressed, logged) = transferred-success m vars result expected moved in
    (
      confirmation-IsConfirmed result latest min_confirmations sure,
      (token, found, holds_of-true (get_str (text "to") result) _ addressed),
      has_expected_transfer-Any m vars result expected logged,
    )

-- A verdict other than pending does not change as the chain grows.
pub receipt_status-grows :
    (m : Message) (vars : Map Text) (result : Json) (expected : ExpectedTransfer)
    (latest later min_confirmations : ℕ)
    → latest ≤ later
    → receipt_status m vars result expected latest min_confirmations ≢ pending
    → receipt_status m vars result expected later min_confirmations
      ≡ receipt_status m vars result expected latest min_confirmations
unfolding receipt_status
receipt_status-grows m vars result expected latest later min_confirmations grows decided =
    let sure : confirmation result latest min_confirmations ≢ unconfirmed =
      λ open_. (let d = rw (receipt_status, open_) at decided in d refl) in
    rw (receipt_status, confirmation-grows result latest later min_confirmations grows sure) refl
