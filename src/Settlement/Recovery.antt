-- ===== src/Settlement/Recovery.antt =====
-- rust/facilitator/src/lib.rs: the recovery of a settlement whose attempt was cut off before anything
-- was sent.
use ic_facilitator.Prelude.{
  ℕ, ◌+◌, ◌-◌, ◌^◌, ◌<◌, ◌≡◌, inl, inr, Bool, true, false, not, ◌||◌, Option, none, some, [], arith,
  ltb, if◌then◌else◌, is_some, Option-cases, Bool-cases, unwrap_or, or_else, Result, Result-cases,
  ok, err, ◌>>=◌, ◌>>◌, fail_if, ok_or,
}
use ic_facilitator.Text.{Text, text, text_eq, is_blank, starts_with, parse_u128, to_decimal}
use ic_facilitator.Map
use ic_facilitator.Map.{Map, get-remove, get-remove_self}
use ic_facilitator.Crates.{Message}
use ic_facilitator.State.{SettlementRecord, ActiveSettlement, State}
use ic_facilitator.Config.{now_seconds, normalize_evm_address, sat_u128}
use ic_facilitator.Credit.{
  refund_seller_credit, refund_seller_credit_adds, seller_credit_balance_for,
}
use ic_facilitator.Active.{get_active_settlement_by_key, release_active_settlement_by_key}
use ic_facilitator.Settlement.Store.{remove_settlement}

pub record StaleSettlementRecovery : Type 0 where
  pub key : Text
  pub seller : Text
  pub refunded_fee : Text

-- A trap undoes what the message did; else the canister answers and its state moves on.
pub data Reply {ℓ} (A : Type ℓ) : Type ℓ where
  trapped : Text → Reply A
  replied : A → Reply A

abbrev extra_value : Text → SettlementRecord → Option Text
extra_value name r = Map.get name (unwrap_or r.response.extra [])

abbrev has_tx : Option ActiveSettlement → Bool
has_tx none = false
has_tx (some active) = is_some active.tx

unfoldable pub refundable_fee : SettlementRecord → Result ℕ
refundable_fee r =
    let kind =
      unwrap_or (or_else r.settlement_kind (extra_value (text "settlementKind") r))
        (text "exact") in
    if text_eq kind (text "seller-credit") then ok 0 else (do
      fee ←
          ok_or (or_else r.charged_fee (extra_value (text "settlementFee") r))
            (text "checking settlement has no recorded charged fee")
      ok_or (parse_u128 fee) (text "checking settlement charged fee is invalid"))

-- The checks, which answer the seller and the fee to give back.
unfoldable pub recoverable : Message → Text → State → Result (Text × ℕ)
unfolding refundable_fee
recoverable m key s = do
  fail_if (starts_with key (text "auto-claim:"))
      (text "auto claim recovery is owned by the durable collection journal")
  r ← ok_or (Map.get key s.settlements) (text "settlement not found")
  fail_if (not (text_eq r.status (text "checking")) || not (is_blank r.response.transaction))
      (text "only an unbroadcast checking settlement can be recovered")
  let started_at = unwrap_or r.attempt_started_at r.updated_at
  fail_if (ltb (now_seconds m - started_at) 600)
      (text "checking settlement must be at least 600 seconds old")
  fail_if (has_tx (get_active_settlement_by_key key s.active_settlements))
      (text "settlement already has a broadcast transaction")
  seller ← ok_or r.pay_to (text "checking settlement has no seller")
  fee ← refundable_fee r
  ok (seller, fee)

-- What follows the checks.
unfoldable pub give_back : Message → Text → Text → ℕ → State → State
give_back m key seller fee s =
    let refunded =
      if ltb 0 fee
      then record s { seller_credits = refund_seller_credit m seller fee s.seller_credits }
      else s in
    let removed = remove_settlement key refunded in
    record removed {
      active_settlements = release_active_settlement_by_key key removed.active_settlements;
    }

unfoldable pub recover_stale_settlement :
    Message → Text → State → Reply (Result StaleSettlementRecovery × State)
recover_stale_settlement m key s =
    if not m.is_controller
    then trapped (text "caller is not a controller")
    else elim (recoverable m key s) [
      | err message ↦ replied (err message, s)
      | ok (seller, fee) ↦ replied (
        ok (record { key = key; seller = seller; refunded_fee = to_decimal fee }),
        give_back m key seller fee s,
      )
    ]

-- What a successful recovery says.
recovered :
    (m : Message) (key : Text) (s after : State) (r : StaleSettlementRecovery)
    → recover_stale_settlement m key s ≡ replied (ok r, after)
    → (fee : ℕ) × (m.is_controller ≡ true)
      × (recoverable m key s ≡ ok (r.seller, fee))
      × (r.refunded_fee ≡ to_decimal fee)
      × (after ≡ give_back m key r.seller fee s)
unfolding recover_stale_settlement
recovered m key s after r e = elim (Result-cases (recoverable m key s)) [
  | inl ((seller, fee), e1) ↦
      (fee, ground arith, ground (arith, e1), ground (arith, e1), ground (arith, e1))
  | inr (message, e1) ↦ absurd (ground (arith, e1))
]

give_back_forgets :
    (m : Message) (key seller : Text) (fee : ℕ) (s : State)
    → Map.get key (give_back m key seller fee s).settlements ≡ none
unfolding give_back remove_settlement
give_back_forgets m key seller fee s = elim (Option-cases (Map.get key s.settlements)) [
  | inl e ↦ ground (arith, get-remove_self key s.settlements)
  | inr (r, e) ↦ ground (arith, e, get-remove_self key s.settlements)
]

give_back-seller_credits :
    (m : Message) (key seller : Text) (fee : ℕ) (s : State)
    → (give_back m key seller fee s).seller_credits
      ≡ (if ltb 0 fee then refund_seller_credit m seller fee s.seller_credits else s.seller_credits)
unfolding give_back remove_settlement
give_back-seller_credits m key seller fee s = ground arith

recoverable_manual :
    (m : Message) (key : Text) (s : State) (found : Text × ℕ)
    → recoverable m key s ≡ ok found
    → starts_with key (text "auto-claim:") ≡ false
unfolding recoverable
recoverable_manual m key s found e = elim (Bool-cases (starts_with key (text "auto-claim:"))) [
  | inl auto ↦ absurd (let f = rw auto at e in cc)
  | inr manual ↦ manual
]

recoverable_missing :
    (m : Message) (key : Text) (s : State)
    → starts_with key (text "auto-claim:") ≡ false
    → Map.get key s.settlements ≡ none
    → recoverable m key s ≡ err (text "settlement not found")
unfolding recoverable
recoverable_missing m key s manual missing = rw (manual, missing)

not_found :
    (m : Message) (key : Text) (s : State)
    → m.is_controller ≡ true
    → recoverable m key s ≡ err (text "settlement not found")
    → recover_stale_settlement m key s ≡ replied (err (text "settlement not found"), s)
unfolding recover_stale_settlement
not_found m key s c e = simp (c, e)

-- A recovery forgets the settlement, so it gives a fee back once: a second one, by whatever
-- controller, finds no settlement and changes nothing.
pub recover_stale_settlement_once :
    (m later : Message) (key : Text) (s after : State) (r : StaleSettlementRecovery)
    → later.is_controller ≡ true
    → recover_stale_settlement m key s ≡ replied (ok r, after)
    → (Map.get key after.settlements ≡ none)
      × (recover_stale_settlement later key after
          ≡ replied (err (text "settlement not found"), after))
recover_stale_settlement_once m later key s after r c e =
    let (fee, _, checked, _, given) = recovered m key s after r e in
    let gone : Map.get key after.settlements ≡ none =
      rw given (give_back_forgets m key r.seller fee s) in
    (
      gone,
      not_found later key after c
          (recoverable_missing later key after (recoverable_manual m key s _ checked) gone),
    )

-- The refund of a recovery is the fee that its answer names, and goes to the seller it names.
pub recover_stale_settlement_refunds :
    (m : Message) (key seller : Text) (s after : State) (r : StaleSettlementRecovery)
    → normalize_evm_address m.crates (text "seller") r.seller ≡ ok seller
    → seller_credit_balance_for seller s.seller_credits < 2 ^ 128
    → recover_stale_settlement m key s ≡ replied (ok r, after)
    → (fee : ℕ) × (r.refunded_fee ≡ to_decimal fee)
      × (seller_credit_balance_for seller after.seller_credits
          ≡ sat_u128 (seller_credit_balance_for seller s.seller_credits + fee))
recover_stale_settlement_refunds m key seller s after r n small e =
    let (fee, _, _, named, given) = recovered m key s after r e in
    (
      fee,
      named,
      rw (given, give_back-seller_credits)
          (ground (arith, refund_seller_credit_adds m r.seller seller fee s.seller_credits n)),
    )
