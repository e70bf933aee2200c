-- ===== src/Fees/Schedule.antt =====
-- rust/facilitator/src/lib.rs: which fee a batch operation costs.
use ic_facilitator.Prelude.{
  ℕ, Bool, false, not, ◌||◌, Option, none, some, List, [], ◌∷◌, ◌++◌, ltb, leb, ◌==◌, if◌then◌else◌,
  Result, ok, err, ◌>>=◌, ◌>>◌, ok_or, fail_if,
}
use ic_facilitator.Text.{Text, text, text_eq, parse_u128, to_decimal}
use ic_facilitator.Map.{Map}
use ic_facilitator.Crates.{Message}
use ic_facilitator.Config.{required_positive_u128}
use ic_facilitator.Fees.{
  BatchClaimFeeSchedule, batch_claim_fee_schedule_has_any_value, batch_fee_profile_has_any_value,
  validate_batch_claim_fee_schedule, claim_values, refund_values,
}

-- The eight fields of the schedule, read in their order.
unfoldable pub read_schedule : Message → Map Text → Result BatchClaimFeeSchedule
read_schedule m vars = do
  c1 ← required_positive_u128 m vars (text "BATCH_CLAIM_1_FEE_AMOUNT")
  c10 ← required_positive_u128 m vars (text "BATCH_CLAIM_10_FEE_AMOUNT")
  c50 ← required_positive_u128 m vars (text "BATCH_CLAIM_50_FEE_AMOUNT")
  c100 ← required_positive_u128 m vars (text "BATCH_CLAIM_100_FEE_AMOUNT")
  r1 ← required_positive_u128 m vars (text "BATCH_REFUND_WITH_CLAIM_1_FEE_AMOUNT")
  r10 ← required_positive_u128 m vars (text "BATCH_REFUND_WITH_CLAIM_10_FEE_AMOUNT")
  r50 ← required_positive_u128 m vars (text "BATCH_REFUND_WITH_CLAIM_50_FEE_AMOUNT")
  r100 ← required_positive_u128 m vars (text "BATCH_REFUND_WITH_CLAIM_100_FEE_AMOUNT")
  ok (record {
    claim_1_fee_amount = to_decimal c1;
    claim_10_fee_amount = to_decimal c10;
    claim_50_fee_amount = to_decimal c50;
    claim_100_fee_amount = to_decimal c100;
    refund_with_claim_1_fee_amount = to_decimal r1;
    refund_with_claim_10_fee_amount = to_decimal r10;
    refund_with_claim_50_fee_amount = to_decimal r50;
    refund_with_claim_100_fee_amount = to_decimal r100;
  })

unfoldable pub configured_batch_claim_fee_schedule :
    Message → Map Text → Result (Option BatchClaimFeeSchedule)
configured_batch_claim_fee_schedule m vars =
    if not (batch_claim_fee_schedule_has_any_value m vars) then ok none else (do
      schedule ← read_schedule m vars
      validate_batch_claim_fee_schedule m vars schedule
      ok (some schedule))

unfoldable pub batch_fee_for_kind : Message → Map Text → Text → Bool → Result ℕ
batch_fee_for_kind m vars kind has_claims =
    if not (batch_fee_profile_has_any_value m vars)
    then required_positive_u128 m vars (text "BATCH_SETTLEMENT_FEE_AMOUNT")
    else if text_eq kind (text "deposit")
    then required_positive_u128 m vars (text "BATCH_DEPOSIT_FEE_AMOUNT")
    else if text_eq kind (text "claim")
    then required_positive_u128 m vars (text "BATCH_CLAIM_FEE_AMOUNT")
    else if text_eq kind (text "settle")
    then required_positive_u128 m vars (text "BATCH_SETTLE_FEE_AMOUNT")
    else if text_eq kind (text "refund")
    then (if has_claims
        then required_positive_u128 m vars (text "BATCH_CLAIM_FEE_AMOUNT")
        else required_positive_u128 m vars (text "BATCH_REFUND_FEE_AMOUNT"))
    else err (text "unsupported batch fee action: " ++ kind)

-- The value of the tier that the count falls into.
unfoldable pub tier : List Text → ℕ → Text
tier (v1 ∷ v10 ∷ v50 ∷ v100 ∷ []) count =
    if leb count 1 then v1 else if leb count 10 then v10 else if leb count 50 then v50 else v100
tier values count = []

abbrev flatten : Result (Option BatchClaimFeeSchedule) → Option BatchClaimFeeSchedule
flatten (ok schedule) = schedule
flatten (err e) = none

-- 100 is MAX_BATCH_CLAIMS.
unfoldable pub scheduled_claim_fee : Message → Map Text → ℕ → Bool → Result ℕ
scheduled_claim_fee m vars count refund_with_claim = do
  fail_if (count == 0 || ltb 100 count) (text "claim count must be between 1 and 100")
  elim (flatten (configured_batch_claim_fee_schedule m vars)) [
    | none ↦
        batch_fee_for_kind m vars (if refund_with_claim then text "refund" else text "claim")
          refund_with_claim
    | some schedule ↦
        ok_or
          (parse_u128 (
            tier (if refund_with_claim then refund_values schedule else claim_values schedule)
              count))
          (text "configured claim fee schedule contains an invalid amount")
  ]

-- `claim_fee` of auto_claim.rs
unfoldable pub claim_fee : Message → Map Text → Result ℕ
claim_fee m vars = do
  schedule ← configured_batch_claim_fee_schedule m vars
  elim schedule [
    | some s ↦ ok_or (parse_u128 s.claim_1_fee_amount) (text "invalid claim fee")
    | none ↦ batch_fee_for_kind m vars (text "claim") false
  ]
