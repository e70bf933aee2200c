-- ===== src/Batch/Requests/Settle.antt =====
-- rust/facilitator/src/batch.rs: whether a batch operation may be settled.
use ic_facilitator.Prelude.{
  not, ◌||◌, Option, none, some, [], ◌∷◌, if◌then◌else◌, Result, Checked, ok, err, ◌>>=◌, ◌>>◌,
  ok_or, fail_if, List,
}
use ic_facilitator.Text.{Text, text, text_eq}
use ic_facilitator.Map.{Map}
use ic_facilitator.Crates.{Message}
use ic_facilitator.State.{BatchChannel}
use ic_facilitator.Hexutil.{same_address}
use ic_facilitator.Batch.Checks.{normalize_address_allow_zero}
use ic_facilitator.Batch.Requests.{BatchFacilitatorRequest, BatchSettleValidation, PayloadReader}
use ic_facilitator.Batch.Requests.Fields.{
  require_present, unsupported, validate_payload_kind_fields, validate_payload_metadata,
  validate_batch_claim_count,
}
use ic_facilitator.Batch.Requests.Requirements.{
  validate_batch_requirements, validate_batch_operation_requirements, validate_requirements_match,
}
use ic_facilitator.Batch.Requests.Claims.{
  each_claim_matches, each_claim_operation, validate_refund_claims_match_channel,
}
use ic_facilitator.Batch.Requests.Verify.{
  is_version_2, batch_payload, validate_batch_request_with_charged, charged_or_zero,
}
use ic_facilitator.Rpc.Json.{SerdeJson}
use ic_facilitator.Tx.{BatchVoucherClaim, BatchRequestPayload}

-- `payload.claims.as_deref().unwrap_or_default()`
abbrev pub claims_of : Option (List BatchVoucherClaim) → List BatchVoucherClaim
claims_of none = []
claims_of (some claims) = claims

unfoldable pub validate_refund :
    Message → Map Text → BatchFacilitatorRequest → BatchRequestPayload → Text → Checked
validate_refund m vars q p contract = if not (text_eq p.kind (text "refund")) then ok tt else (do
  require_present p.amount (text "batch refund amount")
  require_present p.refund_nonce (text "batch refund refundNonce")
  validate_refund_claims_match_channel m vars p contract
  each_claim_matches m vars (claims_of p.claims) q.payment_requirements contract)

-- The requirements of a claim or a settle operation.
unfoldable pub validate_operation : Message → Map Text → BatchFacilitatorRequest → Checked
validate_operation m vars q = do
  validate_batch_operation_requirements m vars q.payment_requirements
  validate_batch_operation_requirements m vars q.payment_payload.accepted
  validate_requirements_match q.payment_requirements q.payment_payload.accepted

unfoldable pub validate_claims :
    Message → Map Text → BatchFacilitatorRequest → List BatchVoucherClaim → Text → Checked
validate_claims m vars q [] contract = err (text "batch claims are required")
validate_claims m vars q (first ∷ claims) contract =
    each_claim_operation m vars first.voucher.channel (first ∷ claims) q.payment_requirements
      contract

unfoldable pub settle_claim :
    Message
    → Map Text
    → BatchFacilitatorRequest
    → BatchRequestPayload
    → Text
    → Result BatchSettleValidation
settle_claim m vars q p contract = do
  validate_operation m vars q
  validate_claims m vars q (claims_of p.claims) contract
  receiver ← normalize_address_allow_zero m.crates q.payment_requirements.pay_to
  ok (record { payer = none; receiver = receiver })

unfoldable pub settle_settle :
    Message
    → Map Text
    → BatchFacilitatorRequest
    → BatchRequestPayload
    → Result BatchSettleValidation
settle_settle m vars q p = do
  validate_operation m vars q
  receiver ← ok_or p.receiver (text "batch settle receiver is required")
  token ← ok_or p.token (text "batch settle token is required")
  fail_if (not (same_address receiver q.payment_requirements.pay_to))
      (text "batch settle receiver must match payTo")
  fail_if (not (same_address token q.payment_requirements.asset))
      (text "batch settle token must match asset")
  receiver' ← normalize_address_allow_zero m.crates receiver
  ok (record { payer = none; receiver = receiver' })

module _ (json : SerdeJson) (reader : PayloadReader) where
  unfoldable pub settle_payment :
      Message
      → Map Text
      → BatchFacilitatorRequest
      → BatchRequestPayload
      → Text
      → Text
      → Result BatchSettleValidation
  settle_payment m vars q p charged contract = do
    validate_batch_requirements m vars q.payment_requirements
    validate_batch_requirements m vars q.payment_payload.accepted
    validate_requirements_match q.payment_requirements q.payment_payload.accepted
    verified ← validate_batch_request_with_charged json reader m vars q charged contract
    validate_refund m vars q p contract
    ok (record { payer = some verified.payer; receiver = verified.receiver })

  unfoldable pub settle_of_kind :
      Message
      → Map Text
      → BatchFacilitatorRequest
      → BatchRequestPayload
      → Text
      → Text
      → Result BatchSettleValidation
  settle_of_kind m vars q p charged contract =
      if text_eq p.kind (text "deposit") || text_eq p.kind (text "refund")
      then settle_payment m vars q p charged contract
      else if text_eq p.kind (text "claim")
      then settle_claim m vars q p contract
      else if text_eq p.kind (text "settle")
      then settle_settle m vars q p
      else err (unsupported p.kind)

  unfoldable pub validate_batch_settle_request_with_charged :
      Message → Map Text → BatchFacilitatorRequest → Text → Text → Result BatchSettleValidation
  validate_batch_settle_request_with_charged m vars q charged contract = do
    fail_if (not (is_version_2 q)) (text "x402Version must be 2")
    p ← batch_payload reader q.payment_payload.payload
    validate_batch_claim_count p
    validate_payload_metadata json q.payment_payload
    validate_payload_kind_fields m.crates p
    settle_of_kind m vars q p charged contract

  unfoldable pub validate_batch_settle_request :
      Message
      → Map Text
      → BatchFacilitatorRequest
      → Option BatchChannel
      → Text
      → Result BatchSettleValidation
  validate_batch_settle_request m vars q current contract =
      validate_batch_settle_request_with_charged m vars q (charged_or_zero current) contract
