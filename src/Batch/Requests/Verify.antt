-- ===== src/Batch/Requests/Verify.antt =====
-- rust/facilitator/src/batch.rs: whether a batch payment is valid.
use ic_facilitator.Prelude.{
  ◌+◌, ◌^◌, ◌==◌, not, ◌||◌, Bool, Option, none, some, leb, is_some, if◌then◌else◌, Result, Checked,
  ok, err, ◌>>=◌, ◌>>◌, ok_or, fail_if,
}
use ic_facilitator.Text.{Text, text, text_eq, to_decimal}
use ic_facilitator.Map.{Map}
use ic_facilitator.Crates.{Message}
use ic_facilitator.State.{BatchChannel, BatchChannelConfig}
use ic_facilitator.Hexutil.{labelled, same_address}
use ic_facilitator.Batch.Checks.{
  parse_u128_decimal, validate_decimal, same_bytes32, is_zero_address, normalize_address_allow_zero,
}
use ic_facilitator.Batch.Voucher.{BatchVoucher, compute_batch_channel_id, recover_voucher_signer}
use ic_facilitator.Batch.Requests.{
  BatchFacilitatorRequest, BatchVerification, PayloadReader, is_text,
}
use ic_facilitator.Batch.Requests.Fields.{
  unsupported, validate_payload_kind_fields, validate_payload_metadata,
}
use ic_facilitator.Batch.Requests.Requirements.{
  validate_batch_requirements, validate_requirements_match, validate_payload_matches_requirements,
}
use ic_facilitator.Batch.Requests.Deposits.{
  validate_deposit_authorization_time_window, recover_deposit_authorization_signer,
}
use ic_facilitator.Rpc.Json.{Json, SerdeJson, get_str}
use ic_facilitator.Payment.{PaymentRequirements}
use ic_facilitator.Tx.{BatchRequestPayload}

unfoldable pub add_decimal_strings : Text → Text → Result Text
add_decimal_strings left right = do
  l ← parse_u128_decimal (text "left") left
  r ← parse_u128_decimal (text "right") right
  fail_if (leb (2 ^ 128) (l + r)) (text "batch cumulative amount overflow")
  ok (to_decimal (l + r))

unfoldable pub batch_payload : PayloadReader → Json → Result BatchRequestPayload
batch_payload reader value = labelled (text "invalid batch payload") (reader.from_value value)

unfoldable pub voucher_channel_id : BatchRequestPayload → Result Text
voucher_channel_id p = do
  voucher ← ok_or p.voucher (text "batch voucher is required")
  ok voucher.channel_id

-- The voucher is for the channel of the configuration, and signed by its authorizer.
unfoldable pub validate_voucher :
    Message → Map Text → BatchChannelConfig → BatchVoucher → Text → Checked
validate_voucher m vars config voucher contract = do
  channel_id ← compute_batch_channel_id m vars config contract
  fail_if (not (same_bytes32 m.crates channel_id voucher.channel_id))
      (text "batch voucher channelId mismatch")
  fail_if (is_zero_address config.payer_authorizer) (text "unsupported_batch_eip1271")
  recovered ← recover_voucher_signer m vars voucher contract
  fail_if (not (same_address recovered config.payer_authorizer))
      (text "batch voucher signer mismatch")

-- The deposit is authorized by the payer, in time.
unfoldable pub validate_deposit :
    Message → Map Text → BatchRequestPayload → BatchChannelConfig → PaymentRequirements → Checked
validate_deposit m vars p config r = if not (text_eq p.kind (text "deposit")) then ok tt else (do
  deposit ← ok_or p.deposit (text "batch deposit payload is required")
  validate_deposit_authorization_time_window m deposit r
  signer ← recover_deposit_authorization_signer m vars deposit config r
  fail_if (not (same_address signer config.payer))
      (text "batch deposit authorization signer mismatch"))

-- The cumulative amount that the voucher must be for.
unfoldable pub expected_amount : Text → Text → Text → Result Text
expected_amount kind charged amount =
    if text_eq kind (text "deposit") || text_eq kind (text "voucher")
    then add_decimal_strings charged amount
    else if text_eq kind (text "refund")
    then ok charged
    else err (unsupported kind)

-- The checks of the request before those of its voucher.
unfoldable pub validate_form :
    SerdeJson → Message → Map Text → BatchFacilitatorRequest → BatchRequestPayload → Checked
validate_form json m vars q p = do
  validate_batch_requirements m vars q.payment_requirements
  validate_batch_requirements m vars q.payment_payload.accepted
  validate_requirements_match q.payment_requirements q.payment_payload.accepted
  validate_payload_matches_requirements m.crates p q.payment_requirements
  validate_payload_metadata json q.payment_payload
  validate_payload_kind_fields m.crates p

abbrev pub is_version_2 : BatchFacilitatorRequest → Bool
is_version_2 q = not (not (q.x402_version == 2) || not (q.payment_payload.x402_version == 2))

-- The charges of the stored channel, if there is one.
abbrev pub charged_or_zero : Option BatchChannel → Text
charged_or_zero none = text "0"
charged_or_zero (some channel) = channel.charged_cumulative_amount

module _ (json : SerdeJson) (reader : PayloadReader) where
  unfoldable pub validate_batch_request_with_charged :
      Message → Map Text → BatchFacilitatorRequest → Text → Text → Result BatchVerification
  validate_batch_request_with_charged m vars q charged contract = do
    fail_if (not (is_version_2 q)) (text "x402Version must be 2")
    p ← batch_payload reader q.payment_payload.payload
    validate_form json m vars q p
    config ← ok_or p.channel_config (text "batch channelConfig is required")
    voucher ← ok_or p.voucher (text "batch voucher is required")
    validate_voucher m vars config voucher contract
    validate_deposit m vars p config q.payment_requirements
    validate_decimal (text "chargedCumulativeAmount") charged
    expected ← expected_amount p.kind charged q.payment_requirements.amount
    fail_if (not (text_eq voucher.max_claimable_amount expected))
        (text "invalid_batch_settlement_evm_cumulative_amount_mismatch")
    payer ← normalize_address_allow_zero m.crates config.payer
    receiver ← normalize_address_allow_zero m.crates config.receiver
    ok (record { payer = payer; receiver = receiver })

  unfoldable pub validate_batch_request :
      Message
      → Map Text
      → BatchFacilitatorRequest
      → Option BatchChannel
      → Text
      → Result BatchVerification
  validate_batch_request m vars q current contract =
      validate_batch_request_with_charged m vars q (charged_or_zero current) contract

unfoldable pub validate_batch_eip712_version : BatchFacilitatorRequest → Text → Checked
validate_batch_eip712_version q expected =
    fail_if
      (not (is_text expected (get_str (text "version") q.payment_requirements.extra))
        || not (is_text expected (get_str (text "version") q.payment_payload.accepted.extra)))
      (text "invalid_batch_settlement_evm_eip712_version")

unfoldable pub validate_optional_batch_eip712_version : BatchFacilitatorRequest → Text → Checked
validate_optional_batch_eip712_version q expected =
    if is_some (get_str (text "version") q.payment_requirements.extra)
      || is_some (get_str (text "version") q.payment_payload.accepted.extra)
    then validate_batch_eip712_version q expected
    else ok tt

unfoldable pub requires_batch_eip712_version : BatchRequestPayload → Bool
requires_batch_eip712_version p =
    text_eq p.kind (text "deposit")
    || (text_eq p.kind (text "voucher") || text_eq p.kind (text "refund"))
