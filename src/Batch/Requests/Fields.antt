-- ===== src/Batch/Requests/Fields.antt =====
-- rust/facilitator/src/batch.rs: the fields that a payload of each kind must and may have.
use ic_facilitator.Prelude.{
  ◌==◌, not, Bool, true, List, Option, none, some, ◌++◌, ltb, is_some, is_empty, length,
  if◌then◌else◌, Checked, err, ◌>>=◌, ◌>>◌, ok_or, fail_if,
}
use ic_facilitator.Text.{Text, text, text_eq}
use ic_facilitator.Crates.{Crates}
use ic_facilitator.Batch.Checks.{
  validate_limited_string, parse_u128_decimal, validate_decimal, validate_uint128_decimal,
  validate_hex,
}
use ic_facilitator.Batch.Requests.{BatchPaymentPayload, if_some}
use ic_facilitator.Rpc.Json.{SerdeJson}
use ic_facilitator.Tx.{BatchDeposit, BatchVoucherClaim, BatchRequestPayload}

unfoldable pub require_present {ℓ} : {A : Type ℓ} → Option A → Text → Checked
require_present value label = fail_if (not (is_some value)) (label ++ text " is required")

unfoldable pub reject_present {ℓ} : {A : Type ℓ} → Option A → Text → Checked
reject_present value label = fail_if (is_some value) (label ++ text " is not allowed")

unfoldable pub validate_positive_uint128_decimal : Text → Text → Checked
validate_positive_uint128_decimal label value = do
  n ← parse_u128_decimal label value
  fail_if (n == 0) (label ++ text " must be positive")

unfoldable pub validate_deposit_authorization : Crates → BatchDeposit → Checked
validate_deposit_authorization c deposit = do
  validate_uint128_decimal (text "deposit.amount") deposit.amount
  authorization ←
      ok_or deposit.authorization.erc3009_authorization
        (text "batch deposit erc3009Authorization is required")
  validate_decimal (text "validAfter") authorization.valid_after
  validate_decimal (text "validBefore") authorization.valid_before
  validate_hex c (text "deposit salt") authorization.salt 32
  validate_hex c (text "deposit signature") authorization.signature 65

-- The fields that payments by deposit and by voucher reject alike, `kind` being their label.
unfoldable pub reject_operation_fields : Text → BatchRequestPayload → Checked
reject_operation_fields kind p = do
  reject_present p.amount (kind ++ text " amount")
  reject_present p.refund_nonce (kind ++ text " refundNonce")
  reject_present p.claims (kind ++ text " claims")
  reject_present p.receiver (kind ++ text " receiver")
  reject_present p.token (kind ++ text " token")
  reject_present p.claim_authorizer_signature (kind ++ text " claimAuthorizerSignature")
  reject_present p.refund_authorizer_signature (kind ++ text " refundAuthorizerSignature")

unfoldable pub deposit_fields : Crates → BatchRequestPayload → Checked
deposit_fields c p = do
  require_present p.channel_config (text "batch deposit channelConfig")
  require_present p.voucher (text "batch deposit voucher")
  deposit ← ok_or p.deposit (text "batch deposit payload is required")
  validate_deposit_authorization c deposit
  reject_operation_fields (text "batch deposit") p

unfoldable pub voucher_fields : BatchRequestPayload → Checked
voucher_fields p = do
  require_present p.channel_config (text "batch voucher channelConfig")
  require_present p.voucher (text "batch voucher voucher")
  reject_present p.deposit (text "batch voucher deposit")
  reject_operation_fields (text "batch voucher") p

unfoldable pub refund_fields : Crates → BatchRequestPayload → Checked
refund_fields c p = do
  require_present p.channel_config (text "batch refund channelConfig")
  require_present p.voucher (text "batch refund voucher")
  reject_present p.deposit (text "batch refund deposit")
  reject_present p.receiver (text "batch refund receiver")
  reject_present p.token (text "batch refund token")
  if_some p.refund_nonce (λ nonce. validate_decimal (text "refundNonce") nonce)
  if_some p.claim_authorizer_signature
      (λ s. validate_hex c (text "batch refund claimAuthorizerSignature") s 65)
  if_some p.refund_authorizer_signature
      (λ s. validate_hex c (text "batch refund refundAuthorizerSignature") s 65)

-- `payload.claims.as_ref().map(Vec::is_empty).unwrap_or(true)`
abbrev pub no_claims : Option (List BatchVoucherClaim) → Bool
no_claims none = true
no_claims (some claims) = is_empty claims

unfoldable pub claim_fields : Crates → BatchRequestPayload → Checked
claim_fields c p = do
  fail_if (no_claims p.claims) (text "batch claims are required")
  reject_present p.channel_config (text "batch claim channelConfig")
  reject_present p.voucher (text "batch claim voucher")
  reject_present p.deposit (text "batch claim deposit")
  reject_present p.amount (text "batch claim amount")
  reject_present p.refund_nonce (text "batch claim refundNonce")
  reject_present p.receiver (text "batch claim receiver")
  reject_present p.token (text "batch claim token")
  reject_present p.refund_authorizer_signature (text "batch claim refundAuthorizerSignature")
  if_some p.claim_authorizer_signature
      (λ s. validate_hex c (text "batch claim claimAuthorizerSignature") s 65)

unfoldable pub settle_fields : BatchRequestPayload → Checked
settle_fields p = do
  require_present p.receiver (text "batch settle receiver")
  require_present p.token (text "batch settle token")
  reject_present p.channel_config (text "batch settle channelConfig")
  reject_present p.voucher (text "batch settle voucher")
  reject_present p.deposit (text "batch settle deposit")
  reject_present p.amount (text "batch settle amount")
  reject_present p.refund_nonce (text "batch settle refundNonce")
  reject_present p.claims (text "batch settle claims")
  reject_present p.claim_authorizer_signature (text "batch settle claimAuthorizerSignature")
  reject_present p.refund_authorizer_signature (text "batch settle refundAuthorizerSignature")

abbrev pub unsupported : Text → Text
unsupported kind = text "unsupported batch payload type: " ++ kind

unfoldable pub fields_of_kind : Crates → BatchRequestPayload → Checked
fields_of_kind c p =
    if text_eq p.kind (text "deposit")
    then deposit_fields c p
    else if text_eq p.kind (text "voucher")
    then voucher_fields p
    else if text_eq p.kind (text "refund")
    then refund_fields c p
    else if text_eq p.kind (text "claim")
    then claim_fields c p
    else if text_eq p.kind (text "settle")
    then settle_fields p
    else err (unsupported p.kind)

unfoldable pub validate_payload_kind_fields : Crates → BatchRequestPayload → Checked
validate_payload_kind_fields c p = do
  fields_of_kind c p
  if_some p.amount (λ amount.
      if text_eq p.kind (text "refund")
      then validate_positive_uint128_decimal (text "payload.amount") amount
      else validate_uint128_decimal (text "payload.amount") amount)

-- MAX_BATCH_CLAIMS is 100.
unfoldable pub validate_batch_claim_count : BatchRequestPayload → Checked
validate_batch_claim_count p =
    if_some p.claims
      (λ claims. fail_if (ltb 100 (length claims)) (text "batch claims exceed the maximum of 100"))

unfoldable pub validate_payload_metadata : SerdeJson → BatchPaymentPayload → Checked
validate_payload_metadata json p = do
  if_some p.resource (λ resource. validate_limited_string (text "resource.url") resource.url)
  if_some p.extensions
      (λ extensions. validate_limited_string (text "extensions") (json.to_string extensions))
