-- ===== src/Batch/Requests/Claims.antt =====
-- rust/facilitator/src/batch.rs: the voucher claims of a request.
use ic_facilitator.Prelude.{
  ◌==◌, not, List, [], ◌∷◌, ltb, is_empty, if◌then◌else◌, Checked, ok, ◌>>=◌, ◌>>◌, ok_or, fail_if,
}
use ic_facilitator.Text.{Text, text}
use ic_facilitator.Map.{Map}
use ic_facilitator.Crates.{Message, Crates}
use ic_facilitator.State.{BatchChannelConfig}
use ic_facilitator.Hexutil.{same_address}
use ic_facilitator.Batch.Checks.{
  parse_u128_decimal, validate_hex, same_bytes32, is_zero_address, validate_channel_config,
}
use ic_facilitator.Batch.Voucher.{compute_batch_channel_id, recover_voucher_signer}
use ic_facilitator.Batch.Requests.{if_some, not_blank}
use ic_facilitator.Batch.Requests.Requirements.{required_extra_string, required_withdraw_delay}
use ic_facilitator.Rpc.Json.{Json, get, as_str, as_u64}
use ic_facilitator.Payment.{PaymentRequirements}
use ic_facilitator.Tx.{BatchVoucherClaim, BatchRequestPayload}

unfoldable pub validate_claim_voucher_signature :
    Message → Map Text → BatchVoucherClaim → Text → Checked
validate_claim_voucher_signature m vars claim contract = do
  max_claimable ← parse_u128_decimal (text "maxClaimableAmount") claim.voucher.max_claimable_amount
  total_claimed ← parse_u128_decimal (text "totalClaimed") claim.total_claimed
  fail_if (ltb max_claimable total_claimed)
      (text "batch claim totalClaimed exceeds maxClaimableAmount")
  validate_hex m.crates (text "signature") claim.signature 65
  fail_if (is_zero_address claim.voucher.channel.payer_authorizer)
      (text "unsupported_batch_eip1271")
  channel_id ← compute_batch_channel_id m vars claim.voucher.channel contract
  recovered ←
      recover_voucher_signer m vars
        (record {
          channel_id = channel_id;
          max_claimable_amount = claim.voucher.max_claimable_amount;
          signature = claim.signature;
        })
        contract
  fail_if (not (same_address recovered claim.voucher.channel.payer_authorizer))
      (text "batch claim voucher signer mismatch")

-- The part that both checks of a claim begin with: its channel, and its receiver and token.
unfoldable pub validate_claim_channel : Crates → BatchChannelConfig → PaymentRequirements → Checked
validate_claim_channel c channel r = do
  validate_channel_config c channel
  fail_if (not (same_address channel.receiver r.pay_to))
      (text "batch claim receiver must match payTo")
  fail_if (not (same_address channel.token r.asset)) (text "batch claim token must match asset")

unfoldable pub validate_claim_matches_requirements :
    Message → Map Text → BatchVoucherClaim → PaymentRequirements → Text → Checked
validate_claim_matches_requirements m vars claim r contract = do
  validate_claim_channel m.crates claim.voucher.channel r
  receiver_authorizer ← required_extra_string r.extra (text "receiverAuthorizer")
  fail_if (not (same_address claim.voucher.channel.receiver_authorizer receiver_authorizer))
      (text "batch claim receiverAuthorizer mismatch")
  withdraw_delay ← required_withdraw_delay r.extra
  fail_if (not (claim.voucher.channel.withdraw_delay == withdraw_delay))
      (text "batch claim withdrawDelay mismatch")
  validate_claim_voucher_signature m vars claim contract

-- What the requirements of an operation say of a channel, where they say it.
unfoldable pub matches_optional_extra : BatchChannelConfig → Json → Checked
matches_optional_extra channel extra = do
  if_some (get (text "receiverAuthorizer") extra) (λ value. do
    receiver_authorizer ←
        ok_or (not_blank (as_str value)) (text "batch extra.receiverAuthorizer must be a string")
    fail_if (not (same_address channel.receiver_authorizer receiver_authorizer))
        (text "batch claim receiverAuthorizer mismatch"))
  if_some (get (text "withdrawDelay") extra) (λ value. do
    withdraw_delay ← ok_or (as_u64 value) (text "batch withdrawDelay must be a number")
    fail_if (not (channel.withdraw_delay == withdraw_delay))
        (text "batch claim withdrawDelay mismatch"))

unfoldable pub validate_claim_matches_operation_requirements :
    Message → Map Text → BatchVoucherClaim → PaymentRequirements → Text → Checked
validate_claim_matches_operation_requirements m vars claim r contract = do
  validate_claim_channel m.crates claim.voucher.channel r
  matches_optional_extra claim.voucher.channel r.extra
  validate_claim_voucher_signature m vars claim contract

-- The loop over the claims of a refund, each with the requirements of the payment.
unfoldable pub each_claim_matches :
    Message → Map Text → List BatchVoucherClaim → PaymentRequirements → Text → Checked
each_claim_matches m vars [] r contract = ok tt
each_claim_matches m vars (claim ∷ claims) r contract = do
  validate_claim_matches_requirements m vars claim r contract
  each_claim_matches m vars claims r contract

-- The loop over the claims of a claim request; `first` is the channel of its first claim.
unfoldable pub each_claim_operation :
    Message
    → Map Text
    → BatchChannelConfig
    → List BatchVoucherClaim
    → PaymentRequirements
    → Text
    → Checked
each_claim_operation m vars first [] r contract = ok tt
each_claim_operation m vars first (claim ∷ claims) r contract = do
  validate_claim_matches_operation_requirements m vars claim r contract
  fail_if (not (same_address claim.voucher.channel.receiver_authorizer first.receiver_authorizer))
      (text "batch claim receiverAuthorizer mismatch")
  fail_if (not (claim.voucher.channel.withdraw_delay == first.withdraw_delay))
      (text "batch claim withdrawDelay mismatch")
  each_claim_operation m vars first claims r contract

unfoldable pub each_claim_of_channel :
    Message → Map Text → Text → List BatchVoucherClaim → Text → Checked
each_claim_of_channel m vars refund_channel_id [] contract = ok tt
each_claim_of_channel m vars refund_channel_id (claim ∷ claims) contract = do
  claim_channel_id ← compute_batch_channel_id m vars claim.voucher.channel contract
  fail_if (not (same_bytes32 m.crates claim_channel_id refund_channel_id))
      (text "batch refund claim channelId mismatch")
  each_claim_of_channel m vars refund_channel_id claims contract

unfoldable pub validate_refund_claims_match_channel :
    Message → Map Text → BatchRequestPayload → Text → Checked
validate_refund_claims_match_channel m vars p contract = if_some p.claims (λ claims.
    if is_empty claims then ok tt else (do
      config ← ok_or p.channel_config (text "batch refund channelConfig is required")
      refund_channel_id ← compute_batch_channel_id m vars config contract
      each_claim_of_channel m vars refund_channel_id claims contract))
