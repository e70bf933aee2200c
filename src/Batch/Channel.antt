-- ===== src/Batch/Channel.antt =====
-- rust/facilitator/src/batch.rs: what a stored channel must be, and which channel may follow another.
use ic_facilitator.Prelude.{
  ℕ, Bool, true, false, not, ◌&&◌, Option, none, some, List, ◌++◌, ltb, leb, ◌==◌, if◌then◌else◌,
  is_some, Checked, ok, err, ◌>>=◌, ◌>>◌, ok_or, fail_if,
}
use ic_facilitator.Text.{Text, text, text_eq, text_ltb, is_blank}
use ic_facilitator.Map.{Map}
use ic_facilitator.Crates.{Message}
use ic_facilitator.State.{BatchChannel, BatchPendingRequest}
use ic_facilitator.Config.{configured_token_address, batch_receiver_authorizer_address}
use ic_facilitator.Hexutil.{parse_u256_decimal, same_address}
use ic_facilitator.Batch.Checks.{
  validate_limited_string, parse_u128_decimal, validate_decimal, validate_uint128_decimal,
  validate_hex, same_bytes32, is_zero_address, validate_channel_id, validate_channel_config,
  batch_withdraw_delay_seconds, now_ms,
}
use ic_facilitator.Batch.Voucher.{compute_batch_channel_id, recover_voucher_signer}

-- The comparisons of the four amounts.
unfoldable pub amounts_fit : ℕ → ℕ → ℕ → ℕ → Checked
amounts_fit charged signed total_claimed balance = do
  fail_if (ltb signed charged)
      (text "batch channel chargedCumulativeAmount exceeds signedMaxClaimable")
  fail_if (ltb signed total_claimed) (text "batch channel totalClaimed exceeds signedMaxClaimable")
  fail_if (ltb balance total_claimed) (text "batch channel totalClaimed exceeds balance")

-- The four amounts of a stored channel, read in their order.
unfoldable pub validate_stored_channel_amounts : BatchChannel → Checked
validate_stored_channel_amounts channel = do
  charged ← parse_u128_decimal (text "chargedCumulativeAmount") channel.charged_cumulative_amount
  signed ← parse_u128_decimal (text "signedMaxClaimable") channel.signed_max_claimable
  total_claimed ← parse_u128_decimal (text "totalClaimed") channel.total_claimed
  balance ← parse_u128_decimal (text "balance") channel.balance
  amounts_fit charged signed total_claimed balance

unfoldable pub validate_stored_channel_voucher : Message → Map Text → BatchChannel → Text → Checked
validate_stored_channel_voucher m vars channel contract = do
  validate_stored_channel_amounts channel
  fail_if (is_zero_address channel.channel_config.payer_authorizer)
      (text "unsupported_batch_eip1271")
  recovered ←
      recover_voucher_signer m vars
        (record {
          channel_id = channel.channel_id;
          max_claimable_amount = channel.signed_max_claimable;
          signature = channel.signature;
        })
        contract
  fail_if (not (same_address recovered channel.channel_config.payer_authorizer))
      (text "batch channel voucher signer mismatch")

-- `if let Some(pending) = &channel.pending_request` in `validate_batch_channel`
unfoldable pub validate_pending : BatchChannel → Option BatchPendingRequest → Checked
validate_pending channel none = ok tt
validate_pending channel (some pending) = do
  validate_limited_string (text "pendingId") pending.pending_id
  fail_if (is_blank pending.pending_id) (text "pendingId must not be empty")
  validate_decimal (text "pending.signedMaxClaimable") pending.signed_max_claimable
  pending_signed ←
      parse_u128_decimal (text "pending.signedMaxClaimable") pending.signed_max_claimable
  charged ← parse_u128_decimal (text "chargedCumulativeAmount") channel.charged_cumulative_amount
  fail_if (ltb pending_signed charged)
      (text "pending signedMaxClaimable must be at least chargedCumulativeAmount")
  fail_if (pending.expires_at == 0) (text "pending expiresAt must be positive")

-- The checks of the id and the configuration.
unfoldable pub validate_identity : Message → Map Text → Text → BatchChannel → Text → Checked
validate_identity m vars channel_id channel contract = do
  validate_channel_id m.crates channel_id
  fail_if (not (same_bytes32 m.crates channel_id channel.channel_id))
      (text "batch channel id mismatch")
  validate_channel_config m.crates channel.channel_config
  computed_channel_id ← compute_batch_channel_id m vars channel.channel_config contract
  fail_if (not (same_bytes32 m.crates channel_id computed_channel_id))
      (text "batch channel config does not match channel id")

-- The checks of the amounts and the signature as texts.
unfoldable pub validate_texts : Message → BatchChannel → Checked
validate_texts m channel = do
  validate_decimal (text "chargedCumulativeAmount") channel.charged_cumulative_amount
  validate_decimal (text "signedMaxClaimable") channel.signed_max_claimable
  validate_uint128_decimal (text "balance") channel.balance
  validate_decimal (text "totalClaimed") channel.total_claimed
  validate_decimal (text "refundNonce") channel.refund_nonce
  validate_hex m.crates (text "signature") channel.signature 65

unfoldable pub validate_batch_channel : Message → Map Text → Text → BatchChannel → Text → Checked
validate_batch_channel m vars channel_id channel contract = do
  validate_identity m vars channel_id channel contract
  validate_texts m channel
  validate_stored_channel_voucher m vars channel contract
  validate_pending channel channel.pending_request

-- `next < current` compares the words byte by byte.
unfoldable pub not_below : Text → List ℕ → List ℕ → Checked
not_below label current next =
    fail_if (text_ltb next current) (text "batch channel " ++ (label ++ text " must not decrease"))

unfoldable pub require_monotonic_decimal : Text → Text → Text → Checked
require_monotonic_decimal label current next = do
  current' ← parse_u256_decimal current label
  next' ← parse_u256_decimal next label
  not_below label current' next'

unfoldable pub validate_initial_channel_create : Message → BatchChannel → Checked
validate_initial_channel_create m next = do
  pending ← ok_or next.pending_request (text "batch channel create requires pendingRequest")
  fail_if (leb pending.expires_at (now_ms m))
      (text "batch channel create requires live pendingRequest")
  fail_if (not (text_eq next.signed_max_claimable pending.signed_max_claimable)) (
      text
        "batch channel signedMaxClaimable must match pendingRequest.signedMaxClaimable when creating")
  fail_if (not (text_eq next.charged_cumulative_amount (text "0")))
      (text "batch channel create requires chargedCumulativeAmount 0")
  fail_if (not (text_eq next.total_claimed (text "0")))
      (text "batch channel create requires totalClaimed 0")
  fail_if (not (text_eq next.refund_nonce (text "0")))
      (text "batch channel create requires refundNonce 0")
  fail_if (not (text_eq next.balance (text "0"))) (text "batch channel create requires balance 0")
  fail_if (not (next.withdraw_requested_at == 0))
      (text "batch channel create requires withdrawRequestedAt 0")
  fail_if (is_some next.onchain_synced_at)
      (text "batch channel create requires onchainSyncedAt empty")

-- The checks of a charge that has increased.
unfoldable pub consumes_pending : Message → BatchChannel → BatchChannel → Checked
consumes_pending m current next = do
  pending ←
      ok_or current.pending_request (text "batch channel charge increase requires pendingRequest")
  fail_if (leb pending.expires_at (now_ms m))
      (text "batch channel charge increase requires live pendingRequest")
  fail_if (is_some next.pending_request)
      (text "batch channel charge increase must consume pendingRequest")
  fail_if (not (text_eq next.signed_max_claimable pending.signed_max_claimable)) (
      text
        "batch channel signedMaxClaimable must match pendingRequest.signedMaxClaimable when charge increases")
  fail_if (not (text_eq next.charged_cumulative_amount pending.signed_max_claimable)) (
      text
        "batch channel chargedCumulativeAmount must match pendingRequest.signedMaxClaimable when charge increases")

unfoldable pub validate_charge_increase_consumes_pending :
    Message → BatchChannel → BatchChannel → Checked
validate_charge_increase_consumes_pending m current next = do
  current_charged ←
      parse_u128_decimal (text "chargedCumulativeAmount") current.charged_cumulative_amount
  next_charged ← parse_u128_decimal (text "chargedCumulativeAmount") next.charged_cumulative_amount
  if leb next_charged current_charged then ok tt else consumes_pending m current next

unfoldable pub validate_batch_channel_transition :
    Message → Option BatchChannel → BatchChannel → Checked
validate_batch_channel_transition m none next = validate_initial_channel_create m next
validate_batch_channel_transition m (some current) next = do
  validate_charge_increase_consumes_pending m current next
  require_monotonic_decimal (text "chargedCumulativeAmount") current.charged_cumulative_amount
      next.charged_cumulative_amount
  require_monotonic_decimal (text "signedMaxClaimable") current.signed_max_claimable
      next.signed_max_claimable
  require_monotonic_decimal (text "totalClaimed") current.total_claimed next.total_claimed
  require_monotonic_decimal (text "refundNonce") current.refund_nonce next.refund_nonce
  fail_if (ltb next.last_request_timestamp current.last_request_timestamp)
      (text "batch channel lastRequestTimestamp must not decrease")

abbrev live_and_same : ℕ → BatchChannel → Option BatchPendingRequest → Bool
live_and_same now channel none = false
live_and_same now channel (some pending) =
    ltb now pending.expires_at && text_eq pending.signed_max_claimable channel.signed_max_claimable

unfoldable pub is_pending_only_provisional_channel : BatchChannel → ℕ → Bool
is_pending_only_provisional_channel channel now =
    live_and_same now channel channel.pending_request
    && (text_eq channel.charged_cumulative_amount (text "0")
        && (text_eq channel.balance (text "0")
            && (text_eq channel.total_claimed (text "0")
                && (text_eq channel.refund_nonce (text "0")
                    && (channel.withdraw_requested_at == 0
                        && not (is_some channel.onchain_synced_at))))))

-- of lib.rs
unfoldable pub validate_batch_channel_runtime_config : Message → Map Text → BatchChannel → Checked
validate_batch_channel_runtime_config m vars channel = do
  fail_if
      (elim (configured_token_address m vars) [
        | ok token ↦ not (same_address channel.channel_config.token token)
        | err _ ↦ true
      ])
      (text "batch channel token must be JPYC on Polygon")
  receiver_authorizer ← batch_receiver_authorizer_address m vars
  fail_if (not (same_address channel.channel_config.receiver_authorizer receiver_authorizer))
      (text "batch channel receiverAuthorizer must match BATCH_RECEIVER_AUTHORIZER_PRIVATE_KEY")
  withdraw_delay ← batch_withdraw_delay_seconds m vars
  fail_if (not (channel.channel_config.withdraw_delay == withdraw_delay))
      (text "batch channel withdrawDelay must match BATCH_WITHDRAW_DELAY_SECONDS")
