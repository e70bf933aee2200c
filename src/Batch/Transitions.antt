-- ===== src/Batch/Transitions.antt =====
-- What an accepted change of a channel keeps: rust/facilitator/src/batch.rs,
-- `validate_batch_channel_transition`.
use ic_facilitator.Prelude.{
  ◌≤◌, ◌<◌, ◌≡◌, refl, false, Option, none, some, arith, leb, ok, >>=-eq-ok,
}
use ic_facilitator.Text.{text, text_eq_iff}
use ic_facilitator.Crates.{Message}
use ic_facilitator.State.{BatchChannel, BatchPendingRequest}
use ic_facilitator.Batch.Checks.{parse_u128_decimal, now_ms}
use ic_facilitator.Batch.Channel.{
  validate_charge_increase_consumes_pending, consumes_pending, require_monotonic_decimal,
  validate_batch_channel_transition,
}
use ic_facilitator.Batch.Amounts.{
  number, parse_u128_decimal-number, require_monotonic_decimal-number,
}

-- An accepted change never lowers what was charged, what was signed for, what was claimed, the
-- refund nonce or the time of the last request.
pub validate_batch_channel_transition-le :
    (m : Message) (current next : BatchChannel)
    → validate_batch_channel_transition m (some current) next ≡ ok tt
    → (number current.charged_cumulative_amount ≤ number next.charged_cumulative_amount)
      × (number current.signed_max_claimable ≤ number next.signed_max_claimable)
      × (number current.total_claimed ≤ number next.total_claimed)
      × (number current.refund_nonce ≤ number next.refund_nonce)
      × (current.last_request_timestamp ≤ next.last_request_timestamp)
unfolding validate_batch_channel_transition
validate_batch_channel_transition-le m current next e =
    let (_, _, r0) = >>=-eq-ok (validate_charge_increase_consumes_pending m current next) _ e in
    let (_, charged, r1) =
      >>=-eq-ok
        (require_monotonic_decimal (text "chargedCumulativeAmount")
          current.charged_cumulative_amount next.charged_cumulative_amount)
        _ r0 in
    let (_, signed, r2) =
      >>=-eq-ok
        (require_monotonic_decimal (text "signedMaxClaimable") current.signed_max_claimable
          next.signed_max_claimable)
        _ r1 in
    let (_, claimed, r3) =
      >>=-eq-ok
        (require_monotonic_decimal (text "totalClaimed") current.total_claimed next.total_claimed) _
        r2 in
    let (_, refunds, r4) =
      >>=-eq-ok
        (require_monotonic_decimal (text "refundNonce") current.refund_nonce next.refund_nonce) _
        r3 in
    (
      require_monotonic_decimal-number _ _ _ charged,
      require_monotonic_decimal-number _ _ _ signed,
      require_monotonic_decimal-number _ _ _ claimed,
      require_monotonic_decimal-number _ _ _ refunds,
      ground arith,
    )

-- The request that an increase of the charge takes up.
abbrev pub Consumed : Message → BatchChannel → BatchChannel → Option BatchPendingRequest → Type 0
Consumed m current next none = ⊥
Consumed m current next (some pending) =
    (now_ms m < pending.expires_at)
    × (next.pending_request ≡ none)
    × (next.signed_max_claimable ≡ pending.signed_max_claimable)
    × (next.charged_cumulative_amount ≡ pending.signed_max_claimable)

consumes_pending-Consumed :
    (m : Message) (current next : BatchChannel) (pending : Option BatchPendingRequest)
    → current.pending_request ≡ pending
    → consumes_pending m current next ≡ ok tt
    → Consumed m current next pending
unfolding consumes_pending
consumes_pending-Consumed m current next none p e = absurd (let f = rw p at e in cc)
consumes_pending-Consumed m current next (some pending) p e =
    let f = rw p at e in
    ground (
      arith,
      text_eq_iff next.signed_max_claimable pending.signed_max_claimable,
      text_eq_iff next.charged_cumulative_amount pending.signed_max_claimable,
    )

-- An accepted change that charges more takes up the channel's pending request, which has not
-- expired and is gone afterwards: what is then charged and signed for is what the request signed.
pub charge_increase-Consumed :
    (m : Message) (current next : BatchChannel)
    → validate_batch_channel_transition m (some current) next ≡ ok tt
    → number current.charged_cumulative_amount < number next.charged_cumulative_amount
    → Consumed m current next current.pending_request
unfolding validate_batch_channel_transition validate_charge_increase_consumes_pending
charge_increase-Consumed m current next e more =
    let (_, c, _) = >>=-eq-ok (validate_charge_increase_consumes_pending m current next) _ e in
    let (old, eo, r1) = >>=-eq-ok (parse_u128_decimal _ current.charged_cumulative_amount) _ c in
    let (new, en, r2) = >>=-eq-ok (parse_u128_decimal _ next.charged_cumulative_amount) _ r1 in
    let no = parse_u128_decimal-number _ current.charged_cumulative_amount eo in
    let nn = parse_u128_decimal-number _ next.charged_cumulative_amount en in
    let grown : leb new old ≡ false = ground (arith, no.0, nn.0) in
    consumes_pending-Consumed m current next current.pending_request refl (rw grown at r2)
