-- ===== src/Batch/Requests/Claimed.antt =====
-- What the claims of an accepted request have been checked for: rust/facilitator/src/batch.rs.
use ic_facilitator.Prelude.{
  ℕ, ◌≤◌, ◌≡◌, ◌==◌, inl, inr, true, not, List, [], ◌∷◌, All, arith, ltb, ok, fail_if, length,
  >>=-eq-ok, Option-cases,
}
use ic_facilitator.Text.{Text, text, text_eq}
use ic_facilitator.Map.{Map}
use ic_facilitator.Crates.{Message, Crates}
use ic_facilitator.State.{BatchChannelConfig}
use ic_facilitator.Hexutil.{same_address}
use ic_facilitator.Batch.Checks.{
  parse_u128_decimal, validate_hex, is_zero_address, validate_channel_config,
}
use ic_facilitator.Batch.Voucher.{compute_batch_channel_id, recover_voucher_signer}
use ic_facilitator.Batch.Requests.{BatchFacilitatorRequest, BatchSettleValidation, PayloadReader}
use ic_facilitator.Batch.Requests.Claims.{
  validate_claim_voucher_signature, validate_claim_channel, matches_optional_extra,
  validate_claim_matches_operation_requirements, each_claim_operation,
}
use ic_facilitator.Batch.Requests.Fields.{
  validate_payload_kind_fields, validate_payload_metadata, validate_batch_claim_count,
}
use ic_facilitator.Batch.Requests.Settle.{
  claims_of, validate_operation, validate_claims, settle_claim, settle_of_kind,
  validate_batch_settle_request_with_charged,
}
use ic_facilitator.Batch.Requests.Verify.{batch_payload, is_version_2}
use ic_facilitator.Rpc.Json.{SerdeJson}
use ic_facilitator.Payment.{PaymentRequirements}
use ic_facilitator.Tx.{BatchVoucherClaim, BatchRequestPayload}

-- A claim of no more than its voucher, which the authorizer of the channel's payer signed for the
-- identifier of the channel.
abbrev pub IsVouched : Message → Map Text → Text → BatchVoucherClaim → Type 0
IsVouched m vars contract claim =
    ((most total : ℕ) × (parse_u128_decimal (text "maxClaimableAmount")
          claim.voucher.max_claimable_amount
        ≡ ok most)
      × ((parse_u128_decimal (text "totalClaimed") claim.total_claimed ≡ ok total)
          × (total ≤ most)))
    × ((id signer : Text) × (compute_batch_channel_id m vars claim.voucher.channel contract ≡ ok id)
        × ((recover_voucher_signer m vars
                (record {
                  channel_id = id;
                  max_claimable_amount = claim.voucher.max_claimable_amount;
                  signature = claim.signature;
                })
                contract
              ≡ ok signer)
            × (same_address signer claim.voucher.channel.payer_authorizer ≡ true)))

validate_claim_voucher_signature-IsVouched :
    (m : Message) (vars : Map Text) (claim : BatchVoucherClaim) (contract : Text)
    → validate_claim_voucher_signature m vars claim contract ≡ ok tt
    → IsVouched m vars contract claim
unfolding validate_claim_voucher_signature
validate_claim_voucher_signature-IsVouched m vars claim contract e =
    let (most, limit, r0) =
      >>=-eq-ok (parse_u128_decimal (text "maxClaimableAmount") claim.voucher.max_claimable_amount)
        _ e in
    let (total, claimed, r1) =
      >>=-eq-ok (parse_u128_decimal (text "totalClaimed") claim.total_claimed) _ r0 in
    let (_, within, r2) =
      >>=-eq-ok
        (fail_if (ltb most total) (text "batch claim totalClaimed exceeds maxClaimableAmount")) _
        r1 in
    let (_, _, r3) = >>=-eq-ok (validate_hex m.crates (text "signature") claim.signature 65) _ r2 in
    let (_, _, r4) =
      >>=-eq-ok
        (fail_if (is_zero_address claim.voucher.channel.payer_authorizer)
          (text "unsupported_batch_eip1271"))
        _ r3 in
    let (id, computed, r5) =
      >>=-eq-ok (compute_batch_channel_id m vars claim.voucher.channel contract) _ r4 in
    let (signer, recovered, r6) =
      >>=-eq-ok
        (recover_voucher_signer m vars
          (record {
            channel_id = id;
            max_claimable_amount = claim.voucher.max_claimable_amount;
            signature = claim.signature;
          })
          contract)
        _ r5 in
    (
      (most, total, limit, (claimed, ground arith)),
      (id, signer, computed, (recovered, ground arith)),
    )

-- The claim is vouched for, and pays the receiver of the requirements in their token.
abbrev pub IsClaimFor : Message → Map Text → Text → PaymentRequirements → BatchVoucherClaim → Type 0
IsClaimFor m vars contract r claim =
    IsVouched m vars contract claim
    × ((same_address claim.voucher.channel.receiver r.pay_to ≡ true)
        × (same_address claim.voucher.channel.token r.asset ≡ true))

validate_claim_channel-same :
    (c : Crates) (channel : BatchChannelConfig) (r : PaymentRequirements)
    → validate_claim_channel c channel r ≡ ok tt
    → (same_address channel.receiver r.pay_to ≡ true) × (same_address channel.token r.asset ≡ true)
unfolding validate_claim_channel
validate_claim_channel-same c channel r e =
    let (_, _, r0) = >>=-eq-ok (validate_channel_config c channel) _ e in
    let (_, paid, r1) =
      >>=-eq-ok
        (fail_if (not (same_address channel.receiver r.pay_to))
          (text "batch claim receiver must match payTo"))
        _ r0 in
    (ground arith, ground arith)

validate_claim-IsClaimFor :
    (m : Message) (vars : Map Text) (claim : BatchVoucherClaim) (r : PaymentRequirements)
    (contract : Text)
    → validate_claim_matches_operation_requirements m vars claim r contract ≡ ok tt
    → IsClaimFor m vars contract r claim
unfolding validate_claim_matches_operation_requirements
validate_claim-IsClaimFor m vars claim r contract e =
    let (_, channel, r0) =
      >>=-eq-ok (validate_claim_channel m.crates claim.voucher.channel r) _ e in
    let (_, _, r1) = >>=-eq-ok (matches_optional_extra claim.voucher.channel r.extra) _ r0 in
    (
      validate_claim_voucher_signature-IsVouched m vars claim contract r1,
      validate_claim_channel-same m.crates claim.voucher.channel r channel,
    )

each_claim_operation-All :
    (m : Message) (vars : Map Text) (first : BatchChannelConfig) (claims : List BatchVoucherClaim)
    (r : PaymentRequirements) (contract : Text)
    → each_claim_operation m vars first claims r contract ≡ ok tt
    → All (IsClaimFor m vars contract r) claims
unfolding each_claim_operation
each_claim_operation-All m vars first [] r contract e = tt
each_claim_operation-All m vars first (claim ∷ claims) r contract e =
    let (_, valid, r0) =
      >>=-eq-ok (validate_claim_matches_operation_requirements m vars claim r contract) _ e in
    let (_, _, r1) =
      >>=-eq-ok
        (fail_if
          (not (same_address claim.voucher.channel.receiver_authorizer first.receiver_authorizer))
          (text "batch claim receiverAuthorizer mismatch"))
        _ r0 in
    let (_, _, r2) =
      >>=-eq-ok
        (fail_if (not (claim.voucher.channel.withdraw_delay == first.withdraw_delay))
          (text "batch claim withdrawDelay mismatch"))
        _ r1 in
    (
      validate_claim-IsClaimFor m vars claim r contract valid,
      each_claim_operation-All m vars first claims r contract r2,
    )

validate_claims-All :
    (m : Message) (vars : Map Text) (q : BatchFacilitatorRequest) (claims : List BatchVoucherClaim)
    (contract : Text)
    → validate_claims m vars q claims contract ≡ ok tt
    → All (IsClaimFor m vars contract q.payment_requirements) claims
unfolding validate_claims
validate_claims-All m vars q [] contract e = cc
validate_claims-All m vars q (first ∷ claims) contract e =
    each_claim_operation-All m vars first.voucher.channel (first ∷ claims) q.payment_requirements
      contract e

settle_claim-All :
    (m : Message) (vars : Map Text) (q : BatchFacilitatorRequest) (p : BatchRequestPayload)
    (contract : Text) (v : BatchSettleValidation)
    → settle_claim m vars q p contract ≡ ok v
    → All (IsClaimFor m vars contract q.payment_requirements) (claims_of p.claims)
unfolding settle_claim
settle_claim-All m vars q p contract v e =
    let (_, _, r0) = >>=-eq-ok (validate_operation m vars q) _ e in
    let (_, valid, _) = >>=-eq-ok (validate_claims m vars q (claims_of p.claims) contract) _ r0 in
    validate_claims-All m vars q (claims_of p.claims) contract valid

validate_batch_claim_count-le :
    (p : BatchRequestPayload)
    → validate_batch_claim_count p ≡ ok tt
    → length (claims_of p.claims) ≤ 100
unfolding validate_batch_claim_count
validate_batch_claim_count-le p e = elim (Option-cases p.claims) [
  | inl missing ↦ rw missing (omega arith)
  | inr (claims, given) ↦
      let f = rw (validate_batch_claim_count, given) at e in rw given (ground arith)
]

-- A request of the kind "claim" is accepted only if it has 100 claims at most, and each of them claims
-- no more than its voucher allows, which the authorizer of its channel's payer signed, and is of a
-- channel that pays the receiver of the requirements in their token.
pub validate_batch_settle_request-All :
    (json : SerdeJson) (reader : PayloadReader) (m : Message) (vars : Map Text)
    (q : BatchFacilitatorRequest) (charged contract : Text) (v : BatchSettleValidation)
    (p : BatchRequestPayload)
    → batch_payload reader q.payment_payload.payload ≡ ok p
    → p.kind ≡ text "claim"
    → validate_batch_settle_request_with_charged json reader m vars q charged contract ≡ ok v
    → (length (claims_of p.claims) ≤ 100)
      × All (IsClaimFor m vars contract q.payment_requirements) (claims_of p.claims)
unfolding validate_batch_settle_request_with_charged settle_of_kind settle_claim text text_eq
validate_batch_settle_request-All json reader m vars q charged contract v p read claims e =
    let (_, _, r0) =
      >>=-eq-ok (fail_if (not (is_version_2 q)) (text "x402Version must be 2")) _ e in
    let (p', read', r1) = >>=-eq-ok (batch_payload reader q.payment_payload.payload) _ r0 in
    let one : p' ≡ p = cc in
    let (_, few, r2) = >>=-eq-ok (validate_batch_claim_count p') _ r1 in
    let (_, _, r3) = >>=-eq-ok (validate_payload_metadata json q.payment_payload) _ r2 in
    let (_, _, r4) = >>=-eq-ok (validate_payload_kind_fields m.crates p') _ r3 in
    let few' = rw one at few in
    let last = rw (one, settle_of_kind, claims) at r4 in
    (validate_batch_claim_count-le p few', settle_claim-All m vars q p contract v last)
