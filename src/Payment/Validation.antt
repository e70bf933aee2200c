-- ===== src/Payment/Validation.antt =====
-- rust/facilitator/src/facilitator.rs: whether a payment may be settled.
use ic_facilitator.Prelude.{
  ◌+◌, ◌-◌, ◌%◌, ◌^◌, Bool, true, false, not, ◌||◌, ◌==◌, Option, none, some, ltb, if◌then◌else◌,
  unwrap_or, Result, ok, err,
}
use ic_facilitator.Text.{Text, text, text_eq, is_blank, parse_u64}
use ic_facilitator.Map.{Map}
use ic_facilitator.Crates.{Message}
use ic_facilitator.Config.{now_seconds, sat_u64, configured_network, configured_token_address}
use ic_facilitator.Hexutil.{same_address}
use ic_facilitator.Rpc.Json.{get_str, json_eq}
use ic_facilitator.Payment.{PaymentRequirements, PaymentPayload, FacilitatorRequest}
use ic_facilitator.Payment.Signer.{recover_eip3009_signer}

pub record VerifyFailure : Type 0 where
  pub reason : Text
  pub message : Text
  pub payer : Option Text

unfoldable pub fail : Text → Text → Option Text → VerifyFailure
fail reason message payer = record { reason = reason; message = message; payer = payer }

-- A check: `none` where it holds; then the next.
abbrev pub or_fail : Bool → VerifyFailure → Option VerifyFailure → Option VerifyFailure
or_fail true failure rest = some failure
or_fail false failure rest = rest

abbrev pub is_text : Text → Option Text → Bool
is_text t none = false
is_text t (some value) = text_eq value t

abbrev pub is_token : Result Text → Text → Bool
is_token (ok token) asset = same_address asset token
is_token (err e) asset = false

-- `value.filter(|value| !value.trim().is_empty()).is_none()`
abbrev pub is_absent : Option Text → Bool
is_absent none = true
is_absent (some value) = is_blank value

unfoldable pub validate_requirements :
    Message → Map Text → PaymentRequirements → Option VerifyFailure
validate_requirements m vars r =
    or_fail (not (text_eq r.scheme (text "exact")))
      (fail (text "invalid_exact_evm_scheme") (text "scheme must be exact") none)
      (or_fail (not (text_eq r.network (configured_network m vars)))
        (fail (text "invalid_exact_evm_network_mismatch")
          (text "network does not match NETWORK_PROFILE") none)
        (or_fail (not (is_token (configured_token_address m vars) r.asset))
          (fail (text "invalid_exact_evm_asset") (text "asset does not match NETWORK_PROFILE token")
            none)
          (or_fail (not (is_text (text "eip3009") (get_str (text "assetTransferMethod") r.extra)))
            (fail (text "invalid_exact_evm_transfer_method")
              (text "assetTransferMethod must be eip3009") none)
            (or_fail (not (is_text (text "JPY Coin") (get_str (text "name") r.extra)))
              (fail (text "invalid_exact_evm_missing_eip712_domain")
                (text "EIP-712 domain name must be JPY Coin") none)
              (or_fail (is_absent (get_str (text "version") r.extra))
                (fail (text "invalid_exact_evm_missing_eip712_domain")
                  (text "EIP-712 domain version is required") none)
                none)))))

unfoldable pub validate_payload_matches_requirements :
    PaymentPayload → PaymentRequirements → Option VerifyFailure
validate_payload_matches_requirements p r =
    let auth = p.payload.authorization in
    or_fail (not (text_eq p.accepted.scheme r.scheme) || not (text_eq p.accepted.network r.network))
      (fail (text "invalid_exact_evm_payload_accepted") (text "accepted requirement mismatch")
        (some auth.from))
      (or_fail (not (text_eq p.accepted.amount r.amount) || not (text_eq auth.value r.amount))
        (fail (text "invalid_exact_evm_payload_amount") (text "amount mismatch") (some auth.from))
        (or_fail (not (same_address p.accepted.asset r.asset))
          (fail (text "invalid_exact_evm_payload_token") (text "token mismatch") (some auth.from))
          (or_fail
            (not (same_address p.accepted.pay_to r.pay_to) || not (same_address auth.to r.pay_to))
            (fail (text "invalid_exact_evm_payload_recipient") (text "recipient mismatch")
              (some auth.from))
            (or_fail (not (p.accepted.max_timeout_seconds == r.max_timeout_seconds))
              (fail (text "invalid_exact_evm_payload_timeout") (text "maxTimeoutSeconds mismatch")
                (some auth.from))
              (or_fail (not (json_eq p.accepted.extra r.extra))
                (fail (text "invalid_exact_evm_payload_accepted")
                  (text "accepted requirement extra mismatch") (some auth.from))
                none)))))

-- `now + 6` is of `u64`s.
unfoldable pub validate_time_window :
    Message → PaymentPayload → PaymentRequirements → Option VerifyFailure
validate_time_window m p r =
    let auth = p.payload.authorization in
    let now = now_seconds m in
    let valid_before = unwrap_or (parse_u64 auth.valid_before) 0 in
    let valid_after = unwrap_or (parse_u64 auth.valid_after) (2 ^ 64 - 1) in
    or_fail (ltb valid_before ((now + 6) % 2 ^ 64))
      (fail (text "invalid_exact_evm_payload_authorization_valid_before")
        (text "EIP-3009 validBefore is expired") (some auth.from))
      (or_fail (ltb now valid_after)
        (fail (text "invalid_exact_evm_payload_authorization_valid_after")
          (text "EIP-3009 validAfter is in the future") (some auth.from))
        (or_fail (ltb (sat_u64 (sat_u64 (now + r.max_timeout_seconds) + 6)) valid_before)
          (fail (text "invalid_exact_evm_payload_timeout")
            (text "EIP-3009 validBefore exceeds maxTimeoutSeconds") (some auth.from))
          none))

abbrev then_check : Option VerifyFailure → Option VerifyFailure → Option VerifyFailure
then_check (some failure) rest = some failure
then_check none rest = rest

unfoldable pub validate_request_before_signature :
    Message → Map Text → FacilitatorRequest → Option VerifyFailure
validate_request_before_signature m vars q =
    or_fail (not (q.x402_version == 2) || not (q.payment_payload.x402_version == 2))
      (fail (text "invalid_x402_version") (text "x402Version must be 2") none)
      (then_check (validate_requirements m vars q.payment_requirements) (
        then_check (validate_payload_matches_requirements q.payment_payload q.payment_requirements)
          (validate_time_window m q.payment_payload q.payment_requirements)))

-- `Result<String, VerifyFailure>`
pub data Verified : Type 0 where
  payer : Text → Verified
  failure : VerifyFailure → Verified

unfoldable pub validate_request_signature : Message → Map Text → FacilitatorRequest → Verified
validate_request_signature m vars q =
    let from = q.payment_payload.payload.authorization.from in
    elim (recover_eip3009_signer m vars q.payment_payload) [
      | err message ↦ failure (fail (text "invalid_exact_evm_signature") message none)
      | ok recovered ↦
          if not (same_address recovered from)
          then failure (
              fail (text "invalid_exact_evm_signature")
                (text "EIP-3009 signer does not match payer") (some from))
          else payer from
    ]

unfoldable pub validate_request : Message → Map Text → FacilitatorRequest → Verified
validate_request m vars q = elim (validate_request_before_signature m vars q) [
  | some f ↦ failure f
  | none ↦ validate_request_signature m vars q
]
