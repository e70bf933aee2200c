-- ===== src/Payment/Accepted.antt =====
-- What an accepted payment has passed: rust/facilitator/src/facilitator.rs.
use ic_facilitator.Prelude.{
  ◌+◌, ◌-◌, ◌^◌, ◌≤◌, ◌<◌, ◌≡◌, true, none, arith, inl, inr, ok, Option-cases, Result-cases,
  Bool-cases, unwrap_or,
}
use ic_facilitator.Text.{Text, text_eq_iff, parse_u64}
use ic_facilitator.Map.{Map}
use ic_facilitator.Crates.{Message}
use ic_facilitator.Config.{now_seconds, configured_network}
use ic_facilitator.Hexutil.{same_address}
use ic_facilitator.Payment.{PaymentRequirements, PaymentPayload, FacilitatorRequest}
use ic_facilitator.Payment.Signer.{recover_eip3009_signer}
use ic_facilitator.Payment.Validation.{
  payer, validate_request, validate_request_before_signature, validate_request_signature,
  validate_requirements, validate_payload_matches_requirements, validate_time_window,
}

-- The authorization is valid now and six seconds on, and not for longer than the requirements allow.
abbrev pub IsTimely : Message → PaymentPayload → PaymentRequirements → Type 0
IsTimely m p r =
    let auth = p.payload.authorization in
    let now = now_seconds m in
    (unwrap_or (parse_u64 auth.valid_after) (2 ^ 64 - 1) ≤ now)
    × (now + 6 ≤ unwrap_or (parse_u64 auth.valid_before) 0)
    × (unwrap_or (parse_u64 auth.valid_before) 0 ≤ now + r.max_timeout_seconds + 6)

validate_time_window-IsTimely :
    (m : Message) (p : PaymentPayload) (r : PaymentRequirements)
    → m.time < 2 ^ 64
    → validate_time_window m p r ≡ none
    → IsTimely m p r
unfolding validate_time_window now_seconds
validate_time_window-IsTimely m p r fits e =
    let early : now_seconds m + 6 < 2 ^ 64 = omega (arith, fits) in ground arith

-- The authorization transfers what is asked for, to whom it is asked for.
abbrev pub IsMatching : PaymentPayload → PaymentRequirements → Type 0
IsMatching p r =
    let auth = p.payload.authorization in
    (auth.value ≡ r.amount)
    × (same_address auth.to r.pay_to ≡ true)
    × (p.accepted.network ≡ r.network)
    × (same_address p.accepted.asset r.asset ≡ true)

validate_payload_matches_requirements-IsMatching :
    (p : PaymentPayload) (r : PaymentRequirements)
    → validate_payload_matches_requirements p r ≡ none
    → IsMatching p r
unfolding validate_payload_matches_requirements
validate_payload_matches_requirements-IsMatching p r e = ground (
  arith,
  text_eq_iff p.payload.authorization.value r.amount,
  text_eq_iff p.accepted.network r.network,
)

validate_request_signature-payer :
    (m : Message) (vars : Map Text) (q : FacilitatorRequest) (from : Text)
    → validate_request_signature m vars q ≡ payer from
    → (from ≡ q.payment_payload.payload.authorization.from)
      × ((signer : Text) × (recover_eip3009_signer m vars q.payment_payload ≡ ok signer)
          × (same_address signer from ≡ true))
unfolding validate_request_signature
validate_request_signature-payer m vars q from e =
    elim (Result-cases (recover_eip3009_signer m vars q.payment_payload)) [
      | inr (message, bad) ↦ absurd (let f = rw (validate_request_signature, bad) at e in cc)
      | inl (signer, found) ↦
          let f = rw (validate_request_signature, found) at e in
          elim (Bool-cases (same_address signer q.payment_payload.payload.authorization.from)) [
            | inr other ↦ absurd (let g = rw other at f in cc)
            | inl same ↦
                let g = rw same at f in
                let one : q.payment_payload.payload.authorization.from ≡ from = ground arith in
                (ground arith, (signer, found, rw (← one) same))
          ]
    ]

checks-none :
    (m : Message) (vars : Map Text) (q : FacilitatorRequest)
    → validate_request_before_signature m vars q ≡ none
    → (q.x402_version ≡ 2)
      × (validate_requirements m vars q.payment_requirements ≡ none)
      × (validate_payload_matches_requirements q.payment_payload q.payment_requirements ≡ none)
      × (validate_time_window m q.payment_payload q.payment_requirements ≡ none)
unfolding validate_request_before_signature
checks-none m vars q e = elim (Option-cases (validate_requirements m vars q.payment_requirements)) [
  | inr (f, bad) ↦ absurd (ground arith)
  | inl good ↦
      elim (Option-cases
        (validate_payload_matches_requirements q.payment_payload q.payment_requirements)) [
          | inr (f, bad) ↦ absurd (ground arith)
          | inl matches_ ↦ ground arith
        ]
]

validate_requirements-network :
    (m : Message) (vars : Map Text) (r : PaymentRequirements)
    → validate_requirements m vars r ≡ none
    → r.network ≡ configured_network m vars
unfolding validate_requirements
validate_requirements-network m vars r e =
    ground (arith, text_eq_iff r.network (configured_network m vars))

-- A payment is accepted, at a time that is a `u64`, only if it is of version 2 and of the configured
-- network; its authorization transfers the required amount to the required receiver; it is valid
-- now and six seconds on, and not longer than the requirements allow; and it was signed by the payer
-- that the answer names, whose authorization it is.
pub validate_request-payer :
    (m : Message) (vars : Map Text) (q : FacilitatorRequest) (from : Text)
    → m.time < 2 ^ 64
    → validate_request m vars q ≡ payer from
    → (q.x402_version ≡ 2)
      × (q.payment_requirements.network ≡ configured_network m vars)
      × IsMatching q.payment_payload q.payment_requirements
      × IsTimely m q.payment_payload q.payment_requirements
      × (from ≡ q.payment_payload.payload.authorization.from)
      × ((signer : Text) × (recover_eip3009_signer m vars q.payment_payload ≡ ok signer)
          × (same_address signer from ≡ true))
unfolding validate_request
validate_request-payer m vars q from fits e =
    elim (Option-cases (validate_request_before_signature m vars q)) [
      | inr (f, bad) ↦ absurd (let g = rw (validate_request, bad) at e in cc)
      | inl passed ↦
          let g = rw (validate_request, passed) at e in
          let (version, required, matching, timely) = checks-none m vars q passed in
          let (whose, signed) = validate_request_signature-payer m vars q from g in
          (
            version,
            validate_requirements-network m vars q.payment_requirements required,
            validate_payload_matches_requirements-IsMatching q.payment_payload
                q.payment_requirements matching,
            validate_time_window-IsTimely m q.payment_payload q.payment_requirements fits timely,
            whose,
            signed,
          )
    ]
