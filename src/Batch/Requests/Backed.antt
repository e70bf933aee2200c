-- ===== src/Batch/Requests/Backed.antt =====
-- What an accepted batch payment has been checked for: rust/facilitator/src/batch.rs.
use ic_facilitator.Prelude.{
  ℕ, ◌+◌, ◌^◌, ◌<◌, ◌≡◌, ◌⊎◌, inl, inr, true, false, not, ◌||◌, some, none, Option, arith, leb, ok,
  fail_if, ok_or, >>=-eq-ok, Bool-cases,
}
use ic_facilitator.Text.{Text, text, text_eq, text_eq_iff, to_decimal}
use ic_facilitator.Map.{Map}
use ic_facilitator.Crates.{Message, Crates}
use ic_facilitator.State.{BatchChannelConfig}
use ic_facilitator.Hexutil.{same_address}
use ic_facilitator.Batch.Checks.{
  parse_u128_decimal, validate_decimal, same_bytes32, is_zero_address, normalize_address_allow_zero,
  validate_channel_config,
}
use ic_facilitator.Batch.Voucher.{BatchVoucher, compute_batch_channel_id, recover_voucher_signer}
use ic_facilitator.Batch.Requests.{BatchFacilitatorRequest, BatchVerification, PayloadReader}
use ic_facilitator.Batch.Requests.Requirements.{
  validate_batch_requirements, validate_requirements_match, validate_payload_matches_requirements,
  validate_config_matches_requirements,
}
use ic_facilitator.Batch.Requests.Verify.{
  add_decimal_strings, batch_payload, validate_voucher, validate_deposit, expected_amount,
  validate_form, is_version_2, validate_batch_request_with_charged,
}
use ic_facilitator.Rpc.Json.{SerdeJson}
use ic_facilitator.Payment.{PaymentRequirements}
use ic_facilitator.Tx.{BatchRequestPayload}

-- A voucher for a channel's identifier, signed by the authorizer of the channel's payer.
abbrev pub IsSigned : Message → Map Text → BatchChannelConfig → BatchVoucher → Text → Type 0
IsSigned m vars config voucher contract =
    (is_zero_address config.payer_authorizer ≡ false)
    × ((id : Text) × (compute_batch_channel_id m vars config contract ≡ ok id)
        × (same_bytes32 m.crates id voucher.channel_id ≡ true))
    × ((signer : Text) × (recover_voucher_signer m vars voucher contract ≡ ok signer)
        × (same_address signer config.payer_authorizer ≡ true))

validate_voucher-IsSigned :
    (m : Message) (vars : Map Text) (config : BatchChannelConfig) (voucher : BatchVoucher)
    (contract : Text)
    → validate_voucher m vars config voucher contract ≡ ok tt
    → IsSigned m vars config voucher contract
unfolding validate_voucher
validate_voucher-IsSigned m vars config voucher contract e =
    let (id, computed, r0) = >>=-eq-ok (compute_batch_channel_id m vars config contract) _ e in
    let (_, named, r1) =
      >>=-eq-ok
        (fail_if (not (same_bytes32 m.crates id voucher.channel_id))
          (text "batch voucher channelId mismatch"))
        _ r0 in
    let (_, nonzero, r2) =
      >>=-eq-ok
        (fail_if (is_zero_address config.payer_authorizer) (text "unsupported_batch_eip1271")) _
        r1 in
    let (signer, recovered, r3) = >>=-eq-ok (recover_voucher_signer m vars voucher contract) _ r2 in
    (ground arith, (id, computed, ground arith), (signer, recovered, ground arith))

-- The amount that a voucher is for: of a refund the charges, of a deposit and a voucher the charges
-- and the price.
abbrev pub IsForAmount : Text → Text → Text → Text → Type 0
IsForAmount kind charged amount claimable =
    ((kind ≡ text "refund") × (claimable ≡ charged))
    ⊎ (((kind ≡ text "deposit") ⊎ (kind ≡ text "voucher"))
        × ((old price : ℕ) × (parse_u128_decimal (text "left") charged ≡ ok old)
            × ((parse_u128_decimal (text "right") amount ≡ ok price)
                × ((old + price < 2 ^ 128) × (claimable ≡ to_decimal (old + price))))))

pays-kind :
    (kind : Text)
    → (text_eq kind (text "deposit") || text_eq kind (text "voucher")) ≡ true
    → (kind ≡ text "deposit") ⊎ (kind ≡ text "voucher")
pays-kind kind h = elim (Bool-cases (text_eq kind (text "deposit"))) [
  | inl deposits ↦ inl ((text_eq_iff kind (text "deposit")).0 deposits)
  | inr other ↦ inr ((text_eq_iff kind (text "voucher")).0 (rw other at h))
]

add_decimal_strings-sum :
    (left right sum : Text)
    → add_decimal_strings left right ≡ ok sum
    → (l r : ℕ) × (parse_u128_decimal (text "left") left ≡ ok l)
      × ((parse_u128_decimal (text "right") right ≡ ok r)
          × ((l + r < 2 ^ 128) × (sum ≡ to_decimal (l + r))))
unfolding add_decimal_strings
add_decimal_strings-sum left right sum e =
    let (l, first, r0) = >>=-eq-ok (parse_u128_decimal (text "left") left) _ e in
    let (r, second, r1) = >>=-eq-ok (parse_u128_decimal (text "right") right) _ r0 in
    let (_, fits, r2) =
      >>=-eq-ok (fail_if (leb (2 ^ 128) (l + r)) (text "batch cumulative amount overflow")) _ r1 in
    (l, r, first, (second, (ground arith, ground arith)))

expected_amount-IsForAmount :
    (kind charged amount expected : Text)
    → expected_amount kind charged amount ≡ ok expected
    → IsForAmount kind charged amount expected
unfolding expected_amount
expected_amount-IsForAmount kind charged amount expected e =
    elim (Bool-cases (text_eq kind (text "deposit") || text_eq kind (text "voucher"))) [
      | inl pays ↦ inr (
        pays-kind kind pays,
        add_decimal_strings-sum charged amount expected (rw (expected_amount, pays) at e),
      )
      | inr neither ↦ elim (Bool-cases (text_eq kind (text "refund"))) [
        | inl refunds ↦
            let f = rw (expected_amount, neither, refunds) at e in
            inl ((text_eq_iff kind (text "refund")).0 refunds, ground arith)
        | inr other ↦ absurd (let f = rw (expected_amount, neither, other) at e in cc)
      ]
    ]

-- The channel that a payment is of: its receiver and its token are those of the requirements.
abbrev pub IsChannelFor : BatchChannelConfig → PaymentRequirements → Type 0
IsChannelFor config r =
    (same_address config.receiver r.pay_to ≡ true) × (same_address config.token r.asset ≡ true)

validate_config_matches_requirements-IsChannelFor :
    (c : Crates) (config : BatchChannelConfig) (r : PaymentRequirements)
    → validate_config_matches_requirements c config r ≡ ok tt
    → IsChannelFor config r
unfolding validate_config_matches_requirements
validate_config_matches_requirements-IsChannelFor c config r e =
    let (_, _, r0) = >>=-eq-ok (validate_channel_config c config) _ e in
    let (_, paid, r1) =
      >>=-eq-ok
        (fail_if (not (same_address config.receiver r.pay_to))
          (text "batch channel receiver must match payTo"))
        _ r0 in
    let (_, held, r2) =
      >>=-eq-ok
        (fail_if (not (same_address config.token r.asset))
          (text "batch channel token must match asset"))
        _ r1 in
    (ground arith, ground arith)

validate_form-IsChannelFor :
    (json : SerdeJson) (m : Message) (vars : Map Text) (q : BatchFacilitatorRequest)
    (p : BatchRequestPayload) (config : BatchChannelConfig)
    → p.channel_config ≡ some config
    → validate_form json m vars q p ≡ ok tt
    → IsChannelFor config q.payment_requirements
unfolding validate_form validate_payload_matches_requirements
validate_form-IsChannelFor json m vars q p config given e =
    let (_, _, r0) = >>=-eq-ok (validate_batch_requirements m vars q.payment_requirements) _ e in
    let (_, _, r1) =
      >>=-eq-ok (validate_batch_requirements m vars q.payment_payload.accepted) _ r0 in
    let (_, _, r2) =
      >>=-eq-ok (validate_requirements_match q.payment_requirements q.payment_payload.accepted) _
        r1 in
    let (_, matched, _) =
      >>=-eq-ok (validate_payload_matches_requirements m.crates p q.payment_requirements) _ r2 in
    let f : validate_config_matches_requirements m.crates config q.payment_requirements ≡ ok tt =
      rw (validate_payload_matches_requirements, given) at matched in
    validate_config_matches_requirements-IsChannelFor m.crates config q.payment_requirements f

ok_or-some : {A : Type 0} (o : Option A) (e : Text) (a : A) → ok_or o e ≡ ok a → o ≡ some a
ok_or-some none e a h = cc
ok_or-some (some b) e a h = cc

-- A batch payment is accepted only if its payload has a channel that is for the seller and the token
-- asked for, and a voucher for that channel that the authorizer of its payer signed. A refund's voucher
-- is for what was charged; that of a deposit or a voucher payment, the only other kinds, is for what
-- was charged and the price. The answer names the channel's receiver.
pub validate_batch_request-IsSigned :
    (json : SerdeJson) (reader : PayloadReader) (m : Message) (vars : Map Text)
    (q : BatchFacilitatorRequest) (charged contract : Text) (v : BatchVerification)
    → validate_batch_request_with_charged json reader m vars q charged contract ≡ ok v
    → (p : BatchRequestPayload) × (batch_payload reader q.payment_payload.payload ≡ ok p)
      × ((config : BatchChannelConfig) × (p.channel_config ≡ some config)
          × ((voucher : BatchVoucher) × (p.voucher ≡ some voucher)
              × (IsChannelFor config q.payment_requirements
                  × (IsSigned m vars config voucher contract
                      × (IsForAmount p.kind charged q.payment_requirements.amount
                            voucher.max_claimable_amount
                          × (normalize_address_allow_zero m.crates config.receiver
                              ≡ ok v.receiver))))))
unfolding validate_batch_request_with_charged
validate_batch_request-IsSigned json reader m vars q charged contract v e =
    let (_, _, r0) =
      >>=-eq-ok (fail_if (not (is_version_2 q)) (text "x402Version must be 2")) _ e in
    let (p, read, r1) = >>=-eq-ok (batch_payload reader q.payment_payload.payload) _ r0 in
    let (_, formed, r2) = >>=-eq-ok (validate_form json m vars q p) _ r1 in
    let (config, has_config, r3) =
      >>=-eq-ok (ok_or p.channel_config (text "batch channelConfig is required")) _ r2 in
    let (voucher, has_voucher, r4) =
      >>=-eq-ok (ok_or p.voucher (text "batch voucher is required")) _ r3 in
    let (_, vouched, r5) = >>=-eq-ok (validate_voucher m vars config voucher contract) _ r4 in
    let (_, _, r6) = >>=-eq-ok (validate_deposit m vars p config q.payment_requirements) _ r5 in
    let (_, _, r7) = >>=-eq-ok (validate_decimal (text "chargedCumulativeAmount") charged) _ r6 in
    let (expected, due, r8) =
      >>=-eq-ok (expected_amount p.kind charged q.payment_requirements.amount) _ r7 in
    let (_, agrees, r9) =
      >>=-eq-ok
        (fail_if (not (text_eq voucher.max_claimable_amount expected))
          (text "invalid_batch_settlement_evm_cumulative_amount_mismatch"))
        _ r8 in
    let (payer, _, r10) = >>=-eq-ok (normalize_address_allow_zero m.crates config.payer) _ r9 in
    let (receiver, named, r11) =
      >>=-eq-ok (normalize_address_allow_zero m.crates config.receiver) _ r10 in
    let given = ok_or-some p.channel_config _ config has_config in
    let equal : text_eq voucher.max_claimable_amount expected ≡ true = ground arith in
    let same : voucher.max_claimable_amount ≡ expected =
      (text_eq_iff voucher.max_claimable_amount expected).0 equal in
    let named' : receiver ≡ v.receiver = ground arith in
    (
      p,
      read,
      (
        config,
        given,
        (
          voucher,
          ok_or-some p.voucher _ voucher has_voucher,
          (
            validate_form-IsChannelFor json m vars q p config given formed,
            (
              validate_voucher-IsSigned m vars config voucher contract vouched,
              (
                rw same (
                    expected_amount-IsForAmount p.kind charged q.payment_requirements.amount
                      expected due),
                rw (← named') named,
              ),
            ),
          ),
        ),
      ),
    )
