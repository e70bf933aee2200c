-- ===== src/Examples/Collections.antt =====
-- Collections of charges, and fees.
use ic_facilitator.Prelude.{
  ◌+◌, ◌≤◌, ◌≡◌, refl, true, false, none, some, [], ◌∷◌, ◌++◌, max, arith, ok,
}
use ic_facilitator.Text.{
  Text, text, text_eq, parse_uint, to_ascii_lowercase, to_decimal, digits_onto, is_blank,
  starts_with, eq_ignore_ascii_case,
}
use ic_facilitator.Map
use ic_facilitator.Nonce.{get_nonce_state}
use ic_facilitator.Map.{Map}
use ic_facilitator.State.{State, Collection, Attempt}
use ic_facilitator.Config.{
  normalize_evm_address, sat_u128, env, optional_env_value, required_positive_u128,
  parse_positive_u128, configured_network_profile, now_seconds, private_key_address,
}
use ic_facilitator.Hexutil.{parse_address, parse_hex, strip_0x, address_hex, same_address}
use ic_facilitator.Credit.{seller_credit_balance_for}
use ic_facilitator.Active.{release_active_settlement}
use ic_facilitator.Settlement.Store.{remove_settlement}
use ic_facilitator.Fees.{
  batch_claim_fee_schedule_has_any_value, batch_fee_profile_has_any_value,
  validate_batch_claim_fee_schedule, each_valid, batch_claim_fee_schedule_values,
  required_positive_u128_value, validate_env_update, minimum_of, validate_monotonic_fee_schedule,
  non_decreasing, BatchClaimFeeSchedule,
}
use ic_facilitator.Fees.Schedule.{
  claim_fee, configured_batch_claim_fee_schedule, read_schedule, scheduled_claim_fee, tier,
  batch_fee_for_kind,
}
use ic_facilitator.Fees.Tiers.{scheduled_claim_fee-le}
use ic_facilitator.AutoClaim.{
  reconcile, amount, retain_above, save, enabled, validate_signer, stop_reason,
}
use ic_facilitator.AutoClaim.Claims.{IsReturned, reconcile_twice, abandon_prepared_gives_back}
use ic_facilitator.AutoClaim.Journal.{abandon_prepared, given_up}
use ic_facilitator.AutoClaim.Hooks.{before_update, reserve_pending, registered, monitored}
use ic_facilitator.AutoClaim.Reservations.{Unstopped, before_update-Unstopped}
use ic_facilitator.Examples.Setup.{message, seller}
use ic_facilitator.Examples.Channels.{channel, ready, id}

-- Two charges, of which the first is claimed.
abbrev pub collection : Collection
collection = record {
  seed = channel;
  charges =
      (record { amount = 3; at = 1_700_000_000 })
      ∷ (record { amount = 5; at = 1_700_000_001 })
      ∷ [];
  claimed = 0;
  oldest_legacy = none;
  force = false;
  next_due = 1_700_000_060;
  monitored_at = some 1_699_999_990;
  withdrawal_at = 0;
  balance = 9;
  monitor_calls = 0;
  monitor_cycles_reserved = 0;
  error = none;
  attempt = none;
  halted = false;
  attempt_sequence = 0;
}

abbrev claimed_3 : Collection
claimed_3 = record collection {
  claimed = 3;
  charges = (record { amount = 5; at = 1_700_000_001 }) ∷ [];
}

reconciled : reconcile 3 collection ≡ some claimed_3
unfolding reconcile amount retain_above parse_uint text
reconciled = refl

reconcile_twice_example : reconcile 4 claimed_3 ≡ reconcile (max 3 4) collection
reconcile_twice_example = reconcile_twice 3 4 collection claimed_3 reconciled

abbrev pub collecting : State
collecting = record ready { collections = (id, collection) ∷ []; policies = (seller, 1) ∷ [] }

abbrev pub attempt_5 : Attempt
attempt_5 = record {
  key = text "auto-claim:1";
  channel = channel;
  target = 5;
  from = text "0xf";
  contract = text "0x4";
  chain_id = 137;
  scope = text "scope";
  fee = 30;
  nonce = some 7;
  raw = none;
  tx = none;
}

-- The attempt has the nonce before the next one.
abbrev preparing : State
preparing = record collecting { nonces = (text "0xf", record { next_nonce = some 8 }) ∷ [] }

abbrev abandoned : State
abandoned =
    save id (record collection { attempt = none; force = true })
      (given_up message attempt_5 preparing)

abandons : abandon_prepared message id attempt_5 preparing ≡ some abandoned
unfolding abandon_prepared given_up remove_settlement Map.get text text_eq
abandons = refl

abandon_prepared_gives_back_example :
    (Map.get attempt_5.key abandoned.settlements ≡ none)
    × (abandoned.active_settlements
        ≡ release_active_settlement attempt_5.scope attempt_5.key preparing.active_settlements)
    × (seller_credit_balance_for seller abandoned.seller_credits
        ≡ sat_u128 (seller_credit_balance_for seller preparing.seller_credits + attempt_5.fee))
    × (Map.get id abandoned.collections ≡ some (record collection { attempt = none; force = true }))
    × IsReturned attempt_5.nonce
        (get_nonce_state attempt_5.from preparing.nonces).next_nonce
        (get_nonce_state attempt_5.from abandoned.nonces).next_nonce
abandon_prepared_gives_back_example =
    abandon_prepared_gives_back message id seller attempt_5 preparing abandoned collection
      (unfold Map.get text_eq in refl)
      (unfold normalize_evm_address parse_address parse_hex strip_0x address_hex text text_eq in
        refl)
      abandons

-- A schedule of fees, each above the minimum of half a JPYC.
abbrev fees : Map Text
fees =
    (text "BATCH_CLAIM_100_FEE_AMOUNT", text "900000000000000000")
    ∷ (text "BATCH_CLAIM_10_FEE_AMOUNT", text "600000000000000000")
    ∷ (text "BATCH_CLAIM_1_FEE_AMOUNT", text "500000000000000000")
    ∷ (text "BATCH_CLAIM_50_FEE_AMOUNT", text "700000000000000000")
    ∷ (text "BATCH_REFUND_WITH_CLAIM_100_FEE_AMOUNT", text "900000000000000000")
    ∷ (text "BATCH_REFUND_WITH_CLAIM_10_FEE_AMOUNT", text "600000000000000000")
    ∷ (text "BATCH_REFUND_WITH_CLAIM_1_FEE_AMOUNT", text "500000000000000000")
    ∷ (text "BATCH_REFUND_WITH_CLAIM_50_FEE_AMOUNT", text "700000000000000000")
    ∷ []

abbrev schedule : BatchClaimFeeSchedule
schedule = record {
  claim_1_fee_amount = to_decimal 500_000_000_000_000_000;
  claim_10_fee_amount = to_decimal 600_000_000_000_000_000;
  claim_50_fee_amount = to_decimal 700_000_000_000_000_000;
  claim_100_fee_amount = to_decimal 900_000_000_000_000_000;
  refund_with_claim_1_fee_amount = to_decimal 500_000_000_000_000_000;
  refund_with_claim_10_fee_amount = to_decimal 600_000_000_000_000_000;
  refund_with_claim_50_fee_amount = to_decimal 700_000_000_000_000_000;
  refund_with_claim_100_fee_amount = to_decimal 900_000_000_000_000_000;
}

fees_read : configured_batch_claim_fee_schedule message fees ≡ ok (some schedule)
unfolding configured_batch_claim_fee_schedule batch_claim_fee_schedule_has_any_value
    optional_env_value Map.get text text_eq is_blank read_schedule required_positive_u128 env
    parse_positive_u128 parse_uint validate_batch_claim_fee_schedule each_valid
    batch_claim_fee_schedule_values required_positive_u128_value validate_env_update
    configured_network_profile minimum_of validate_monotonic_fee_schedule non_decreasing to_decimal
    digits_onto starts_with
fees_read = refl

scheduled_claim_fee-le_example :
    (500_000_000_000_000_000 ≤ 700_000_000_000_000_000) × (1 ≤ 1) × (11 ≤ 100)
unfolding scheduled_claim_fee
scheduled_claim_fee-le_example =
    scheduled_claim_fee-le message fees schedule false 1 11 500_000_000_000_000_000
      700_000_000_000_000_000 fees_read (omega arith)
      (rw (scheduled_claim_fee, fees_read) (unfold tier parse_uint to_decimal digits_onto in refl))
      (rw (scheduled_claim_fee, fees_read) (unfold tier parse_uint to_decimal digits_onto in refl))

-- A claim costs 30 of the seller's 100.
abbrev pub affordable : State
affordable = record collecting {
  env = collecting.env ++ ((text "BATCH_SETTLEMENT_FEE_AMOUNT", text "30") ∷ []);
}

accepts : before_update message none channel affordable ≡ some (ok tt, affordable)
unfolding before_update enabled Map.get text text_eq to_ascii_lowercase validate_signer env
    private_key_address parse_hex strip_0x address_hex same_address eq_ignore_ascii_case
    reserve_pending registered monitored stop_reason claim_fee configured_batch_claim_fee_schedule
    batch_claim_fee_schedule_has_any_value optional_env_value is_blank batch_fee_for_kind
    batch_fee_profile_has_any_value required_positive_u128 parse_positive_u128 parse_uint
    seller_credit_balance_for now_seconds
accepts = refl

before_update-Unstopped_example : Unstopped message id affordable
before_update-Unstopped_example =
    before_update-Unstopped message none channel affordable affordable
      (unfold enabled Map.get text text_eq to_ascii_lowercase in refl) refl accepts
