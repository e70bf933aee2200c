-- ===== src/Examples/Attempts.antt =====
-- A new attempt.
use ic_facilitator.Prelude.{
  ℕ, zero, suc, ◌≡◌, ◌==◌, refl, true, Option, none, some, List, [], ◌∷◌, ◌++◌, if◌then◌else◌,
  replicate, ok, unwrap_or,
}
use ic_facilitator.Text.{Text, text, text_eq, to_decimal, digits_onto}
use ic_facilitator.Map
use ic_facilitator.Crates.{Message}
use ic_facilitator.Config.{RpcConfig, canonical_batch_settlement_contract}
use ic_facilitator.State.{State, BatchChannel, Collection, Attempt}
use ic_facilitator.AutoClaim.Worker.{ChannelState, Progress, attempt_of, returned}
use ic_facilitator.AutoClaim.Worker.Monitor.{channel_answered, observed}
use ic_facilitator.AutoClaim.Worker.Readings.{IsObserved}
use ic_facilitator.AutoClaim.Worker.Starts.{IsStarted, channel_answered-starts}
use ic_facilitator.AutoClaim.{amount, reconcile, retain_above, save, validate_signer, enabled}
use ic_facilitator.AutoClaim.Worker.Monitor.{after_reading, claim_if_due, not_yet_due}
use ic_facilitator.AutoClaim.Worker.Start.{planned, start_attempt, attempted}
use ic_facilitator.Admission.{
  require_current_seller_acceptance, require_batch_settlement_enabled_except_fee,
  require_amoy_batch_contract_code_verified, validate_batch_key_separation,
}
use ic_facilitator.Fees.Schedule.{
  claim_fee, configured_batch_claim_fee_schedule, batch_fee_for_kind,
}
use ic_facilitator.Fees.{batch_claim_fee_schedule_has_any_value, batch_fee_profile_has_any_value}
use ic_facilitator.Config.{
  optional_env_value, required_positive_u128, parse_positive_u128,
  configured_batch_settlement_contract, configured_network_profile, env, configured_token_address,
  batch_receiver_authorizer_address, private_key_address, optional_positive_u64, now_seconds,
  configured_chain_id, normalize_evm_address,
}
use ic_facilitator.Active.{active_settlement_scope, acquire_active_settlement}
use ic_facilitator.Credit.{reserve_seller_credit, seller_credit_balance_for}
use ic_facilitator.AutoClaim.Worker.Prepare.{begin_prepare}
use ic_facilitator.AutoClaim.Journal.{record_attempt}
use ic_facilitator.Settlement.Store.{insert_batch_settlement, insert_settlement}
use ic_facilitator.Batch.Store.{get_batch_channel}
use ic_facilitator.Batch.Checks.{
  validate_channel_id, validate_hex, validate_limited_string, same_bytes32, validate_channel_config,
  normalize_address_allow_zero, parse_address_allow_zero, validate_withdraw_delay, validate_decimal,
  validate_uint128_decimal, parse_u128_decimal, is_zero_address, batch_withdraw_delay_seconds,
}
use ic_facilitator.Hexutil.{
  parse_hex, strip_0x, parse_address, address_hex, parse_u256_decimal, u256_loop, mul_small,
  mul_loop, add_small, add_loop, parse_u128_decimal_word, same_address, u256_word, be_bytes_onto,
  left_pad_32,
}
use ic_facilitator.Text.{to_ascii_lowercase, parse_uint, eq_ignore_ascii_case, is_blank}
use ic_facilitator.Batch.Channel.{
  validate_batch_channel, validate_identity, validate_texts, validate_stored_channel_voucher,
  validate_stored_channel_amounts, amounts_fit, validate_pending,
}
use ic_facilitator.Batch.Voucher.{
  compute_batch_channel_id, batch_domain_separator, channel_config_hash, recover_voucher_signer,
  voucher_hash, recovery_id, address_word,
}
use ic_facilitator.Examples.Setup.{crates, message, seller}
use ic_facilitator.Examples.Channels.{id, channel}
use ic_facilitator.Examples.Collections.{collection, affordable}

-- A hash by which two keys have two addresses.
abbrev first_is_9 : List ℕ → List ℕ
first_is_9 [] = replicate 32 7
first_is_9 (b ∷ bytes) = if b == 9 then replicate 32 9 else replicate 32 7

abbrev two_keys : Message
two_keys = record message {
  crates = record crates { keccak256 = first_is_9; verifying_point = λ key. some (4 ∷ key) };
}

abbrev nines : ℕ → Text
nines zero = []
nines (suc n) = 48 ∷ 57 ∷ nines n

-- 5 of a balance of 9 are charged, and the claim is asked for.
abbrev charged : BatchChannel
charged = record channel {
  charged_cumulative_amount = text "5";
  balance = text "9";
  pending_request = none;
}

abbrev forced : Collection
forced = record collection { seed = charged; force = true }

abbrev due : State
due = record affordable {
  env = affordable.env ++ ((text "FACILITATOR_EVM_PRIVATE_KEY", text "0x" ++ nines 32) ∷ []);
  batch_channels = (id, charged) ∷ [];
  collections = (id, forced) ∷ [];
  active_settlements = [];
}

abbrev state : ChannelState
state = record { balance = text "9"; claimed = text "0"; withdrawal = 0 }

abbrev config : RpcConfig
config = record {
  url = text "https://node";
  max_gas = 500_000;
  max_settlement_fee_wei = 30_000_000_000_000_000;
  min_confirmations = 3;
}

abbrev answered : Option (Progress × State)
answered = channel_answered two_keys config canonical_batch_settlement_contract id (ok state) due

abbrev out : Progress × State
out = unwrap_or answered (returned (ok tt), due)

abbrev attempt : Attempt
attempt = record {
  key = text "auto-claim:" ++ (id ++ text ":5:1");
  channel = charged;
  target = 5;
  from = text "0x" ++ nines 20;
  contract = canonical_batch_settlement_contract;
  chain_id = 137;
  scope = text "0x" ++ (nines 20 ++ (text "|" ++ seller));
  fee = 30;
  nonce = none;
  raw = none;
  tx = none;
}

starts : (answered ≡ some out) × (attempt_of id out.1 ≡ some attempt)
unfolding channel_answered observed amount reconcile retain_above save after_reading claim_if_due
    not_yet_due planned validate_signer require_current_seller_acceptance
    require_batch_settlement_enabled_except_fee require_amoy_batch_contract_code_verified
    validate_batch_key_separation claim_fee configured_batch_claim_fee_schedule
    batch_claim_fee_schedule_has_any_value optional_env_value batch_fee_for_kind
    batch_fee_profile_has_any_value required_positive_u128 parse_positive_u128
    active_settlement_scope start_attempt acquire_active_settlement reserve_seller_credit
    seller_credit_balance_for attempted begin_prepare record_attempt insert_batch_settlement
    insert_settlement to_decimal digits_onto get_batch_channel validate_channel_id validate_hex
    validate_limited_string parse_hex strip_0x text text_eq to_ascii_lowercase Map.get
    configured_batch_settlement_contract configured_network_profile env validate_batch_channel
    validate_identity same_bytes32 validate_channel_config parse_address
    normalize_address_allow_zero parse_address_allow_zero address_hex validate_withdraw_delay
    compute_batch_channel_id batch_domain_separator channel_config_hash validate_texts
    validate_decimal validate_uint128_decimal parse_u128_decimal parse_u256_decimal u256_loop
    mul_small mul_loop add_small add_loop parse_uint validate_stored_channel_voucher
    validate_stored_channel_amounts amounts_fit is_zero_address eq_ignore_ascii_case
    recover_voucher_signer voucher_hash parse_u128_decimal_word recovery_id same_address
    validate_pending is_blank configured_token_address batch_receiver_authorizer_address
    private_key_address batch_withdraw_delay_seconds optional_positive_u64 now_seconds enabled
    Map.insert configured_chain_id u256_word be_bytes_onto left_pad_32 address_word
    normalize_evm_address
starts = (refl, refl)

channel_answered-starts_example :
    (c : Collection) × (observed two_keys state forced ≡ some c)
    × IsObserved state forced c
    × IsStarted two_keys id canonical_batch_settlement_contract c due out.1 attempt
channel_answered-starts_example =
    channel_answered-starts two_keys config canonical_batch_settlement_contract id state due forced
      out attempt (unfold Map.get text_eq in refl) refl starts.0 starts.1
