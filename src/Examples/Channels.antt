-- ===== src/Examples/Channels.antt =====
-- Payment channels and their collections.
use ic_facilitator.Prelude.{ℕ, zero, suc, ◌≤◌, ◌≡◌, refl, none, some, [], ◌∷◌, ◌++◌, arith, ok}
use ic_facilitator.Text.{
  Text, text, text_eq, text_ne, text_ltb, parse_uint, is_blank, eq_ignore_ascii_case,
  to_ascii_lowercase,
}
use ic_facilitator.Map
use ic_facilitator.Map.{Map}
use ic_facilitator.State.{State, BatchChannel, BatchPendingRequest}
use ic_facilitator.Config.{
  jpyc_polygon_address, canonical_batch_settlement_contract, now_seconds, env,
  normalize_evm_address, configured_network_profile, configured_token_address,
  configured_batch_settlement_contract, configured_chain_id, private_key_address,
  batch_receiver_authorizer_address, optional_positive_u64,
}
use ic_facilitator.AutoClaim.{enabled}
use ic_facilitator.Batch.Amounts.{number}
use ic_facilitator.Batch.Store.{get_batch_channel, can_put_batch_channel, put_batch_channel}
use ic_facilitator.Batch.Writers.{authorize_batch_channel_update}
use ic_facilitator.Batch.Update.{
  batch_update_channel, BatchChannelUpdateResult, write_channel, store_update, validate_update,
  same_revision, revised, revision_of, delete_channel,
}
use ic_facilitator.Batch.Returns.{batch_update_channel_answers}
use ic_facilitator.Batch.Swap.{updated_swaps, refused_keeps}
use ic_facilitator.Batch.Stored.{StoredWell, batch_update_channel-StoredWell}
use ic_facilitator.Batch.Transitions.{
  Consumed, validate_batch_channel_transition-le, charge_increase-Consumed,
}
use ic_facilitator.Batch.Checks.{
  validate_channel_id, validate_hex, validate_limited_string, same_bytes32, validate_channel_config,
  normalize_address_allow_zero, parse_address_allow_zero, validate_withdraw_delay, validate_decimal,
  validate_uint128_decimal, parse_u128_decimal, is_zero_address, batch_withdraw_delay_seconds,
}
use ic_facilitator.Batch.Voucher.{
  compute_batch_channel_id, batch_domain_separator, channel_config_hash, recover_voucher_signer,
  voucher_hash, recovery_id, address_word,
}
use ic_facilitator.Batch.Channel.{
  not_below, require_monotonic_decimal, consumes_pending, validate_charge_increase_consumes_pending,
  validate_batch_channel, validate_identity, validate_texts, validate_stored_channel_voucher,
  validate_stored_channel_amounts, amounts_fit, validate_pending,
  validate_batch_channel_runtime_config, validate_batch_channel_transition,
  validate_initial_channel_create,
}
use ic_facilitator.Hexutil.{
  parse_hex, strip_0x, parse_address, address_hex, parse_u256_decimal, u256_loop, mul_small,
  mul_loop, add_small, add_loop, parse_u128_decimal_word, same_address, u256_word, be_bytes_onto,
  left_pad_32,
}
use ic_facilitator.AutoClaim.Hooks.{before_update, after_update}
use ic_facilitator.Examples.Setup.{message, seller, buyer, state}

-- The texts of twenty and of 32 bytes of seven.
abbrev hex_of : ℕ → Text
hex_of zero = []
hex_of (suc n) = 48 ∷ 55 ∷ hex_of n

abbrev pub id : Text
id = 48 ∷ 120 ∷ hex_of 32

abbrev pub signer : Text
signer = 48 ∷ 120 ∷ hex_of 20

abbrev pub pending : BatchPendingRequest
pending = record {
  pending_id = text "p";
  signed_max_claimable = text "5";
  expires_at = 1_700_000_060_000;
}

abbrev pub channel : BatchChannel
channel = record {
  channel_id = id;
  channel_config = record {
    payer = buyer;
    payer_authorizer = signer;
    receiver = seller;
    receiver_authorizer = signer;
    token = jpyc_polygon_address;
    withdraw_delay = 900;
    salt = id;
  };
  charged_cumulative_amount = text "0";
  signed_max_claimable = text "5";
  signature = 48 ∷ 120 ∷ (hex_of 64 ++ (48 ∷ 48 ∷ []));
  balance = text "0";
  total_claimed = text "0";
  withdraw_requested_at = 0;
  refund_nonce = text "0";
  onchain_synced_at = none;
  last_request_timestamp = 1_700_000_000;
  pending_request = some pending;
  revision = 0;
}

abbrev pub ready : State
ready = record state {
  env =
      (text "BATCH_RECEIVER_AUTHORIZER_PRIVATE_KEY", id)
      ∷ (text "BATCH_SETTLEMENT_CONTRACT", canonical_batch_settlement_contract)
      ∷ [];
}

abbrev created : BatchChannelUpdateResult
created = record {
  status = text "updated";
  channel = some (revised id none channel);
  current_revision = some 1;
  message = none;
}

abbrev holding : State
holding = record ready { batch_channels = (id, revised id none channel) ∷ [] }

creates : batch_update_channel message id none (some channel) ready ≡ some (created, holding)
unfolding batch_update_channel get_batch_channel write_channel delete_channel store_update
    validate_update validate_channel_id validate_hex validate_limited_string parse_hex strip_0x text
    text_eq to_ascii_lowercase Map.get same_revision configured_batch_settlement_contract
    configured_network_profile env validate_batch_channel validate_identity same_bytes32
    validate_channel_config parse_address normalize_address_allow_zero parse_address_allow_zero
    address_hex validate_withdraw_delay compute_batch_channel_id batch_domain_separator
    channel_config_hash validate_texts validate_decimal validate_uint128_decimal parse_u128_decimal
    parse_u256_decimal u256_loop mul_small mul_loop add_small add_loop parse_uint
    validate_stored_channel_voucher validate_stored_channel_amounts amounts_fit is_zero_address
    eq_ignore_ascii_case recover_voucher_signer voucher_hash parse_u128_decimal_word recovery_id
    same_address validate_pending is_blank validate_batch_channel_runtime_config
    configured_token_address batch_receiver_authorizer_address private_key_address
    batch_withdraw_delay_seconds optional_positive_u64 validate_batch_channel_transition
    validate_initial_channel_create now_seconds authorize_batch_channel_update before_update enabled
    can_put_batch_channel put_batch_channel Map.insert after_update configured_chain_id u256_word
    be_bytes_onto left_pad_32 address_word normalize_evm_address
creates = refl

updated_swaps_example :
    (none ≡ revision_of (get_batch_channel (to_ascii_lowercase id) ready.batch_channels))
    × ((contract : Text) × (validate_batch_channel message ready.env
            (to_ascii_lowercase id)
            channel
            contract
          ≡ ok tt)
        × (validate_batch_channel_transition message
              (get_batch_channel (to_ascii_lowercase id) ready.batch_channels)
              channel
            ≡ ok tt)
        × (authorize_batch_channel_update message
              (get_batch_channel (to_ascii_lowercase id) ready.batch_channels)
              (some channel)
            ≡ ok tt))
    × (get_batch_channel (to_ascii_lowercase id) holding.batch_channels
        ≡ some (
            revised
              (to_ascii_lowercase id)
              (get_batch_channel (to_ascii_lowercase id) ready.batch_channels)
              channel))
    × (Map.get (text "0x") holding.batch_channels ≡ Map.get (text "0x") ready.batch_channels)
updated_swaps_example =
    updated_swaps message id (text "0x") none channel ready holding created creates refl
      (text_ne _ _ (unfold to_ascii_lowercase text text_eq in refl))

batch_update_channel-StoredWell_example : StoredWell holding.batch_channels
batch_update_channel-StoredWell_example =
    batch_update_channel-StoredWell message id none (some channel) ready holding created
      (tt, omega arith, tt) creates

-- The same call again: the channel is there now.
abbrev conflict : BatchChannelUpdateResult
conflict = record {
  status = text "conflict";
  channel = some (revised id none channel);
  current_revision = some 1;
  message = some (text "batch channel revision mismatch");
}

conflicts : batch_update_channel message id none (some channel) holding ≡ some (conflict, holding)
unfolding batch_update_channel get_batch_channel validate_channel_id validate_hex
    validate_limited_string parse_hex strip_0x text text_eq to_ascii_lowercase Map.get same_revision
conflicts = refl

refused_keeps_example : holding.batch_channels ≡ holding.batch_channels
refused_keeps_example =
    refused_keeps message id none channel holding holding conflict conflicts
      (text_ne _ _ (unfold text text_eq in refl))

-- The pending request is taken up.
abbrev charged : BatchChannel
charged = record channel { charged_cumulative_amount = text "5"; pending_request = none }

follows : validate_batch_channel_transition message (some channel) charged ≡ ok tt
unfolding validate_batch_channel_transition validate_charge_increase_consumes_pending
    parse_u128_decimal validate_limited_string text parse_uint consumes_pending now_seconds text_eq
    require_monotonic_decimal parse_u256_decimal u256_loop mul_small mul_loop add_small add_loop
    not_below text_ltb
follows = refl

validate_batch_channel_transition-le_example :
    (number channel.charged_cumulative_amount ≤ number charged.charged_cumulative_amount)
    × (number channel.signed_max_claimable ≤ number charged.signed_max_claimable)
    × (number channel.total_claimed ≤ number charged.total_claimed)
    × (number channel.refund_nonce ≤ number charged.refund_nonce)
    × (channel.last_request_timestamp ≤ charged.last_request_timestamp)
validate_batch_channel_transition-le_example =
    validate_batch_channel_transition-le message channel charged follows

charge_increase-Consumed_example : Consumed message channel charged channel.pending_request
charge_increase-Consumed_example =
    charge_increase-Consumed message channel charged follows (unfold text in omega arith)

batch_update_channel_answers_example :
    (r : BatchChannelUpdateResult) × (after : State) × (batch_update_channel message id none
        (some channel)
        ready
      ≡ some (r, after))
batch_update_channel_answers_example =
    batch_update_channel_answers message id none (some channel) ready (tt, omega arith, tt)
