-- ===== src/Examples/Requests.antt =====
-- Requests of the batch scheme.
use ic_facilitator.Prelude.{◌≤◌, ◌≡◌, refl, All, none, some, [], ◌∷◌, ok, length}
use ic_facilitator.Text.{
  Text, text, text_eq, parse_uint, is_blank, eq_ignore_ascii_case, to_ascii_lowercase, to_decimal,
  digits_onto,
}
use ic_facilitator.Map
use ic_facilitator.Config.{
  jpyc_polygon_address, canonical_batch_settlement_contract, configured_token_address,
  configured_network_profile, configured_network, configured_chain_id, env,
}
use ic_facilitator.Hexutil.{
  address_hex, same_address, strip_0x, parse_hex, parse_address, left_pad_32, parse_u256_decimal,
  u256_loop, mul_small, mul_loop, add_small, add_loop, u256_word, be_bytes_onto,
  parse_u128_decimal_word,
}
use ic_facilitator.State.{BatchChannelConfig}
use ic_facilitator.Batch.Checks.{
  validate_hex, validate_limited_string, same_bytes32, validate_channel_config,
  normalize_address_allow_zero, parse_address_allow_zero, validate_withdraw_delay, validate_decimal,
  validate_uint128_decimal, parse_u128_decimal, is_zero_address,
}
use ic_facilitator.Batch.Voucher.{
  BatchVoucher, compute_batch_channel_id, batch_domain_separator, channel_config_hash,
  recover_voucher_signer, voucher_hash, recovery_id, address_word,
}
use ic_facilitator.Batch.Requests.{
  BatchFacilitatorRequest, BatchVerification, BatchSettleValidation, PayloadReader,
}
use ic_facilitator.Batch.Requests.Fields.{
  validate_payload_kind_fields, validate_payload_metadata, fields_of_kind, voucher_fields,
  claim_fields, reject_operation_fields, require_present, reject_present,
  validate_batch_claim_count,
}
use ic_facilitator.Batch.Requests.Requirements.{
  validate_batch_requirements, validate_requirements_match, validate_payload_matches_requirements,
  validate_config_matches_requirements, validate_profile, required_extra_string,
  validate_batch_operation_requirements, validate_optional_batch_extra,
}
use ic_facilitator.Batch.Requests.Verify.{
  add_decimal_strings, batch_payload, validate_voucher, validate_deposit, expected_amount,
  validate_form, validate_batch_request_with_charged,
}
use ic_facilitator.Batch.Requests.Claims.{
  each_claim_operation, validate_claim_matches_operation_requirements, validate_claim_channel,
  matches_optional_extra, validate_claim_voucher_signature,
}
use ic_facilitator.Batch.Requests.Settle.{
  claims_of, settle_of_kind, settle_claim, validate_claims, validate_operation,
  validate_batch_settle_request_with_charged,
}
use ic_facilitator.Batch.Requests.Backed.{
  IsChannelFor, IsSigned, IsForAmount, validate_batch_request-IsSigned,
}
use ic_facilitator.Batch.Requests.Claimed.{IsClaimFor, validate_batch_settle_request-All}
use ic_facilitator.Rpc.Json.{
  Json, null, string, unsigned, object, bare, field, get, lookup, json_eq, SerdeJson,
}
use ic_facilitator.Payment.{PaymentRequirements}
use ic_facilitator.Tx.{BatchRequestPayload}
use ic_facilitator.Examples.Setup.{message, seller, buyer}
use ic_facilitator.Examples.Channels.{id, signer, channel}

abbrev json : SerdeJson
json = record { from_str = λ body. none; to_string = λ value. [] }

abbrev extra : Json
extra = object (
    field (text "assetTransferMethod") (string (text "eip3009")) (
      field (text "name") (string (text "JPY Coin")) (
        field (text "receiverAuthorizer") (string signer) (
          field (text "version") (string (text "1"))
            (field (text "withdrawDelay") (unsigned 900) bare)))))

abbrev required : Text → PaymentRequirements
required amount = record {
  scheme = text "batch-settlement";
  network = text "eip155:137";
  amount = amount;
  asset = jpyc_polygon_address;
  pay_to = seller;
  max_timeout_seconds = 600;
  extra = extra;
}

abbrev request : Text → BatchFacilitatorRequest
request amount = record {
  x402_version = 2;
  payment_payload = record {
    x402_version = 2;
    resource = none;
    accepted = required amount;
    payload = null;
    extensions = none;
  };
  payment_requirements = required amount;
}

abbrev voucher : BatchVoucher
voucher = record { channel_id = id; max_claimable_amount = text "5"; signature = channel.signature }

abbrev paying : BatchRequestPayload
paying = record {
  kind = text "voucher";
  channel_config = some channel.channel_config;
  voucher = some voucher;
  deposit = none;
  amount = none;
  refund_nonce = none;
  claims = none;
  receiver = none;
  token = none;
  claim_authorizer_signature = none;
  refund_authorizer_signature = none;
}

abbrev claiming : BatchRequestPayload
claiming = record paying {
  kind = text "claim";
  channel_config = none;
  voucher = none;
  claims = some (
      record {
        voucher = record { channel = channel.channel_config; max_claimable_amount = text "5" };
        signature = channel.signature;
        total_claimed = text "3";
      }
      ∷ []);
}

abbrev reads : BatchRequestPayload → PayloadReader
reads payload = record { from_value = λ value. ok payload }

abbrev verified : BatchVerification
verified = record { payer = buyer; receiver = seller }

abbrev settled : BatchSettleValidation
settled = record { payer = none; receiver = seller }

pays :
    validate_batch_request_with_charged json
      (reads paying)
      message
      []
      (request (text "2"))
      (text "3")
      canonical_batch_settlement_contract
    ≡ ok verified
unfolding validate_batch_request_with_charged batch_payload validate_form
    validate_batch_requirements validate_profile text text_eq configured_network
    configured_network_profile env Map.get configured_token_address same_address
    eq_ignore_ascii_case strip_0x get lookup required_extra_string is_blank parse_address parse_hex
    validate_withdraw_delay validate_uint128_decimal parse_u128_decimal validate_limited_string
    parse_uint validate_requirements_match json_eq validate_payload_matches_requirements
    validate_config_matches_requirements validate_channel_config normalize_address_allow_zero
    parse_address_allow_zero address_hex validate_hex validate_payload_metadata
    validate_payload_kind_fields fields_of_kind voucher_fields reject_operation_fields
    require_present reject_present validate_voucher compute_batch_channel_id batch_domain_separator
    channel_config_hash configured_chain_id u256_word be_bytes_onto left_pad_32 address_word
    same_bytes32 is_zero_address recover_voucher_signer voucher_hash parse_u128_decimal_word
    parse_u256_decimal u256_loop mul_small mul_loop add_small add_loop recovery_id validate_deposit
    to_ascii_lowercase validate_decimal expected_amount add_decimal_strings to_decimal digits_onto
pays = refl

claims :
    validate_batch_settle_request_with_charged json
      (reads claiming)
      message
      []
      (request (text "0"))
      (text "0")
      canonical_batch_settlement_contract
    ≡ ok settled
unfolding validate_batch_settle_request_with_charged batch_payload validate_batch_claim_count
    validate_payload_metadata validate_payload_kind_fields fields_of_kind claim_fields
    reject_present settle_of_kind settle_claim validate_operation
    validate_batch_operation_requirements validate_profile text text_eq configured_network
    configured_network_profile env Map.get configured_token_address same_address
    eq_ignore_ascii_case strip_0x get lookup is_blank parse_address parse_hex
    validate_withdraw_delay validate_optional_batch_extra validate_requirements_match json_eq
    validate_claims each_claim_operation validate_claim_matches_operation_requirements
    validate_claim_channel validate_channel_config normalize_address_allow_zero
    parse_address_allow_zero address_hex validate_hex validate_limited_string matches_optional_extra
    validate_claim_voucher_signature parse_u128_decimal parse_uint is_zero_address
    compute_batch_channel_id batch_domain_separator channel_config_hash configured_chain_id
    u256_word be_bytes_onto left_pad_32 address_word recover_voucher_signer voucher_hash
    parse_u128_decimal_word parse_u256_decimal u256_loop mul_small mul_loop add_small add_loop
    recovery_id to_ascii_lowercase
claims = refl

validate_batch_request-IsSigned_example :
    (p : BatchRequestPayload) × (batch_payload (reads paying) null ≡ ok p)
    × ((config : BatchChannelConfig) × (p.channel_config ≡ some config)
        × ((v : BatchVoucher) × (p.voucher ≡ some v)
            × (IsChannelFor config (required (text "2"))
                × (IsSigned message [] config v canonical_batch_settlement_contract
                    × (IsForAmount p.kind (text "3") (text "2") v.max_claimable_amount
                        × (normalize_address_allow_zero message.crates config.receiver
                            ≡ ok seller))))))
validate_batch_request-IsSigned_example =
    validate_batch_request-IsSigned json (reads paying) message [] (request (text "2")) (text "3")
      canonical_batch_settlement_contract verified pays

reads-claiming : batch_payload (reads claiming) null ≡ ok claiming
unfolding batch_payload
reads-claiming = refl

validate_batch_settle_request-All_example :
    (length (claims_of claiming.claims) ≤ 100)
    × All
        (IsClaimFor message [] canonical_batch_settlement_contract (required (text "0")))
        (claims_of claiming.claims)
validate_batch_settle_request-All_example =
    validate_batch_settle_request-All json (reads claiming) message [] (request (text "0"))
      (text "0") canonical_batch_settlement_contract settled claiming reads-claiming refl claims
