-- ===== src/Examples/Payments.antt =====
-- Payments, and calldata.
use ic_facilitator.Prelude.{ℕ, List, ◌*◌, ◌≡◌, refl, true, none, [], ◌∷◌, arith, ok, length, drop}
use ic_facilitator.Text.{
  Text, text, text_eq, parse_uint, is_blank, eq_ignore_ascii_case, to_ascii_lowercase,
}
use ic_facilitator.Map
use ic_facilitator.Config.{
  jpyc_polygon_address, configured_token_address, configured_network_profile, configured_network,
  configured_chain_id, env, now_seconds,
}
use ic_facilitator.Hexutil.{
  address_hex, same_address, strip_0x, parse_hex, parse_address, left_pad_32, parse_u256_decimal,
  u256_loop, mul_small, mul_loop, add_small, add_loop, u256_word, be_bytes_onto,
}
use ic_facilitator.Batch.Voucher.{address_word, recovery_id}
use ic_facilitator.Rpc.Json.{string, object, bare, field, get, lookup, json_eq}
use ic_facilitator.Payment.{PaymentRequirements, FacilitatorRequest}
use ic_facilitator.Payment.Signer.{
  recover_eip3009_signer, eip3009_digest, domain_separator, transfer_hash, authorization_words,
  recover_signer,
}
use ic_facilitator.Payment.Validation.{
  payer, validate_request, validate_request_before_signature, validate_request_signature,
  validate_requirements, validate_payload_matches_requirements, validate_time_window,
}
use ic_facilitator.Payment.Accepted.{IsMatching, IsTimely, validate_request-payer}
use ic_facilitator.Tx.Abi.{encode_bytes, encode_bytes_array, encode_tails, offset_words, joined}
use ic_facilitator.Tx.Reading.{word_at, bytes_at}
use ic_facilitator.Tx.Arrays.{encode_bytes_array-reads}
use ic_facilitator.Examples.Setup.{message, seller}
use ic_facilitator.Examples.Channels.{id, signer, channel}

abbrev requirements : PaymentRequirements
requirements = record {
  scheme = text "exact";
  network = text "eip155:137";
  amount = text "5";
  asset = jpyc_polygon_address;
  pay_to = seller;
  max_timeout_seconds = 600;
  extra = object (
      field (text "assetTransferMethod") (string (text "eip3009")) (
        field (text "name") (string (text "JPY Coin"))
          (field (text "version") (string (text "1")) bare)));
}

abbrev request : FacilitatorRequest
request = record {
  x402_version = 2;
  payment_payload = record {
    x402_version = 2;
    resource = none;
    accepted = requirements;
    payload = record {
      signature = channel.signature;
      authorization = record {
        from = signer;
        to = seller;
        value = text "5";
        valid_after = text "0";
        valid_before = text "1700000300";
        nonce = id;
      };
    };
    extensions = none;
  };
  payment_requirements = requirements;
}

accepts : validate_request message [] request ≡ payer signer
unfolding validate_request validate_request_before_signature validate_request_signature
    validate_requirements validate_payload_matches_requirements validate_time_window
    recover_eip3009_signer eip3009_digest domain_separator transfer_hash authorization_words
    recover_signer recovery_id address_word get lookup json_eq text text_eq is_blank parse_uint
    eq_ignore_ascii_case to_ascii_lowercase configured_token_address configured_network_profile
    configured_network configured_chain_id env now_seconds Map.get address_hex same_address strip_0x
    parse_hex parse_address left_pad_32 parse_u256_decimal u256_loop mul_small mul_loop add_small
    add_loop u256_word be_bytes_onto
accepts = refl

validate_request-payer_example :
    (request.x402_version ≡ 2)
    × (request.payment_requirements.network ≡ configured_network message [])
    × IsMatching request.payment_payload request.payment_requirements
    × IsTimely message request.payment_payload request.payment_requirements
    × (signer ≡ request.payment_payload.payload.authorization.from)
    × ((s : Text) × (recover_eip3009_signer message [] request.payment_payload ≡ ok s)
        × (same_address s signer ≡ true))
validate_request-payer_example =
    validate_request-payer message [] request signer (omega arith) accepts

abbrev items : List (List ℕ)
items = (1 ∷ 2 ∷ []) ∷ (3 ∷ []) ∷ []

encode_bytes_array-reads_example :
    let body = drop 32 (encode_bytes_array items) in
    (word_at (encode_bytes_array items) ≡ length items)
    × (bytes_at (drop (word_at (drop (32 * 1) body)) body) ≡ 3 ∷ [])
encode_bytes_array-reads_example = encode_bytes_array-reads items 1 (3 ∷ []) refl (
    unfold encode_bytes_array encode_bytes encode_tails offset_words joined u256_word be_bytes_onto
      left_pad_32 in
    omega arith)
