-- ===== src/Tx/Calls.antt =====
-- rust/facilitator/src/tx.rs: the calls of the batch contract.
use ic_facilitator.Prelude.{
  ℕ, ◌+◌, ◌*◌, Option, none, some, List, [], ◌∷◌, ◌++◌, if◌then◌else◌, length, is_empty, unwrap_or,
  Result, ok, ◌>>=◌, ◌>>◌, ok_or, fail_if,
}
use ic_facilitator.Text.{Text, text}
use ic_facilitator.Map.{Map}
use ic_facilitator.Crates.{Crates, Message}
use ic_facilitator.State.{BatchChannelConfig}
use ic_facilitator.Hexutil.{
  parse_hex, parse_address, parse_u256_decimal, parse_u128_decimal_word, u256_word,
}
use ic_facilitator.Batch.Voucher.{address_word, compute_batch_channel_id}
use ic_facilitator.Tx.{BatchVoucherClaim, BatchErc3009Authorization, BatchRequestPayload, Signer}
use ic_facilitator.Tx.Abi.{
  selector, encode_bytes, encode_tails, encode_bytes_array, parse_uint_word, encode_channel_config,
}
use ic_facilitator.Tx.Typed.{sign_batch_claims, sign_batch_refund}

unfoldable pub encode_claim_tuple : Crates → BatchVoucherClaim → Result (List ℕ)
encode_claim_tuple c claim = do
  signature ← parse_hex c claim.signature none
  config ← encode_channel_config c claim.voucher.channel
  max_claimable ←
      parse_u128_decimal_word claim.voucher.max_claimable_amount (text "maxClaimableAmount")
  total ← parse_u128_decimal_word claim.total_claimed (text "totalClaimed")
  ok (config ++ (max_claimable ++ (u256_word (32 * 10) ++ (total ++ encode_bytes signature))))

-- The loop of `encode_claims_array`
unfoldable pub claim_tuples : Crates → List BatchVoucherClaim → Result (List (List ℕ))
claim_tuples c [] = ok []
claim_tuples c (claim ∷ claims) = do
  tail ← encode_claim_tuple c claim
  tails ← claim_tuples c claims
  ok (tail ∷ tails)

unfoldable pub encode_claims_array : Crates → List BatchVoucherClaim → Result (List ℕ)
encode_claims_array c claims = do tails ← claim_tuples c claims; ok (encode_tails tails)

-- The two arguments of `claimWithSignature`: their offsets, then themselves.
unfoldable pub claim_arguments : List ℕ → List ℕ → List ℕ
claim_arguments claims_data authorizer_signature =
    u256_word 64
    ++ (u256_word (64 + length claims_data) ++ (claims_data ++ encode_bytes authorizer_signature))

unfoldable pub encode_claim_with_signature_call :
    Crates → List BatchVoucherClaim → List ℕ → Result (List ℕ)
encode_claim_with_signature_call c claims authorizer_signature = do
  claims_data ← encode_claims_array c claims
  ok (
      selector c (
        text
          "claimWithSignature((((address,address,address,address,address,uint40,bytes32),uint128),bytes,uint128)[],bytes)")
      ++ claim_arguments claims_data authorizer_signature)

unfoldable pub encode_refund_with_signature_call :
    Crates → BatchChannelConfig → Text → Text → List ℕ → Result (List ℕ)
encode_refund_with_signature_call c config amount nonce signature = do
  config_words ← encode_channel_config c config
  amount_word ← parse_u128_decimal_word amount (text "refund amount")
  nonce_word ← parse_uint_word c nonce (text "refundNonce")
  ok (
      selector c (
        text
          "refundWithSignature((address,address,address,address,address,uint40,bytes32),uint128,uint256,bytes)")
      ++ (config_words
          ++ (amount_word ++ (nonce_word ++ (u256_word (32 * 10) ++ encode_bytes signature)))))

unfoldable pub encode_multicall : Crates → List (List ℕ) → List ℕ
encode_multicall c calls =
    selector c (text "multicall(bytes[])") ++ (u256_word 32 ++ encode_bytes_array calls)

unfoldable pub encode_erc3009_collector_data : Crates → BatchErc3009Authorization → Result (List ℕ)
encode_erc3009_collector_data c auth = do
  signature ← parse_hex c auth.signature none
  valid_after ← parse_u256_decimal auth.valid_after (text "validAfter")
  valid_before ← parse_u256_decimal auth.valid_before (text "validBefore")
  salt ← parse_uint_word c auth.salt (text "deposit salt")
  ok (valid_after ++ (valid_before ++ (salt ++ (u256_word (32 * 4) ++ encode_bytes signature))))

unfoldable pub encode_batch_deposit_call :
    Crates → BatchChannelConfig → Text → List ℕ → List ℕ → Result (List ℕ)
encode_batch_deposit_call c config amount collector collector_data = do
  config_words ← encode_channel_config c config
  amount_word ← parse_u128_decimal_word amount (text "deposit amount")
  ok (
      selector c (
        text
          "deposit((address,address,address,address,address,uint40,bytes32),uint128,address,bytes)")
      ++ (config_words
          ++ (amount_word
              ++ (address_word collector ++ (u256_word (32 * 10) ++ encode_bytes collector_data)))))

unfoldable pub encode_batch_deposit_calldata : Crates → BatchRequestPayload → Result (List ℕ)
encode_batch_deposit_calldata c payload = do
  config ← ok_or payload.channel_config (text "batch deposit channelConfig is required")
  deposit ← ok_or payload.deposit (text "batch deposit payload is required")
  authorization ←
      ok_or deposit.authorization.erc3009_authorization
        (text "batch eip3009 authorization is required")
  collector ←
      parse_address c (text "0x4020806089470a89826cB9fB1f4059150b550004")
        (text "ERC3009 deposit collector")
  collector_data ← encode_erc3009_collector_data c authorization
  encode_batch_deposit_call c config deposit.amount collector collector_data

unfoldable pub encode_batch_settle_calldata : Crates → Text → Text → Result (List ℕ)
encode_batch_settle_calldata c receiver token = do
  receiver' ← parse_address c receiver (text "batch receiver")
  token' ← parse_address c token (text "batch token")
  ok (
      selector c (text "settle(address,address)")
      ++ (address_word receiver' ++ address_word token'))

-- The signature that the payload brings, or one that is made.
abbrev signature_or : Crates → Option Text → Result Text → Result (List ℕ)
signature_or c (some signature) made = parse_hex c signature none
signature_or c none made = do signature ← made; parse_hex c signature none

module _ (tools : Signer) where
  unfoldable pub encode_batch_claim_calldata :
      Message → Map Text → BatchRequestPayload → Text → Text → Result (List ℕ)
  encode_batch_claim_calldata m vars payload authorizer_private_key contract = do
    claims ← ok_or payload.claims (text "batch claims are required")
    fail_if (is_empty claims) (text "batch claims are required")
    signature ←
        signature_or m.crates payload.claim_authorizer_signature
          (sign_batch_claims tools m vars claims authorizer_private_key contract)
    encode_claim_with_signature_call m.crates claims signature

  -- The claims of a refund, in one call with it.
  unfoldable pub with_claims :
      Message → Map Text → BatchRequestPayload → Text → Text → List ℕ → Result (List ℕ)
  with_claims m vars payload authorizer_private_key contract refund_call =
      let claims = unwrap_or payload.claims [] in
      if is_empty claims then ok refund_call else (do
        signature ←
            signature_or m.crates payload.claim_authorizer_signature
              (sign_batch_claims tools m vars claims authorizer_private_key contract)
        claim_call ← encode_claim_with_signature_call m.crates claims signature
        ok (encode_multicall m.crates (claim_call ∷ refund_call ∷ [])))

  unfoldable pub encode_batch_refund_calldata :
      Message → Map Text → BatchRequestPayload → Text → Text → Result (List ℕ)
  encode_batch_refund_calldata m vars payload authorizer_private_key contract = do
    config ← ok_or payload.channel_config (text "batch refund channelConfig is required")
    amount ← ok_or payload.amount (text "batch refund amount is required")
    nonce ← ok_or payload.refund_nonce (text "batch refund nonce is required")
    channel_id ← compute_batch_channel_id m vars config contract
    signature ←
        signature_or m.crates payload.refund_authorizer_signature
          (sign_batch_refund tools m vars channel_id amount nonce authorizer_private_key contract)
    refund_call ← encode_refund_with_signature_call m.crates config amount nonce signature
    with_claims m vars payload authorizer_private_key contract refund_call
