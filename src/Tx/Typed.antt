-- ===== src/Tx/Typed.antt =====
-- rust/facilitator/src/tx.rs: the typed data that the receiver's authorizer signs.
use ic_facilitator.Prelude.{
  ℕ, ◌+◌, not, some, List, [], ◌∷◌, ◌++◌, take, drop, Result, ok, ◌>>=◌, ◌>>◌, ok_or, fail_if,
  is_some,
}
use ic_facilitator.Text.{Text, text}
use ic_facilitator.Map.{Map}
use ic_facilitator.Crates.{Crates, Message}
use ic_facilitator.Hexutil.{parse_hex, address_hex, parse_u128_decimal_word}
use ic_facilitator.Batch.Voucher.{
  batch_domain_separator, compute_batch_channel_id, recovery_id, typed, last_byte,
}
use ic_facilitator.Tx.{BatchVoucherClaim, Signer}
use ic_facilitator.Tx.Abi.{parse_uint_word}

abbrev claim_entry_type : Text
claim_entry_type =
    text "ClaimEntry(bytes32 channelId,uint128 maxClaimableAmount,uint128 totalClaimed)"

abbrev claim_batch_type : Text
claim_batch_type =
    text
      "ClaimBatch(ClaimEntry[] claims)ClaimEntry(bytes32 channelId,uint128 maxClaimableAmount,uint128 totalClaimed)"

unfoldable pub claim_hash : Message → Map Text → Text → BatchVoucherClaim → Result (List ℕ)
claim_hash m vars contract claim = do
  channel_id ← compute_batch_channel_id m vars claim.voucher.channel contract
  id ← parse_hex m.crates channel_id (some 32)
  max_claimable ←
      parse_u128_decimal_word claim.voucher.max_claimable_amount (text "maxClaimableAmount")
  total ← parse_u128_decimal_word claim.total_claimed (text "totalClaimed")
  ok (m.crates.keccak256 (m.crates.keccak256 claim_entry_type ++ (id ++ (max_claimable ++ total))))

unfoldable pub claim_hashes : Message → Map Text → Text → List BatchVoucherClaim → Result (List ℕ)
claim_hashes m vars contract [] = ok []
claim_hashes m vars contract (claim ∷ claims) = do
  hash ← claim_hash m vars contract claim
  hashes ← claim_hashes m vars contract claims
  ok (hash ++ hashes)

unfoldable pub batch_claims_message_hash :
    Message → Map Text → List BatchVoucherClaim → Text → Result (List ℕ)
batch_claims_message_hash m vars claims contract = do
  hashes ← claim_hashes m vars contract claims
  ok (m.crates.keccak256 (m.crates.keccak256 claim_batch_type ++ m.crates.keccak256 hashes))

unfoldable pub batch_refund_message_hash : Crates → Text → Text → Text → Result (List ℕ)
batch_refund_message_hash c channel_id amount nonce = do
  id ← parse_hex c channel_id (some 32)
  nonce_word ← parse_uint_word c nonce (text "refundNonce")
  amount_word ← parse_u128_decimal_word amount (text "refund amount")
  ok (
      c.keccak256 (
        c.keccak256 (text "Refund(bytes32 channelId,uint256 nonce,uint128 amount)")
        ++ (id ++ (nonce_word ++ amount_word))))

unfoldable pub batch_typed_digest : Message → Map Text → List ℕ → Text → Result (List ℕ)
batch_typed_digest m vars message_hash contract = do
  domain ← batch_domain_separator m vars contract
  ok (m.crates.keccak256 (typed domain message_hash))

-- `recover_batch_typed_signer`
unfoldable pub recover_batch_typed_signer : Message → Map Text → List ℕ → Text → Text → Result Text
recover_batch_typed_signer m vars message_hash signature contract = do
  digest ← batch_typed_digest m vars message_hash contract
  sig ← parse_hex m.crates signature (some 65)
  fail_if (not (m.crates.signature_bytes (take 64 sig))) (text "invalid batch authorizer signature")
  recovery ← recovery_id (last_byte (drop 64 sig))
  point ←
      ok_or (m.crates.recover_point digest (take 64 sig) recovery)
        (text "invalid batch authorizer signature")
  ok (address_hex m.crates (drop 12 (m.crates.keccak256 (drop 1 point))))

unfoldable pub recover_batch_claim_authorizer :
    Message → Map Text → List BatchVoucherClaim → Text → Text → Result Text
recover_batch_claim_authorizer m vars claims signature contract = do
  hash ← batch_claims_message_hash m vars claims contract
  recover_batch_typed_signer m vars hash signature contract

unfoldable pub recover_batch_refund_authorizer :
    Message → Map Text → Text → Text → Text → Text → Text → Result Text
recover_batch_refund_authorizer m vars channel_id amount nonce signature contract = do
  hash ← batch_refund_message_hash m.crates channel_id amount nonce
  recover_batch_typed_signer m vars hash signature contract

module _ (tools : Signer) where
  -- `u8::from(recovery) + 27`; a recovery id is at most 3.
  unfoldable pub sign_digest : Crates → List ℕ → Text → Result Text
  sign_digest c digest private_key = do
    key ← parse_hex c private_key (some 32)
    fail_if (not (is_some (c.verifying_point key))) (text "invalid batch authorizer key")
    signed ← ok_or (tools.sign_prehash key digest) (text "failed to sign batch authorization")
    ok (text "0x" ++ c.hex_encode (signed.0 ++ (signed.1 + 27) ∷ []))

  unfoldable pub sign_batch_typed_hash : Message → Map Text → List ℕ → Text → Text → Result Text
  sign_batch_typed_hash m vars message_hash private_key contract = do
    digest ← batch_typed_digest m vars message_hash contract
    sign_digest m.crates digest private_key

  unfoldable pub sign_batch_claims :
      Message → Map Text → List BatchVoucherClaim → Text → Text → Result Text
  sign_batch_claims m vars claims private_key contract = do
    hash ← batch_claims_message_hash m vars claims contract
    sign_batch_typed_hash m vars hash private_key contract

  unfoldable pub sign_batch_refund :
      Message → Map Text → Text → Text → Text → Text → Text → Result Text
  sign_batch_refund m vars channel_id amount nonce private_key contract = do
    hash ← batch_refund_message_hash m.crates channel_id amount nonce
    sign_batch_typed_hash m vars hash private_key contract
