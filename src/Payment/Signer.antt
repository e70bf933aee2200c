-- ===== src/Payment/Signer.antt =====
-- rust/facilitator/src/eip712.rs, and the calldata of tx.rs that carries the same authorization.
use ic_facilitator.Prelude.{
  ℕ, ◌+◌, ◌||◌, not, ◌==◌, some, none, List, ◌∷◌, ◌++◌, take, drop, length, if◌then◌else◌, Result,
  ok, err, ◌>>=◌, ◌>>◌, ok_or, fail_if,
}
use ic_facilitator.Text.{Text, text, to_decimal}
use ic_facilitator.Map.{Map}
use ic_facilitator.Crates.{Crates, Message}
use ic_facilitator.Config.{configured_chain_id, configured_token_address}
use ic_facilitator.Hexutil.{
  parse_hex, labelled, parse_address, address_hex, parse_u256_decimal, u256_word,
}
use ic_facilitator.Batch.Voucher.{address_word, recovery_id, typed, last_byte}
use ic_facilitator.Rpc.Json.{get_str}
use ic_facilitator.Payment.{
  PaymentRequirements, Eip3009Authorization, Eip3009Payload, PaymentPayload,
}
use ic_facilitator.Tx.Abi.{selector}

abbrev domain_type : Text
domain_type =
    text "EIP712Domain(string name,string version,uint256 chainId,address verifyingContract)"

abbrev transfer_type : Text
transfer_type =
    text
      "TransferWithAuthorization(address from,address to,uint256 value,uint256 validAfter,uint256 validBefore,bytes32 nonce)"

unfoldable pub domain_separator : Message → Map Text → PaymentRequirements → Result (List ℕ)
domain_separator m vars requirements = do
  name ← ok_or (get_str (text "name") requirements.extra) (text "missing EIP-712 domain name")
  version ←
      ok_or (get_str (text "version") requirements.extra) (text "missing EIP-712 domain version")
  token ← configured_token_address m vars
  verifying_contract ← parse_address m.crates token (text "JPYC verifying contract")
  ok (
      m.crates.keccak256 (
        m.crates.keccak256 domain_type
        ++ (m.crates.keccak256 name
            ++ (m.crates.keccak256 version
                ++ (u256_word (configured_chain_id m vars) ++ address_word verifying_contract)))))

-- The words of an authorization, as the digest and the calldata have them.
unfoldable pub authorization_words : Crates → Eip3009Authorization → Result (List ℕ)
authorization_words c auth = do
  from ← parse_address c auth.from (text "authorization.from")
  to ← parse_address c auth.to (text "authorization.to")
  value ← parse_u256_decimal auth.value (text "authorization.value")
  valid_after ← parse_u256_decimal auth.valid_after (text "authorization.validAfter")
  valid_before ← parse_u256_decimal auth.valid_before (text "authorization.validBefore")
  nonce ← labelled (text "authorization.nonce") (parse_hex c auth.nonce (some 32))
  ok (address_word from ++ (address_word to ++ (value ++ (valid_after ++ (valid_before ++ nonce)))))

unfoldable pub transfer_hash : Crates → Eip3009Authorization → Result (List ℕ)
transfer_hash c auth = do
  words ← authorization_words c auth
  ok (c.keccak256 (c.keccak256 transfer_type ++ words))

unfoldable pub eip3009_digest : Message → Map Text → PaymentPayload → Result (List ℕ)
eip3009_digest m vars payload = do
  domain ← domain_separator m vars payload.accepted
  message ← transfer_hash m.crates payload.payload.authorization
  ok (m.crates.keccak256 (typed domain message))

-- The address that signed a digest, for the names of the errors.
unfoldable pub recover_signer : Crates → List ℕ → Text → Text → Text → Result Text
recover_signer c digest signature bad_length bad_signature = do
  sig ← parse_hex c signature none
  fail_if (not (length sig == 65)) bad_length
  fail_if (not (c.signature_bytes (take 64 sig))) bad_signature
  recovery ← recovery_id (last_byte (drop 64 sig))
  point ← ok_or (c.recover_point digest (take 64 sig) recovery) bad_signature
  ok (address_hex c (drop 12 (c.keccak256 (drop 1 point))))

unfoldable pub recover_eip3009_signer : Message → Map Text → PaymentPayload → Result Text
recover_eip3009_signer m vars payload = do
  digest ← eip3009_digest m vars payload
  recover_signer m.crates digest payload.payload.signature
      (text "invalid EIP-3009 signature length") (text "invalid EIP-3009 signature")

unfoldable pub eip191_digest : Crates → Text → List ℕ
eip191_digest c message =
    c.keccak256
      ((0x19 ∷ text "Ethereum Signed Message:") ++ (10 ∷ (to_decimal (length message) ++ message)))

unfoldable pub recover_eip191_signer : Crates → Text → Text → Result Text
recover_eip191_signer c message signature =
    recover_signer c (eip191_digest c message) signature (text "invalid EIP-191 signature length")
      (text "invalid EIP-191 signature")

-- `normalize_eip3009_v` of tx.rs
unfoldable pub normalize_eip3009_v : ℕ → Result ℕ
normalize_eip3009_v v =
    if v == 0 || v == 1
    then ok (v + 27)
    else if v == 27 || v == 28
    then ok v
    else err (text "invalid signature recovery id")

-- `encode_settle_calldata` of tx.rs
unfoldable pub encode_settle_calldata : Crates → Eip3009Payload → Result (List ℕ)
encode_settle_calldata c payload = do
  words ← authorization_words c payload.authorization
  signature ← parse_hex c payload.signature (some 65)
  v ← normalize_eip3009_v (last_byte (drop 64 signature))
  ok (
      selector c (
        text
          "transferWithAuthorization(address,address,uint256,uint256,uint256,bytes32,uint8,bytes32,bytes32)")
      ++ (words ++ (u256_word v ++ take 64 signature)))
