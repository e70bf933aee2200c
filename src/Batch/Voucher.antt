-- ===== src/Batch/Voucher.antt =====
-- rust/facilitator/src/batch.rs: a channel's id and the signer of its voucher, as EIP-712 digests.
use ic_facilitator.Prelude.{
  ℕ, ◌-◌, not, ◌||◌, some, List, [], ◌∷◌, ◌++◌, ◌==◌, if◌then◌else◌, take, drop, Result, ok, err,
  ◌>>=◌, ◌>>◌, ok_or, fail_if,
}
use ic_facilitator.Text.{Text, text}
use ic_facilitator.Map.{Map}
use ic_facilitator.Crates.{Crates, Message}
use ic_facilitator.State.{BatchChannelConfig}
use ic_facilitator.Config.{configured_chain_id}
use ic_facilitator.Hexutil.{
  parse_hex, labelled, parse_address, address_hex, u256_word, parse_u128_decimal_word, left_pad_32,
}
use ic_facilitator.Batch.Checks.{parse_address_allow_zero}

pub record BatchVoucher : Type 0 where
  pub channel_id : Text
  pub max_claimable_amount : Text
  pub signature : Text

abbrev pub domain_type : Text
domain_type =
    text "EIP712Domain(string name,string version,uint256 chainId,address verifyingContract)"

abbrev channel_config_type : Text
channel_config_type =
    text
      "ChannelConfig(address payer,address payerAuthorizer,address receiver,address receiverAuthorizer,address token,uint40 withdrawDelay,bytes32 salt)"

abbrev voucher_type : Text
voucher_type = text "Voucher(bytes32 channelId,uint128 maxClaimableAmount)"

unfoldable pub address_word : List ℕ → List ℕ
address_word address = left_pad_32 address

unfoldable pub batch_domain_separator : Message → Map Text → Text → Result (List ℕ)
batch_domain_separator m vars contract = do
  verifying_contract ← parse_address m.crates contract (text "BATCH_SETTLEMENT_CONTRACT")
  ok (
      m.crates.keccak256 (
        m.crates.keccak256 domain_type
        ++ (m.crates.keccak256 (text "x402 Batch Settlement")
            ++ (m.crates.keccak256 (text "1")
                ++ (u256_word (configured_chain_id m vars) ++ address_word verifying_contract)))))

unfoldable pub channel_config_hash : Crates → BatchChannelConfig → Result (List ℕ)
channel_config_hash c config = do
  payer ← parse_address c config.payer (text "payer")
  payer_authorizer ← parse_address_allow_zero c config.payer_authorizer (text "payerAuthorizer")
  receiver ← parse_address c config.receiver (text "receiver")
  receiver_authorizer ← parse_address c config.receiver_authorizer (text "receiverAuthorizer")
  token ← parse_address c config.token (text "token")
  salt ← labelled (text "salt") (parse_hex c config.salt (some 32))
  ok (
      c.keccak256 (
        c.keccak256 channel_config_type
        ++ (address_word payer
            ++ (address_word payer_authorizer
                ++ (address_word receiver
                    ++ (address_word receiver_authorizer
                        ++ (address_word token ++ (u256_word config.withdraw_delay ++ salt))))))))

unfoldable pub voucher_hash : Crates → BatchVoucher → Result (List ℕ)
voucher_hash c voucher = do
  channel_id ← labelled (text "channelId") (parse_hex c voucher.channel_id (some 32))
  max_claimable ← parse_u128_decimal_word voucher.max_claimable_amount (text "maxClaimableAmount")
  ok (c.keccak256 (c.keccak256 voucher_type ++ (channel_id ++ max_claimable)))

-- The digest of EIP-712: "\x19\x01", the domain and the message.
abbrev pub typed : List ℕ → List ℕ → List ℕ
typed domain message = 0x19 ∷ 0x01 ∷ (domain ++ message)

unfoldable pub compute_batch_channel_id :
    Message → Map Text → BatchChannelConfig → Text → Result Text
compute_batch_channel_id m vars config contract = do
  domain ← batch_domain_separator m vars contract
  message ← channel_config_hash m.crates config
  ok (text "0x" ++ m.crates.hex_encode (m.crates.keccak256 (typed domain message)))

-- `RecoveryId::try_from` takes 0 and 1.
unfoldable pub recovery_id : ℕ → Result ℕ
recovery_id value =
    if value == 0 || value == 1
    then ok value
    else if value == 27 || value == 28
    then ok (value - 27)
    else err (text "invalid signature recovery id")

-- `sig[64]` of 65 bytes
abbrev pub last_byte : List ℕ → ℕ
last_byte [] = 0
last_byte (b ∷ bs) = b

unfoldable pub recover_voucher_signer : Message → Map Text → BatchVoucher → Text → Result Text
recover_voucher_signer m vars voucher contract = do
  domain ← batch_domain_separator m vars contract
  message ← voucher_hash m.crates voucher
  sig ← parse_hex m.crates voucher.signature (some 65)
  fail_if (not (m.crates.signature_bytes (take 64 sig))) (text "invalid batch voucher signature")
  recovery ← recovery_id (last_byte (drop 64 sig))
  point ←
      ok_or
        (m.crates.recover_point (m.crates.keccak256 (typed domain message)) (take 64 sig) recovery)
        (text "invalid batch voucher signature")
  ok (address_hex m.crates (drop 12 (m.crates.keccak256 (drop 1 point))))
