-- ===== src/Batch/Requests/Deposits.antt =====
-- rust/facilitator/src/batch.rs: the authorization of a deposit, its digest and its time window.
use ic_facilitator.Prelude.{
  ◌+◌, ◌-◌, ◌^◌, not, some, List, ◌++◌, ltb, unwrap_or, take, drop, Result, Checked, ok, ◌>>=◌,
  ◌>>◌, ok_or, fail_if, ℕ,
}
use ic_facilitator.Text.{Text, text, parse_u64}
use ic_facilitator.Map.{Map}
use ic_facilitator.Crates.{Crates, Message}
use ic_facilitator.State.{BatchChannelConfig}
use ic_facilitator.Config.{now_seconds, sat_u64, configured_chain_id}
use ic_facilitator.Hexutil.{
  parse_hex, labelled, parse_address, address_hex, parse_u256_decimal, u256_word,
}
use ic_facilitator.Batch.Voucher.{
  domain_type, address_word, channel_config_hash, typed, recovery_id, last_byte,
}
use ic_facilitator.Batch.Requests.Requirements.{required_extra_string}
use ic_facilitator.Payment.{PaymentRequirements}
use ic_facilitator.Tx.{BatchErc3009Authorization, BatchDeposit}

abbrev erc3009_deposit_collector : Text
erc3009_deposit_collector = text "0x4020806089470a89826cB9fB1f4059150b550004"

abbrev receive_with_authorization_type : Text
receive_with_authorization_type =
    text
      "ReceiveWithAuthorization(address from,address to,uint256 value,uint256 validAfter,uint256 validBefore,bytes32 nonce)"

abbrev pub required_authorization : BatchDeposit → Result BatchErc3009Authorization
required_authorization deposit =
    ok_or deposit.authorization.erc3009_authorization
      (text "batch deposit erc3009Authorization is required")

unfoldable pub validate_deposit_authorization_time_window :
    Message → BatchDeposit → PaymentRequirements → Checked
validate_deposit_authorization_time_window m deposit r = do
  authorization ← required_authorization deposit
  fail_if (ltb (unwrap_or (parse_u64 authorization.valid_before) 0) (sat_u64 (now_seconds m + 6)))
      (text "batch deposit EIP-3009 validBefore is expired")
  fail_if (ltb (now_seconds m) (unwrap_or (parse_u64 authorization.valid_after) (2 ^ 64 - 1)))
      (text "batch deposit EIP-3009 validAfter is in the future")
  fail_if
      (ltb (sat_u64 (sat_u64 (now_seconds m + r.max_timeout_seconds) + 6))
        (unwrap_or (parse_u64 authorization.valid_before) 0))
      (text "batch deposit EIP-3009 validBefore exceeds maxTimeoutSeconds")

unfoldable pub erc3009_domain_separator : Message → Map Text → PaymentRequirements → Result (List ℕ)
erc3009_domain_separator m vars r = do
  name ← required_extra_string r.extra (text "name")
  version ← required_extra_string r.extra (text "version")
  verifying_contract ← parse_address m.crates r.asset (text "asset")
  ok (
      m.crates.keccak256 (
        m.crates.keccak256 domain_type
        ++ (m.crates.keccak256 name
            ++ (m.crates.keccak256 version
                ++ (u256_word (configured_chain_id m vars) ++ address_word verifying_contract)))))

unfoldable pub deposit_authorization_nonce : Crates → List ℕ → List ℕ → List ℕ
deposit_authorization_nonce c channel_id salt = c.keccak256 (channel_id ++ salt)

unfoldable pub deposit_authorization_hash :
    Crates → BatchErc3009Authorization → BatchChannelConfig → Text → Result (List ℕ)
deposit_authorization_hash c authorization config amount = do
  from ← parse_address c config.payer (text "payer")
  to ← parse_address c erc3009_deposit_collector (text "ERC3009 deposit collector")
  value ← parse_u256_decimal amount (text "deposit.amount")
  valid_after ← parse_u256_decimal authorization.valid_after (text "validAfter")
  valid_before ← parse_u256_decimal authorization.valid_before (text "validBefore")
  channel_id ← channel_config_hash c config
  salt ← labelled (text "deposit salt") (parse_hex c authorization.salt (some 32))
  ok (
      c.keccak256 (
        c.keccak256 receive_with_authorization_type
        ++ (address_word from
            ++ (address_word to
                ++ (value
                    ++ (valid_after
                        ++ (valid_before ++ deposit_authorization_nonce c channel_id salt)))))))

unfoldable pub deposit_authorization_digest :
    Message
    → Map Text
    → BatchErc3009Authorization
    → BatchChannelConfig
    → Text
    → PaymentRequirements
    → Result (List ℕ)
deposit_authorization_digest m vars authorization config amount r = do
  domain ← erc3009_domain_separator m vars r
  message ← deposit_authorization_hash m.crates authorization config amount
  ok (m.crates.keccak256 (typed domain message))

unfoldable pub recover_deposit_authorization_signer :
    Message → Map Text → BatchDeposit → BatchChannelConfig → PaymentRequirements → Result Text
recover_deposit_authorization_signer m vars deposit config r = do
  authorization ← required_authorization deposit
  digest ← deposit_authorization_digest m vars authorization config deposit.amount r
  sig ← labelled (text "deposit signature") (parse_hex m.crates authorization.signature (some 65))
  fail_if (not (m.crates.signature_bytes (take 64 sig))) (text "invalid batch deposit signature")
  recovery ← recovery_id (last_byte (drop 64 sig))
  point ←
      ok_or (m.crates.recover_point digest (take 64 sig) recovery)
        (text "invalid batch deposit signature")
  ok (address_hex m.crates (drop 12 (m.crates.keccak256 (drop 1 point))))
