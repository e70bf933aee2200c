-- ===== src/Batch/Requests/Requirements.antt =====
-- rust/facilitator/src/batch.rs: the payment requirements of a batch request.
use ic_facilitator.Prelude.{
  ℕ, ◌==◌, not, ◌||◌, ◌++◌, Result, Checked, ok, ◌>>=◌, ◌>>◌, ok_or, fail_if, is_some,
}
use ic_facilitator.Text.{Text, text, text_eq}
use ic_facilitator.Map.{Map}
use ic_facilitator.Crates.{Crates, Message}
use ic_facilitator.State.{BatchChannelConfig}
use ic_facilitator.Config.{configured_network, configured_token_address}
use ic_facilitator.Hexutil.{parse_address, same_address}
use ic_facilitator.Batch.Checks.{
  validate_uint128_decimal, validate_withdraw_delay, validate_channel_config,
}
use ic_facilitator.Batch.Requests.{is_text, not_blank, if_some, batch_scheme}
use ic_facilitator.Rpc.Json.{Json, get, get_str, as_str, as_u64, and_then, json_eq}
use ic_facilitator.Payment.{PaymentRequirements}
use ic_facilitator.Tx.{BatchRequestPayload}

unfoldable pub required_extra_string : Json → Text → Result Text
required_extra_string extra name =
    ok_or (not_blank (get_str name extra)) (text "batch extra." ++ (name ++ text " is required"))

abbrev pub required_withdraw_delay : Json → Result ℕ
required_withdraw_delay extra =
    ok_or (and_then (get (text "withdrawDelay") extra) as_u64)
      (text "batch withdrawDelay is required")

-- The part that payments and operations begin with: scheme, network and asset.
unfoldable pub validate_profile : Message → Map Text → PaymentRequirements → Checked
validate_profile m vars r = do
  fail_if (not (text_eq r.scheme batch_scheme)) (text "scheme must be batch-settlement")
  fail_if (not (text_eq r.network (configured_network m vars)))
      (text "batch network must be " ++ configured_network m vars)
  token ← configured_token_address m vars
  fail_if (not (same_address r.asset token))
      (text "batch asset does not match the active network profile")

-- JPYC_EIP712_NAME is "JPY Coin".
unfoldable pub validate_batch_requirements : Message → Map Text → PaymentRequirements → Checked
validate_batch_requirements m vars r = do
  validate_profile m vars r
  fail_if (not (is_text (text "eip3009") (get_str (text "assetTransferMethod") r.extra)))
      (text "batch assetTransferMethod must be eip3009")
  receiver_authorizer ← required_extra_string r.extra (text "receiverAuthorizer")
  parse_address m.crates receiver_authorizer (text "receiverAuthorizer")
  withdraw_delay ← required_withdraw_delay r.extra
  validate_withdraw_delay withdraw_delay
  fail_if (not (is_text (text "JPY Coin") (get_str (text "name") r.extra)))
      (text "batch EIP-712 name mismatch")
  fail_if (not (is_some (get_str (text "version") r.extra)))
      (text "batch EIP-712 version is required")
  validate_uint128_decimal (text "amount") r.amount
  parse_address m.crates r.pay_to (text "payTo")
  ok tt

unfoldable pub validate_optional_batch_extra : Crates → Json → Checked
validate_optional_batch_extra c extra = do
  if_some (get (text "assetTransferMethod") extra) (λ method.
      fail_if (not (is_text (text "eip3009") (as_str method)))
        (text "batch assetTransferMethod must be eip3009"))
  if_some (get (text "receiverAuthorizer") extra) (λ value. do
    receiver_authorizer ←
        ok_or (not_blank (as_str value)) (text "batch extra.receiverAuthorizer must be a string")
    parse_address c receiver_authorizer (text "receiverAuthorizer")
    ok tt)
  if_some (get (text "withdrawDelay") extra) (λ value. do
    withdraw_delay ← ok_or (as_u64 value) (text "batch withdrawDelay must be a number")
    validate_withdraw_delay withdraw_delay)
  if_some (get (text "name") extra) (λ name.
      fail_if (not (is_text (text "JPY Coin") (as_str name))) (text "batch EIP-712 name mismatch"))
  if_some (get (text "version") extra) (λ version.
      fail_if (not (is_some (not_blank (as_str version))))
        (text "batch EIP-712 version must be a string"))

unfoldable pub validate_batch_operation_requirements :
    Message → Map Text → PaymentRequirements → Checked
validate_batch_operation_requirements m vars r = do
  validate_profile m vars r
  fail_if (not (text_eq r.amount (text "0"))) (text "batch operation amount must be 0")
  parse_address m.crates r.pay_to (text "payTo")
  validate_optional_batch_extra m.crates r.extra

unfoldable pub validate_requirements_match : PaymentRequirements → PaymentRequirements → Checked
validate_requirements_match left right =
    fail_if
      (not (text_eq left.scheme right.scheme)
        || (not (text_eq left.network right.network)
            || (not (same_address left.asset right.asset)
                || (not (same_address left.pay_to right.pay_to)
                    || (not (text_eq left.amount right.amount)
                        || (not (left.max_timeout_seconds == right.max_timeout_seconds)
                            || not (json_eq left.extra right.extra)))))))
      (text "paymentPayload.accepted must match paymentRequirements")

unfoldable pub validate_config_matches_requirements :
    Crates → BatchChannelConfig → PaymentRequirements → Checked
validate_config_matches_requirements c config r = do
  validate_channel_config c config
  fail_if (not (same_address config.receiver r.pay_to))
      (text "batch channel receiver must match payTo")
  fail_if (not (same_address config.token r.asset)) (text "batch channel token must match asset")
  receiver_authorizer ← required_extra_string r.extra (text "receiverAuthorizer")
  fail_if (not (same_address config.receiver_authorizer receiver_authorizer))
      (text "batch receiverAuthorizer mismatch")
  withdraw_delay ← required_withdraw_delay r.extra
  fail_if (not (config.withdraw_delay == withdraw_delay)) (text "batch withdrawDelay mismatch")

unfoldable pub validate_payload_matches_requirements :
    Crates → BatchRequestPayload → PaymentRequirements → Checked
validate_payload_matches_requirements c p r =
    if_some p.channel_config (λ config. validate_config_matches_requirements c config r)
