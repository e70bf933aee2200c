-- ===== src/Batch/Checks.antt =====
-- rust/facilitator/src/batch.rs: the checks of single texts and of a channel's configuration.
use ic_facilitator.Prelude.{
  ℕ, ◌*◌, Bool, false, not, ◌&&◌, ◌||◌, Option, none, some, List, ◌++◌, ltb, leb, all, length,
  is_empty, Result, Checked, ok, ◌>>=◌, ◌>>◌, ok_or, fail_if, to_option,
}
use ic_facilitator.Text.{Text, text, text_eq, is_ascii_digit, parse_u128, eq_ignore_ascii_case}
use ic_facilitator.Map.{Map}
use ic_facilitator.Crates.{Crates, Message}
use ic_facilitator.State.{BatchChannelConfig}
use ic_facilitator.Config.{now_seconds, sat_u64, optional_positive_u64}
use ic_facilitator.Hexutil.{
  parse_hex, labelled, parse_address, address_hex, strip_0x, parse_u256_decimal,
}

-- MAX_BATCH_STRING_BYTES
unfoldable pub validate_limited_string : Text → Text → Checked
validate_limited_string label value =
    fail_if (ltb 512 (length value)) (label ++ text " exceeds 512 bytes")

unfoldable pub parse_u128_decimal : Text → Text → Result ℕ
parse_u128_decimal label value = do
  validate_limited_string label value
  fail_if (is_empty value || not (all is_ascii_digit value))
      (label ++ text ": invalid decimal integer")
  ok_or (parse_u128 value) (label ++ text ": integer too large")

unfoldable pub validate_decimal : Text → Text → Checked
validate_decimal label value = do
  validate_limited_string label value
  parse_u256_decimal value label
  ok tt

unfoldable pub validate_uint128_decimal : Text → Text → Checked
validate_uint128_decimal label value = do parse_u128_decimal label value; ok tt

unfoldable pub validate_hex : Crates → Text → Text → ℕ → Checked
validate_hex c label value bytes = do
  validate_limited_string label value
  labelled label (parse_hex c value (some bytes))
  ok tt

abbrev same_some : Option (List ℕ) → Option (List ℕ) → Bool
same_some none b = false
same_some (some a) none = false
same_some (some a) (some b) = text_eq a b

unfoldable pub same_bytes32 : Crates → Text → Text → Bool
same_bytes32 c left right =
    same_some (to_option (parse_hex c left (some 32))) (to_option (parse_hex c right (some 32)))

unfoldable pub is_zero_address : Text → Bool
is_zero_address value =
    eq_ignore_ascii_case (strip_0x value) (text "0000000000000000000000000000000000000000")

unfoldable pub parse_address_allow_zero : Crates → Text → Text → Result (List ℕ)
parse_address_allow_zero c value label = labelled label (parse_hex c value (some 20))

unfoldable pub normalize_address_allow_zero : Crates → Text → Result Text
normalize_address_allow_zero c value = do
  address ← parse_address_allow_zero c value (text "address")
  ok (address_hex c address)

-- MAX_BATCH_CHANNEL_ID_BYTES
unfoldable pub validate_channel_id : Crates → Text → Checked
validate_channel_id c channel_id = validate_hex c (text "channelId") channel_id 32

-- MIN_BATCH_WITHDRAW_DELAY_SECONDS and MAX_BATCH_WITHDRAW_DELAY_SECONDS
unfoldable pub validate_withdraw_delay : ℕ → Checked
validate_withdraw_delay value =
    fail_if (not (leb 900 value && leb value 2_592_000))
      (text "batch withdrawDelay must be between 900 and 2592000 seconds")

unfoldable pub validate_channel_config : Crates → BatchChannelConfig → Checked
validate_channel_config c config = do
  parse_address c config.payer (text "payer")
  normalize_address_allow_zero c config.payer_authorizer
  parse_address c config.receiver (text "receiver")
  parse_address c config.receiver_authorizer (text "receiverAuthorizer")
  parse_address c config.token (text "token")
  validate_hex c (text "salt") config.salt 32
  validate_withdraw_delay config.withdraw_delay

-- `batch_withdraw_delay_seconds` of lib.rs; 900 is DEFAULT_BATCH_WITHDRAW_DELAY_SECONDS.
unfoldable pub batch_withdraw_delay_seconds : Message → Map Text → Result ℕ
batch_withdraw_delay_seconds m vars = do
  value ← optional_positive_u64 m vars (text "BATCH_WITHDRAW_DELAY_SECONDS") 900
  validate_withdraw_delay value
  ok value

-- `now_seconds().saturating_mul(1_000)`
abbrev pub now_ms : Message → ℕ
now_ms m = sat_u64 (now_seconds m * 1_000)
