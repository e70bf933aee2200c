-- ===== src/Rpc/Receipts.antt =====
-- rust/facilitator/src/rpc.rs: the verdict on a receipt.
use ic_facilitator.Prelude.{
  ℕ, ◌+◌, ◌-◌, ◌*◌, ◌%◌, Bool, false, not, ◌&&◌, Option, none, some, List, [], ◌∷◌, ◌++◌, ltb, leb,
  ◌==◌, if◌then◌else◌, is_empty, length, drop, any, unwrap_or, Result, ok, err, ◌>>=◌, ok_or,
  to_option,
}
use ic_facilitator.Text.{Text, text, text_eq, eq_ignore_ascii_case, u128_mod}
use ic_facilitator.Map.{Map}
use ic_facilitator.Crates.{Crates, Message}
use ic_facilitator.Config.{sat_u128, configured_token_address}
use ic_facilitator.Hexutil.{strip_0x, left_pad_32, parse_address, address_hex, same_address}
use ic_facilitator.Rpc.Decimal.{uint256_hex_decimal_word}
use ic_facilitator.Rpc.Json.{Json, get, get_str, get_array, as_str, as_bool, and_then}

-- `parse_u256_hex` of hexutil.rs
unfoldable pub parse_u256_hex : Crates → Text → Text → Result (List ℕ)
parse_u256_hex c value label =
    let raw = strip_0x value in
    if ltb 64 (length raw)
    then err (label ++ text ": integer too large")
    else if is_empty raw
    then ok (left_pad_32 [])
    else (do
      bytes ←
          ok_or (c.hex_decode (if length raw % 2 == 0 then raw else 48 ∷ raw))
            (label ++ text ": invalid hex integer")
      ok (left_pad_32 bytes))

-- (The slice `&raw[24..]` of a text that is not ASCII can trap; here it is of bytes.)
unfoldable pub topic_address : Text → Option Text
topic_address topic =
    let raw = strip_0x topic in if length raw == 64 then some (text "0x" ++ drop 24 raw) else none

unfoldable pub uint256_hex_decimal : Crates → Text → Option Text
uint256_hex_decimal c value =
    and_then (to_option (parse_u256_hex c value (text "uint256")))
      (λ bytes. some (uint256_hex_decimal_word bytes))

-- `value.trim_start_matches("0x")`
unfoldable pub trim_0x : Text → Text
trim_0x [] = []
trim_0x (a ∷ []) = a ∷ []
trim_0x (a ∷ b ∷ s) = let rest = trim_0x s in if a == 48 && b == 120 then rest else a ∷ b ∷ s

-- `c.to_digit(16)`
abbrev hex_digit : ℕ → Option ℕ
hex_digit c =
    if leb 48 c && leb c 57
    then some (c - 48)
    else if leb 65 c && leb c 70
    then some (c - 55)
    else if leb 97 c && leb c 102
    then some (c - 87)
    else none

-- `u128::from_str_radix(s, 16)` after a sign, read on from `acc`; a number that does not fit any
-- more does not fit later.
unfoldable pub hex_from : ℕ → Text → Option ℕ
hex_from acc [] = if ltb acc u128_mod then some acc else none
hex_from acc (c ∷ s) = and_then (hex_digit c) (λ d. hex_from (acc * 16 + d) s)

abbrev from_str_radix_16 : Text → Option ℕ
from_str_radix_16 [] = none
from_str_radix_16 (c ∷ s) =
    if c == 43 then (if is_empty s then none else hex_from 0 s) else hex_from 0 (c ∷ s)

unfoldable pub parse_hex_quantity : Text → Text → Result ℕ
parse_hex_quantity label value =
    let raw = trim_0x value in
    if is_empty raw
    then ok 0
    else ok_or (from_str_radix_16 raw) (label ++ text ": invalid hex quantity")

pub record ExpectedTransfer : Type 0 where
  pub amount : Text
  pub from : Text
  pub to : Text

abbrev pub transfer_topic : Text
transfer_topic = text "0xddf252ad1be2c89b69c2b068fc378daa952ba7f163c4a11628f55a4df523b3ef"

-- `log.get("removed").and_then(Value::as_bool).unwrap_or(false)`
abbrev pub is_removed : Json → Bool
is_removed log = unwrap_or (and_then (get (text "removed") log) as_bool) false

-- `option.map(test).unwrap_or(false)`
abbrev pub holds_of : Option Text → (Text → Bool) → Bool
holds_of none test = false
holds_of (some t) test = test t

-- What a log of three topics or more says: the first topic, the addresses of the next, the data.
unfoldable pub transfer_of : Crates → List Json → Option Text → Option (Text × Text × Text)
transfer_of c (t0 ∷ t1 ∷ t2 ∷ topics) data' =
    if holds_of (as_str t0) (eq_ignore_ascii_case transfer_topic)
    then and_then (and_then (as_str t1) topic_address) (λ from.
      and_then (and_then (as_str t2) topic_address) (λ to.
        and_then (and_then data' (uint256_hex_decimal c)) (λ amount. some (from, to, amount))))
    else none
transfer_of c _ data' = none

abbrev pub is_transfer : ExpectedTransfer → Option (Text × Text × Text) → Bool
is_transfer expected none = false
is_transfer expected (some (from, to, amount)) =
    same_address from expected.from && same_address to expected.to && text_eq amount expected.amount

abbrev pub is_token : Result Text → Text → Bool
is_token (ok token) address = same_address address token
is_token (err e) address = false

unfoldable pub transfer_log_matches : Message → Map Text → Json → ExpectedTransfer → Bool
transfer_log_matches m vars log expected =
    not (is_removed log)
    && holds_of (get_str (text "address") log) (is_token (configured_token_address m vars))
    && is_transfer expected (
        and_then (get_array (text "topics") log)
          (λ topics. transfer_of m.crates topics (get_str (text "data") log)))

unfoldable pub has_expected_transfer : Message → Map Text → Json → ExpectedTransfer → Bool
has_expected_transfer m vars receipt expected = elim (get_array (text "logs") receipt) [
  | none ↦ false
  | some logs ↦ any (λ log. transfer_log_matches m vars log expected) logs
]

pub data ReceiptStatus : Type 0 where
  success : ReceiptStatus
  failed : Text → ReceiptStatus
  pending : ReceiptStatus

-- The part that both verdicts begin with: a verdict, or that the receipt is confirmed.
pub data Confirmation : Type 0 where
  reverted : Confirmation
  unconfirmed : Confirmation
  confirmed : Confirmation

abbrev pub status_text : Json → Text
status_text result = unwrap_or (get_str (text "status") result) []

unfoldable pub block_number : Json → Option ℕ
block_number result =
    and_then (get_str (text "blockNumber") result)
      (λ value. to_option (parse_hex_quantity (text "blockNumber") value))

unfoldable pub confirmation : Json → ℕ → ℕ → Confirmation
confirmation result latest_block min_confirmations =
    if text_eq (status_text result) (text "0x0")
    then reverted
    else if not (text_eq (status_text result) (text "0x1"))
    then unconfirmed
    else elim (block_number result) [
      | none ↦ unconfirmed
      | some n ↦
          if ltb (sat_u128 ((latest_block - n) + 1)) min_confirmations
          then unconfirmed
          else confirmed
    ]

-- `settle_to_address` of tx.rs
unfoldable pub settle_to_address : Message → Map Text → Result (List ℕ)
settle_to_address m vars = do
  token ← configured_token_address m vars
  parse_address m.crates token (text "JPYC token")

unfoldable pub transferred : Message → Map Text → Json → ExpectedTransfer → ReceiptStatus
transferred m vars result expected = elim (settle_to_address m vars) [
  | err message ↦ failed message
  | ok address ↦
      if not (
        holds_of (get_str (text "to") result)
          (λ to. same_address to (address_hex m.crates address)))
      then failed (text "settlement tx recipient mismatch")
      else if not (has_expected_transfer m vars result expected)
      then failed (text "expected JPYC transfer log not found")
      else success
]

unfoldable pub receipt_status : Message → Map Text → Json → ExpectedTransfer → ℕ → ℕ → ReceiptStatus
receipt_status m vars result expected latest_block min_confirmations =
    elim (confirmation result latest_block min_confirmations) [
      | reverted ↦ failed (text "settlement tx failed")
      | unconfirmed ↦ pending
      | confirmed ↦ transferred m vars result expected
    ]
