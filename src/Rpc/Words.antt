-- ===== src/Rpc/Words.antt =====
-- rust/facilitator/src/rpc.rs: the words that a contract's answer is read into.
use ic_facilitator.Prelude.{
  ℕ, zero, suc, ◌*◌, not, ◌||◌, ◌==◌, List, [], ◌∷◌, ◌++◌, take, drop, all, is_some, some, Result,
  ok, ◌>>=◌, ◌>>◌, ok_or, fail_if,
}
use ic_facilitator.Text.{Text, text, parse_u64, parse_u128}
use ic_facilitator.Crates.{Crates}
use ic_facilitator.Hexutil.{parse_hex, labelled}
use ic_facilitator.Rpc.Decimal.{uint256_hex_decimal_word}
use ic_facilitator.Rpc.Json.{SerdeJson, get, get_str, as_str}
use ic_facilitator.Rpc.Outcomes.{is_envelope, parse_rpc_value}
use ic_facilitator.Rpc.Receipts.{parse_hex_quantity}
use ic_facilitator.AutoClaim.Worker.{ChannelState}

unfoldable pub uint128_hex_decimal_word : List ℕ → Text → Result Text
uint128_hex_decimal_word bytes label = do
  fail_if (not (all (λ byte. byte == 0) (take 16 bytes))) (label ++ text " exceeds uint128")
  ok (uint256_hex_decimal_word bytes)

-- `chunks_exact(32)` of `32 * count` bytes
unfoldable pub chunks : ℕ → List ℕ → List (List ℕ)
chunks zero bytes = []
chunks (suc count) bytes = take 32 bytes ∷ chunks count (drop 32 bytes)

unfoldable pub parse_words : Crates → Text → ℕ → Text → Result (List (List ℕ))
parse_words c value count label = do
  bytes ← labelled label (parse_hex c value (some (32 * count)))
  ok (chunks count bytes)

-- `words[0]` and `words[1]`, of the two words that are parsed
abbrev pub word_0 : List (List ℕ) → List ℕ
word_0 [] = []
word_0 (w ∷ words) = w

abbrev pub word_1 : List (List ℕ) → List ℕ
word_1 [] = []
word_1 (w ∷ words) = word_0 words

module _ (json : SerdeJson) (c : Crates) where
  -- One round of `auto_claim_channel_state`, for the text that the node answers
  unfoldable pub monitor_words : Text → Result Text → Result (List (List ℕ))
  monitor_words method answer = do
    body ← answer
    value ← ok_or (json.from_str body) (text "monitor invalid JSON")
    fail_if (not (is_envelope value) || is_some (get (text "error") value))
        (text "monitor RPC envelope/error")
    result ← ok_or (get_str (text "result") value) (text "monitor missing result")
    parse_words c result 2 method

  -- `auto_claim_channel_state`, for the answers about the channel and about its withdrawals
  unfoldable pub auto_claim_channel_state : Text → Result Text → Result Text → Result ChannelState
  auto_claim_channel_state channel_id channels withdrawals = do
    parse_hex c channel_id (some 32)
    channel ← monitor_words (text "channels(bytes32)") channels
    withdrawal ← monitor_words (text "pendingWithdrawals(bytes32)") withdrawals
    balance ← uint128_hex_decimal_word (word_0 channel) (text "balance")
    claimed ← uint128_hex_decimal_word (word_1 channel) (text "totalClaimed")
    initiated ← uint128_hex_decimal_word (word_1 withdrawal) (text "initiatedAt")
    at ← ok_or (parse_u64 initiated) (text "invalid withdrawal timestamp")
    ok (record { balance = balance; claimed = claimed; withdrawal = at })

  unfoldable pub rpc_string : Text → Result Text → Result Text
  rpc_string method answer = do
    body ← answer
    value ← parse_rpc_value json method body
    ok_or (as_str value) (method ++ text ": result is not a string")

  unfoldable pub rpc_hex_u128 : Text → Result Text → Result ℕ
  rpc_hex_u128 method answer = do value ← rpc_string method answer; parse_hex_quantity method value

  unfoldable pub latest_channel_claimed : Text → Result Text → Result ℕ
  latest_channel_claimed id answer = do
    parse_hex c id (some 32)
    result ← rpc_string (text "eth_call") answer
    words ← parse_words c result 2 (text "channels")
    claimed ← uint128_hex_decimal_word (word_1 words) (text "totalClaimed")
    ok_or (parse_u128 claimed) (text "invalid claimed amount")
