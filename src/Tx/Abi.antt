-- ===== src/Tx/Abi.antt =====
-- rust/facilitator/src/tx.rs: the words and the byte strings of calldata.
use ic_facilitator.Prelude.{
  ℕ, ◌+◌, ◌-◌, ◌*◌, ◌/◌, ◌||◌, some, none, List, [], ◌∷◌, ◌++◌, map, ltb, if◌then◌else◌, length,
  take, replicate, Result, ok, ◌>>=◌, ◌>>◌, fail_if,
}
use ic_facilitator.Text.{Text, text, starts_with}
use ic_facilitator.Crates.{Crates}
use ic_facilitator.State.{BatchChannelConfig}
use ic_facilitator.Hexutil.{
  parse_hex, labelled, parse_address, parse_u256_decimal, u256_word, left_pad_32,
}
use ic_facilitator.Batch.Voucher.{address_word}

-- `selector` of hexutil.rs
unfoldable pub selector : Crates → Text → List ℕ
selector c signature = take 4 (c.keccak256 signature)

-- `len.div_ceil(32) * 32`
abbrev pub padded_len : ℕ → ℕ
padded_len len = (len + 31) / 32 * 32

unfoldable pub encode_bytes : List ℕ → List ℕ
encode_bytes bytes =
    u256_word (length bytes) ++ (bytes ++ replicate (padded_len (length bytes) - length bytes) 0)

-- The words of the offsets of `tails`, the first of them at `offset`.
unfoldable pub offset_words : ℕ → List (List ℕ) → List ℕ
offset_words offset [] = []
offset_words offset (tail ∷ tails) = u256_word offset ++ offset_words (offset + length tail) tails

unfoldable pub joined : List (List ℕ) → List ℕ
joined [] = []
joined (tail ∷ tails) = tail ++ joined tails

-- An array of dynamic elements that are encoded already: their count, their offsets, themselves.
unfoldable pub encode_tails : List (List ℕ) → List ℕ
encode_tails tails =
    u256_word (length tails) ++ (offset_words (32 * length tails) tails ++ joined tails)

unfoldable pub encode_bytes_array : List (List ℕ) → List ℕ
encode_bytes_array items = encode_tails (map encode_bytes items)

unfoldable pub parse_uint_word : Crates → Text → Text → Result (List ℕ)
parse_uint_word c value label =
    if starts_with value (text "0x") || starts_with value (text "0X")
    then (do
      bytes ← labelled label (parse_hex c value none)
      fail_if (ltb 32 (length bytes)) (label ++ text ": integer too large")
      ok (left_pad_32 bytes))
    else parse_u256_decimal value label

unfoldable pub encode_channel_config : Crates → BatchChannelConfig → Result (List ℕ)
encode_channel_config c config = do
  payer ← parse_address c config.payer (text "payer")
  payer_authorizer ← parse_address c config.payer_authorizer (text "payerAuthorizer")
  receiver ← parse_address c config.receiver (text "receiver")
  receiver_authorizer ← parse_address c config.receiver_authorizer (text "receiverAuthorizer")
  token ← parse_address c config.token (text "token")
  salt ← labelled (text "salt") (parse_hex c config.salt (some 32))
  ok (
      address_word payer
      ++ (address_word payer_authorizer
          ++ (address_word receiver
              ++ (address_word receiver_authorizer
                  ++ (address_word token ++ (u256_word config.withdraw_delay ++ salt))))))
