-- ===== src/Examples/Receipts.antt =====
-- Receipts, and what is sent.
use ic_facilitator.Prelude.{
  ℕ, ◌≡◌, ◌≢◌, ◌⊎◌, refl, true, some, List, [], ◌∷◌, ◌++◌, arith, ok, err, Any, replicate,
}
use ic_facilitator.Text.{
  is_blank, Text, text, text_eq, eq_ignore_ascii_case, to_ascii_lowercase, dec_from,
}
use ic_facilitator.Map
use ic_facilitator.Config.{
  jpyc_polygon_address, configured_token_address, configured_network_profile, env,
}
use ic_facilitator.Hexutil.{
  address_hex, same_address, strip_0x, parse_hex, parse_address, left_pad_32,
}
use ic_facilitator.Rpc.Decimal.{
  uint256_hex_decimal_word, word_loop, decimal_mul_small, decimal_add_small, mul_digits,
  carry_digits, carry_loop, decimal_add, add_digits,
}
use ic_facilitator.Rpc.Json.{
  Json, unsigned, string, array, object, empty, item, bare, field, SerdeJson, get, lookup, get_str,
  get_array,
}
use ic_facilitator.Rpc.Receipts.{
  ExpectedTransfer, success, pending, receipt_status, transferred, confirmation, block_number,
  settle_to_address, has_expected_transfer, transfer_log_matches, transfer_of, topic_address,
  uint256_hex_decimal, parse_u256_hex, parse_hex_quantity, trim_0x, hex_from,
}
use ic_facilitator.Rpc.Verdicts.{IsConfirmed, receipt_status-success, receipt_status-grows}
use ic_facilitator.Rpc.Logs.{IsTransferOf, IsSettled}
use ic_facilitator.Rpc.Settled.{Adds, settled_event_amount-Adds}
use ic_facilitator.Rpc.Contracts.{settled_event_amount, settled_log_amount, settled_loop}
use ic_facilitator.Rpc.Outcomes.{rejected, raw_transaction_hash, send_raw_transaction}
use ic_facilitator.Rpc.Sent.{IsKnownAs, send_raw_transaction-IsKnownAs}
use ic_facilitator.Examples.Setup.{crates, message, seller, buyer}

abbrev padded : Text → Text
padded address = text "0x" ++ (replicate 24 48 ++ strip_0x address)

-- A log of the token that transfers 5 from the buyer to the seller.
abbrev transfer_log : Json
transfer_log = object (
    field (text "address") (string jpyc_polygon_address) (
      field (text "data") (string (text "0x5")) (
        field (text "topics")
          (array (
            item
              (string (text "0xddf252ad1be2c89b69c2b068fc378daa952ba7f163c4a11628f55a4df523b3ef"))
              (item (string (padded buyer)) (item (string (padded seller)) empty))))
          bare)))

abbrev mined : Json
mined = object (
    field (text "blockNumber") (string (text "0x64")) (
      field (text "from") (string buyer) (
        field (text "logs") (array (item transfer_log empty)) (
          field (text "status") (string (text "0x1"))
            (field (text "to") (string jpyc_polygon_address) bare)))))

abbrev expected : ExpectedTransfer
expected = record { amount = text "5"; from = buyer; to = seller }

succeeds : receipt_status message [] mined expected 102 3 ≡ success
unfolding receipt_status transferred confirmation block_number settle_to_address
    has_expected_transfer transfer_log_matches transfer_of topic_address uint256_hex_decimal
    parse_u256_hex parse_hex_quantity trim_0x hex_from get lookup text text_eq strip_0x same_address
    eq_ignore_ascii_case to_ascii_lowercase configured_token_address configured_network_profile env
    Map.get parse_address parse_hex address_hex left_pad_32 uint256_hex_decimal_word word_loop
    decimal_mul_small decimal_add_small mul_digits carry_digits carry_loop is_blank
succeeds = refl

receipt_status-success_example :
    IsConfirmed mined 102 3
    × ((token : List ℕ) × (settle_to_address message [] ≡ ok token)
        × ((to : Text) × (get_str (text "to") mined ≡ some to)
            × (same_address to (address_hex message.crates token) ≡ true)))
    × ((logs : List Json) × (get_array (text "logs") mined ≡ some logs)
        × Any (IsTransferOf message [] expected) logs)
receipt_status-success_example = receipt_status-success message [] mined expected 102 3 succeeds

success_ne : success ≢ pending
success_ne = λ e. cc

receipt_status-grows_example :
    receipt_status message [] mined expected 200 3 ≡ receipt_status message [] mined expected 102 3
receipt_status-grows_example =
    receipt_status-grows message [] mined expected 102 200 3 (omega arith) (rw succeeds success_ne)

-- A log of the contract that settles 258 for the seller.
abbrev settled_log : Json
settled_log = object (
    field (text "address") (string (text "0x4020")) (
      field (text "data") (string (text "0x102")) (
        field (text "topics")
          (array (
            item
              (string (text "0x7337b4386b690fdb8ba66905b92b9d45d33bc6626ee2620c905fb150ec0cc47d"))
              (item (string (padded seller)) (
                item (string (padded jpyc_polygon_address)) (item (string (padded buyer)) empty)))))
          bare)))

abbrev settling : Json
settling = object (
    field (text "from") (string buyer) (
      field (text "logs") (array (item transfer_log (item settled_log (item settled_log empty))))
        bare))

settles :
    settled_event_amount crates settling (0x40 ∷ 0x20 ∷ []) seller jpyc_polygon_address
    ≡ some (text "516")
unfolding settled_event_amount settled_log_amount settled_loop topic_address uint256_hex_decimal
    parse_u256_hex get lookup text text_eq strip_0x same_address eq_ignore_ascii_case
    to_ascii_lowercase address_hex left_pad_32 uint256_hex_decimal_word word_loop decimal_mul_small
    decimal_add_small mul_digits carry_digits carry_loop decimal_add add_digits
settles = refl

settled_event_amount-Adds_example :
    (logs : List Json) × (get_array (text "logs") settling ≡ some logs)
    × ((sender : Text) × (get_str (text "from") settling ≡ some sender)
        × Adds
            (IsSettled crates
              (address_hex crates (0x40 ∷ 0x20 ∷ []))
              seller
              jpyc_polygon_address
              sender)
            logs
            (dec_from 0 (text "516"))
        × Any
            (λ log.
              (amount : Text) × IsSettled crates
                (address_hex crates (0x40 ∷ 0x20 ∷ []))
                seller
                jpyc_polygon_address
                sender
                log
                amount)
            logs)
settled_event_amount-Adds_example =
    settled_event_amount-Adds crates settling (0x40 ∷ 0x20 ∷ []) seller jpyc_polygon_address
      (text "516") settles

-- A node that answers with a hash of its own.
abbrev json : SerdeJson
json = record {
  from_str = λ body. some (
      object (
        field (text "id") (unsigned 1) (
          field (text "jsonrpc") (string (text "2.0"))
            (field (text "result") (string (text "0xbb")) bare))));
  to_string = λ value. [];
}

send_raw_transaction-IsKnownAs_example :
    ((hash : Text) × (raw_transaction_hash crates (text "0x02") ≡ ok hash)
      × IsKnownAs json
          (ok (text "{}"))
          hash
          (send_raw_transaction json crates (text "0x02") (ok (text "{}"))))
    ⊎ ((why : Text) × (raw_transaction_hash crates (text "0x02") ≡ err why)
        × (send_raw_transaction json crates (text "0x02") (ok (text "{}")) ≡ rejected why))
send_raw_transaction-IsKnownAs_example =
    send_raw_transaction-IsKnownAs json crates (text "0x02") (ok (text "{}"))
