-- ===== src/Examples/Texts.antt =====
-- Numbers in texts and words.
use ic_facilitator.Prelude.{ℕ, ◌^◌, ◌≤◌, ◌≡◌, ◌↔◌, refl, true, some, List, [], ◌∷◌, arith, ok, all}
use ic_facilitator.Text.{Text, text, is_ascii_digit, dec_from, to_decimal, parse_uint}
use ic_facilitator.Text.Numerals.{parse_uint-to_decimal}
use ic_facilitator.Hexutil.{parse_u256_decimal}
use ic_facilitator.Hexutil.Words.{IsWord}
use ic_facilitator.Hexutil.Decimal.{Reads, parse_u256_decimal-Reads}
use ic_facilitator.Rpc.Decimal.{decimal_add, decimal_at_least, uint256_hex_decimal_word}
use ic_facilitator.Rpc.Decimal.Sums.{decimal_add_value}
use ic_facilitator.Rpc.Decimal.Print.{uint256_hex_decimal_word-to_decimal}
use ic_facilitator.Rpc.Decimal.Compare.{decimal_at_least_iff}

printed : to_decimal 1_203 ≡ text "1203"
unfolding to_decimal text
printed = refl

parse_uint-to_decimal_example : parse_uint (2 ^ 128) (to_decimal 1_203) ≡ some 1_203
parse_uint-to_decimal_example = parse_uint-to_decimal (2 ^ 128) 1_203 (omega arith)

parse_u256_decimal-Reads_example :
    Reads 90_210 (parse_u256_decimal (57 ∷ 48 ∷ 50 ∷ 49 ∷ 48 ∷ []) (text "amount"))
parse_u256_decimal-Reads_example =
    parse_u256_decimal-Reads (57 ∷ 48 ∷ 50 ∷ 49 ∷ 48 ∷ []) (text "amount") (λ e. cc) refl

decimal_add_value_example :
    (sum : Text) × (decimal_add (57 ∷ 57 ∷ []) (48 ∷ 50 ∷ []) ≡ ok sum)
    × (dec_from 0 sum ≡ 101)
    × (all is_ascii_digit sum ≡ true)
decimal_add_value_example = decimal_add_value (57 ∷ 57 ∷ []) (48 ∷ 50 ∷ []) refl refl

decimal_at_least_iff_example : (decimal_at_least (48 ∷ 49 ∷ 48 ∷ []) (57 ∷ []) ≡ true) ↔ (9 ≤ 10)
decimal_at_least_iff_example = decimal_at_least_iff (48 ∷ 49 ∷ 48 ∷ []) (57 ∷ []) refl refl

word_printed_example : uint256_hex_decimal_word (1 ∷ 0 ∷ []) ≡ to_decimal 256
word_printed_example = uint256_hex_decimal_word-to_decimal (1 ∷ 0 ∷ []) (omega arith)

abbrev seven : List ℕ
seven =
    0 ∷ 0 ∷ 0 ∷ 0 ∷ 0 ∷ 0 ∷ 0 ∷ 0 ∷ 0 ∷ 0 ∷ 0 ∷ 0 ∷ 0 ∷ 0 ∷ 0 ∷ 0 ∷ 0 ∷ 0 ∷ 0 ∷ 0 ∷ 0 ∷ 0 ∷ 0 ∷ 0
    ∷ 0 ∷ 0 ∷ 0 ∷ 0 ∷ 0 ∷ 0 ∷ 0 ∷ 7 ∷ []

seven-IsWord : IsWord seven
seven-IsWord = (refl, ground arith)
