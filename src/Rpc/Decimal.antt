-- ===== src/Rpc/Decimal.antt =====
-- rust/facilitator/src/rpc.rs: arithmetic on decimal texts.
pub mod Sums
pub mod Print
pub mod Compare
use ic_facilitator.Prelude.{
  ℕ, zero, suc, ◌+◌, ◌-◌, ◌*◌, ◌/◌, ◌%◌, ◌^◌, ◌≡◌, Bool, true, false, not, ◌&&◌, ◌||◌, List, [],
  ◌∷◌, reverse, ltb, leb, ◌==◌, if◌then◌else◌, all, length, is_empty, Result, ok, err, ◌>>=◌, ◌>>◌,
  fail_if, any,
}
use ic_facilitator.Text.{Text, text, text_eq, text_ltb, is_ascii_digit}

-- `while carry > 0 { out.push(carry % 10 + b'0'); carry /= 10; }`; `carry` rounds are enough.
unfoldable pub carry_loop : ℕ → ℕ → List ℕ
carry_loop zero carry = []
carry_loop (suc f) carry =
    let more = carry_loop f (carry / 10) in if carry == 0 then [] else (carry % 10 + 48) ∷ more

-- The loop of `decimal_add` over both texts from their ends. When both are used up it writes out
-- what is carried. `u16` and `u8` arithmetic.
unfoldable pub add_digits : Text → Text → ℕ → List ℕ
unfolding carry_loop
add_digits [] [] carry = carry_loop carry carry
add_digits [] (b ∷ right) carry =
    let next = ((b - 48) + carry) % 2 ^ 16 in (next % 10 + 48) ∷ add_digits [] right (next / 10)
add_digits (a ∷ left) [] carry =
    let next = ((a - 48) + carry) % 2 ^ 16 in (next % 10 + 48) ∷ add_digits left [] (next / 10)
add_digits (a ∷ left) (b ∷ right) carry =
    let next = ((a - 48) + (b - 48) + carry) % 2 ^ 16 in
    (next % 10 + 48) ∷ add_digits left right (next / 10)

unfoldable pub decimal_add : Text → Text → Result Text
unfolding add_digits
decimal_add left right = do
  fail_if (not (all is_ascii_digit left) || not (all is_ascii_digit right))
      (text "decimal value must contain only digits")
  ok (reverse (add_digits (reverse left) (reverse right) 0))

-- The loops of `decimal_mul_small` and `decimal_add_small`, from the last digit.
unfoldable pub mul_digits : Text → ℕ → ℕ → List ℕ
unfolding carry_loop
mul_digits [] factor carry = carry_loop carry carry
mul_digits (ch ∷ value) factor carry =
    let next = ((ch - 48) * factor + carry) % 2 ^ 16 in
    (next % 10 + 48) ∷ mul_digits value factor (next / 10)

unfoldable pub decimal_mul_small : Text → ℕ → Text
unfolding mul_digits
decimal_mul_small value factor = reverse (mul_digits (reverse value) factor 0)

unfoldable pub carry_digits : Text → ℕ → List ℕ
unfolding carry_loop
carry_digits [] carry = carry_loop carry carry
carry_digits (ch ∷ value) carry =
    let next = ((ch - 48) + carry) % 2 ^ 16 in (next % 10 + 48) ∷ carry_digits value (next / 10)

unfoldable pub decimal_add_small : Text → ℕ → Text
unfolding carry_digits
decimal_add_small value addend = reverse (carry_digits (reverse value) addend)

-- The loop of `uint256_hex_decimal_word` over the bytes.
unfoldable pub word_loop : Text → List ℕ → Text
word_loop decimal [] = decimal
word_loop decimal (byte ∷ bytes) =
    word_loop (decimal_add_small (decimal_mul_small decimal 256) byte) bytes

unfoldable pub uint256_hex_decimal_word : List ℕ → Text
unfolding word_loop
uint256_hex_decimal_word bytes = word_loop (48 ∷ []) bytes

-- `value.trim_start_matches('0')`
unfoldable pub trim_zeros : Text → Text
trim_zeros [] = []
trim_zeros (c ∷ s) = let rest = trim_zeros s in if c == 48 then rest else c ∷ s

unfoldable pub decimal_normalize : Text → Text
unfolding trim_zeros
decimal_normalize value = if is_empty (trim_zeros value) then 48 ∷ [] else trim_zeros value

unfoldable pub decimal_at_least : Text → Text → Bool
unfolding decimal_normalize
decimal_at_least left right =
    let l = decimal_normalize left in
    let r = decimal_normalize right in
    ltb (length r) (length l) || (length l == length r && not (text_ltb l r))

unfoldable pub decimal_greater : Text → Text → Bool
unfolding decimal_at_least decimal_normalize
decimal_greater left right =
    decimal_at_least left right && not (text_eq (decimal_normalize left) (decimal_normalize right))
