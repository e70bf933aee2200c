-- ===== src/Hexutil.antt =====
-- rust/facilitator/src/hexutil.rs: addresses, hexadecimal and 256-bit words.
-- A `[u8; 32]` is the list of its 32 bytes, the highest first.
pub mod Words
pub mod Order
pub mod Decimal
use ic_facilitator.Prelude.{
  ℕ, zero, suc, ◌+◌, ◌-◌, ◌*◌, ◌/◌, ◌%◌, ◌^◌, ◌≡◌, refl, Bool, true, false, not, ◌&&◌, ◌||◌, Option,
  none, some, List, [], ◌∷◌, ◌++◌, reverse, arith, ltb, leb, ◌==◌, if◌then◌else◌, all, length,
  replicate, is_empty, Result, ok, err, ◌>>=◌, ◌>>◌, ok_or, or_err, fail_if, unwrap_or,
}
use ic_facilitator.Text.{
  Text, text, text_eq, eq_ignore_ascii_case, is_ascii_digit, parse_u128, u128_mod, to_decimal,
}
use ic_facilitator.Crates.{Crates}

-- `value.strip_prefix("0x").or_else(|| value.strip_prefix("0X")).unwrap_or(value)`
unfoldable pub strip_0x : Text → Text
strip_0x [] = []
strip_0x (a ∷ []) = a ∷ []
strip_0x (a ∷ b ∷ s) = if a == 48 && (b == 120 || b == 88) then s else a ∷ b ∷ s

unfoldable pub parse_hex : Crates → Text → Option ℕ → Result (List ℕ)
parse_hex c value expected_len = do
  let raw = strip_0x value
  fail_if (not (length raw % 2 == 0)) (text "hex length must be even")
  bytes ← ok_or (c.hex_decode raw) (text "invalid hex")
  elim expected_len [
    | none ↦ ok bytes
    | some len ↦
        if length bytes == len
        then ok bytes
        else err (text "hex must be " ++ (to_decimal len ++ text " bytes"))
  ]

-- `result.map_err(|err| format!("{label}: {err}"))`
abbrev pub labelled {ℓ} : {A : Type ℓ} → Text → Result A → Result A
labelled label (ok a) = ok a
labelled label (err e) = err (label ++ (text ": " ++ e))

unfoldable pub parse_address : Crates → Text → Text → Result (List ℕ)
parse_address c value label = do
  bytes ← labelled label (parse_hex c value (some 20))
  fail_if (text_eq bytes (replicate 20 0)) (label ++ text ": zero address")
  ok bytes

unfoldable pub address_hex : Crates → List ℕ → Text
address_hex c address = text "0x" ++ c.hex_encode address

unfoldable pub same_address : Text → Text → Bool
same_address left right = eq_ignore_ascii_case (strip_0x left) (strip_0x right)

-- The loop of `mul_small` over the bytes from the lowest; it ends with the last carry.
-- `u16` arithmetic, and `next as u8`.
unfoldable pub mul_loop : List ℕ → ℕ → ℕ → List ℕ × ℕ
mul_loop [] factor carry = ([], carry)
mul_loop (byte ∷ bytes) factor carry =
    let next = (byte * factor + carry) % 2 ^ 16 in
    let (out, last) = mul_loop bytes factor (next / 256) in ((next % 256) ∷ out, last)

unfoldable pub mul_small : List ℕ → ℕ → Option (List ℕ)
unfolding mul_loop
mul_small value factor =
    let (out, carry) = mul_loop (reverse value) factor 0 in
    if carry == 0 then some (reverse out) else none

-- The loop of `add_small`, which returns as soon as nothing is carried.
unfoldable pub add_loop : List ℕ → ℕ → List ℕ × ℕ
add_loop [] carry = ([], carry)
add_loop (byte ∷ bytes) carry =
    let next = (byte + carry) % 2 ^ 16 in
    let more = add_loop bytes (next / 256) in
    if next / 256 == 0 then ((next % 256) ∷ bytes, 0) else ((next % 256) ∷ more.0, more.1)

unfoldable pub add_small : List ℕ → ℕ → Option (List ℕ)
unfolding add_loop
add_small value addend =
    let (out, carry) = add_loop (reverse value) addend in
    if carry == 0 then some (reverse out) else none

-- The loop of `parse_u256_decimal` over the digits.
unfoldable pub u256_loop : Text → List ℕ → Text → Result (List ℕ)
u256_loop label out [] = ok out
u256_loop label out (ch ∷ value) = do
  tenfold ← ok_or (mul_small out 10) (label ++ text ": integer too large")
  next ← ok_or (add_small tenfold (ch - 48)) (label ++ text ": integer too large")
  u256_loop label next value

unfoldable pub parse_u256_decimal : Text → Text → Result (List ℕ)
parse_u256_decimal value label = do
  fail_if (is_empty value || not (all is_ascii_digit value))
      (label ++ text ": invalid decimal integer")
  u256_loop label (replicate 32 0) value

-- `value.to_be_bytes()` of a `u128`, the bytes above `acc`.
unfoldable pub be_bytes_onto : ℕ → ℕ → List ℕ → List ℕ
be_bytes_onto zero value acc = acc
be_bytes_onto (suc n) value acc = be_bytes_onto n (value / 256) ((value % 256) ∷ acc)

unfoldable pub left_pad_32 : List ℕ → List ℕ
left_pad_32 bytes = replicate (32 - length bytes) 0 ++ bytes

unfoldable pub u256_word : ℕ → List ℕ
unfolding left_pad_32 be_bytes_onto
u256_word value = left_pad_32 (be_bytes_onto 16 value [])

unfoldable pub parse_u128_decimal_word : Text → Text → Result (List ℕ)
parse_u128_decimal_word value label = do
  fail_if (is_empty value || not (all is_ascii_digit value))
      (label ++ text ": invalid decimal integer")
  n ← ok_or (parse_u128 value) (label ++ text ": integer too large")
  ok (u256_word n)
