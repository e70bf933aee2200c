-- ===== src/Batch/Amounts.antt =====
-- What the checks of a channel's amounts say of the numbers.
use ic_facilitator.Prelude.{
  ℕ, ◌^◌, ◌≤◌, ◌<◌, ◌≡◌, ◌≢◌, sym, ◌∙◌, true, some, List, [], ◌∷◌, arith, all, ok, >>=-eq-ok,
}
use ic_facilitator.Text.{Text, dec_from, is_ascii_digit, parse_uint, parse_u128}
use ic_facilitator.State.{BatchChannel}
use ic_facilitator.Hexutil.{parse_u256_decimal}
use ic_facilitator.Hexutil.Words.{IsWord, be_value}
use ic_facilitator.Hexutil.Order.{text_ltb-be_value}
use ic_facilitator.Hexutil.Decimal.{parse_u256_decimal-Reads}
use ic_facilitator.Batch.Checks.{parse_u128_decimal, validate_limited_string}
use ic_facilitator.Batch.Channel.{
  amounts_fit, not_below, validate_stored_channel_amounts, require_monotonic_decimal,
}

-- The number that a text of digits stands for.
abbrev pub number : Text → ℕ
number = dec_from 0

digits_parsed :
    (value : Text) {n : ℕ}
    → all is_ascii_digit value ≡ true
    → parse_u128 value ≡ some n
    → (n ≡ number value) × (number value < 2 ^ 128)
unfolding parse_uint
digits_parsed [] d e = cc
digits_parsed (c ∷ value) d e = ground arith

pub parse_u128_decimal-number :
    (label value : Text) {n : ℕ}
    → parse_u128_decimal label value ≡ ok n
    → (n ≡ number value) × (number value < 2 ^ 128) × (parse_u128 value ≡ some n)
unfolding parse_u128_decimal validate_limited_string parse_uint
parse_u128_decimal-number label [] e = ground arith
parse_u128_decimal-number label (c ∷ value) e = ground arith

parse_u256_decimal-digits :
    (value label : Text) {w : List ℕ}
    → parse_u256_decimal value label ≡ ok w
    → (value ≢ []) × (all is_ascii_digit value ≡ true)
unfolding parse_u256_decimal
parse_u256_decimal-digits [] label e = cc
parse_u256_decimal-digits (c ∷ value) label e = ((λ f. cc), ground arith)

pub parse_u256_decimal-IsWord :
    (value label : Text) {w : List ℕ}
    → parse_u256_decimal value label ≡ ok w
    → IsWord w × (be_value w ≡ number value)
parse_u256_decimal-IsWord value label e =
    let (ne, digits) = parse_u256_decimal-digits value label e in
    rw e at (parse_u256_decimal-Reads value label ne digits)

not_below-le :
    (label : Text) (v w : List ℕ)
    → IsWord v
    → IsWord w
    → not_below label v w ≡ ok tt
    → be_value v ≤ be_value w
unfolding not_below
not_below-le label v w (lv, bv) (lw, bw) e =
    ground (arith, text_ltb-be_value w v (lw ∙ sym lv) bw bv)

-- A text that may not decrease does not: its number stays or grows.
pub require_monotonic_decimal-number :
    (label current next : Text)
    → require_monotonic_decimal label current next ≡ ok tt
    → number current ≤ number next
unfolding require_monotonic_decimal
require_monotonic_decimal-number label current next e =
    let (v, ev, e1) = >>=-eq-ok (parse_u256_decimal current label) _ e in
    let (w, ew, e2) = >>=-eq-ok (parse_u256_decimal next label) _ e1 in
    let (wv, nv) = parse_u256_decimal-IsWord current label ev in
    let (ww, nw) = parse_u256_decimal-IsWord next label ew in
    let le = not_below-le label v w wv ww e2 in omega (arith, nv, nw, le)

amounts_fit-le :
    (charged signed claimed balance : ℕ)
    → amounts_fit charged signed claimed balance ≡ ok tt
    → (charged ≤ signed) × (claimed ≤ signed) × (claimed ≤ balance)
unfolding amounts_fit
amounts_fit-le charged signed claimed balance e = ground arith

-- A stored channel owes no more than was signed for, and has claimed no more than was signed for or
-- than its balance; what was signed for and the balance fit 128 bits.
pub validate_stored_channel_amounts-bounds :
    (channel : BatchChannel)
    → validate_stored_channel_amounts channel ≡ ok tt
    → (number channel.charged_cumulative_amount ≤ number channel.signed_max_claimable)
      × (number channel.total_claimed ≤ number channel.signed_max_claimable)
      × (number channel.total_claimed ≤ number channel.balance)
      × (number channel.signed_max_claimable < 2 ^ 128)
      × (number channel.balance < 2 ^ 128)
unfolding validate_stored_channel_amounts
validate_stored_channel_amounts-bounds channel e =
    let (charged, e1, r1) =
      >>=-eq-ok (parse_u128_decimal _ channel.charged_cumulative_amount) _ e in
    let (signed, e2, r2) = >>=-eq-ok (parse_u128_decimal _ channel.signed_max_claimable) _ r1 in
    let (claimed, e3, r3) = >>=-eq-ok (parse_u128_decimal _ channel.total_claimed) _ r2 in
    let (balance, e4, r4) = >>=-eq-ok (parse_u128_decimal _ channel.balance) _ r3 in
    let fit = amounts_fit-le charged signed claimed balance r4 in
    let n1 = parse_u128_decimal-number _ channel.charged_cumulative_amount e1 in
    let n2 = parse_u128_decimal-number _ channel.signed_max_claimable e2 in
    let n3 = parse_u128_decimal-number _ channel.total_claimed e3 in
    let n4 = parse_u128_decimal-number _ channel.balance e4 in
    (
      omega (arith, n1.0, n2.0, fit.0),
      omega (arith, n3.0, n2.0, fit.1),
      omega (arith, n3.0, n4.0, fit.2),
      n2.1,
      n4.1,
    )
