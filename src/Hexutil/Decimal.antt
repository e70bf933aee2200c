-- ===== src/Hexutil/Decimal.antt =====
-- `parse_u256_decimal` reads exactly the decimal numbers below 2 ^ 256.
use ic_facilitator.Prelude.{
  ℕ, zero, suc, ◌+◌, ◌-◌, ◌*◌, ◌^◌, ◌≤◌, ◌<◌, ◌≡◌, ◌≢◌, refl, inl, inr, true, List, [], ◌∷◌, ◌++◌,
  arith, all, Result, ok, err, ◌>>=◌, ok_or, replicate, Option-cases, All,
}
use ic_facilitator.Text.{Text, text, is_ascii_digit, dec_from}
use ic_facilitator.Hexutil.{mul_small, add_small, u256_loop, parse_u256_decimal}
use ic_facilitator.Hexutil.Words.{IsByte, IsWord, be_value, mul_small-Fits, add_small-Fits}

pub dec_from-ge : (acc : ℕ) (s : Text) → acc ≤ dec_from acc s
dec_from-ge acc [] = omega arith
dec_from-ge acc (c ∷ s) = omega (arith, dec_from-ge (acc * 10 + (c - 48)) s)

-- The result stands for `total`, or `total` does not fit 256 bits.
abbrev pub Reads : ℕ → Result (List ℕ) → Type 0
Reads total (ok w) = IsWord w × (be_value w ≡ total)
Reads total (err _) = 2 ^ 256 ≤ total

-- One digit: both steps succeed, or the number is already too large.
module _ (label : Text) (out : List ℕ) (c : ℕ) (s : Text)
    (rest : (x : List ℕ) → IsWord x → Reads (dec_from (be_value x) s) (u256_loop label x s)) where
  read :
      (w x : List ℕ)
      → be_value w ≡ be_value out * 10
      → IsWord x × (be_value x ≡ be_value w + (c - 48))
      → Reads (dec_from (be_value out) (c ∷ s)) (u256_loop label x s)
  read w x v (hx, sum) =
      let e : be_value x ≡ be_value out * 10 + (c - 48) = omega arith in rw e at (rest x hx)

  too_large : 2 ^ 256 ≤ be_value out * 10 + (c - 48) → 2 ^ 256 ≤ dec_from (be_value out) (c ∷ s)
  too_large h = omega (arith, dec_from-ge (be_value out * 10 + (c - 48)) s)

  added :
      (w : List ℕ)
      → c - 48 < 256
      → IsWord w × (be_value w ≡ be_value out * 10)
      → Reads (dec_from (be_value out) (c ∷ s)) (
          ok_or (add_small w (c - 48)) (label ++ text ": integer too large") >>= λ next.
          u256_loop label next s)
  added w digit (hw, v) = elim (Option-cases (add_small w (c - 48))) [
    | inl e ↦
        let big : 2 ^ 256 ≤ be_value w + (c - 48) = rw e at (add_small-Fits w (c - 48) hw digit) in
        rw e (too_large (omega arith))
    | inr (x, e) ↦ rw e (read w x v (rw e at (add_small-Fits w (c - 48) hw digit)))
  ]

  step :
      IsWord out
      → c - 48 < 256
      → Reads (dec_from (be_value out) (c ∷ s)) (u256_loop label out (c ∷ s))
  unfolding u256_loop
  step h digit = elim (Option-cases (mul_small out 10)) [
    | inl e ↦
        let big : 2 ^ 256 ≤ be_value out * 10 = rw e at (mul_small-Fits out 10 h (omega arith)) in
        rw e (too_large (omega arith))
    | inr (w, e) ↦ rw e (added w digit (rw e at (mul_small-Fits out 10 h (omega arith))))
  ]

u256_loop-Reads :
    (label : Text) (out : List ℕ) (s : Text)
    → IsWord out
    → all is_ascii_digit s ≡ true
    → Reads (dec_from (be_value out) s) (u256_loop label out s)
u256_loop-Reads label out [] h d = unfold u256_loop in (h, refl)
u256_loop-Reads label out (c ∷ s) h d =
    let rest : all is_ascii_digit s ≡ true = ground arith in
    step label out c s (λ x hx. u256_loop-Reads label x s hx rest) h (ground arith)

zero_word : (n : ℕ) → be_value (replicate n 0) ≡ 0
zero_word zero = refl
zero_word (suc n) = omega (arith, zero_word n)

All-replicate : (n : ℕ) → All IsByte (replicate n 0)
All-replicate zero = tt
All-replicate (suc n) = (omega arith, All-replicate n)

-- On a row of digits, `parse_u256_decimal` gives the word of the number, or the number does not
-- fit 256 bits.
pub parse_u256_decimal-Reads :
    (value label : Text)
    → value ≢ []
    → all is_ascii_digit value ≡ true
    → Reads (dec_from 0 value) (parse_u256_decimal value label)
unfolding parse_u256_decimal
parse_u256_decimal-Reads [] label h d = absurd (h refl)
parse_u256_decimal-Reads (c ∷ value) label h d = rw d (
    rw (zero_word 32) at
      (u256_loop-Reads label (replicate 32 0) (c ∷ value) (refl, All-replicate 32) d))
