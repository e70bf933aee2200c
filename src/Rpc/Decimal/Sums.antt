-- ===== src/Rpc/Decimal/Sums.antt =====
-- The value of what the loops write, low digit first.
use mathlib.Core.List.{reverse-reverse, reverse-cons}
use ic_facilitator.Prelude.{
  ℕ, zero, suc, ◌+◌, ◌-◌, ◌*◌, ◌/◌, ◌%◌, ◌≤◌, ◌≡◌, refl, sym, ap, ◌∙◌, true, [], ◌∷◌, ◌++◌, reverse,
  arith, all, ok, All,
}
use ic_facilitator.Text.{Text, is_ascii_digit, dec_from}
use ic_facilitator.Rpc.Decimal.{carry_loop, add_digits, decimal_add}
use ic_facilitator.Hexutil.Words.{All-reverse}

-- The value of digits with the lowest first.
abbrev pub low_value : Text → ℕ
low_value [] = 0
low_value (c ∷ s) = (c - 48) + 10 * low_value s

abbrev pub IsDigit : ℕ → Type 0
IsDigit c = (48 ≤ c) × (c ≤ 57)

pub digits→All : (s : Text) → all is_ascii_digit s ≡ true → All IsDigit s
digits→All [] h = tt
digits→All (c ∷ s) h = ground (arith, digits→All s)

pub All→digits : (s : Text) → All IsDigit s → all is_ascii_digit s ≡ true
All→digits [] h = refl
All→digits (c ∷ s) h = ground (arith, All→digits s h.1)

dec_from-append : (acc : ℕ) (s t : Text) → dec_from acc (s ++ t) ≡ dec_from (dec_from acc s) t
dec_from-append acc [] t = refl
dec_from-append acc (c ∷ s) t = dec_from-append (acc * 10 + (c - 48)) s t

pub dec_from-reverse : (s : Text) → dec_from 0 (reverse s) ≡ low_value s
dec_from-reverse [] = refl
dec_from-reverse (c ∷ s) =
    rw (reverse-cons c s, dec_from-append 0 (reverse s) (c ∷ []))
      (omega (arith, dec_from-reverse s))

pub low_value-reverse : (s : Text) → low_value (reverse s) ≡ dec_from 0 s
low_value-reverse s = sym (dec_from-reverse (reverse s)) ∙ ap (dec_from 0) (reverse-reverse s)

pub carry_loop_value : (f carry : ℕ) → carry ≤ f → low_value (carry_loop f carry) ≡ carry
unfolding carry_loop
carry_loop_value zero carry h = omega arith
carry_loop_value (suc f) carry h = ground (arith, carry_loop_value f (carry / 10))

pub carry_loop_digits : (f carry : ℕ) → All IsDigit (carry_loop f carry)
unfolding carry_loop
carry_loop_digits zero carry = tt
carry_loop_digits (suc f) carry = ground (arith, carry_loop_digits f (carry / 10))

pub add_digits_value :
    (s t : Text) (carry : ℕ)
    → All IsDigit s
    → All IsDigit t
    → carry ≤ 1
    → (low_value (add_digits s t carry) ≡ low_value s + low_value t + carry)
      × All IsDigit (add_digits s t carry)
unfolding add_digits
add_digits_value [] [] carry p q h =
    (omega (arith, carry_loop_value carry carry (omega arith)), carry_loop_digits carry carry)
add_digits_value [] (b ∷ t) carry p q h =
    let ih = add_digits_value [] t (((b - 48) + carry) % 65536 / 10) tt q.1 (omega arith) in
    (omega (arith, ih.0), (omega arith, ih.1))
add_digits_value (a ∷ s) [] carry p q h =
    let ih = add_digits_value s [] (((a - 48) + carry) % 65536 / 10) p.1 tt (omega arith) in
    (omega (arith, ih.0), (omega arith, ih.1))
add_digits_value (a ∷ s) (b ∷ t) carry p q h =
    let next : ℕ = ((a - 48) + (b - 48) + carry) % 65536 in
    let ih = add_digits_value s t (next / 10) p.1 q.1 (omega arith) in
    (omega (arith, ih.0), (omega arith, ih.1))

-- `decimal_add` adds: on two texts of digits it answers the digits of the sum.
pub decimal_add_value :
    (left right : Text)
    → all is_ascii_digit left ≡ true
    → all is_ascii_digit right ≡ true
    → (sum : Text) × (decimal_add left right ≡ ok sum)
      × (dec_from 0 sum ≡ dec_from 0 left + dec_from 0 right)
      × (all is_ascii_digit sum ≡ true)
unfolding decimal_add
decimal_add_value left right p q =
    let (value, range) =
      add_digits_value (reverse left) (reverse right) 0
        (All-reverse IsDigit left (digits→All left p))
        (All-reverse IsDigit right (digits→All right q)) (omega arith) in
    (
      reverse (add_digits (reverse left) (reverse right) 0),
      rw (p, q),
      dec_from-reverse _
          ∙ value
          ∙ rw (low_value-reverse left, low_value-reverse right) (omega arith),
      All→digits _ (All-reverse IsDigit _ range),
    )
