-- ===== src/Text/Numerals.antt =====
-- Printing and reading unsigned integers: `to_string` and `parse`.
use ic_facilitator.Prelude.{
  ℕ, zero, suc, ◌+◌, ◌/◌, ◌%◌, ◌<◌, ◌≡◌, refl, inl, inr, true, some, [], ◌∷◌, arith, ltb, all,
  Bool-cases,
}
use ic_facilitator.Text.{
  Text, is_ascii_digit, dec_from, strip_plus, parse_digits, parse_uint, digits_onto, to_decimal,
}

-- Reading back what was printed goes on from the number itself.
dec_from-digits_onto :
    (f n : ℕ) (acc : Text) → n < f → dec_from 0 (digits_onto f n acc) ≡ dec_from n acc
unfolding digits_onto
dec_from-digits_onto zero n acc h = absurd (omega arith)
dec_from-digits_onto (suc f) n acc h =
    ground (arith, dec_from-digits_onto f (n / 10) ((48 + n % 10) ∷ acc))

all-digits_onto :
    (f n : ℕ) (acc : Text)
    → all is_ascii_digit acc ≡ true
    → all is_ascii_digit (digits_onto f n acc) ≡ true
unfolding digits_onto
all-digits_onto zero n acc h = h
all-digits_onto (suc f) n acc h = ground (arith, all-digits_onto f (n / 10) ((48 + n % 10) ∷ acc))

-- Printing never gives the empty text.
digits_onto-cons :
    (f n c : ℕ) (acc : Text) → (d : ℕ) × (r : Text) × (digits_onto f n (c ∷ acc) ≡ d ∷ r)
unfolding digits_onto
digits_onto-cons zero n c acc = (c, acc, refl)
digits_onto-cons (suc f) n c acc = elim (Bool-cases (ltb n 10)) [
  | inl small ↦ (48 + n, c ∷ acc, rw small)
  | inr large ↦ rw large (digits_onto-cons f (n / 10) (48 + n % 10) (c ∷ acc))
]

to_decimal-cons : (n : ℕ) → (d : ℕ) × (r : Text) × (to_decimal n ≡ d ∷ r)
unfolding to_decimal digits_onto
to_decimal-cons n = elim (Bool-cases (ltb n 10)) [
  | inl small ↦ (48 + n, [], rw small)
  | inr large ↦ rw large (digits_onto-cons n (n / 10) (48 + n % 10) [])
]

pub all-to_decimal : (n : ℕ) → all is_ascii_digit (to_decimal n) ≡ true
unfolding to_decimal
all-to_decimal n = all-digits_onto (suc n) n [] refl

pub dec_from-to_decimal : (n : ℕ) → dec_from 0 (to_decimal n) ≡ n
unfolding to_decimal
dec_from-to_decimal n = dec_from-digits_onto (suc n) n [] (omega arith)

parse_uint-of_digits :
    (bound n d : ℕ) (r : Text)
    → all is_ascii_digit (d ∷ r) ≡ true
    → dec_from 0 (d ∷ r) ≡ n
    → n < bound
    → parse_uint bound (d ∷ r) ≡ some n
unfolding parse_uint
parse_uint-of_digits bound n d r digits value h = ground arith

-- `parse` reads back the number that `to_string` printed, if the type holds it.
pub parse_uint-to_decimal : (bound n : ℕ) → n < bound → parse_uint bound (to_decimal n) ≡ some n
parse_uint-to_decimal bound n h =
    let (d, r, e) = to_decimal-cons n in
    rw e (
      parse_uint-of_digits bound n d r (rw e at (all-to_decimal n))
        (rw e at (dec_from-to_decimal n)) h)

-- What is read lies below the bound.
pub parse_uint-lt : (bound : ℕ) (s : Text) {n : ℕ} → parse_uint bound s ≡ some n → n < bound
unfolding parse_uint
parse_uint-lt bound s h = parsed (strip_plus s) h
  where
    parsed : (t : Text) {n : ℕ} → parse_digits bound t ≡ some n → n < bound
    parsed [] e = cc
    parsed (c ∷ t) e = ground arith
