-- ===== src/Rpc/Decimal/Print.antt =====
-- `uint256_hex_decimal_word` prints a 256-bit word as `to_string` prints a number: with no leading
-- zero. Event amounts are compared as texts, so this matters.
use mathlib.Core.List.{reverse-reverse, reverse-cons, append_assoc, append-nil}
use native.Mathlib.Nat.{mul-le-mul}
use ic_facilitator.Prelude.{
  ℕ, zero, suc, ◌+◌, ◌-◌, ◌*◌, ◌/◌, ◌%◌, ◌≤◌, ◌<◌, ◌≡◌, refl, sym, ap, ◌∙◌, ◌⊎◌, inl, inr, List, [],
  ◌∷◌, ◌++◌, reverse, arith, All,
}
use ic_facilitator.Text.{Text, digits_onto, to_decimal}
use ic_facilitator.Rpc.Decimal.{
  carry_loop, mul_digits, decimal_mul_small, carry_digits, decimal_add_small, word_loop,
  uint256_hex_decimal_word,
}
use ic_facilitator.Rpc.Decimal.Sums.{IsDigit, low_value, carry_loop_value, carry_loop_digits}
use ic_facilitator.Hexutil.Words.{IsByte, scale, be_value}

mul_step :
    (d f c l o : ℕ)
    → d ≤ 9
    → f ≤ 256
    → c ≤ 256
    → o ≡ l * f + (d * f + c) % 65536 / 10
    → ((d * f + c) % 65536 % 10 + 10 * o ≡ (d + 10 * l) * f + c) × ((d * f + c) % 65536 / 10 ≤ 256)
mul_step d f c l o hd hf hc e =
    omega (arith, mul-le-mul {n₁ = d} {m₁ = f} {n₂ = 9} {m₂ = 256} hd hf)

mul_carry : (d f c : ℕ) → d ≤ 9 → f ≤ 256 → c ≤ 256 → (d * f + c) % 65536 / 10 ≤ 256
mul_carry d f c hd hf hc = (mul_step d f c 0 _ hd hf hc refl).1

pub mul_digits_value :
    (s : Text) (factor carry : ℕ)
    → All IsDigit s
    → factor ≤ 256
    → carry ≤ 256
    → (low_value (mul_digits s factor carry) ≡ low_value s * factor + carry)
      × All IsDigit (mul_digits s factor carry)
unfolding mul_digits
mul_digits_value [] factor carry p hf hc =
    (omega (arith, carry_loop_value carry carry (omega arith)), carry_loop_digits carry carry)
mul_digits_value (a ∷ s) factor carry p hf hc =
    let k = mul_step (a - 48) factor carry (low_value s) _ (omega arith) hf hc refl in
    let ih = mul_digits_value s factor (((a - 48) * factor + carry) % 65536 / 10) p.1 hf k.1 in
    (omega (arith, k.0, ih.0), (omega arith, ih.1))

pub carry_digits_value :
    (s : Text) (carry : ℕ)
    → All IsDigit s
    → carry ≤ 255
    → (low_value (carry_digits s carry) ≡ low_value s + carry) × All IsDigit (carry_digits s carry)
unfolding carry_digits
carry_digits_value [] carry p h =
    (omega (arith, carry_loop_value carry carry (omega arith)), carry_loop_digits carry carry)
carry_digits_value (a ∷ s) carry p h =
    let ih = carry_digits_value s (((a - 48) + carry) % 65536 / 10) p.1 (omega arith) in
    (omega (arith, ih.0), (omega arith, ih.1))

-- The last digit, which is the highest, is there and is not 0.
abbrev TopNonzero : Text → Type 0
TopNonzero [] = ⊥
TopNonzero (c ∷ []) = 48 < c
TopNonzero (c ∷ d ∷ s) = TopNonzero (d ∷ s)

TopNonzero-cons : (c : ℕ) (s : Text) → TopNonzero s → TopNonzero (c ∷ s)
TopNonzero-cons c [] h = absurd h
TopNonzero-cons c (d ∷ s) h = h

-- No leading zero, but in "0" itself.
abbrev Canonical : Text → Type 0
Canonical s = (s ≡ 48 ∷ []) ⊎ TopNonzero s

carry_loop-zero : (f : ℕ) → carry_loop f 0 ≡ []
unfolding carry_loop
carry_loop-zero zero = refl
carry_loop-zero (suc f) = refl

-- A digit below what is carried: either something is carried, or the digit is not 0.
top_digit :
    (x f q : ℕ)
    → (q ≡ 0 → 48 < x)
    → (0 < q → TopNonzero (carry_loop f q))
    → TopNonzero (x ∷ carry_loop f q)
top_digit x f zero h k = rw (carry_loop-zero f) (h refl)
top_digit x f (suc q) h k = TopNonzero-cons x (carry_loop f (suc q)) (k (omega arith))

carry_loop-step : (f c : ℕ) → 0 < c → carry_loop (suc f) c ≡ (c % 10 + 48) ∷ carry_loop f (c / 10)
unfolding carry_loop
carry_loop-step f c h = ground arith

carry_loop-TopNonzero : (f c : ℕ) → 0 < c → c ≤ f → TopNonzero (carry_loop f c)
carry_loop-TopNonzero zero c h k = absurd (omega arith)
carry_loop-TopNonzero (suc f) c h k = rw (carry_loop-step f c h) (
    top_digit (c % 10 + 48) f (c / 10) (λ z. omega arith)
      (λ l. carry_loop-TopNonzero f (c / 10) l (omega arith)))

ends_nonzero : (n : ℕ) → 0 < n → TopNonzero ((n % 10 + 48) ∷ carry_loop (n / 10) (n / 10))
ends_nonzero n h =
    top_digit (n % 10 + 48) (n / 10) (n / 10) (λ z. omega arith)
      (λ l. carry_loop-TopNonzero (n / 10) (n / 10) l (omega arith))

times_pos : (d f c : ℕ) → 1 ≤ d → d ≤ 9 → 1 ≤ f → f ≤ 256 → c ≤ 256 → 0 < (d * f + c) % 65536
times_pos d f c lo hi flo fhi hc = omega (
  arith,
  mul-le-mul {n₁ = d} {m₁ = f} {n₂ = 9} {m₂ = 256} hi fhi,
  mul-le-mul {n₁ = 1} {m₁ = 1} {n₂ = d} {m₂ = f} lo flo,
)

mul_digits-TopNonzero :
    (s : Text) (factor carry : ℕ)
    → TopNonzero s
    → All IsDigit s
    → 1 ≤ factor
    → factor ≤ 256
    → carry ≤ 256
    → TopNonzero (mul_digits s factor carry)
unfolding mul_digits
mul_digits-TopNonzero [] factor carry t p lo hi hc = absurd t
mul_digits-TopNonzero (a ∷ []) factor carry t p lo hi hc =
    ends_nonzero (((a - 48) * factor + carry) % 65536)
      (times_pos (a - 48) factor carry (omega arith) (omega arith) lo hi hc)
mul_digits-TopNonzero (a ∷ b ∷ s) factor carry t p lo hi hc =
    mul_digits-TopNonzero (b ∷ s) factor (((a - 48) * factor + carry) % 65536 / 10) t p.1 lo hi
      (mul_carry (a - 48) factor carry (omega arith) hi hc)

carry_digits-TopNonzero :
    (s : Text) (carry : ℕ)
    → TopNonzero s
    → All IsDigit s
    → carry ≤ 255
    → TopNonzero (carry_digits s carry)
unfolding carry_digits
carry_digits-TopNonzero [] carry t p h = absurd t
carry_digits-TopNonzero (a ∷ []) carry t p h =
    ends_nonzero (((a - 48) + carry) % 65536) (omega arith)
carry_digits-TopNonzero (a ∷ b ∷ s) carry t p h =
    carry_digits-TopNonzero (b ∷ s) (((a - 48) + carry) % 65536 / 10) t p.1 (omega arith)

-- One byte of the word: times 256, and the byte added.
abbrev push_byte : Text → ℕ → Text
push_byte s byte = carry_digits (mul_digits s 256 0) byte

push_byte-Canonical :
    (s : Text) (byte : ℕ) → Canonical s → All IsDigit s → byte < 256 → Canonical (push_byte s byte)
push_byte-Canonical s byte (inr t) p h = inr (
    carry_digits-TopNonzero (mul_digits s 256 0) byte
      (mul_digits-TopNonzero s 256 0 t p (omega arith) (omega arith) (omega arith))
      (mul_digits_value s 256 0 p (omega arith) (omega arith)).1 (omega arith))
push_byte-Canonical s zero (inl e) p h =
    rw e (unfold mul_digits carry_digits carry_loop in inl refl)
push_byte-Canonical s (suc n) (inl e) p h =
    rw e (unfold mul_digits carry_digits in inr (ends_nonzero ((0 + suc n) % 65536) (omega arith)))

push_byte_value :
    (s : Text) (byte : ℕ)
    → All IsDigit s
    → byte < 256
    → (low_value (push_byte s byte) ≡ low_value s * 256 + byte) × All IsDigit (push_byte s byte)
push_byte_value s byte p h =
    let m = mul_digits_value s 256 0 p (omega arith) (omega arith) in
    let a = carry_digits_value (mul_digits s 256 0) byte m.1 (omega arith) in
    (omega (arith, m.0, a.0), a.1)

-- `to_string` writes the digits of a canonical text.
TopNonzero-low_value : (s : Text) → TopNonzero s → 1 ≤ low_value s
TopNonzero-low_value [] t = absurd t
TopNonzero-low_value (c ∷ []) t = omega arith
TopNonzero-low_value (c ∷ d ∷ s) t = omega (arith, TopNonzero-low_value (d ∷ s) t)

digits_onto-step :
    (f n : ℕ) (acc : Text)
    → 10 ≤ n
    → digits_onto (suc f) n acc ≡ digits_onto f (n / 10) ((48 + n % 10) ∷ acc)
unfolding digits_onto
digits_onto-step f n acc h = ground arith

digits_onto-last : (f n : ℕ) (acc : Text) → n < 10 → digits_onto (suc f) n acc ≡ (48 + n) ∷ acc
unfolding digits_onto
digits_onto-last f n acc h = ground arith

digits_onto-low_value :
    (f : ℕ) (s acc : Text)
    → TopNonzero s
    → All IsDigit s
    → low_value s < f
    → digits_onto f (low_value s) acc ≡ reverse s ++ acc
digits_onto-low_value zero s acc t p h = absurd (omega arith)
digits_onto-low_value (suc f) [] acc t p h = absurd t
digits_onto-low_value (suc f) (c ∷ []) acc t p h =
    let e : 48 + ((c - 48) + 10 * 0) ≡ c = omega arith in
    digits_onto-last f ((c - 48) + 10 * 0) acc (omega arith) ∙ ap (λ x. x ∷ acc) e
digits_onto-low_value (suc f) (c ∷ d ∷ s) acc t p h =
    let pos = TopNonzero-low_value (d ∷ s) t in
    let n : ℕ = low_value (c ∷ d ∷ s) in
    let quotient : n / 10 ≡ low_value (d ∷ s) = omega arith in
    let digit : 48 + n % 10 ≡ c = omega arith in
    let ih = digits_onto-low_value f (d ∷ s) (c ∷ acc) t p.1 (omega arith) in
    digits_onto-step f n acc (omega arith)
    ∙ rw (quotient, digit, reverse-cons c (d ∷ s))
        (ih ∙ sym (append_assoc (reverse (d ∷ s)) (c ∷ []) acc))

Canonical-to_decimal :
    (s : Text) → Canonical s → All IsDigit s → to_decimal (low_value s) ≡ reverse s
unfolding to_decimal
Canonical-to_decimal s (inl e) p = rw e (unfold digits_onto in refl)
Canonical-to_decimal s (inr t) p =
    digits_onto-low_value (suc (low_value s)) s [] t p (omega arith) ∙ append-nil (reverse s)

pushed :
    (s : Text) (byte : ℕ) (bytes : List ℕ)
    → word_loop (decimal_add_small (decimal_mul_small (reverse s) 256) byte) bytes
      ≡ word_loop (reverse (push_byte s byte)) bytes
unfolding decimal_add_small decimal_mul_small
pushed s byte bytes = simp reverse-reverse

word_loop-to_decimal :
    (s : Text) (bytes : List ℕ)
    → Canonical s
    → All IsDigit s
    → All IsByte bytes
    → word_loop (reverse s) bytes ≡ to_decimal (low_value s * scale bytes + be_value bytes)
unfolding word_loop
word_loop-to_decimal s [] k p h = sym (Canonical-to_decimal s k p) ∙ ap to_decimal (omega arith)
word_loop-to_decimal s (byte ∷ bytes) k p h =
    let (value, range) = push_byte_value s byte p h.0 in
    let total : low_value (push_byte s byte) * scale bytes + be_value bytes
        ≡ low_value s * (256 * scale bytes) + (byte * scale bytes + be_value bytes) =
      rw value (omega arith) in
    pushed s byte bytes
    ∙ word_loop-to_decimal (push_byte s byte) bytes (push_byte-Canonical s byte k p h.0) range h.1
    ∙ ap to_decimal total

-- A word of bytes is printed exactly as the number that it stands for.
pub uint256_hex_decimal_word-to_decimal :
    (bytes : List ℕ)
    → All IsByte bytes
    → uint256_hex_decimal_word bytes ≡ to_decimal (be_value bytes)
unfolding uint256_hex_decimal_word
uint256_hex_decimal_word-to_decimal bytes h =
    word_loop-to_decimal (48 ∷ []) bytes (inl refl) (omega arith) h ∙ ap to_decimal (omega arith)
