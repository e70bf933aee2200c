-- ===== src/Hexutil/Words.antt =====
-- The number that a word stands for, and what `mul_small` and `add_small` do to it.
use mathlib.Core.List.{reverse-reverse, reverse-cons}
use native.Mathlib.Nat.{pow-suc, mul-le-mul}
use ic_facilitator.Prelude.{
  ℕ, zero, suc, ◌+◌, ◌*◌, ◌/◌, ◌%◌, ◌^◌, ◌≤◌, ◌<◌, ◌≡◌, refl, sym, ◌∙◌, ap, Option, none, some,
  List, [], ◌∷◌, ◌++◌, reverse, arith, ◌==◌, if◌then◌else◌, length, All, length-append,
}
use ic_facilitator.Hexutil.{mul_loop, mul_small, add_loop, add_small}

abbrev pub IsByte : ℕ → Type 0
IsByte b = b < 256

-- 256 to the number of bytes
abbrev pub scale : List ℕ → ℕ
scale [] = 1
scale (b ∷ bs) = 256 * scale bs

-- Lowest byte first.
abbrev pub le_value : List ℕ → ℕ
le_value [] = 0
le_value (b ∷ bs) = b + 256 * le_value bs

-- Highest byte first: the number that a word stands for.
abbrev pub be_value : List ℕ → ℕ
be_value [] = 0
be_value (b ∷ bs) = b * scale bs + be_value bs

-- A `[u8; 32]`.
abbrev pub IsWord : List ℕ → Type 0
IsWord w = (length w ≡ 32) × All IsByte w

pub scale-eq-pow : (bs : List ℕ) → scale bs ≡ 256 ^ length bs
scale-eq-pow [] = refl
scale-eq-pow (b ∷ bs) = rw (pow-suc) (omega (arith, scale-eq-pow bs))

pub scale_word : (w : List ℕ) → length w ≡ 32 → scale w ≡ 2 ^ 256
scale_word w h = rw (scale-eq-pow w, h) refl

pub le_value-append : (xs ys : List ℕ) → le_value (xs ++ ys) ≡ le_value xs + scale xs * le_value ys
le_value-append [] ys = omega arith
le_value-append (x ∷ xs) ys = omega (arith, le_value-append xs ys)

pub scale-append : (xs ys : List ℕ) → scale (xs ++ ys) ≡ scale xs * scale ys
scale-append [] ys = omega arith
scale-append (x ∷ xs) ys = omega (arith, scale-append xs ys)

pub All-append {ℓ κ} :
    {A : Type ℓ} (P : A → Type κ) (xs ys : List A) → All P xs → All P ys → All P (xs ++ ys)
All-append P [] ys p q = q
All-append P (x ∷ xs) ys p q = (p.0, All-append P xs ys p.1 q)

pub All-reverse {ℓ κ} : {A : Type ℓ} (P : A → Type κ) (xs : List A) → All P xs → All P (reverse xs)
All-reverse P [] p = tt
All-reverse P (x ∷ xs) p =
    rw (reverse-cons x xs) (All-append P (reverse xs) (x ∷ []) (All-reverse P xs p.1) (p.0, tt))

pub length-reverse {ℓ} : {A : Type ℓ} (xs : List A) → length (reverse xs) ≡ length xs
length-reverse [] = refl
length-reverse (x ∷ xs) =
    rw (reverse-cons x xs, length-append (reverse xs) (x ∷ [])) (omega (arith, length-reverse xs))

pub scale-reverse : (xs : List ℕ) → scale (reverse xs) ≡ scale xs
scale-reverse [] = refl
scale-reverse (x ∷ xs) =
    rw (reverse-cons x xs, scale-append (reverse xs) (x ∷ [])) (omega (arith, scale-reverse xs))

-- The two readings agree.
pub le_value-reverse : (xs : List ℕ) → le_value (reverse xs) ≡ be_value xs
le_value-reverse [] = refl
le_value-reverse (x ∷ xs) =
    rw (reverse-cons x xs, le_value-append (reverse xs) (x ∷ []), scale-reverse xs)
      (omega (arith, le_value-reverse xs))

pub be_value-reverse : (xs : List ℕ) → be_value (reverse xs) ≡ le_value xs
be_value-reverse xs = sym (le_value-reverse (reverse xs)) ∙ ap le_value (reverse-reverse xs)

pub be_value-lt : (xs : List ℕ) → All IsByte xs → be_value xs < scale xs
be_value-lt [] h = omega arith
be_value-lt (x ∷ xs) h = grind (arith, be_value-lt xs h.1)

-- What the loops do to the bytes: they keep their number and range, and the carry that is left is
-- the excess over the width.
pub record Runs (bytes : List ℕ) (total : ℕ) (out : List ℕ) (carry : ℕ) : Type 0 where
  pub same_length : length out ≡ length bytes
  pub in_range : All IsByte out
  pub accounts : le_value out + scale bytes * carry ≡ total
  pub carry_byte : carry < 256

mul_step :
    (b f c l s o k : ℕ)
    → b < 256
    → f < 256
    → c < 256
    → o + s * k ≡ l * f + (b * f + c) % 65536 / 256
    → (b * f + c) % 65536 % 256 + 256 * o + 256 * s * k ≡ (b + 256 * l) * f + c
mul_step b f c l s o k hb hf hc e =
    omega (arith, mul-le-mul {n₁ = b} {m₁ = f} {n₂ = 255} {m₂ = 255} (omega arith) (omega arith))

pub mul_loop-Runs :
    (bytes : List ℕ) (factor carry : ℕ)
    → All IsByte bytes
    → factor < 256
    → carry < 256
    → let (out, last) = mul_loop bytes factor carry in
      Runs bytes (le_value bytes * factor + carry) out last
unfolding mul_loop
mul_loop-Runs [] factor carry h hf hc = omega arith
mul_loop-Runs (b ∷ bytes) factor carry h hf hc =
    let next : ℕ = (b * factor + carry) % 65536 in
    let runs = mul_loop-Runs bytes factor (next / 256) h.1 hf (omega arith) in
    record {
      same_length = omega (arith, runs.same_length);
      in_range = (omega arith, runs.in_range);
      accounts = mul_step b factor carry (le_value bytes) (scale bytes) _ _ h.0 hf hc runs.accounts;
      carry_byte = runs.carry_byte;
    }

pub add_loop-Runs :
    (bytes : List ℕ) (carry : ℕ)
    → All IsByte bytes
    → carry < 256
    → let (out, last) = add_loop bytes carry in Runs bytes (le_value bytes + carry) out last
unfolding add_loop
add_loop-Runs [] carry h hc = omega arith
add_loop-Runs (b ∷ bytes) carry h hc =
    ground (arith, add_loop-Runs bytes ((b + carry) % 65536 / 256) h.1)

-- A word that stands for `total`, or none where `total` does not fit 256 bits.
abbrev pub Fits : ℕ → Option (List ℕ) → Type 0
Fits total none = 2 ^ 256 ≤ total
Fits total (some w) = IsWord w × (be_value w ≡ total)

Runs-Fits :
    (w : List ℕ) (total : ℕ) (out : List ℕ) (carry : ℕ)
    → IsWord w
    → Runs (reverse w) total out carry
    → Fits total (if carry == 0 then some (reverse out) else none)
Runs-Fits w total out zero h r = (
  (length-reverse out ∙ r.same_length ∙ length-reverse w ∙ h.0, All-reverse IsByte out r.in_range),
  be_value-reverse out ∙ omega (arith, r.accounts),
)
Runs-Fits w total out (suc c) h r =
    let e : scale (reverse w) ≡ 2 ^ 256 = scale-reverse w ∙ scale_word w h.0 in
    let s = rw e at r.accounts in let big : 2 ^ 256 ≤ total = omega arith in ground arith

-- `mul_small` multiplies the word, and fails exactly when the product needs more than 256 bits.
pub mul_small-Fits :
    (w : List ℕ) (factor : ℕ)
    → IsWord w
    → factor < 256
    → Fits (be_value w * factor) (mul_small w factor)
unfolding mul_small
mul_small-Fits w factor h hf =
    let runs = mul_loop-Runs (reverse w) factor 0 (All-reverse IsByte w h.1) hf (omega arith) in
    let e : le_value (reverse w) * factor + 0 ≡ be_value w * factor =
      rw (le_value-reverse w) (omega arith) in
    Runs-Fits w (be_value w * factor) _ _ h (rw e at runs)

-- `add_small` adds to the word, and fails exactly when the sum needs more than 256 bits.
pub add_small-Fits :
    (w : List ℕ) (addend : ℕ)
    → IsWord w
    → addend < 256
    → Fits (be_value w + addend) (add_small w addend)
unfolding add_small
add_small-Fits w addend h ha =
    let runs = add_loop-Runs (reverse w) addend (All-reverse IsByte w h.1) ha in
    Runs-Fits w (be_value w + addend) _ _ h (rw (le_value-reverse w) at runs)
