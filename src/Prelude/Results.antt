-- ===== src/Prelude/Results.antt =====
-- Rust's `Result<T, String>`, with `?` as the bind of a `do` block.
use mathlib.Core.Bool.{Bool, true, false}
use mathlib.Core.Path.{◌≡◌, refl}
use mathlib.Core.List.{List}
use mathlib.Core.Logic.{◌⊎◌, inl, inr}
use mathlib.Core.Option.{Option, none, some}
use Prim.Native.Nat.{ℕ}

-- The error is the message, a text.
pub data Result {ℓ} (A : Type ℓ) : Type ℓ where
  ok : A → Result A
  err : List ℕ → Result A

-- `Result<(), String>`
abbrev pub Checked : Type 0
Checked = Result (Unit {0})

infixl 5 ◌>>=◌ ◌>>◌
abbrev pub ◌>>=◌ {ℓ κ} : {A : Type ℓ} {B : Type κ} → Result A → (A → Result B) → Result B
err message >>= next = err message
ok value >>= next = next value

abbrev pub ◌>>◌ {ℓ κ} : {A : Type ℓ} {B : Type κ} → Result A → Result B → Result B
check >> rest = check >>= λ done. rest

abbrev pub is_ok {ℓ} : {A : Type ℓ} → Result A → Bool
is_ok (ok a) = true
is_ok (err e) = false

-- `result.ok()`
abbrev pub to_option {ℓ} : {A : Type ℓ} → Result A → Option A
to_option (ok a) = some a
to_option (err e) = none

-- `option.ok_or_else(|| message)`
abbrev pub ok_or {ℓ} : {A : Type ℓ} → Option A → List ℕ → Result A
ok_or none e = err e
ok_or (some a) e = ok a

-- `result.map_err(|_| message)`
abbrev pub or_err {ℓ} : {A : Type ℓ} → Result A → List ℕ → Result A
or_err (ok a) e = ok a
or_err (err _) e = err e

-- `if condition { return Err(message) }`
abbrev pub fail_if : Bool → List ℕ → Result (Unit {0})
fail_if true e = err e
fail_if false e = ok tt

-- A `?` that went on: the part before it succeeded, and what came after it gave the result.
pub >>=-eq-ok {ℓ κ} :
    {A : Type ℓ} {B : Type κ} (first : Result A) (next : A → Result B) {result : B}
    → (first >>= next) ≡ ok result
    → (value : A) × (first ≡ ok value) × (next value ≡ ok result)
>>=-eq-ok (err message) next went_on = cc
>>=-eq-ok (ok value) next went_on = (value, refl, went_on)

pub Result-cases {ℓ} :
    {A : Type ℓ} (r : Result A) → ((a : A) × (r ≡ ok a)) ⊎ ((e : List ℕ) × (r ≡ err e))
Result-cases (ok a) = inl (a, refl)
Result-cases (err e) = inr (e, refl)

-- The same for a check: it held, and the rest succeeded.
pub fail_if-eq-ok {ℓ} :
    {A : Type ℓ} (b : Bool) (e : List ℕ) (k : Result A) {a : A}
    → (fail_if b e >> k) ≡ ok a
    → (b ≡ false) × (k ≡ ok a)
fail_if-eq-ok true e k h = cc
fail_if-eq-ok false e k h = (refl, h)
