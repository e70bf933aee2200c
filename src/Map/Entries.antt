-- ===== src/Map/Entries.antt =====
-- What holds of every value of a map.
use ic_facilitator.Prelude.{inl, inr, Bool-cases, some, ◌≡◌, [], ◌∷◌, arith}
use ic_facilitator.Text.{Text, text_eq}
use ic_facilitator.Map.{Map, get, insert, remove}

module _ {ℓ κ} {V : Type ℓ} (P : V → Type κ) where
  -- A predicate of every value, which computes to a tuple.
  abbrev pub Values : Map V → Type κ
  Values [] = Unit
  Values ((k, v) ∷ m) = P v × Values m

module _ {ℓ κ} {V : Type ℓ} (P : V → Type κ) where
  pub insert-Values : (k : Text) (v : V) (m : Map V) → P v → Values P m → Values P (insert k v m)
  unfolding insert
  insert-Values k v [] p h = (p, tt)
  insert-Values k v ((j, w) ∷ m) p h = ground (arith, insert-Values k v m p h.1)

  pub remove-Values : (k : Text) (m : Map V) → Values P m → Values P (remove k m)
  unfolding remove
  remove-Values k [] h = tt
  remove-Values k ((j, w) ∷ m) h = ground (arith, remove-Values k m h.1)

  pub get-Values : (k : Text) (v : V) (m : Map V) → Values P m → get k m ≡ some v → P v
  unfolding get
  get-Values k v [] h e = cc
  get-Values k v ((j, w) ∷ m) h e = elim (Bool-cases (text_eq j k)) [
    | inl here ↦ let same : w ≡ v = (let f = rw (get, here) at e in ground arith) in rw same at h.0
    | inr there ↦ get-Values k v m h.1 (rw (get, there) at e)
  ]
