-- ===== src/Map.antt =====
-- `StableBTreeMap<String, V>` as the program uses it: an ordered map, here the list of its entries
-- in key order. Values are stored encoded; `encode_stable` and `decode_stable` are inverse to one
-- another on what the program stores, so a map holds the values themselves.
pub mod Order
pub mod Entries
use ic_facilitator.Prelude.{
  ℕ, ◌≡◌, ◌≢◌, refl, inl, inr, Bool, true, false, Option, none, some, List, [], ◌∷◌, arith,
  if◌then◌else◌, length, is_some,
}
use ic_facilitator.Text.{Text, text_eq, text_eq_iff, text_eq_refl, text_ltb}

abbrev pub Map {ℓ} : Type ℓ → Type ℓ
Map V = List (Text × V)

module _ {ℓ} {V : Type ℓ} where
  unfoldable pub get : Text → Map V → Option V
  get k [] = none
  get k ((j, v) ∷ m) = if text_eq j k then some v else get k m

  unfoldable pub insert : Text → V → Map V → Map V
  insert k v [] = (k, v) ∷ []
  insert k v ((j, w) ∷ m) =
      if text_eq j k
      then (k, v) ∷ m
      else if text_ltb k j
      then (k, v) ∷ (j, w) ∷ m
      else (j, w) ∷ insert k v m

  unfoldable pub remove : Text → Map V → Map V
  remove k [] = []
  remove k ((j, v) ∷ m) = if text_eq j k then remove k m else (j, v) ∷ remove k m

  abbrev pub contains_key : Text → Map V → Bool
  contains_key k m = is_some (get k m)

  pub get-insert :
      (k j : Text) (v : V) (m : Map V)
      → get j (insert k v m) ≡ (if text_eq k j then some v else get j m)
  unfolding get insert
  get-insert k j v [] = refl
  get-insert k j v ((i, w) ∷ m) =
      ground (arith, text_eq_iff k j, text_eq_iff i k, text_eq_iff i j, get-insert k j v m)

  pub get-insert_self : (k : Text) (v : V) (m : Map V) → get k (insert k v m) ≡ some v
  get-insert_self k v m = simp (get-insert, text_eq_refl)

  pub get-insert_other : (k j : Text) (v : V) (m : Map V) → k ≢ j → get j (insert k v m) ≡ get j m
  get-insert_other k j v m h =
      let miss : text_eq k j ≡ false = ground (arith, text_eq_iff k j) in rw (get-insert, miss)

  pub get-remove :
      (k j : Text) (m : Map V) → get j (remove k m) ≡ (if text_eq k j then none else get j m)
  unfolding get remove
  get-remove k j [] = ground arith
  get-remove k j ((i, w) ∷ m) =
      ground (arith, text_eq_iff k j, text_eq_iff i k, text_eq_iff i j, get-remove k j m)

  pub get-remove_self : (k : Text) (m : Map V) → get k (remove k m) ≡ none
  get-remove_self k m = simp (get-remove, text_eq_refl)

pub ruleset map_laws = (get-insert, get-remove, get-insert_self, get-remove_self, text_eq_refl)
