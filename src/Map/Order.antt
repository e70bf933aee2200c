-- ===== src/Map/Order.antt =====
-- Keys in order: each key is below those that follow it. The number of entries under insertion and
-- removal rests on it.
use ic_facilitator.Prelude.{
  suc, ◌≤◌, ◌≡◌, refl, true, false, none, [], ◌∷◌, arith, if◌then◌else◌, length,
}
use ic_facilitator.Text.{Text, text_eq, text_eq_iff, text_ltb}
use ic_facilitator.Map.{Map, get, insert, remove, contains_key}

pub text_ltb_irrefl : (a : Text) → text_ltb a a ≡ false
unfolding text_ltb
text_ltb_irrefl [] = refl
text_ltb_irrefl (a ∷ r) = ground (arith, text_ltb_irrefl r)

pub text_ltb_trans :
    (a b c : Text) → text_ltb a b ≡ true → text_ltb b c ≡ true → text_ltb a c ≡ true
unfolding text_ltb
text_ltb_trans [] [] c h k = cc
text_ltb_trans [] (b ∷ bs) [] h k = cc
text_ltb_trans [] (b ∷ bs) (c ∷ cs) h k = refl
text_ltb_trans (a ∷ r) [] c h k = cc
text_ltb_trans (a ∷ r) (b ∷ bs) [] h k = cc
text_ltb_trans (a ∷ r) (b ∷ bs) (c ∷ cs) h k = ground (arith, text_ltb_trans r bs cs)

-- Two texts that neither is below the other are equal.
pub text_ltb_total : (a b : Text) → text_eq a b ≡ false → text_ltb a b ≡ false → text_ltb b a ≡ true
unfolding text_ltb text_eq
text_ltb_total [] [] h k = cc
text_ltb_total [] (b ∷ bs) h k = cc
text_ltb_total (a ∷ r) [] h k = refl
text_ltb_total (a ∷ r) (b ∷ bs) h k = ground (arith, text_ltb_total r bs)

module _ {ℓ} {V : Type ℓ} where
  -- `k` is below every key of the map.
  abbrev pub Below : Text → Map V → Type 0
  Below k [] = Unit
  Below k ((j, v) ∷ m) = (text_ltb k j ≡ true) × Below k m

  abbrev pub IsSorted : Map V → Type 0
  IsSorted [] = Unit
  IsSorted ((k, v) ∷ m) = Below k m × IsSorted m

module _ {ℓ} {V : Type ℓ} where
  pub Below-trans : (i j : Text) (m : Map V) → text_ltb i j ≡ true → Below j m → Below i m
  Below-trans i j [] h b = tt
  Below-trans i j ((k, v) ∷ m) h b = (text_ltb_trans i j k h b.0, Below-trans i j m h b.1)

  -- A key below all others is not among them.
  pub get-Below : (k : Text) (m : Map V) → Below k m → get k m ≡ none
  unfolding get
  get-Below k [] b = refl
  get-Below k ((j, v) ∷ m) b = ground (arith, text_eq_iff j k, text_ltb_irrefl k, get-Below k m b.1)

  Below-insert :
      (i k : Text) (v : V) (m : Map V) → text_ltb i k ≡ true → Below i m → Below i (insert k v m)
  unfolding insert
  Below-insert i k v [] h b = (h, tt)
  Below-insert i k v ((j, w) ∷ m) h b = ground (arith, Below-insert i k v m h b.1)

  Below-remove : (i k : Text) (m : Map V) → Below i m → Below i (remove k m)
  unfolding remove
  Below-remove i k [] b = tt
  Below-remove i k ((j, w) ∷ m) b = ground (arith, Below-remove i k m b.1)

  pub insert-IsSorted : (k : Text) (v : V) (m : Map V) → IsSorted m → IsSorted (insert k v m)
  unfolding insert
  insert-IsSorted k v [] s = (tt, tt)
  insert-IsSorted k v ((j, w) ∷ m) s = ground (
    arith,
    text_eq_iff j k,
    text_ltb_total j k,
    text_ltb_total k j,
    Below-trans k j m,
    Below-insert j k v m,
    insert-IsSorted k v m s.1,
  )

  pub remove-IsSorted : (k : Text) (m : Map V) → IsSorted m → IsSorted (remove k m)
  unfolding remove
  remove-IsSorted k [] s = tt
  remove-IsSorted k ((j, w) ∷ m) s = ground (arith, Below-remove j k m s.0, remove-IsSorted k m s.1)

  -- Insertion adds an entry exactly if the key is new.
  pub length-insert :
      (k : Text) (v : V) (m : Map V)
      → IsSorted m
      → length (insert k v m) ≡ (if contains_key k m then length m else suc (length m))
  unfolding insert get
  length-insert k v [] s = refl
  length-insert k v ((j, w) ∷ m) s =
      ground (arith, text_eq_iff j k, get-Below k m, Below-trans k j m, length-insert k v m s.1)

  pub length-remove-le : (k : Text) (m : Map V) → length (remove k m) ≤ length m
  unfolding remove
  length-remove-le k [] = omega arith
  length-remove-le k ((j, w) ∷ m) = ground (arith, length-remove-le k m)

  -- Removing a key that is there leaves at least one entry less.
  pub length-remove_present :
      (k : Text) (m : Map V) → contains_key k m ≡ true → suc (length (remove k m)) ≤ length m
  unfolding remove get
  length-remove_present k [] h = cc
  length-remove_present k ((j, w) ∷ m) h =
      ground (arith, length-remove-le k m, length-remove_present k m)
