-- ===== src/Active.antt =====
-- rust/facilitator/src/lib.rs: the active settlement of each scope, which is the lock that keeps two
-- transactions of one sender and seller apart.
use ic_facilitator.Prelude.{
  ℕ, ◌≡◌, refl, ◌≢◌, inl, inr, Bool, true, false, ◌&&◌, not, Option, none, some, List, [], ◌∷◌,
  ◌++◌, arith, if◌then◌else◌, is_some, Result, ok, ◌>>=◌, Option-cases,
}
use ic_facilitator.Text.{Text, text, text_eq, text_eq_iff, to_ascii_lowercase}
use ic_facilitator.Map
use ic_facilitator.Map.{Map, get-insert, get-insert_self, get-remove, get-remove_self}
use ic_facilitator.State.{ActiveSettlement}
use ic_facilitator.Crates.{Crates}
use ic_facilitator.Config.{normalize_evm_address}

unfoldable pub acquire_active_settlement :
    Text → Text → Map ActiveSettlement → Bool × Map ActiveSettlement
acquire_active_settlement from key items = elim (Map.get from items) [
  | some active ↦ (text_eq active.key key, items)
  | none ↦ (true, Map.insert from (record { key = key; nonce = none; tx = none }) items)
]

unfoldable pub update_active_broadcast :
    Text → Text → ℕ → Text → Map ActiveSettlement → Map ActiveSettlement
update_active_broadcast from key n hash items = elim (Map.get from items) [
  | none ↦ items
  | some active ↦
      if text_eq active.key key
      then Map.insert from (record active { nonce = some n; tx = some hash }) items
      else items
]

unfoldable pub rename_active_settlement_key :
    Text → Text → Text → Map ActiveSettlement → Map ActiveSettlement
rename_active_settlement_key scope old_key new_key items = elim (Map.get scope items) [
  | none ↦ items
  | some active ↦
      if text_eq active.key old_key && not (is_some active.tx)
      then Map.insert scope (record active { key = new_key }) items
      else items
]

-- The first entry, in the order of the scopes, whose key is `key`.
unfoldable pub find_by_key : Text → Map ActiveSettlement → Option (Text × ActiveSettlement)
find_by_key key [] = none
find_by_key key ((scope, active) ∷ items) =
    if text_eq active.key key then some (scope, active) else find_by_key key items

unfoldable pub get_active_settlement_by_key : Text → Map ActiveSettlement → Option ActiveSettlement
unfolding find_by_key
get_active_settlement_by_key key items = elim (find_by_key key items) [
  | none ↦ none
  | some (_, active) ↦ some active
]

-- `find_map` over the nonces of the entries with the key: entries without a nonce are passed over.
unfoldable pub active_nonce_by_key : Text → Map ActiveSettlement → Option ℕ
active_nonce_by_key key [] = none
active_nonce_by_key key ((_, active) ∷ items) =
    let rest = active_nonce_by_key key items in
    if text_eq active.key key && is_some active.nonce then active.nonce else rest

unfoldable pub update_active_broadcast_by_key :
    Text → ℕ → Text → Map ActiveSettlement → Map ActiveSettlement
unfolding find_by_key
update_active_broadcast_by_key key nonce tx items = elim (find_by_key key items) [
  | none ↦ items
  | some (scope, _) ↦ update_active_broadcast scope key nonce tx items
]

unfoldable pub release_active_settlement : Text → Text → Map ActiveSettlement → Map ActiveSettlement
release_active_settlement from key items = elim (Map.get from items) [
  | none ↦ items
  | some active ↦ if text_eq active.key key then Map.remove from items else items
]

-- The scopes whose entry has the key, collected first and then removed one by one.
unfoldable pub scopes_of : Text → Map ActiveSettlement → List Text
scopes_of key [] = []
scopes_of key ((scope, active) ∷ items) =
    if text_eq active.key key then scope ∷ scopes_of key items else scopes_of key items

unfoldable pub remove_all : List Text → Map ActiveSettlement → Map ActiveSettlement
remove_all [] items = items
remove_all (scope ∷ scopes) items = remove_all scopes (Map.remove scope items)

unfoldable pub release_active_settlement_by_key : Text → Map ActiveSettlement → Map ActiveSettlement
unfolding scopes_of remove_all
release_active_settlement_by_key key items = remove_all (scopes_of key items) items

unfoldable pub active_settlement_scope : Crates → Text → Text → Result Text
active_settlement_scope c from seller = do
  normalized ← normalize_evm_address c (text "seller") seller
  ok (to_ascii_lowercase from ++ (text "|" ++ normalized))

-- Once a scope is acquired under a key, `acquire` refuses every other key and changes nothing;
-- the holder may acquire again.
pub acquire_excludes :
    (from key other : Text) (items : Map ActiveSettlement)
    → (acquire_active_settlement from key items).0 ≡ true
    → key ≢ other
    → let held = (acquire_active_settlement from key items).1 in
      (acquire_active_settlement from other held ≡ (false, held))
      × (acquire_active_settlement from key held ≡ (true, held))
unfolding acquire_active_settlement
acquire_excludes from key other items h ne = elim (Option-cases (Map.get from items)) [
  | inl free ↦ grind (arith, get-insert_self, text_eq_iff key other, text_eq_iff key key)
  | inr (active, e) ↦
      ground (arith, text_eq_iff active.key key, text_eq_iff active.key other, text_eq_iff key key)
]

-- A scope that is granted to a key was free or held under it, and is held under it then.
pub acquire-held :
    (from key : Text) (items : Map ActiveSettlement)
    → (acquire_active_settlement from key items).0 ≡ true
    → ((before : ActiveSettlement) → Map.get from items ≡ some before → before.key ≡ key)
      × ((held : ActiveSettlement) × (Map.get from (acquire_active_settlement from key items).1
            ≡ some held)
          × (held.key ≡ key))
unfolding acquire_active_settlement
acquire-held from key items h = elim (Option-cases (Map.get from items)) [
  | inl free ↦ (
    λ before e. absurd cc,
    (
      record { key = key; nonce = none; tx = none },
      rw (acquire_active_settlement, free, get-insert_self) refl,
      refl,
    ),
  )
  | inr (active, e) ↦
      let g = rw (acquire_active_settlement, e) at h in
      let same : active.key ≡ key = (text_eq_iff active.key key).0 g in
      (
        λ before f. (let one : active ≡ before = cc in rw (← one) same),
        (active, rw (acquire_active_settlement, e) e, same),
      )
]

-- Releasing an acquired scope under its key frees it; releasing it under another key changes
-- nothing.
pub release_frees :
    (from key other : Text) (items : Map ActiveSettlement)
    → (acquire_active_settlement from key items).0 ≡ true
    → key ≢ other
    → let held = (acquire_active_settlement from key items).1 in
      (Map.get from (release_active_settlement from key held) ≡ none)
      × (release_active_settlement from other held ≡ held)
unfolding acquire_active_settlement release_active_settlement
release_frees from key other items h ne = elim (Option-cases (Map.get from items)) [
  | inl free ↦
      grind (arith, get-insert_self, get-remove_self, text_eq_iff key other, text_eq_iff key key)
  | inr (active, e) ↦
      grind (arith, get-remove_self, text_eq_iff active.key key, text_eq_iff active.key other)
]
