-- ===== src/Nonce.antt =====
-- rust/facilitator/src/lib.rs: the nonces that the facilitator's own transactions take.
use ic_facilitator.Prelude.{
  ℕ, ◌+◌, ◌-◌, ◌^◌, ◌≤◌, ◌<◌, ◌≡◌, ◌≢◌, ◌⊎◌, refl, ap, Bool, true, false, Bool-cases, inl, inr,
  Option, none, some, arith, ◌==◌, if◌then◌else◌, max, unwrap_or,
}
use ic_facilitator.Text.{Text, text_eq_iff}
use ic_facilitator.Map
use ic_facilitator.Map.{Map, get-insert, get-insert_self, map_laws}
use ic_facilitator.State.{NonceState}
use ic_facilitator.Config.{sat_u128}

unfoldable pub get_nonce_state : Text → Map NonceState → NonceState
get_nonce_state from nonces = unwrap_or (Map.get from nonces) (record { next_nonce = none })

abbrev pub next_or : Option ℕ → ℕ → ℕ
next_or none pending = pending
next_or (some next) pending = max next pending

-- Returns the nonce and the new map.
unfoldable pub reserve_nonce : Text → ℕ → Map NonceState → ℕ × Map NonceState
unfolding get_nonce_state
reserve_nonce from rpc_pending_nonce nonces =
    let nonce = next_or (get_nonce_state from nonces).next_nonce rpc_pending_nonce in
    (nonce, Map.insert from (record { next_nonce = some (sat_u128 (nonce + 1)) }) nonces)

-- `state.next_nonce == Some(n)`
abbrev pub is_next : Option ℕ → ℕ → Bool
is_next none n = false
is_next (some k) n = k == n

unfoldable pub rollback_reserved_nonce : Text → ℕ → Map NonceState → Map NonceState
unfolding get_nonce_state
rollback_reserved_nonce from nonce nonces =
    if is_next (get_nonce_state from nonces).next_nonce (sat_u128 (nonce + 1))
    then Map.insert from (record { next_nonce = some nonce }) nonces
    else nonces

-- What is reserved is at least what the chain expects; and a second reservation, whatever the chain
-- answers then, gets a larger nonce, unless the first one is the last number of a `u128`.
pub reserve_nonce_fresh :
    (from : Text) (pending later : ℕ) (nonces : Map NonceState)
    → (reserve_nonce from pending nonces).0 < 2 ^ 128 - 1
    → (pending ≤ (reserve_nonce from pending nonces).0)
      × ((reserve_nonce from pending nonces).0
          < (reserve_nonce from later (reserve_nonce from pending nonces).1).0)
unfolding reserve_nonce
reserve_nonce_fresh from pending later nonces h = grind (arith, get-insert_self)

-- A reservation that is taken back at once gives its nonce out again, to a chain that expects no
-- more.
pub rollback-reserve_nonce :
    (from : Text) (pending later : ℕ) (nonces : Map NonceState)
    → later ≤ (reserve_nonce from pending nonces).0
    → let (n, after) = reserve_nonce from pending nonces in
      (reserve_nonce from later (rollback_reserved_nonce from n after)).0 ≡ n
unfolding reserve_nonce rollback_reserved_nonce
rollback-reserve_nonce from pending later nonces k = grind (arith, get-insert_self)

-- The next nonce of a sender once `nonce` is given back: it is that one if it was the latest to be
-- reserved, and stays otherwise.
abbrev pub IsGivenBack : ℕ → Option ℕ → Option ℕ → Type 0
IsGivenBack nonce before after =
    ((before ≡ some (sat_u128 (nonce + 1))) × (after ≡ some nonce))
    ⊎ ((before ≢ some (sat_u128 (nonce + 1))) × (after ≡ before))

is_next-eq : (before : Option ℕ) (k : ℕ) → is_next before k ≡ true → before ≡ some k
is_next-eq none k h = cc
is_next-eq (some n) k h = let one : n ≡ k = ground arith in ap some one

pub rollback_reserved_nonce-IsGivenBack :
    (from : Text) (nonce : ℕ) (nonces : Map NonceState)
    → IsGivenBack nonce
        (get_nonce_state from nonces).next_nonce
        (get_nonce_state from (rollback_reserved_nonce from nonce nonces)).next_nonce
unfolding rollback_reserved_nonce
rollback_reserved_nonce-IsGivenBack from nonce nonces =
    elim (Bool-cases (is_next (get_nonce_state from nonces).next_nonce (sat_u128 (nonce + 1)))) [
      | inl latest ↦ inl (is_next-eq _ _ latest, rw latest (grind (arith, get-insert_self)))
      | inr older ↦ inr (λ e. (let f = rw e at older in ground arith), rw older refl)
    ]

-- Taking back a reservation after which another was made changes nothing: the later one stands.
pub rollback_later :
    (from : Text) (pending later : ℕ) (nonces : Map NonceState)
    → (reserve_nonce from later (reserve_nonce from pending nonces).1).0 < 2 ^ 128 - 1
    → let (n, after) = reserve_nonce from pending nonces in
      rollback_reserved_nonce from n (reserve_nonce from later after).1
      ≡ (reserve_nonce from later after).1
unfolding reserve_nonce rollback_reserved_nonce
rollback_later from pending later nonces h = grind (arith, get-insert_self)

-- Other senders keep their nonces.
pub nonces_apart :
    (from other : Text) (pending nonce : ℕ) (nonces : Map NonceState)
    → from ≢ other
    → (get_nonce_state other (reserve_nonce from pending nonces).1 ≡ get_nonce_state other nonces)
      × (get_nonce_state other (rollback_reserved_nonce from nonce nonces)
          ≡ get_nonce_state other nonces)
unfolding reserve_nonce rollback_reserved_nonce
nonces_apart from other pending nonce nonces h = grind (arith, get-insert, text_eq_iff from other)
