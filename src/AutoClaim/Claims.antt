-- ===== src/AutoClaim/Claims.antt =====
-- What the collection's bookkeeping guarantees: rust/facilitator/src/auto_claim.rs.
use ic_facilitator.Prelude.{
  ℕ, ◌+◌, max, min, ◌≤◌, ◌<◌, ◌≡◌, ◌≢◌, refl, true, Option, none, some, List, [], ◌∷◌, arith, inl,
  inr, ok, ap, ◌∙◌, All, Any, Option-cases, Bool-cases, ltb,
}
use ic_facilitator.Text.{Text}
use ic_facilitator.Map
use ic_facilitator.Map.{
  Map, get-insert, get-insert_self, get-insert_other, get-remove, get-remove_self,
}
use ic_facilitator.Crates.{Message}
use ic_facilitator.State.{State, Charge, Collection, Attempt, NonceState}
use ic_facilitator.Config.{normalize_evm_address, sat_u64, sat_u128}
use ic_facilitator.Text.{text}
use ic_facilitator.Credit.{
  seller_credit_balance_for, refund_seller_credit, refund_seller_credit_adds,
}
use ic_facilitator.Active.{release_active_settlement}
use ic_facilitator.Settlement.Store.{remove_settlement}
use ic_facilitator.AutoClaim.{
  retain_above, reconcile, amount, claimed_up_to, save, due_key, timer_deadline,
}
use ic_facilitator.AutoClaim.Journal.{abandon_prepared, given_up, rolled_back}
use ic_facilitator.Nonce.{get_nonce_state, IsGivenBack, rollback_reserved_nonce-IsGivenBack}

retain_above_twice :
    (a b : ℕ) (charges : List Charge)
    → retain_above b (retain_above a charges) ≡ retain_above (max a b) charges
unfolding retain_above
retain_above_twice a b [] = refl
retain_above_twice a b (c ∷ charges) = ground (arith, retain_above_twice a b charges)

claimed_up_to_twice :
    (charged a b : ℕ) (c : Collection)
    → claimed_up_to charged (max a b) (claimed_up_to charged a c)
      ≡ claimed_up_to charged (max a b) c
claimed_up_to_twice charged a b c = ground (arith, retain_above_twice a (max a b) c.charges)

pub reconcile-some :
    (a : ℕ) (c after : Collection)
    → reconcile a c ≡ some after
    → (charged : ℕ) × (amount c.seed.charged_cumulative_amount ≡ some charged)
      × (after ≡ claimed_up_to charged (max c.claimed a) c)
unfolding reconcile
reconcile-some a c after e = elim (Option-cases (amount c.seed.charged_cumulative_amount)) [
  | inl missing ↦ absurd (let f = rw (reconcile, missing) at e in cc)
  | inr (charged, found) ↦ (charged, found, (let f = rw (reconcile, found) at e in ground arith))
]

-- Two answers of the monitor come to one with the larger claim: neither their order nor a repeated
-- answer matters.
pub reconcile_twice :
    (a b : ℕ) (c after : Collection)
    → reconcile a c ≡ some after
    → reconcile b after ≡ reconcile (max a b) c
unfolding reconcile
reconcile_twice a b c after e =
    let (charged, found, same) = reconcile-some a c after e in
    let assoc : max (max c.claimed a) b ≡ max c.claimed (max a b) = omega arith in
    ap (reconcile b) same
    ∙ rw (reconcile, found)
        (ap some (
          claimed_up_to_twice charged (max c.claimed a) b c
          ∙ ap (λ n. claimed_up_to charged n c) assoc))

retain_above-All :
    (a : ℕ) (charges : List Charge) → All (λ charge. a < charge.amount) (retain_above a charges)
unfolding retain_above
retain_above-All a [] = tt
retain_above-All a (c ∷ charges) = ground (arith, retain_above-All a charges)

-- Of the charges, those above `claimed`, and no others.
abbrev pub IsAbove : ℕ → List Charge → List Charge → Type 0
IsAbove claimed charges kept =
    All (λ charge. claimed < charge.amount) kept
    × ((charge : Charge) → Any (λ x. x ≡ charge) kept → Any (λ x. x ≡ charge) charges)
    × ((charge : Charge)
        → claimed < charge.amount
        → Any (λ x. x ≡ charge) charges
        → Any (λ x. x ≡ charge) kept)

retain_above-Any :
    (a : ℕ) (charges : List Charge) (charge : Charge)
    → Any (λ x. x ≡ charge) (retain_above a charges)
    → Any (λ x. x ≡ charge) charges
unfolding retain_above
retain_above-Any a [] charge h = h
retain_above-Any a (c ∷ charges) charge h = elim (Bool-cases (ltb a c.amount)) [
  | inl above ↦ elim (rw (retain_above, above) at h) [
    | inl here ↦ inl here
    | inr later ↦ inr (retain_above-Any a charges charge later)
  ]
  | inr below ↦ inr (retain_above-Any a charges charge (rw (retain_above, below) at h))
]

retain_above-keeps :
    (a : ℕ) (charges : List Charge) (charge : Charge)
    → a < charge.amount
    → Any (λ x. x ≡ charge) charges
    → Any (λ x. x ≡ charge) (retain_above a charges)
unfolding retain_above
retain_above-keeps a [] charge above h = h
retain_above-keeps a (c ∷ charges) charge above (inl here) =
    let one : ltb a c.amount ≡ true = rw here (ground arith) in rw (retain_above, one) (inl here)
retain_above-keeps a (c ∷ charges) charge above (inr later) =
    let rest = retain_above-keeps a charges charge above later in
    elim (Bool-cases (ltb a c.amount)) [
      | inl kept ↦ rw (retain_above, kept) (inr rest)
      | inr gone ↦ rw (retain_above, gone) rest
    ]

pub retain_above-IsAbove :
    (a : ℕ) (charges : List Charge) → IsAbove a charges (retain_above a charges)
retain_above-IsAbove a charges =
    (retain_above-All a charges, retain_above-Any a charges, retain_above-keeps a charges)

-- What an answer leaves outstanding was charged above what is then claimed, the larger of the old
-- claim and the answer.
pub reconcile-outstanding :
    (a : ℕ) (c after : Collection)
    → reconcile a c ≡ some after
    → (after.claimed ≡ max c.claimed a)
      × All (λ charge. after.claimed < charge.amount) after.charges
reconcile-outstanding a c after e =
    let (charged, found, same) = reconcile-some a c after e in
    rw same (refl, retain_above-All (max c.claimed a) c.charges)

-- A collection that is saved with a new due time is found and due at that time, and the entry of
-- its earlier due time is gone.
pub save_due :
    (id : Text) (old value : Collection) (s : State)
    → Map.get id s.collections ≡ some old
    → due_key value.next_due id ≢ due_key old.next_due id
    → (Map.get id (save id value s).collections ≡ some value)
      × (Map.get (due_key value.next_due id) (save id value s).due ≡ some 0)
      × (Map.get (due_key old.next_due id) (save id value s).due ≡ none)
unfolding save
save_due id old value s found ne = (
  get-insert_self id value s.collections,
  get-insert_self (due_key value.next_due id) 0 _,
  rw (get-insert_other, found, get-remove_self),
)

-- A new deadline is not after the armed one, and not before the earlier of the armed one and a
-- second from now.
pub timer_deadline-le :
    (armed next now deadline : ℕ)
    → timer_deadline (some armed) (some next) now ≡ some deadline
    → (deadline ≤ armed) × (min armed (sat_u64 (now + 1_000_000_000)) ≤ deadline)
unfolding timer_deadline
timer_deadline-le armed next now deadline e = ground arith

pub given_up-collections :
    (m : Message) (a : Attempt) (s : State) → (given_up m a s).collections ≡ s.collections
unfolding given_up remove_settlement
given_up-collections m a s = ground arith

given_up-active_settlements :
    (m : Message) (a : Attempt) (s : State)
    → (given_up m a s).active_settlements
      ≡ release_active_settlement a.scope a.key s.active_settlements
unfolding given_up remove_settlement
given_up-active_settlements m a s = ground arith

given_up-seller_credits :
    (m : Message) (a : Attempt) (s : State)
    → (given_up m a s).seller_credits
      ≡ refund_seller_credit m a.channel.channel_config.receiver a.fee s.seller_credits
unfolding given_up remove_settlement
given_up-seller_credits m a s = ground arith

given_up-settlements :
    (m : Message) (a : Attempt) (s : State) → Map.get a.key (given_up m a s).settlements ≡ none
unfolding given_up remove_settlement
given_up-settlements m a s = grind (arith, get-remove_self)

pub abandon_prepared-some :
    (m : Message) (id : Text) (a : Attempt) (s after : State) (c : Collection)
    → Map.get id s.collections ≡ some c
    → abandon_prepared m id a s ≡ some after
    → after ≡ save id (record c { attempt = none; force = true }) (given_up m a s)
unfolding abandon_prepared
abandon_prepared-some m id a s after c found e = elim (Option-cases a.raw) [
  | inr (raw, stored) ↦ absurd (let f = rw (abandon_prepared, stored) at e in cc)
  | inl unsent ↦
      let f = rw (abandon_prepared, unsent, given_up-collections, found) at e in ground arith
]

-- The next nonce of the sender: without a nonce it stays, else the nonce is given back.
abbrev pub IsReturned : Option ℕ → Option ℕ → Option ℕ → Type 0
IsReturned none before after = after ≡ before
IsReturned (some nonce) before after = IsGivenBack nonce before after

rolled_back-IsReturned :
    (from : Text) (nonce : Option ℕ) (nonces : Map NonceState)
    → IsReturned nonce
        (get_nonce_state from nonces).next_nonce
        (get_nonce_state from (rolled_back from nonce nonces)).next_nonce
rolled_back-IsReturned from none nonces = refl
rolled_back-IsReturned from (some nonce) nonces =
    rollback_reserved_nonce-IsGivenBack from nonce nonces

given_up-nonces :
    (m : Message) (a : Attempt) (s : State)
    → (given_up m a s).nonces ≡ rolled_back a.from a.nonce s.nonces
unfolding given_up remove_settlement
given_up-nonces m a s = ground arith

-- An attempt that is given up, for a receiver whose address is valid, leaves its settlement
-- forgotten, its lock released, the collection without an attempt, the seller with the fee back, up
-- to the largest `u128`, and the sender with its nonce back: that is the next one again if it was
-- the latest reserved; otherwise, or without a nonce, the next one stays.
pub abandon_prepared_gives_back :
    (m : Message) (id seller : Text) (a : Attempt) (s after : State) (c : Collection)
    → Map.get id s.collections ≡ some c
    → normalize_evm_address m.crates (text "seller") a.channel.channel_config.receiver ≡ ok seller
    → abandon_prepared m id a s ≡ some after
    → (Map.get a.key after.settlements ≡ none)
      × (after.active_settlements ≡ release_active_settlement a.scope a.key s.active_settlements)
      × (seller_credit_balance_for seller after.seller_credits
          ≡ sat_u128 (seller_credit_balance_for seller s.seller_credits + a.fee))
      × (Map.get id after.collections ≡ some (record c { attempt = none; force = true }))
      × IsReturned a.nonce
          (get_nonce_state a.from s.nonces).next_nonce
          (get_nonce_state a.from after.nonces).next_nonce
unfolding save
abandon_prepared_gives_back m id seller a s after c found valid e =
    let same = abandon_prepared-some m id a s after c found e in
    (
      rw same (given_up-settlements m a s),
      rw same (given_up-active_settlements m a s),
      rw (same, given_up-seller_credits)
          (refund_seller_credit_adds m a.channel.channel_config.receiver seller a.fee
            s.seller_credits valid),
      rw (same, get-insert_self),
      rw (same, given_up-nonces) (rolled_back-IsReturned a.from a.nonce s.nonces),
    )
