-- ===== src/AutoClaim/Reservations.antt =====
-- What an accepted reservation has passed: rust/facilitator/src/auto_claim.rs, `before_update`.
use ic_facilitator.Prelude.{
  ℕ, ◌≤◌, ◌+◌, ◌⊎◌, ◌<◌, ◌≡◌, ◌∙◌, refl, true, false, Option, none, some, arith, ap, inl, inr,
  length, ok, err, Option-cases, Bool-cases, Result-cases,
}
use ic_facilitator.Text.{Text, text, text_eq, text_eq_iff, to_ascii_lowercase}
use ic_facilitator.Map
use ic_facilitator.Map.{get-insert_self}
use ic_facilitator.Crates.{Message}
use ic_facilitator.State.{State, BatchChannel, Collection}
use ic_facilitator.Config.{now_seconds}
use ic_facilitator.Credit.{seller_credit_balance_for}
use ic_facilitator.Fees.Schedule.{claim_fee}
use ic_facilitator.AutoClaim.{
  enabled, save, stop_reason, stale_at, other_than_busy, validate_signer,
}
use ic_facilitator.AutoClaim.Hooks.{
  before_update, refused, reserve_pending, registered, monitored, creates_pending, pending_of,
}

-- No reason to stop: the seller's policy is on, no withdrawal is under way, the channel was read
-- less than 120 seconds ago, fewer than 200 charges are outstanding, the credit covers the fee of a
-- claim, and there is no error but that the lock was busy.
abbrev pub Accepting : Message → State → Collection → Type 0
Accepting m s c =
    (Map.get (to_ascii_lowercase c.seed.channel_config.receiver) s.policies ≡ some 1)
    × (c.withdrawal_at ≡ 0)
    × ((at : ℕ) × (c.monitored_at ≡ some at) × (now_seconds m < at + 120))
    × (length c.charges < 200)
    × ((fee : ℕ) × (claim_fee m s.env ≡ ok fee)
        × (fee ≤ seller_credit_balance_for c.seed.channel_config.receiver s.seller_credits))
    × ((c.error ≡ none) ⊎ (c.error ≡ some (text "settlement_queue_busy")))

enabled-policy :
    (receiver : Text) (s : State)
    → enabled receiver s ≡ true
    → Map.get (to_ascii_lowercase receiver) s.policies ≡ some 1
unfolding enabled
enabled-policy receiver s on =
    elim (Option-cases (Map.get (to_ascii_lowercase receiver) s.policies)) [
      | inl missing ↦ absurd (let f = rw (enabled, missing) at on in cc)
      | inr (policy, found) ↦
          let f = rw (enabled, found) at on in
          let one : policy ≡ 1 = ground arith in found ∙ ap some one
    ]

stale_at-false :
    (now : ℕ) (monitored_at : Option ℕ)
    → stale_at now monitored_at ≡ false
    → (at : ℕ) × (monitored_at ≡ some at) × (now < at + 120)
stale_at-false now none e = cc
stale_at-false now (some at) e = (at, refl, ground arith)

other_than_busy-none :
    (error : Option Text)
    → other_than_busy error ≡ none
    → (error ≡ none) ⊎ (error ≡ some (text "settlement_queue_busy"))
other_than_busy-none none e = inl refl
other_than_busy-none (some reason) e =
    elim (Bool-cases (text_eq reason (text "settlement_queue_busy"))) [
      | inl busy ↦ inr (ap some ((text_eq_iff reason (text "settlement_queue_busy")).0 busy))
      | inr other ↦ absurd (let f = rw other at e in cc)
    ]

stop_reason-Accepting :
    (m : Message) (s : State) (c : Collection)
    → stop_reason m s c (now_seconds m) ≡ none
    → Accepting m s c
unfolding stop_reason
stop_reason-Accepting m s c e = elim (Result-cases (claim_fee m s.env)) [
  | inr (message, failed) ↦ absurd (ground arith)
  | inl (fee, found) ↦
      let on : enabled c.seed.channel_config.receiver s ≡ true = ground arith in
      let fresh : stale_at (now_seconds m) c.monitored_at ≡ false = ground arith in
      let quiet : other_than_busy c.error ≡ none = ground arith in
      (
        enabled-policy c.seed.channel_config.receiver s on,
        ground arith,
        stale_at-false (now_seconds m) c.monitored_at fresh,
        ground arith,
        (fee, found, ground arith),
        other_than_busy-none c.error quiet,
      )
]

refused-none : (reason : Option Text) → refused reason ≡ ok tt → reason ≡ none
refused-none none e = refl
refused-none (some reason) e = cc

-- A collection without a reason to stop is stored for the channel.
abbrev pub Unstopped : Message → Text → State → Type 0
Unstopped m id s = (c : Collection) × (Map.get id s.collections ≡ some c) × Accepting m s c

monitored-Unstopped :
    (m : Message) (id : Text) (c : Collection) (s after : State)
    → Map.get id s.collections ≡ some c
    → monitored m id c s ≡ (ok tt, after)
    → Unstopped m id after
unfolding monitored save
monitored-Unstopped m id c s after found e =
    elim (Bool-cases (stale_at (now_seconds m) c.monitored_at)) [
      | inl stale ↦
          let f = rw (monitored, stale) at e in
          let c' = record c { monitored_at = none; next_due = now_seconds m } in
          let saved : save id c' s ≡ after = ap (λ x. x.1) f in
          let open_ : stop_reason m (save id c' s) c' (now_seconds m) ≡ none =
            refused-none _ (ap (λ x. x.0) f) in
          (
            c',
            rw (← saved) (get-insert_self id c' s.collections),
            rw (← saved) (stop_reason-Accepting m (save id c' s) c' open_),
          )
      | inr fresh ↦
          let f = rw (monitored, fresh) at e in
          let same : s ≡ after = ap (λ x. x.1) f in
          let open_ : stop_reason m s c (now_seconds m) ≡ none = refused-none _ (ap (λ x. x.0) f) in
          (c, rw (← same) found, rw (← same) (stop_reason-Accepting m s c open_))
    ]

reserve_pending-Unstopped :
    (m : Message) (next : BatchChannel) (s after : State)
    → reserve_pending m next s ≡ some (ok tt, after)
    → Unstopped m next.channel_id after
unfolding reserve_pending
reserve_pending-Unstopped m next s after e =
    elim (Option-cases (registered m next.channel_id next s)) [
      | inl trapped ↦ absurd (let f = rw (reserve_pending, trapped) at e in cc)
      | inr ((err _, s'), done) ↦ absurd (let f = rw (reserve_pending, done) at e in cc)
      | inr ((ok _, s'), done) ↦
          let f = rw (reserve_pending, done) at e in
          elim (Option-cases (Map.get next.channel_id s'.collections)) [
            | inl missing ↦ absurd (let g = rw missing at f in cc)
            | inr (c, found) ↦
                let g = rw found at f in
                monitored-Unstopped m next.channel_id c s' after found (ground arith)
          ]
    ]

-- For a receiver whose policy is on, a new payment is accepted only with a collection stored that
-- has no reason to stop: its policy is on, no withdrawal is under way, the channel was read, less
-- than 120 seconds ago, fewer than 200 charges are outstanding, the seller's credit covers the fee
-- of a claim, and the collection has no error but that the lock was busy.
pub before_update-Unstopped :
    (m : Message) (current : Option BatchChannel) (next : BatchChannel) (s after : State)
    → enabled next.channel_config.receiver s ≡ true
    → creates_pending (pending_of current) next.pending_request ≡ true
    → before_update m current next s ≡ some (ok tt, after)
    → Unstopped m next.channel_id after
unfolding before_update
before_update-Unstopped m current next s after on new e =
    let f = rw (before_update, on, new) at e in
    elim (Result-cases (validate_signer m s.env next)) [
      | inr (message, failed) ↦ absurd (let g = rw failed at f in cc)
      | inl (done, signed) ↦ reserve_pending-Unstopped m next s after (rw signed at f)
    ]
