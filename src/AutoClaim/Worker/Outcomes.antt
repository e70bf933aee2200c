-- ===== src/AutoClaim/Worker/Outcomes.antt =====
-- What a receipt leaves, and what starts an attempt: rust/facilitator/src/auto_claim.rs.
use ic_facilitator.Prelude.{
  ℕ, max, List, Option, ◌≡◌, refl, ap, ◌∙◌, true, none, some, arith, inl, inr, ok, Option-cases,
}
use ic_facilitator.Text.{Text, text}
use ic_facilitator.Map
use ic_facilitator.Map.{get-insert_self}
use ic_facilitator.Crates.{Message}
use ic_facilitator.State.{State, Charge, Collection, Attempt}
use ic_facilitator.Active.{release_active_settlement}
use ic_facilitator.Settlement.Store.{insert_batch_settlement, insert_settlement}
use ic_facilitator.AutoClaim.{save, reconcile, retain_above}
use ic_facilitator.AutoClaim.Claims.{IsAbove, reconcile-some, retain_above-IsAbove}
use ic_facilitator.AutoClaim.Journal.{record_attempt}
use ic_facilitator.AutoClaim.Worker.{Progress, returned}
use ic_facilitator.AutoClaim.Worker.Resume.{claim_settled, claim_failed, concluded}
use ic_facilitator.AutoClaim.Worker.Kept.{record_attempt-collections}

pub record_attempt-active_settlements :
    (m : Message) (a : Attempt) (status : Text) (s : State)
    → (record_attempt m a status s).active_settlements ≡ s.active_settlements
unfolding record_attempt insert_batch_settlement insert_settlement
record_attempt-active_settlements m a status s = ground arith

pub record_attempt-seller_credits :
    (m : Message) (a : Attempt) (status : Text) (s : State)
    → (record_attempt m a status s).seller_credits ≡ s.seller_credits
unfolding record_attempt insert_batch_settlement insert_settlement
record_attempt-seller_credits m a status s = ground arith

concluded-collections :
    (m : Message) (a : Attempt) (status : Text) (s : State)
    → (concluded m a status s).collections ≡ s.collections
unfolding concluded
concluded-collections m a status s = record_attempt-collections m a status s

concluded-active_settlements :
    (m : Message) (a : Attempt) (status : Text) (s : State)
    → (concluded m a status s).active_settlements
      ≡ release_active_settlement a.scope a.key s.active_settlements
unfolding concluded
concluded-active_settlements m a status s =
    ap (release_active_settlement a.scope a.key) (record_attempt-active_settlements m a status s)

concluded-seller_credits :
    (m : Message) (a : Attempt) (status : Text) (s : State)
    → (concluded m a status s).seller_credits ≡ s.seller_credits
unfolding concluded
concluded-seller_credits m a status s = record_attempt-seller_credits m a status s

save-found :
    (id : Text) (c : Collection) (s : State) → Map.get id (save id c s).collections ≡ some c
unfolding save
save-found id c s = get-insert_self id c s.collections

pub save-active_settlements :
    (id : Text) (c : Collection) (s : State)
    → (save id c s).active_settlements ≡ s.active_settlements
unfolding save
save-active_settlements id c s = refl

pub save-seller_credits :
    (id : Text) (c : Collection) (s : State) → (save id c s).seller_credits ≡ s.seller_credits
unfolding save
save-seller_credits id c s = refl

-- The collection once `target` is claimed: the larger of the two claims, the charges above it, and
-- no attempt. The rest is as it was.
abbrev pub IsClaimed : ℕ → Collection → Option Collection → Type 0
IsClaimed target c after =
    (kept : List Charge) × IsAbove (max c.claimed target) c.charges kept
    × (after
        ≡ some (record c {
          claimed = max c.claimed target;
          charges = kept;
          oldest_legacy = none;
          attempt = none;
        }))

-- A receipt of success ends the attempt: the lock is released under its key, the fee is kept, and
-- the collection has no attempt, has claimed what it had or the attempt's target, the larger of the
-- two, and keeps of its charges those above that and no others; its other fields stay, but that no
-- time of older charges is kept.
pub claim_settled-ends :
    (m : Message) (id : Text) (a : Attempt) (s : State) (c : Collection) (out : Progress × State)
    → Map.get id s.collections ≡ some c
    → claim_settled m id a s ≡ some out
    → (out.0 ≡ returned (ok tt))
      × IsClaimed a.target c (Map.get id out.1.collections)
      × (out.1.active_settlements ≡ release_active_settlement a.scope a.key s.active_settlements)
      × (out.1.seller_credits ≡ s.seller_credits)
unfolding claim_settled
claim_settled-ends m id a s c out found e =
    let s' = concluded m a (text "settled") s in
    let still : Map.get id s'.collections ≡ some c =
      rw (concluded-collections m a (text "settled") s) found in
    elim (Option-cases (reconcile a.target c)) [
      | inl trapped ↦ absurd (let f = rw (claim_settled, still, trapped) at e in cc)
      | inr (c', claimed) ↦
          let f = rw (claim_settled, still, claimed) at e in
          let c'' = record c' { oldest_legacy = none; attempt = none } in
          let same : (returned (ok tt), save id c'' s') ≡ out = ground arith in
          let (charged, _, is_) = reconcile-some a.target c c' claimed in
          let kept = retain_above (max c.claimed a.target) c.charges in
          let shape : some c''
              ≡ some (record c {
                claimed = max c.claimed a.target;
                charges = kept;
                oldest_legacy = none;
                attempt = none;
              }) =
            rw is_ refl in
          (
            rw (← same) refl,
            (
              kept,
              retain_above-IsAbove (max c.claimed a.target) c.charges,
              rw (← same) (save-found id c'' s') ∙ shape,
            ),
            rw (← same) (
                save-active_settlements id c'' s'
                ∙ concluded-active_settlements m a (text "settled") s),
            rw (← same)
                (save-seller_credits id c'' s' ∙ concluded-seller_credits m a (text "settled") s),
          )
    ]

-- A receipt of failure ends the attempt as well: the lock is released under its key, the fee is
-- kept, and the collection has no attempt and is halted.
pub claim_failed-ends :
    (m : Message) (id : Text) (a : Attempt) (s : State) (c : Collection) (out : Progress × State)
    → Map.get id s.collections ≡ some c
    → claim_failed m id a s ≡ some out
    → (out.0 ≡ returned (ok tt))
      × (Map.get id out.1.collections
          ≡ some (record c {
            attempt = none;
            force = true;
            halted = true;
            error = some (text "claim_reverted_manual_retry_required");
          }))
      × (out.1.active_settlements ≡ release_active_settlement a.scope a.key s.active_settlements)
      × (out.1.seller_credits ≡ s.seller_credits)
unfolding claim_failed
claim_failed-ends m id a s c out found e =
    let s' = concluded m a (text "failed") s in
    let still : Map.get id s'.collections ≡ some c =
      rw (concluded-collections m a (text "failed") s) found in
    let f = rw (claim_failed, still) at e in
    let c'' = record c {
      attempt = none;
      force = true;
      halted = true;
      error = some (text "claim_reverted_manual_retry_required");
    } in
    let same : (returned (ok tt), save id c'' s') ≡ out = ground arith in
    (
      rw (← same) refl,
      rw (← same) (save-found id c'' s'),
      rw (← same)
          (save-active_settlements id c'' s' ∙ concluded-active_settlements m a (text "failed") s),
      rw (← same) (save-seller_credits id c'' s' ∙ concluded-seller_credits m a (text "failed") s),
    )
