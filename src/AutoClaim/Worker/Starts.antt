-- ===== src/AutoClaim/Worker/Starts.antt =====
-- When a new attempt is stored, and what it takes:
-- rust/facilitator/src/auto_claim.rs.
use ic_facilitator.Prelude.{
  ◌+◌, ◌<◌, ◌≤◌, ◌⊎◌, length, ◌≡◌, refl, ap, ◌∙◌, sym, true, false, none, some, arith, inl, inr, ok,
  Option-cases, Result-cases, Bool-cases, leb,
}
use ic_facilitator.Text.{Text, text}
use ic_facilitator.Map
use ic_facilitator.Crates.{Message}
use ic_facilitator.State.{State, ActiveSettlement, BatchChannel, Collection, Attempt}
use ic_facilitator.Config.{RpcConfig, normalize_evm_address}
use ic_facilitator.Active.{acquire-held}
use ic_facilitator.Credit.{seller_credit_balance_for, reserve_seller_credit-pays}
use ic_facilitator.Batch.Store.{get_batch_channel}
use ic_facilitator.AutoClaim.{save, amount}
use ic_facilitator.AutoClaim.Worker.{Progress, ChannelState, attempt_of}
use ic_facilitator.AutoClaim.Worker.Start.{planned}
use ic_facilitator.AutoClaim.Worker.Monitor.{
  observed, after_reading, channel_answered, claim_if_due, all_claimed, orphaned, not_yet_due,
}
use ic_facilitator.AutoClaim.Worker.Kept.{attempt_of-save}
use ic_facilitator.AutoClaim.Worker.Plans.{planned-Plan, Plan}
use ic_facilitator.Map.{Map}
use ic_facilitator.AutoClaim.Worker.Runs.{orphaned-attempt_of, all_claimed-attempt_of}
use ic_facilitator.AutoClaim.Worker.Readings.{IsObserved, observed-IsObserved, observed-attempt}
use ic_facilitator.AutoClaim.Worker.Attempts.{IsPaid, start_attempt-IsPaid}

-- The lock was free or held under the attempt's key, and is held under it then; the seller has paid
-- the fee.
abbrev pub IsTaken : Message → Attempt → State → State → Type 0
IsTaken m a s after =
    ((before : ActiveSettlement)
      → Map.get a.scope s.active_settlements ≡ some before
      → before.key ≡ a.key)
    × ((held : ActiveSettlement) × (Map.get a.scope after.active_settlements ≡ some held)
        × (held.key ≡ a.key))
    × ((seller : Text) × (normalize_evm_address m.crates (text "seller")
            a.channel.channel_config.receiver
          ≡ ok seller)
        × (seller_credit_balance_for seller after.seller_credits + a.fee
            ≡ seller_credit_balance_for seller s.seller_credits))

IsPaid-IsTaken :
    (m : Message) (a : Attempt) (s after : State) → IsPaid m a s after → IsTaken m a s after
IsPaid-IsTaken m a s after (got, locks, reserved) =
    let (alone, holds) = acquire-held a.scope a.key s.active_settlements got in
    (
      alone,
      rw locks holds,
      reserve_seller_credit-pays m a.channel.channel_config.receiver a.fee s.seller_credits
          after.seller_credits reserved,
    )

-- What a new attempt rests on: the stored channel, all of whose charges it claims; more is charged
-- than claimed; the collection is not halted, and it is forced or has 100 charges; the checks of a
-- plan; the lock and the fee.
abbrev pub IsStarted : Message → Text → Text → Collection → State → State → Attempt → Type 0
IsStarted m id contract c s after a =
    (channel : BatchChannel) × (get_batch_channel id s.batch_channels ≡ some channel)
    × (amount channel.charged_cumulative_amount ≡ some a.target)
    × (c.claimed < a.target)
    × (c.halted ≡ false)
    × ((c.force ≡ true) ⊎ (100 ≤ length c.charges))
    × Plan m id contract c channel a.target s a
    × IsTaken m a s after

not_yet_due-false :
    (c : Collection)
    → not_yet_due c ≡ false
    → (c.halted ≡ false) × ((c.force ≡ true) ⊎ (100 ≤ length c.charges))
unfolding not_yet_due
not_yet_due-false c e = elim (Bool-cases c.force) [
  | inl forced ↦ (ground arith, inl forced)
  | inr calm ↦ (ground arith, inr (ground arith))
]

claim_if_due-IsStarted :
    (m : Message) (config : RpcConfig) (contract id : Text) (c : Collection)
    (channel : BatchChannel) (s : State) (out : Progress × State) (b : Attempt)
    → get_batch_channel id s.batch_channels ≡ some channel
    → attempt_of id s ≡ none
    → c.attempt ≡ none
    → claim_if_due m config contract id c channel s ≡ some out
    → attempt_of id out.1 ≡ some b
    → IsStarted m id contract c s out.1 b
unfolding claim_if_due
claim_if_due-IsStarted m config contract id c channel s out b stored free none_ e had =
    elim (Option-cases (amount channel.charged_cumulative_amount)) [
      | inl bad ↦ absurd (let f = rw (claim_if_due, bad) at e in cc)
      | inr (target, parsed) ↦ elim (Bool-cases (leb target c.claimed)) [
        | inl done ↦ absurd (
            let f = rw (claim_if_due, parsed, done) at e in
            let same : all_claimed m id c channel s ≡ out.1 = ground arith in
            let gone : attempt_of id out.1 ≡ none =
              rw (← same) (all_claimed-attempt_of m id c channel s none_) in
            cc)
        | inr more ↦ elim (Bool-cases (not_yet_due c)) [
          | inl early ↦ absurd (
              let f = rw (claim_if_due, parsed, more, early) at e in
              let same : s ≡ out.1 = ground arith in
              let gone : attempt_of id out.1 ≡ none = rw (← same) free in cc)
          | inr due ↦ elim (Result-cases (planned m id contract c channel target s)) [
            | inr (message, refused) ↦ absurd (
                let f = rw (claim_if_due, parsed, more, due, refused) at e in
                let same : s ≡ out.1 = ground arith in
                let gone : attempt_of id out.1 ≡ none = rw (← same) free in cc)
            | inl (a, plan) ↦
                let f = rw (claim_if_due, parsed, more, due, plan) at e in
                let (one, paid) = start_attempt-IsPaid m config id c a b s out free f had in
                let checked = planned-Plan m id contract c channel target s a plan in
                let aimed : a.target ≡ target = checked.2 in
                let (unsent_, of_channel, _, covered, valid, accepted, priced, scoped) = checked in
                rw one (
                  channel,
                  stored,
                  parsed ∙ ap some (sym aimed),
                  ground arith,
                  (not_yet_due-false c due).0,
                  (not_yet_due-false c due).1,
                  (unsent_, of_channel, refl, ground arith, valid, accepted, priced, scoped),
                  IsPaid-IsTaken m a s out.1 paid,
                )
          ]
        ]
      ]
    ]

after_reading-IsStarted :
    (m : Message) (config : RpcConfig) (contract id : Text) (c : Collection) (s : State)
    (out : Progress × State) (a : Attempt)
    → c.attempt ≡ none
    → after_reading m config contract id c (save id c s) ≡ some out
    → attempt_of id out.1 ≡ some a
    → IsStarted m id contract c s out.1 a
unfolding after_reading save
after_reading-IsStarted m config contract id c s out a free e had =
    let none_ : attempt_of id (save id c s) ≡ none = attempt_of-save id c s ∙ free in
    elim (Option-cases (get_batch_channel id s.batch_channels)) [
      | inl deleted ↦ absurd (
          let f = rw (after_reading, free, deleted) at e in
          let same : orphaned m id c (save id c s) ≡ out.1 = ground arith in
          let gone : attempt_of id out.1 ≡ none =
            rw (← same) (orphaned-attempt_of m id c (save id c s) none_) in
          cc)
      | inr (channel, stored) ↦
          let f = rw (after_reading, free, stored) at e in
          claim_if_due-IsStarted m config contract id c channel (save id c s) out a stored none_
            free f had
    ]

-- A reading of the channel that leaves an attempt where there was none read a balance that covers
-- it. The attempt claims all that is charged on the stored channel, which is more than the collection
-- had claimed and more than was read as claimed; the collection is not halted, and is forced, as it
-- was or by the withdrawal that was read, or has 100 charges left; the channel is valid, the seller's
-- acceptance is current; and the attempt's fee, that of a claim, is taken from the seller's credit,
-- and its lock, which no other key held, is held under its key.
pub channel_answered-starts :
    (m : Message) (config : RpcConfig) (contract id : Text) (state : ChannelState) (s : State)
    (c : Collection) (out : Progress × State) (a : Attempt)
    → Map.get id s.collections ≡ some c
    → c.attempt ≡ none
    → channel_answered m config contract id (ok state) s ≡ some out
    → attempt_of id out.1 ≡ some a
    → (c' : Collection) × (observed m state c ≡ some c')
      × IsObserved state c c'
      × IsStarted m id contract c' s out.1 a
unfolding channel_answered
channel_answered-starts m config contract id state s c out a found free e had =
    elim (Option-cases (observed m state c)) [
      | inl trapped ↦ absurd (let f = rw (channel_answered, found, trapped) at e in cc)
      | inr (c', seen) ↦
          let f = rw (channel_answered, found, seen) at e in
          let free' : c'.attempt ≡ none = observed-attempt m state c c' seen ∙ free in
          let read = observed-IsObserved m state c c' seen in
          (c', seen, read, after_reading-IsStarted m config contract id c' s out a free' f had)
    ]
