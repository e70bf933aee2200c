-- ===== src/AutoClaim/Worker/Runs.antt =====
-- What `run` leaves of the stored attempt around the reading of the channel:
-- rust/facilitator/src/auto_claim.rs.
use ic_facilitator.Prelude.{
  ◌≡◌, ◌∙◌, sym, false, none, some, arith, inl, inr, Result, ok, err, Option-cases, Result-cases,
  Bool-cases, leb,
}
use ic_facilitator.Text.{Text, text}
use ic_facilitator.Map
use ic_facilitator.Crates.{Message}
use ic_facilitator.State.{State, BatchChannel, Collection, Attempt}
use ic_facilitator.Config.{RpcConfig}
use ic_facilitator.Batch.Store.{get_batch_channel}
use ic_facilitator.AutoClaim.{save, amount}
use ic_facilitator.AutoClaim.Worker.{Progress, ChannelState, returned, attempt_of}
use ic_facilitator.AutoClaim.Worker.Start.{planned}
use ic_facilitator.AutoClaim.Worker.Monitor.{
  observed, after_reading, channel_answered, claim_if_due, all_claimed, orphaned, not_yet_due,
}
use ic_facilitator.AutoClaim.Worker.Receipts.{resume-Leaves, resume-state}
use ic_facilitator.AutoClaim.Worker.Kept.{attempt_of-save, attempt_of-found, attempt_of-remove}
use ic_facilitator.AutoClaim.Worker.Plans.{planned-Plan}
use ic_facilitator.AutoClaim.Worker.Readings.{start_attempt-Leaves, observed-attempt}
use ic_facilitator.AutoClaim.Worker.Journal.{Leaves, IsSendable}

-- What follows the reading without an attempt leaves none, or one that is begun.
pub orphaned-attempt_of :
    (m : Message) (id : Text) (c : Collection) (s : State)
    → attempt_of id s ≡ none
    → attempt_of id (orphaned m id c s) ≡ none
unfolding orphaned
orphaned-attempt_of m id c s free = ground (arith, attempt_of-remove id s)

pub all_claimed-attempt_of :
    (m : Message) (id : Text) (c : Collection) (channel : BatchChannel) (s : State)
    → c.attempt ≡ none
    → attempt_of id (all_claimed m id c channel s) ≡ none
unfolding all_claimed
all_claimed-attempt_of m id c channel s free =
    let s' = save id (record c { force = false; oldest_legacy = none }) s in
    ground (
      arith,
      attempt_of-remove id s',
      attempt_of-save id (record c { force = false; oldest_legacy = none }) s,
    )

claim_if_due-Leaves :
    (m : Message) (config : RpcConfig) (contract id : Text) (c : Collection)
    (channel : BatchChannel) (s : State) (out : Progress × State)
    → attempt_of id s ≡ none
    → c.attempt ≡ none
    → claim_if_due m config contract id c channel s ≡ some out
    → Leaves id out
unfolding claim_if_due
claim_if_due-Leaves m config contract id c channel s out free none_ e =
    elim (Option-cases (amount channel.charged_cumulative_amount)) [
      | inl bad ↦ absurd (let f = rw (claim_if_due, bad) at e in cc)
      | inr (target, parsed) ↦ elim (Bool-cases (leb target c.claimed)) [
        | inl done ↦
            let f = rw (claim_if_due, parsed, done) at e in
            let s' = all_claimed m id c channel s in
            let same : (returned (ok tt), s') ≡ out = ground arith in
            let gone = all_claimed-attempt_of m id c channel s none_ in rw (← same) (λ b found. cc)
        | inr more ↦ elim (Bool-cases (not_yet_due c)) [
          | inl early ↦
              let f = rw (claim_if_due, parsed, more, early) at e in
              let same : (returned (ok tt), s) ≡ out = ground arith in rw (← same) (λ b found. cc)
          | inr due ↦ elim (Result-cases (planned m id contract c channel target s)) [
            | inr (message, refused) ↦
                let f = rw (claim_if_due, parsed, more, due, refused) at e in
                let same : (returned (err message), s) ≡ out = ground arith in
                rw (← same) (λ b found. cc)
            | inl (a, plan) ↦
                let f = rw (claim_if_due, parsed, more, due, plan) at e in
                start_attempt-Leaves m config id c a s out free
                  (planned-Plan m id contract c channel target s a plan).0 f
          ]
        ]
      ]
    ]

after_reading-Leaves :
    (m : Message) (config : RpcConfig) (contract id : Text) (c : Collection) (s : State)
    (out : Progress × State)
    → attempt_of id s ≡ c.attempt
    → ((a : Attempt) → attempt_of id s ≡ some a → IsSendable a)
    → after_reading m config contract id c s ≡ some out
    → Leaves id out
unfolding after_reading
after_reading-Leaves m config contract id c s out stored sendable e =
    elim (Option-cases c.attempt) [
      | inr (a, begun) ↦
          let f = rw (after_reading, begun) at e in resume-Leaves m config id s out sendable f
      | inl free ↦ elim (Option-cases (get_batch_channel id s.batch_channels)) [
        | inl deleted ↦
            let f = rw (after_reading, free, deleted) at e in
            let same : (returned (ok tt), orphaned m id c s) ≡ out = ground arith in
            let gone = orphaned-attempt_of m id c s (stored ∙ free) in rw (← same) (λ b found. cc)
        | inr (channel, found) ↦
            let f = rw (after_reading, free, found) at e in
            claim_if_due-Leaves m config contract id c channel s out (stored ∙ free) free f
      ]
    ]

after_reading-attempt_of :
    (m : Message) (config : RpcConfig) (contract id : Text) (c : Collection) (s : State)
    (out : Progress × State) (a : Attempt)
    → c.attempt ≡ some a
    → after_reading m config contract id c s ≡ some out
    → out.1 ≡ s
unfolding after_reading
after_reading-attempt_of m config contract id c s out a begun e =
    let f = rw (after_reading, begun) at e in resume-state m config id s out f

pub channel_answered-Leaves :
    (m : Message) (config : RpcConfig) (contract id : Text) (answer : Result ChannelState)
    (s : State) (out : Progress × State)
    → ((a : Attempt) → attempt_of id s ≡ some a → IsSendable a)
    → channel_answered m config contract id answer s ≡ some out
    → Leaves id out
unfolding channel_answered
channel_answered-Leaves m config contract id (err message) s out sendable e =
    let same : (returned (err message), s) ≡ out = ground arith in
    let whole : Leaves id (returned (err message), s) = λ b found. inr (sendable b found) in
    rw (← same) whole
channel_answered-Leaves m config contract id (ok state) s out sendable e =
    elim (Option-cases (Map.get id s.collections)) [
      | inl missing ↦
          let f = rw (channel_answered, missing) at e in
          let same : (returned (err (text "collection removed")), s) ≡ out = ground arith in
          rw (← same) (λ b found. inr (sendable b found))
      | inr (c, found) ↦ elim (Option-cases (observed m state c)) [
        | inl trapped ↦ absurd (let f = rw (channel_answered, found, trapped) at e in cc)
        | inr (c', seen) ↦
            let f = rw (channel_answered, found, seen) at e in
            let stored = attempt_of-save id c' s in
            let kept = observed-attempt m state c c' seen ∙ sym (attempt_of-found id c s found) in
            after_reading-Leaves m config contract id c' (save id c' s) out stored
              (λ b had. sendable b (sym (stored ∙ kept) ∙ had)) f
      ]
    ]

-- A stored attempt is not touched by the reading.
pub channel_answered-attempt_of :
    (m : Message) (config : RpcConfig) (contract id : Text) (answer : Result ChannelState)
    (s : State) (out : Progress × State) (a : Attempt)
    → attempt_of id s ≡ some a
    → channel_answered m config contract id answer s ≡ some out
    → attempt_of id out.1 ≡ some a
unfolding channel_answered
channel_answered-attempt_of m config contract id (err message) s out a had e =
    let same : s ≡ out.1 = ground arith in rw (← same) had
channel_answered-attempt_of m config contract id (ok state) s out a had e =
    elim (Option-cases (Map.get id s.collections)) [
      | inl missing ↦
          let f = rw (channel_answered, missing) at e in
          let same : s ≡ out.1 = ground arith in rw (← same) had
      | inr (c, found) ↦ elim (Option-cases (observed m state c)) [
        | inl trapped ↦ absurd (let f = rw (channel_answered, found, trapped) at e in cc)
        | inr (c', seen) ↦
            let f = rw (channel_answered, found, seen) at e in
            let kept : c'.attempt ≡ some a =
              observed-attempt m state c c' seen ∙ sym (attempt_of-found id c s found) ∙ had in
            let same =
              after_reading-attempt_of m config contract id c' (save id c' s) out a kept f in
            rw same (attempt_of-save id c' s ∙ kept)
      ]
    ]
