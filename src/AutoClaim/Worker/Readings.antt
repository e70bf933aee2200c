-- ===== src/AutoClaim/Worker/Readings.antt =====
-- What `run` leaves of the stored attempt before and after the channel is read:
-- rust/facilitator/src/auto_claim.rs.
use ic_facilitator.Prelude.{
  ℕ, max, ltb, true, ◌||◌, ◌≡◌, refl, ◌∙◌, none, some, arith, inl, inr, err, Option-cases,
  Result-cases, Bool-cases, if◌then◌else◌,
}
use ic_facilitator.Text.{Text, text}
use ic_facilitator.Crates.{Message}
use ic_facilitator.State.{State, Collection, Attempt}
use ic_facilitator.Config.{RpcConfig, now_seconds}
use ic_facilitator.Active.{acquire_active_settlement, release_active_settlement}
use ic_facilitator.Credit.{reserve_seller_credit}
use ic_facilitator.AutoClaim.{save, amount, reconcile, claimed_up_to}
use ic_facilitator.AutoClaim.Claims.{reconcile-some}
use ic_facilitator.AutoClaim.Journal.{record_attempt}
use ic_facilitator.AutoClaim.Worker.{Progress, ChannelState, returned, attempt_of}
use ic_facilitator.AutoClaim.Worker.Start.{attempted, start_attempt}
use ic_facilitator.AutoClaim.Worker.Monitor.{observed}
use ic_facilitator.AutoClaim.Worker.Parts.{begin_prepare-Leaves}
use ic_facilitator.AutoClaim.Worker.Kept.{attempt_of-save, record_attempt-attempt_of}
use ic_facilitator.AutoClaim.Worker.Journal.{Leaves}

-- What is read of a channel is kept: its balance, the larger of the two claimed totals, and that a
-- withdrawal forces a claim; that the collection is halted or forced stays.
abbrev pub IsObserved : ChannelState → Collection → Collection → Type 0
IsObserved state c after =
    (amount state.balance ≡ some after.balance)
    × ((read : ℕ) × (amount state.claimed ≡ some read) × (after.claimed ≡ max c.claimed read))
    × (after.halted ≡ c.halted)
    × (after.force ≡ (c.force || ltb 0 state.withdrawal))
    × (after.withdrawal_at ≡ state.withdrawal)

pub observed-IsObserved :
    (m : Message) (state : ChannelState) (c after : Collection)
    → observed m state c ≡ some after
    → IsObserved state c after
unfolding observed
observed-IsObserved m state c after e = elim (Option-cases (amount state.balance)) [
  | inl bad ↦ absurd (let f = rw (observed, bad) at e in cc)
  | inr (balance, funded) ↦ elim (Option-cases (amount state.claimed)) [
    | inl bad ↦ absurd (let f = rw (observed, funded, bad) at e in cc)
    | inr (claimed, paid) ↦
        let c' = record c {
          monitored_at = some (now_seconds m);
          withdrawal_at = state.withdrawal;
          balance = balance;
          error = if c.halted then c.error else none;
        } in
        elim (Option-cases (reconcile claimed c')) [
          | inl trapped ↦ absurd (let f = rw (observed, funded, paid, trapped) at e in cc)
          | inr (c'', done) ↦
              let f = rw (observed, funded, paid, done) at e in
              let (charged, parsed, same) = reconcile-some claimed c' c'' done in
              let g = rw same at f in
              elim (Bool-cases (ltb 0 state.withdrawal)) [
                | inl withdraws ↦
                    let next : Collection =
                      record (claimed_up_to charged (max c.claimed claimed) c') { force = true } in
                    let h = rw withdraws at g in
                    let one : next ≡ after = ground arith in
                    rw (← one) (funded, (claimed, paid, refl), refl, ground arith, refl)
                | inr stays ↦
                    let next : Collection = claimed_up_to charged (max c.claimed claimed) c' in
                    let h = rw stays at g in
                    let one : next ≡ after = ground arith in
                    rw (← one) (funded, (claimed, paid, refl), refl, ground arith, refl)
              ]
        ]
  ]
]

pub observed-attempt :
    (m : Message) (state : ChannelState) (c after : Collection)
    → observed m state c ≡ some after
    → after.attempt ≡ c.attempt
unfolding observed
observed-attempt m state c after e = elim (Option-cases (amount state.balance)) [
  | inl bad ↦ absurd (let f = rw (observed, bad) at e in cc)
  | inr (balance, funded) ↦ elim (Option-cases (amount state.claimed)) [
    | inl bad ↦ absurd (let f = rw (observed, funded, bad) at e in cc)
    | inr (claimed, paid) ↦
        let c' = record c {
          monitored_at = some (now_seconds m);
          withdrawal_at = state.withdrawal;
          balance = balance;
          error = if c.halted then c.error else none;
        } in
        elim (Option-cases (reconcile claimed c')) [
          | inl trapped ↦ absurd (let f = rw (observed, funded, paid, trapped) at e in cc)
          | inr (c'', done) ↦
              let f = rw (observed, funded, paid, done) at e in
              let (charged, parsed, same) = reconcile-some claimed c' c'' done in
              let kept : c''.attempt ≡ c.attempt = rw same refl in ground arith
        ]
  ]
]

pub attempted-attempt :
    (c after : Collection) (a : Attempt) (s : State)
    → attempted c a s ≡ some after
    → after.attempt ≡ some a
unfolding attempted
attempted-attempt c after a s e = elim (Option-cases (amount c.seed.charged_cumulative_amount)) [
  | inl bad ↦ absurd (let f = rw (attempted, bad) at e in cc)
  | inr (charged, good) ↦ let f = rw (attempted, good) at e in ground arith
]

-- The worker returns and the collection has no attempt, or an attempt is begun.
pub start_attempt-Leaves :
    (m : Message) (config : RpcConfig) (id : Text) (c : Collection) (a : Attempt) (s : State)
    (out : Progress × State)
    → attempt_of id s ≡ none
    → a.raw ≡ none
    → start_attempt m config id c a s ≡ some out
    → Leaves id out
unfolding start_attempt
start_attempt-Leaves m config id c a s out free unsent e =
    let (got, locks) = acquire_active_settlement a.scope a.key s.active_settlements in
    elim (Bool-cases got) [
      | inr busy ↦
          let f = rw (start_attempt, busy) at e in
          let same : (returned (err (text "settlement_queue_busy")), s) ≡ out = ground arith in
          rw (← same) (λ b found. cc)
      | inl held ↦
          elim (Result-cases
            (reserve_seller_credit m a.channel.channel_config.receiver a.fee s.seller_credits)) [
              | inr (message, poor) ↦
                  let f = rw (start_attempt, held, poor) at e in
                  let s' = record s {
                    active_settlements = release_active_settlement a.scope a.key locks;
                  } in
                  let same : (returned (err message), s') ≡ out = ground arith in
                  rw (← same) (λ b found. cc)
              | inl (credits, paid) ↦
                  let s' = record s { active_settlements = locks; seller_credits = credits } in
                  elim (Option-cases (attempted c a s')) [
                    | inl trapped ↦
                        absurd (let f = rw (start_attempt, held, paid, trapped) at e in cc)
                    | inr (c', begun) ↦
                        let f = rw (start_attempt, held, paid, begun) at e in
                        let s'' = record_attempt m a (text "checking") (save id c' s') in
                        let stored : attempt_of id s'' ≡ some a =
                          record_attempt-attempt_of id m a (text "checking") (save id c' s')
                          ∙ attempt_of-save id c' s'
                          ∙ attempted-attempt c c' a s' begun in
                        begin_prepare-Leaves m config id a s'' out stored unsent f
                  ]
            ]
    ]
