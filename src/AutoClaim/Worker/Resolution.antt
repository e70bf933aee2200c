-- ===== src/AutoClaim/Worker/Resolution.antt =====
-- That a receipt resolves an attempt: rust/facilitator/src/auto_claim.rs.
use ic_facilitator.Prelude.{
  ℕ, ◌+◌, ◌-◌, ◌^◌, max, ◌≡◌, refl, ◌∙◌, Bool, true, false, not, ◌&&◌, Option, none, some, arith,
  inl, inr, Result, Checked, ok, err, Option-cases, Bool-cases, is_some, leb, if◌then◌else◌,
}
use ic_facilitator.Text.{Text, text}
use ic_facilitator.Map
use ic_facilitator.Crates.{Message}
use ic_facilitator.State.{State, BatchChannel, Collection, Attempt}
use ic_facilitator.Config.{RpcConfig, now_seconds, sat_u64}
use ic_facilitator.Tx.{Signer}
use ic_facilitator.Rpc.{ContractSettlementOutcome}
use ic_facilitator.Batch.Store.{get_batch_channel}
use ic_facilitator.Batch.Checks.{now_ms}
use ic_facilitator.Settlement.Store.{insert_batch_settlement, insert_settlement}
use ic_facilitator.AutoClaim.{save, reconcile, amount, claimed_up_to}
use ic_facilitator.AutoClaim.Hooks.{live}
use ic_facilitator.AutoClaim.Journal.{record_attempt}
use ic_facilitator.AutoClaim.Worker.{
  idle, receipt, Answers, Progress, returned, attempt_of, quiescent, caught_up,
}
use ic_facilitator.AutoClaim.Worker.Resume.{
  receipt_answered, claim_settled, claim_failed, concluded,
}
use ic_facilitator.AutoClaim.Worker.Turn.{turn, part, conclude, finish, with_error}
use ic_facilitator.AutoClaim.Worker.Kept.{
  record_attempt-collections, finish-attempt_of, attempt_of-save,
}
use ic_facilitator.AutoClaim.Worker.Receipts.{ends}

-- The charges of the stored channel are a number, if there is one, as every stored channel's are.
abbrev pub HasCharges : Text → State → Type 0
HasCharges id s =
    (channel : BatchChannel)
    → get_batch_channel id s.batch_channels ≡ some channel
    → (charged : ℕ) × (amount channel.charged_cumulative_amount ≡ some charged)

record_attempt-batch_channels :
    (m : Message) (a : Attempt) (status : Text) (s : State)
    → (record_attempt m a status s).batch_channels ≡ s.batch_channels
unfolding record_attempt insert_batch_settlement insert_settlement
record_attempt-batch_channels m a status s = ground arith

concluded-batch_channels :
    (m : Message) (a : Attempt) (status : Text) (s : State)
    → (concluded m a status s).batch_channels ≡ s.batch_channels
unfolding concluded
concluded-batch_channels m a status s = record_attempt-batch_channels m a status s

concluded-collections :
    (m : Message) (a : Attempt) (status : Text) (s : State)
    → (concluded m a status s).collections ≡ s.collections
unfolding concluded
concluded-collections m a status s = record_attempt-collections m a status s

caught_up-some :
    (m : Message) (found : Option BatchChannel) (claimed : ℕ)
    → ((channel : BatchChannel)
        → found ≡ some channel
        → (charged : ℕ) × (amount channel.charged_cumulative_amount ≡ some charged))
    → (b : Bool) × (caught_up m found claimed ≡ some b)
unfolding caught_up
caught_up-some m none claimed h = (false, refl)
caught_up-some m (some channel) claimed h =
    let (charged, parsed) = h channel refl in
    (
      leb charged claimed && not (live (now_ms m) channel.pending_request),
      rw (caught_up, parsed) refl,
    )

quiescent-some :
    (m : Message) (id : Text) (c : Collection) (s : State)
    → HasCharges id s
    → (b : Bool) × (quiescent m id c s ≡ some b)
unfolding quiescent
quiescent-some m id c s h = elim (Bool-cases (not (is_some c.attempt) && not c.force)) [
  | inr busy ↦ (false, rw (quiescent, busy) refl)
  | inl calm ↦
      let (b, known) = caught_up-some m (get_batch_channel id s.batch_channels) c.claimed h in
      (b, rw (quiescent, calm) known)
]

finish-some :
    (m : Message) (id : Text) (result : Checked) (s : State)
    → HasCharges id s
    → (after : State) × (finish m id result s ≡ some after)
unfolding finish
finish-some m id result s h = elim (Option-cases (Map.get id s.collections)) [
  | inl missing ↦ (s, rw (finish, missing) refl)
  | inr (c, found) ↦
      let (rest, known) = quiescent-some m id (with_error result c) s h in
      let c' = record (with_error result c) {
        next_due = if rest then 2 ^ 64 - 1 else sat_u64 (now_seconds m + 60);
      } in
      (save id c' s, rw (finish, found, known) refl)
]

save-batch_channels :
    (id : Text) (c : Collection) (s : State) → (save id c s).batch_channels ≡ s.batch_channels
unfolding save
save-batch_channels id c s = refl

-- What such a receipt leaves: the worker returns without an error and without the attempt.
abbrev Resolves : Text → State → Option (Progress × State) → Type 0
Resolves id s out =
    (after : State) × (out ≡ some (returned (ok tt), after))
    × (attempt_of id after ≡ none)
    × (after.batch_channels ≡ s.batch_channels)

claim_settled-Resolves :
    (m : Message) (id : Text) (a : Attempt) (s : State) (c : Collection) (charged : ℕ)
    → Map.get id s.collections ≡ some c
    → amount c.seed.charged_cumulative_amount ≡ some charged
    → Resolves id s (claim_settled m id a s)
unfolding claim_settled reconcile
claim_settled-Resolves m id a s c charged found parsed =
    let s' = concluded m a (text "settled") s in
    let still : Map.get id s'.collections ≡ some c =
      rw (concluded-collections m a (text "settled") s) found in
    let c' = record (claimed_up_to charged (max c.claimed a.target) c) {
      oldest_legacy = none;
      attempt = none;
    } in
    (
      save id c' s',
      rw (claim_settled, still, reconcile, parsed) refl,
      attempt_of-save id c' s',
      save-batch_channels id c' s' ∙ concluded-batch_channels m a (text "settled") s,
    )

claim_failed-Resolves :
    (m : Message) (id : Text) (a : Attempt) (s : State) (c : Collection)
    → Map.get id s.collections ≡ some c
    → Resolves id s (claim_failed m id a s)
unfolding claim_failed
claim_failed-Resolves m id a s c found =
    let s' = concluded m a (text "failed") s in
    let still : Map.get id s'.collections ≡ some c =
      rw (concluded-collections m a (text "failed") s) found in
    let c' = record c {
      attempt = none;
      force = true;
      halted = true;
      error = some (text "claim_reverted_manual_retry_required");
    } in
    (
      save id c' s',
      rw (claim_failed, still) refl,
      attempt_of-save id c' s',
      save-batch_channels id c' s' ∙ concluded-batch_channels m a (text "failed") s,
    )

receipt_answered-Resolves :
    (m : Message) (id : Text) (a : Attempt) (answer : Result ContractSettlementOutcome) (s : State)
    (c : Collection) (charged : ℕ)
    → Map.get id s.collections ≡ some c
    → amount c.seed.charged_cumulative_amount ≡ some charged
    → ends answer ≡ true
    → Resolves id s (receipt_answered m id a answer s)
unfolding receipt_answered
receipt_answered-Resolves m id a (err e) s c charged found parsed over = cc
receipt_answered-Resolves m id a (ok (ContractSettlementOutcome.pending n tx)) s c charged found
      parsed over =
    cc
receipt_answered-Resolves m id a (ok (ContractSettlementOutcome.settled tx paid)) s c charged found
      parsed over =
    claim_settled-Resolves m id a s c charged found parsed
receipt_answered-Resolves m id a (ok (ContractSettlementOutcome.failed tx message)) s c charged
      found parsed over =
    claim_failed-Resolves m id a s c found

-- A worker that waits for a receipt and is answered with a success or a failure does not trap: its
-- turn ends with the worker idle and the collection without the attempt. (The charges of the
-- collection's seed and of the stored channel are numbers.)
pub turn-resolves :
    (tools : Signer) (m : Message) (answers : Answers) (id : Text) (config : RpcConfig)
    (a : Attempt) (s : State) (c : Collection) (charged : ℕ)
    → Map.get id s.collections ≡ some c
    → amount c.seed.charged_cumulative_amount ≡ some charged
    → HasCharges id s
    → ends answers.receipt ≡ true
    → (after : State) × (turn tools m answers id (receipt config a) s ≡ some (idle, after))
      × (attempt_of id after ≡ none)
unfolding turn conclude part
turn-resolves tools m answers id config a s c charged found parsed numbers over =
    let (s', left, gone, same) =
      receipt_answered-Resolves m id a answers.receipt s c charged found parsed over in
    let numbers' : HasCharges id s' = rw same numbers in
    let (after, done) = finish-some m id (ok tt) s' numbers' in
    (
      after,
      rw (turn, part, left, conclude, done) refl,
      finish-attempt_of m id (ok tt) s' after done ∙ gone,
    )
