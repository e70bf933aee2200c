-- ===== src/AutoClaim/Worker/Turn.antt =====
-- rust/facilitator/src/auto_claim.rs, `dispatch`: one turn of the worker of a collection, from the
-- answer that it waits for to the next wait, and what follows its return.
use ic_facilitator.Prelude.{◌+◌, ◌-◌, ◌^◌, Option, none, some, if◌then◌else◌, Checked, ok, err}
use ic_facilitator.Text.{Text}
use ic_facilitator.Map
use ic_facilitator.Crates.{Message}
use ic_facilitator.State.{State, Collection}
use ic_facilitator.Config.{now_seconds, sat_u64}
use ic_facilitator.Tx.{Signer}
use ic_facilitator.AutoClaim.{save}
use ic_facilitator.AutoClaim.Worker.{
  Phase, idle, channel_state, latest_claimed, pending_nonce, fee_quote, gas_estimate, sending,
  receipt, Answers, Progress, waits, returned, quiescent,
}
use ic_facilitator.AutoClaim.Worker.Prepare.{
  latest_answered, nonce_answered, fees_answered, gas_answered,
}
use ic_facilitator.AutoClaim.Worker.Resume.{receipt_answered}
use ic_facilitator.AutoClaim.Worker.Monitor.{run, channel_answered}

abbrev pub with_error : Checked → Collection → Collection
with_error (ok _) c = c
with_error (err e) c = record c { error = some e }

-- After `run` returned: its error is kept, and the collection is due in INTERVAL seconds, which is
-- 60, or not at all.
unfoldable pub finish : Message → Text → Checked → State → Option State
finish m id result s = elim (Map.get id s.collections) [
  | none ↦ some s
  | some c ↦ elim (quiescent m id (with_error result c) s) [
    | none ↦ none
    | some rest ↦ some (
        save id
          (record (with_error result c) {
            next_due = if rest then 2 ^ 64 - 1 else sat_u64 (now_seconds m + 60);
          })
          s)
  ]
]

unfoldable pub conclude : Message → Text → Option (Progress × State) → Option (Phase × State)
conclude m id none = none
conclude m id (some (waits p, s)) = some (p, s)
conclude m id (some (returned result, s)) = elim (finish m id result s) [
  | none ↦ none
  | some s' ↦ some (idle, s')
]

module _ (tools : Signer) where
  unfoldable pub part : Message → Answers → Text → Phase → State → Option (Progress × State)
  part m answers id idle s = run m id s
  part m answers id (channel_state config contract) s =
      channel_answered m config contract id answers.channel_state s
  part m answers id (latest_claimed config a) s =
      latest_answered m config id a answers.latest_claimed s
  part m answers id (pending_nonce config a) s =
      nonce_answered tools m config id a answers.pending_nonce s
  part m answers id (fee_quote config a tx) s = fees_answered m config id a tx answers.fee_quote s
  part m answers id (gas_estimate config a tx fees) s =
      gas_answered tools m config id a tx fees answers.gas_estimate s
  part m answers id (sending a) s = some (returned (ok tt), s)
  part m answers id (receipt config a) s = receipt_answered m id a answers.receipt s

  unfoldable pub turn : Message → Answers → Text → Phase → State → Option (Phase × State)
  turn m answers id p s = conclude m id (part m answers id p s)
