-- ===== src/AutoClaim/Worker/Resume.antt =====
-- rust/facilitator/src/auto_claim.rs, `resume`: what becomes of a transaction that was sent.
use ic_facilitator.Prelude.{
  not, ◌==◌, Option, none, some, true, if◌then◌else◌, Result, Checked, ok, err, ◌>>=◌, fail_if,
}
use ic_facilitator.Text.{Text, text}
use ic_facilitator.Map
use ic_facilitator.Crates.{Message}
use ic_facilitator.State.{State, Attempt}
use ic_facilitator.Config.{RpcConfig, configured_chain_id, configured_batch_settlement_contract}
use ic_facilitator.Hexutil.{parse_address, same_address}
use ic_facilitator.Active.{release_active_settlement}
use ic_facilitator.Rpc.{ContractSettlementOutcome, settled, pending, failed}
use ic_facilitator.AutoClaim.{save, reconcile}
use ic_facilitator.AutoClaim.Journal.{record_attempt}
use ic_facilitator.AutoClaim.Worker.{Progress, waits, returned, receipt, sending, attempt_of}

-- The network is the one the attempt was made for.
unfoldable pub require_same_network : Message → Attempt → State → Checked
require_same_network m a s =
    let changed = text "auto_claim_network_changed" in
    if not (a.chain_id == configured_chain_id m s.env) then err changed else do
      contract ← configured_batch_settlement_contract m s.env
      fail_if (not (same_address a.contract contract)) changed

-- `resume` up to its wait; `a.tx.as_deref().unwrap()` traps where there is no hash.
unfoldable pub resume : Message → RpcConfig → Text → State → Option (Progress × State)
resume m config id s = elim (attempt_of id s) [
  | none ↦ some (returned (err (text "missing journal")), s)
  | some a ↦ elim (require_same_network m a s) [
    | err e ↦ some (returned (err e), s)
    | ok _ ↦ elim a.tx [
      | none ↦ none
      | some _ ↦ elim (parse_address m.crates a.contract (text "contract")) [
        | err e ↦ some (returned (err e), s)
        | ok _ ↦ some (waits (receipt config a), s)
      ]
    ]
  ]
]

-- The same bytes are sent again; `a.raw.as_deref().unwrap()` and `a.nonce.unwrap()` trap without.
unfoldable pub resend : Attempt → State → Option (Progress × State)
resend a s = elim a.raw [
  | none ↦ none
  | some _ ↦ elim a.nonce [ none ↦ none | some _ ↦ some (waits (sending a), s) ]
]

-- The record and the lock of an attempt that has ended.
unfoldable pub concluded : Message → Attempt → Text → State → State
concluded m a state s =
    let s' = record_attempt m a state s in
    record s' { active_settlements = release_active_settlement a.scope a.key s'.active_settlements }

unfoldable pub claim_settled : Message → Text → Attempt → State → Option (Progress × State)
claim_settled m id a s =
    let s' = concluded m a (text "settled") s in
    elim (Map.get id s'.collections) [
      | none ↦ none
      | some c ↦ elim (reconcile a.target c) [
        | none ↦ none
        | some c' ↦
            some (returned (ok tt), save id (record c' { oldest_legacy = none; attempt = none }) s')
      ]
    ]

unfoldable pub claim_failed : Message → Text → Attempt → State → Option (Progress × State)
claim_failed m id a s =
    let s' = concluded m a (text "failed") s in
    elim (Map.get id s'.collections) [
      | none ↦ none
      | some c ↦ some (
        returned (ok tt),
        save id
            (record c {
              attempt = none;
              force = true;
              halted = true;
              error = some (text "claim_reverted_manual_retry_required");
            })
            s',
      )
    ]

unfoldable pub receipt_answered :
    Message → Text → Attempt → Result ContractSettlementOutcome → State → Option (Progress × State)
receipt_answered m id a (err e) s = some (returned (err e), s)
receipt_answered m id a (ok (pending _ _)) s = resend a s
receipt_answered m id a (ok (settled _ _)) s = claim_settled m id a s
receipt_answered m id a (ok (failed _ _)) s = claim_failed m id a s
