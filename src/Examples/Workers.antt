-- ===== src/Examples/Workers.antt =====
-- The worker of a collection.
use ic_facilitator.Prelude.{◌≡◌, refl, none, some, [], ◌∷◌, ok, err, All, unwrap_or}
use ic_facilitator.Text.{text, text_eq, parse_uint}
use ic_facilitator.Map
use ic_facilitator.State.{State, Collection, Attempt}
use ic_facilitator.Config.{RpcConfig}
use ic_facilitator.Tx.{Signer}
use ic_facilitator.Rpc.{ContractSettlementOutcome}
use ic_facilitator.Batch.Store.{get_batch_channel}
use ic_facilitator.Settlement.Store.{insert_batch_settlement, insert_settlement}
use ic_facilitator.Active.{release_active_settlement}
use ic_facilitator.AutoClaim.{amount, reconcile}
use ic_facilitator.AutoClaim.Journal.{record_attempt}
use ic_facilitator.AutoClaim.Worker.{
  idle, receipt, sending, Answers, Progress, returned, attempt_of,
}
use ic_facilitator.AutoClaim.Worker.Resume.{receipt_answered, resend, claim_settled, concluded}
use ic_facilitator.AutoClaim.Worker.Turn.{turn, part, conclude}
use ic_facilitator.AutoClaim.Worker.Journal.{Journalled}
use ic_facilitator.AutoClaim.Worker.Steps.{
  quiet, sent, turns, is_lost, Runs, rests, goes, Runs-Journalled,
}
use ic_facilitator.AutoClaim.Worker.Resends.{Repeats, until_resolved, Runs-Repeats}
use ic_facilitator.AutoClaim.Worker.Outcomes.{IsClaimed, claim_settled-ends}
use ic_facilitator.AutoClaim.Worker.Resolution.{turn-resolves}
use ic_facilitator.Examples.Setup.{message}
use ic_facilitator.Examples.Channels.{id}
use ic_facilitator.Examples.Collections.{collection, attempt_5, collecting}

abbrev tools : Signer
tools = record { sign_prehash = λ key digest. none; rlp_list = λ items. [] }

abbrev config : RpcConfig
config = record {
  url = text "https://node";
  max_gas = 500_000;
  max_settlement_fee_wei = 30_000_000_000_000_000;
  min_confirmations = 3;
}

abbrev signed : Attempt
signed = record attempt_5 { nonce = some 7; raw = some (text "0x02"); tx = some (text "0xaa") }

abbrev begun : Collection
begun = record collection { attempt = some signed }

abbrev waiting : State
waiting = record collecting { collections = (id, begun) ∷ [] }

abbrev still_pending : Answers
still_pending = record {
  channel_state = err [];
  latest_claimed = err [];
  pending_nonce = err [];
  fee_quote = err [];
  gas_estimate = err [];
  receipt = ok (ContractSettlementOutcome.pending 0 (text "0xaa"));
}

stored : attempt_of id waiting ≡ some signed
stored = unfold Map.get text_eq in refl

agrees : Journalled id (receipt config signed) waiting
agrees = (stored, ((text "0x02", refl), (7, refl), (text "0xaa", refl)))

resends :
    turn tools message still_pending id (receipt config signed) waiting
    ≡ some (sending signed, waiting)
unfolding turn part conclude receipt_answered resend text
resends = refl

-- The receipt is not there, so the bytes go out again; then the worker is lost.
run :
    Runs tools id
      (receipt config signed)
      waiting
      (sent (some (text "0x02")) (some 7) ∷ quiet ∷ [])
      idle
      waiting
run = goes (turns message still_pending resends) (goes is_lost rests)

Runs-Journalled_example : Journalled id idle waiting
Runs-Journalled_example = Runs-Journalled agrees run

Runs-Repeats_example :
    All (Repeats signed) (until_resolved (sent (some (text "0x02")) (some 7) ∷ quiet ∷ []))
Runs-Repeats_example = Runs-Repeats signed (text "0x02") agrees stored refl run

abbrev mined : Answers
mined = record still_pending { receipt = ok (ContractSettlementOutcome.settled (text "0xaa") none) }

no_channel : get_batch_channel id waiting.batch_channels ≡ none
unfolding get_batch_channel Map.get
no_channel = refl

turn-resolves_example :
    (after : State) × (turn tools message mined id (receipt config signed) waiting
      ≡ some (idle, after))
    × (attempt_of id after ≡ none)
turn-resolves_example =
    turn-resolves tools message mined id config signed waiting begun 0
      (unfold Map.get text_eq in refl) (unfold amount parse_uint text in refl)
      (λ channel found. absurd (let missing = no_channel in cc)) refl

abbrev after_settled : Progress × State
after_settled = unwrap_or (claim_settled message id signed waiting) (returned (ok tt), waiting)

claim_settled-ends_example :
    (after_settled.0 ≡ returned (ok tt))
    × IsClaimed 5 begun (Map.get id after_settled.1.collections)
    × (after_settled.1.active_settlements
        ≡ release_active_settlement signed.scope signed.key waiting.active_settlements)
    × (after_settled.1.seller_credits ≡ waiting.seller_credits)
claim_settled-ends_example =
    claim_settled-ends message id signed waiting begun after_settled
      (unfold Map.get text_eq in refl)
      (unfold claim_settled concluded record_attempt insert_batch_settlement insert_settlement
          Map.get text_eq reconcile amount parse_uint text in
        refl)
