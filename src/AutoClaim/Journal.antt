-- ===== src/AutoClaim/Journal.antt =====
-- rust/facilitator/src/auto_claim.rs: the attempt that a collection keeps, and its settlement record.
use ic_facilitator.Prelude.{ℕ, [], Option, none, some, true, if◌then◌else◌, unwrap_or, is_some}
use ic_facilitator.Text.{Text, text, text_eq, to_decimal}
use ic_facilitator.Map
use ic_facilitator.Map.{Map}
use ic_facilitator.Crates.{Message}
use ic_facilitator.State.{State, Attempt, SettlementRecord, NonceState}
use ic_facilitator.Config.{now_seconds}
use ic_facilitator.Nonce.{rollback_reserved_nonce}
use ic_facilitator.Credit.{refund_seller_credit}
use ic_facilitator.Active.{release_active_settlement}
use ic_facilitator.Settlement.Record.{checking, broadcast, settled, failed}
use ic_facilitator.Settlement.Store.{insert_batch_settlement, remove_settlement}
use ic_facilitator.AutoClaim.{save}

-- 86,400 is DEFAULT_SETTLEMENT_CACHE_TTL_SECONDS.
unfoldable pub attempt_record : Message → Map Text → Attempt → Text → SettlementRecord
attempt_record m vars a state =
    let payer = a.channel.channel_config.payer in
    let seller = a.channel.channel_config.receiver in
    let target = to_decimal a.target in
    let tx = unwrap_or a.tx [] in
    let now = now_seconds m in
    if text_eq state (text "settled")
    then settled m vars tx payer seller target now 86_400
    else if text_eq state (text "broadcast")
    then broadcast m vars tx payer seller target now 86_400
    else if text_eq state (text "failed")
    then failed m vars tx (text "auto claim transaction reverted") payer seller now 86_400
    else checking m vars payer seller target now 86_400

-- `record`
unfoldable pub record_attempt : Message → Attempt → Text → State → State
record_attempt m a state s =
    (insert_batch_settlement m a.key (attempt_record m s.env a state) (some a.fee) s).1

-- `none` is the trap of a missing collection.
unfoldable pub store_attempt : Text → Attempt → State → Option State
store_attempt id a s = elim (Map.get id s.collections) [
  | none ↦ none
  | some c ↦ some (save id (record c { attempt = some a }) s)
]

abbrev pub rolled_back : Text → Option ℕ → Map NonceState → Map NonceState
rolled_back from none nonces = nonces
rolled_back from (some nonce) nonces = rollback_reserved_nonce from nonce nonces

-- The nonce, the fee, the lock and the record of an attempt are given back.
unfoldable pub given_up : Message → Attempt → State → State
given_up m a s = remove_settlement a.key (record s {
  nonces = rolled_back a.from a.nonce s.nonces;
  seller_credits = refund_seller_credit m a.channel.channel_config.receiver a.fee s.seller_credits;
  active_settlements = release_active_settlement a.scope a.key s.active_settlements;
})

-- `none` is the trap of an attempt whose bytes are stored, or of a missing collection.
unfoldable pub abandon_prepared : Message → Text → Attempt → State → Option State
abandon_prepared m id a s =
    if is_some a.raw then none else elim (Map.get id (given_up m a s).collections) [
      | none ↦ none
      | some c ↦ some (save id (record c { attempt = none; force = true }) (given_up m a s))
    ]
