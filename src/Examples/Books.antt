-- ===== src/Examples/Books.antt =====
-- Credits, locks, nonces and settlements.
use ic_facilitator.Prelude.{
  ℕ, ◌+◌, ◌≤◌, ◌<◌, ◌≡◌, ◌↔◌, refl, true, false, none, some, [], ◌∷◌, arith, ok, err,
}
use ic_facilitator.Text.{
  Text, text, text_ne, text_eq, to_decimal, is_blank, starts_with, parse_uint, text_ltb,
}
use ic_facilitator.Map
use ic_facilitator.Map.{Map}
use ic_facilitator.State.{SellerCredit, SettlementRecord, BroadcastSettlement}
use ic_facilitator.Config.{normalize_evm_address, now_seconds, sat_u128}
use ic_facilitator.Hexutil.{parse_address, parse_hex, strip_0x, address_hex}
use ic_facilitator.Credit.{
  reserve_seller_credit, refund_seller_credit, seller_credit, seller_credit_balance_for,
  credit_seller_once, reserve_seller_credit_covered, refund-reserve_seller_credit,
  credit_seller_once_twice,
}
use ic_facilitator.Nonce.{
  reserve_nonce, rollback_reserved_nonce, reserve_nonce_fresh, rollback-reserve_nonce,
}
use ic_facilitator.Active.{
  get_active_settlement_by_key, acquire_active_settlement, release_active_settlement,
  acquire_excludes, release_frees,
}
use ic_facilitator.Settlement.Record.{broadcast_settlement, broadcast_settlement_iff}
use ic_facilitator.Settlement.Recovery.{
  StaleSettlementRecovery, replied, recoverable, give_back, recover_stale_settlement,
  recover_stale_settlement_once, recover_stale_settlement_refunds,
}
use ic_facilitator.Settlement.Store.{
  index_key, insert_settlement, insert_settlement_stores, insert_settlement_keeps,
}
use ic_facilitator.Examples.Setup.{message, seller, buyer, credits, state, stale, crates}

normal : normalize_evm_address crates (text "seller") seller ≡ ok seller
unfolding normalize_evm_address parse_address parse_hex strip_0x address_hex text text_eq
normal = refl

abbrev from : Text
from = text "0xf"

reserve_nonce_fresh_example :
    (7 ≤ (reserve_nonce from 7 []).0)
    × ((reserve_nonce from 7 []).0 < (reserve_nonce from 3 (reserve_nonce from 7 []).1).0)
reserve_nonce_fresh_example =
    reserve_nonce_fresh from 7 3 [] (unfold reserve_nonce Map.get in omega arith)

rollback-reserve_nonce_example :
    (reserve_nonce from 6
      (rollback_reserved_nonce from (reserve_nonce from 7 []).0 (reserve_nonce from 7 []).1)).0
    ≡ (reserve_nonce from 7 []).0
rollback-reserve_nonce_example =
    rollback-reserve_nonce from 7 6 [] (unfold reserve_nonce Map.get in omega arith)

acquire_excludes_example :
    let held = (acquire_active_settlement from (text "a") []).1 in
    (acquire_active_settlement from (text "b") held ≡ (false, held))
    × (acquire_active_settlement from (text "a") held ≡ (true, held))
acquire_excludes_example =
    acquire_excludes from (text "a") (text "b") []
      (unfold acquire_active_settlement Map.get in refl) (text_ne _ _ (unfold text text_eq in refl))

release_frees_example :
    let held = (acquire_active_settlement from (text "a") []).1 in
    (Map.get from (release_active_settlement from (text "a") held) ≡ none)
    × (release_active_settlement from (text "b") held ≡ held)
release_frees_example =
    release_frees from (text "a") (text "b") [] (unfold acquire_active_settlement Map.get in refl)
      (text_ne _ _ (unfold text text_eq in refl))

reserve_seller_credit_covered_example :
    (after : Map SellerCredit) × (reserve_seller_credit message seller 30 credits ≡ ok after)
    × (seller_credit_balance_for seller after + 30 ≡ seller_credit_balance_for seller credits)
    × (seller_credit_balance_for buyer after ≡ seller_credit_balance_for buyer credits)
reserve_seller_credit_covered_example =
    reserve_seller_credit_covered message seller seller buyer 30 credits normal
      (unfold seller_credit_balance_for Map.get text text_eq in omega arith)
      (text_ne _ _ (unfold text text_eq in refl))

-- 30 of the 100 are reserved.
abbrev left : Map SellerCredit
left = (seller, record { credit_atoms = 70; updated_at = 1_700_000_000 }) ∷ []

refund-reserve_seller_credit_example :
    seller_credit message seller (refund_seller_credit message seller 30 left)
    ≡ seller_credit message seller credits
refund-reserve_seller_credit_example =
    refund-reserve_seller_credit message message seller 30 credits left refl
      (unfold seller_credit Map.get text text_eq normalize_evm_address parse_address parse_hex
          strip_0x address_hex in
        omega arith)
      (unfold reserve_seller_credit Map.get Map.insert text text_eq text_ltb normalize_evm_address
          parse_address parse_hex strip_0x address_hex now_seconds in
        refl)

credit_seller_once_twice_example :
    credit_seller_once message
      (text "k")
      buyer
      9
      (credit_seller_once message (text "k") seller 5 ([], []))
    ≡ credit_seller_once message (text "k") seller 5 ([], [])
credit_seller_once_twice_example =
    credit_seller_once_twice message message (text "k") seller buyer 5 9 ([], [])
      (unfold credit_seller_once Map.get Map.insert text text_eq normalize_evm_address parse_address
          parse_hex strip_0x address_hex in
        λ e. cc)

recovery : StaleSettlementRecovery
recovery = record { key = text "k"; seller = seller; refunded_fee = to_decimal 30 }

recovered :
    recover_stale_settlement message (text "k") state
    ≡ replied (ok recovery, give_back message (text "k") seller 30 state)
unfolding recovery recover_stale_settlement recoverable text text_eq Map.get is_blank starts_with
    parse_uint now_seconds get_active_settlement_by_key
recovered = refl

recover_stale_settlement_once_example :
    (Map.get (text "k") (give_back message (text "k") seller 30 state).settlements ≡ none)
    × (recover_stale_settlement message (text "k") (give_back message (text "k") seller 30 state)
        ≡ replied (err (text "settlement not found"), give_back message (text "k") seller 30 state))
recover_stale_settlement_once_example =
    recover_stale_settlement_once message message (text "k") state
      (give_back message (text "k") seller 30 state) recovery refl recovered

recover_stale_settlement_refunds_example :
    (fee : ℕ) × (to_decimal 30 ≡ to_decimal fee)
    × (seller_credit_balance_for seller
          (give_back message (text "k") seller 30 state).seller_credits
        ≡ sat_u128 (seller_credit_balance_for seller credits + fee))
unfolding recovery
recover_stale_settlement_refunds_example =
    recover_stale_settlement_refunds message (text "k") seller state
      (give_back message (text "k") seller 30 state) recovery normal
      (unfold seller_credit_balance_for Map.get text text_eq in omega arith) recovered

insert_settlement_stores_example :
    let (stored, after) = insert_settlement message (text "k") stale state in
    (Map.get (text "k") after.settlements ≡ some stored)
    × (Map.get (text "j") after.settlements ≡ Map.get (text "j") state.settlements)
    × (Map.get (index_key seller stored.created_at (text "k")) after.seller_settlement_index
        ≡ some (text "k"))
insert_settlement_stores_example =
    insert_settlement_stores message (text "k") (text "j") seller stale state
      (text_ne _ _ (unfold text text_eq in refl)) refl

insert_settlement_keeps_example :
    let stored = (insert_settlement message (text "k") stale state).0 in
    (stored.charged_fee ≡ some (text "30"))
    × (stored.settlement_kind ≡ some (text "exact"))
    × (stored.created_at ≡ stale.created_at)
    × (stored.attempt_started_at ≡ stale.attempt_started_at)
    × (stored.target_total_claimed ≡ stale.target_total_claimed)
    × (stored.status ≡ stale.status)
insert_settlement_keeps_example =
    insert_settlement_keeps message (text "k") stale stale state (text "30") (text "exact")
      (unfold Map.get text text_eq in refl) refl refl

-- The settlement after its transaction was sent.
abbrev sent : SettlementRecord
sent = record stale {
  status = text "broadcast";
  response = record stale.response { transaction = text "0x1" };
}

abbrev details_of_sent : BroadcastSettlement
details_of_sent = record {
  amount = text "5";
  batch_pre_refund_snapshot = none;
  payer = buyer;
  pay_to = seller;
  tx = text "0x1";
}

broadcast_settlement_iff_example : (broadcast_settlement sent ≡ some details_of_sent) ↔ (
    (sent.status ≡ text "broadcast")
    × (is_blank details_of_sent.tx ≡ false)
    × (sent.response.transaction ≡ details_of_sent.tx)
    × (sent.response.amount ≡ some details_of_sent.amount)
    × (sent.response.payer ≡ some details_of_sent.payer)
    × (sent.pay_to ≡ some details_of_sent.pay_to)
    × (sent.batch_pre_refund_snapshot ≡ details_of_sent.batch_pre_refund_snapshot))
broadcast_settlement_iff_example = broadcast_settlement_iff sent details_of_sent
