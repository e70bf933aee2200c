-- ===== src/Settlement/Store.antt =====
-- rust/facilitator/src/lib.rs: the map of settlements and its index by seller.
use ic_facilitator.Prelude.{
  ℕ, ◌≡◌, ◌≢◌, inl, inr, false, Option, none, some, [], ◌++◌, arith, if◌then◌else◌, Option-cases,
  unwrap_or, or_else, Result, ok, err,
}
use ic_facilitator.Text.{
  Text, text, text_eq, text_eq_iff, to_decimal, to_decimal_020, to_ascii_lowercase,
}
use ic_facilitator.Map
use ic_facilitator.Map.{Map, get-insert, get-insert_self, get-remove, get-remove_self}
use ic_facilitator.Crates.{Message}
use ic_facilitator.State.{SettlementRecord, State}
use ic_facilitator.Config.{seller_settlement_fee_amount, rpc_config, RpcConfig}
use ic_facilitator.Settlement.Record.{inherit_metadata_from}

-- `format!("{seller}|{:020}|{key}", record.created_at)`
unfoldable pub index_key : Text → ℕ → Text → Text
index_key seller created_at key =
    to_ascii_lowercase seller ++ (text "|" ++ (to_decimal_020 created_at ++ (text "|" ++ key)))

unfoldable pub remove_settlement_index_entry : Text → SettlementRecord → Map Text → Map Text
remove_settlement_index_entry key r index = elim r.pay_to [
  | none ↦ index
  | some seller ↦ Map.remove (index_key seller r.created_at key) index
]

unfoldable pub remove_settlement : Text → State → State
unfolding remove_settlement_index_entry
remove_settlement key s = elim (Map.get key s.settlements) [
  | none ↦ record s { settlements = Map.remove key s.settlements }
  | some r ↦ record s {
    settlements = Map.remove key s.settlements;
    seller_settlement_index = remove_settlement_index_entry key r s.seller_settlement_index;
  }
]

abbrev fee_or_zero : Result ℕ → ℕ
fee_or_zero (ok n) = n
fee_or_zero (err _) = 0

abbrev confirmations_or_zero : Result RpcConfig → ℕ
confirmations_or_zero (ok config) = config.min_confirmations
confirmations_or_zero (err _) = 0

-- `extra.entry(name).or_insert_with(|| value)`
abbrev or_insert : Text → Text → Map Text → Map Text
or_insert name value extra =
    if Map.contains_key name extra then extra else Map.insert name value extra

-- The record as it is stored: its kind and fee settled, and the `extra` map filled in.
unfoldable pub completed : Message → Map Text → Text → SettlementRecord → SettlementRecord
completed m vars key r =
    let extra = unwrap_or r.response.extra [] in
    let kind =
      unwrap_or (or_else r.settlement_kind (Map.get (text "settlementKind") extra))
        (text "exact") in
    let extra' = or_insert (text "settlementKind") kind extra in
    let fee =
      unwrap_or (or_else r.charged_fee (Map.get (text "settlementFee") extra'))
        (to_decimal (fee_or_zero (seller_settlement_fee_amount m vars))) in
    let extra'' = or_insert (text "settlementFee") fee extra' in
    let confirmations =
      if r.response.success then confirmations_or_zero (rpc_config m vars) else 0 in
    record r {
      settlement_kind = some kind;
      charged_fee = some fee;
      response = record r.response {
        extra = some (
            Map.insert (text "settlementKey") key
              (Map.insert (text "confirmations") (to_decimal confirmations) extra''));
      };
    }

-- What is left of the previous record under the key: its index entry goes, its metadata stay.
abbrev previous_index : Text → Option SettlementRecord → Map Text → Map Text
previous_index key none index = index
previous_index key (some previous) index = remove_settlement_index_entry key previous index

abbrev inherited : Option SettlementRecord → SettlementRecord → SettlementRecord
inherited none r = r
inherited (some previous) r = inherit_metadata_from r previous

abbrev indexed : Text → SettlementRecord → Option Text → Map Text → Map Text
indexed key r none index = index
indexed key r (some seller) index = Map.insert (index_key seller r.created_at key) key index

unfoldable pub insert_settlement :
    Message → Text → SettlementRecord → State → SettlementRecord × State
unfolding completed
insert_settlement m key r s =
    let previous = Map.get key s.settlements in
    let stored = completed m s.env key (inherited previous r) in
    (
      stored,
      record s {
        settlements = Map.insert key stored s.settlements;
        seller_settlement_index =
            indexed key stored stored.pay_to
              (previous_index key previous s.seller_settlement_index);
      },
    )

unfoldable pub insert_batch_settlement :
    Message → Text → SettlementRecord → Option ℕ → State → SettlementRecord × State
unfolding insert_settlement
insert_batch_settlement m key r fee s =
    let extra = Map.insert (text "settlementKind") (text "batch") (unwrap_or r.response.extra []) in
    insert_settlement m key
      (elim fee [
        | none ↦ record r {
          settlement_kind = some (text "batch");
          response = record r.response { extra = some extra };
        }
        | some n ↦ record r {
          settlement_kind = some (text "batch");
          charged_fee = some (to_decimal n);
          response = record r.response {
            extra = some (Map.insert (text "settlementFee") (to_decimal n) extra);
          };
        }
      ])
      s

-- What is stored under a key is what is answered, under that key alone; and the record of a seller
-- is found through the index.
pub insert_settlement_stores :
    (m : Message) (key other seller : Text) (r : SettlementRecord) (s : State)
    → key ≢ other
    → r.pay_to ≡ some seller
    → let (stored, after) = insert_settlement m key r s in
      (Map.get key after.settlements ≡ some stored)
      × (Map.get other after.settlements ≡ Map.get other s.settlements)
      × (Map.get (index_key seller stored.created_at key) after.seller_settlement_index ≡ some key)
unfolding insert_settlement inherit_metadata_from
insert_settlement_stores m key other seller r s ne e = (
  get-insert_self key _ s.settlements,
  (let miss : text_eq key other ≡ false = ground (arith, text_eq_iff key other) in
      rw (get-insert, miss)),
  elim (Option-cases (Map.get key s.settlements)) [
    | inl fresh ↦ rw (fresh, e, get-insert_self)
    | inr (previous, old) ↦ rw (old, e, get-insert_self)
  ],
)

-- A settlement keeps what its first record was created with: whatever is stored under its key later,
-- the time of creation, the kind, the fee that was charged, the start of the attempt and the target
-- stay.
pub insert_settlement_keeps :
    (m : Message) (key : Text) (r previous : SettlementRecord) (s : State) (fee kind : Text)
    → Map.get key s.settlements ≡ some previous
    → previous.charged_fee ≡ some fee
    → previous.settlement_kind ≡ some kind
    → let stored = (insert_settlement m key r s).0 in
      (stored.charged_fee ≡ some fee)
      × (stored.settlement_kind ≡ some kind)
      × (stored.created_at ≡ previous.created_at)
      × (stored.attempt_started_at ≡ previous.attempt_started_at)
      × (stored.target_total_claimed ≡ previous.target_total_claimed)
      × (stored.status ≡ r.status)
unfolding insert_settlement inherit_metadata_from
insert_settlement_keeps m key r previous s fee kind e f k =
    (rw (e, f), rw (e, k), rw e, rw e, rw e, rw e)

-- Removal forgets the settlement and leaves the others.
pub remove_settlement_forgets :
    (key other : Text) (s : State)
    → key ≢ other
    → (Map.get key (remove_settlement key s).settlements ≡ none)
      × (Map.get other (remove_settlement key s).settlements ≡ Map.get other s.settlements)
unfolding remove_settlement
remove_settlement_forgets key other s ne =
    grind (arith, get-remove, get-remove_self, text_eq_iff key other)
