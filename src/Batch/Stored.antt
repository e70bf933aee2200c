-- ===== src/Batch/Stored.antt =====
-- What holds of every stored channel.
use ic_facilitator.Prelude.{
  ℕ, ◌^◌, ◌≤◌, ◌<◌, ◌≡◌, ◌⊎◌, inl, inr, refl, true, Option, none, some, arith, length, is_some, ok,
  >>=-eq-ok,
}
use ic_facilitator.Text.{text, Text, to_ascii_lowercase}
use ic_facilitator.Map
use ic_facilitator.Map.{Map, get-insert, get-insert_other, get-insert_self, get-remove}
use ic_facilitator.Map.Order.{
  IsSorted, insert-IsSorted, remove-IsSorted, length-insert, length-remove-le,
}
use ic_facilitator.Map.Entries.{Values, insert-Values, remove-Values}
use ic_facilitator.Crates.{Message}
use ic_facilitator.State.{State, BatchChannel}
use ic_facilitator.Batch.Checks.{parse_u128_decimal}
use ic_facilitator.Batch.Channel.{
  validate_batch_channel, validate_identity, validate_texts, validate_stored_channel_voucher,
  validate_stored_channel_amounts,
}
use ic_facilitator.Batch.Amounts.{
  number, parse_u128_decimal-number, validate_stored_channel_amounts-bounds,
}
use ic_facilitator.Batch.Store.{get_batch_channel}
use ic_facilitator.Batch.Update.{
  BatchChannelUpdateResult, batch_update_channel, delete_channel, deleted, revised,
}
use ic_facilitator.AutoClaim.{remove, amount}
use ic_facilitator.AutoClaim.Hooks.{after_delete}
use ic_facilitator.Batch.Revisions.{opened, write_channel-Written}
use ic_facilitator.Batch.Swap.{validate_update-ok}

-- What a channel owes and has claimed lies within what was signed for and its balance, and what it
-- owes can be read back.
abbrev pub WithinBounds : BatchChannel → Type 0
WithinBounds channel =
    (number channel.charged_cumulative_amount ≤ number channel.signed_max_claimable)
    × (number channel.total_claimed ≤ number channel.signed_max_claimable)
    × (number channel.total_claimed ≤ number channel.balance)
    × (number channel.signed_max_claimable < 2 ^ 128)
    × (number channel.balance < 2 ^ 128)
    × (is_some (amount channel.charged_cumulative_amount) ≡ true)

charged-readable :
    (channel : BatchChannel)
    → validate_stored_channel_amounts channel ≡ ok tt
    → is_some (amount channel.charged_cumulative_amount) ≡ true
unfolding validate_stored_channel_amounts amount
charged-readable channel e =
    let (n, e1, _) =
      >>=-eq-ok
        (parse_u128_decimal (text "chargedCumulativeAmount") channel.charged_cumulative_amount) _
        e in
    let (_, _, found) =
      parse_u128_decimal-number (text "chargedCumulativeAmount") channel.charged_cumulative_amount
        e1 in
    rw found refl

pub validate_batch_channel-WithinBounds :
    (m : Message) (vars : Map Text) (id : Text) (channel : BatchChannel) (contract : Text)
    → validate_batch_channel m vars id channel contract ≡ ok tt
    → WithinBounds channel
unfolding validate_batch_channel validate_stored_channel_voucher
validate_batch_channel-WithinBounds m vars id channel contract e =
    let (_, _, r1) = >>=-eq-ok (validate_identity m vars id channel contract) _ e in
    let (_, _, r2) = >>=-eq-ok (validate_texts m channel) _ r1 in
    let (_, voucher, _) =
      >>=-eq-ok (validate_stored_channel_voucher m vars channel contract) _ r2 in
    let (_, amounts, _) = >>=-eq-ok (validate_stored_channel_amounts channel) _ voucher in
    let (a, b, c, d, e) = validate_stored_channel_amounts-bounds channel amounts in
    (a, b, c, d, e, charged-readable channel amounts)

deleted-batch_channels :
    (m : Message) (key : Text) (channel : BatchChannel) (s : State)
    → (deleted m key channel s).batch_channels ≡ Map.remove key s.batch_channels
unfolding deleted after_delete remove
deleted-batch_channels m key channel s = refl

-- A deletion removes one stored channel or none.
delete_channel-keeps :
    (m : Message) (key : Text) (current : Option BatchChannel) (s after : State)
    (r : BatchChannelUpdateResult)
    → delete_channel m key current s ≡ some (r, after)
    → (after.batch_channels ≡ Map.remove key s.batch_channels)
      ⊎ (after.batch_channels ≡ s.batch_channels)
unfolding delete_channel
delete_channel-keeps m key none s after r e = ground arith
delete_channel-keeps m key (some channel) s after r e =
    ground (arith, deleted-batch_channels m key channel s)

opened_deletion :
    (m : Message) (channel_id : Text) (expected : Option ℕ) (s after : State)
    (r : BatchChannelUpdateResult)
    → let key = to_ascii_lowercase channel_id in
      batch_update_channel m channel_id expected none s ≡ some (r, after)
      → (delete_channel m key (get_batch_channel key s.batch_channels) s ≡ some (r, after))
        ⊎ (after ≡ s)
unfolding batch_update_channel
opened_deletion m channel_id expected s after r e = ground arith

-- The stored channels are in the order of their keys, 1,000 at most, and each has been charged and
-- claimed within what was signed for.
abbrev pub StoredWell : Map BatchChannel → Type 0
StoredWell channels = IsSorted channels × (length channels ≤ 1000) × Values WithinBounds channels

insert-StoredWell :
    (key : Text) (channel : BatchChannel) (channels : Map BatchChannel)
    → StoredWell channels
    → WithinBounds channel
    → (is_some (Map.get key channels) ≡ true) ⊎ (length channels < 1000)
    → StoredWell (Map.insert key channel channels)
insert-StoredWell key channel channels (sorted, few, bounds) b room = (
  insert-IsSorted key channel channels sorted,
  ground (arith, length-insert key channel channels sorted),
  insert-Values WithinBounds key channel channels b bounds,
)

remove-StoredWell :
    (key : Text) (channels : Map BatchChannel)
    → StoredWell channels
    → StoredWell (Map.remove key channels)
remove-StoredWell key channels (sorted, few, bounds) = (
  remove-IsSorted key channels sorted,
  omega (arith, length-remove-le key channels),
  remove-Values WithinBounds key channels bounds,
)

-- Every update, whatever it brings and answers, keeps the stored channels well formed: in order,
-- 1,000 at most, each charged and claimed within what was signed for and its balance, with a charge
-- that can be read back.
pub batch_update_channel-StoredWell :
    (m : Message) (channel_id : Text) (expected : Option ℕ) (update : Option BatchChannel)
    (s after : State) (r : BatchChannelUpdateResult)
    → StoredWell s.batch_channels
    → batch_update_channel m channel_id expected update s ≡ some (r, after)
    → StoredWell after.batch_channels
batch_update_channel-StoredWell m channel_id expected none s after r well e =
    let key = to_ascii_lowercase channel_id in
    elim (opened_deletion m channel_id expected s after r e) [
      | inr same ↦ rw same well
      | inl step ↦
          elim (delete_channel-keeps m key (get_batch_channel key s.batch_channels) s after r
            step) [
              | inl removed ↦ rw removed (remove-StoredWell key s.batch_channels well)
              | inr same ↦ rw same well
            ]
    ]
batch_update_channel-StoredWell m channel_id expected (some channel) s after r well e =
    let key = to_ascii_lowercase channel_id in
    let current = get_batch_channel key s.batch_channels in
    elim (opened m channel_id expected channel s after r e) [
      | inr (differs, same) ↦ rw same well
      | inl (expects, written) ↦
          elim (write_channel-Written m key current channel s after r written) [
            | inr (invalid, same) ↦ rw same well
            | inl (valid, answer, stored, room) ↦
                let (contract, checked, _, _) =
                  validate_update-ok m s.env key current channel valid in
                let bounds =
                  validate_batch_channel-WithinBounds m s.env key channel contract checked in
                rw stored (
                  insert-StoredWell (to_ascii_lowercase key) (revised key current channel)
                    s.batch_channels well bounds room)
          ]
    ]
