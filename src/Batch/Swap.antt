-- ===== src/Batch/Swap.antt =====
-- What a caller of `batch_update_channel` can rely on.
use ic_facilitator.Prelude.{ℕ, ◌≡◌, ◌≢◌, inl, inr, ap, Option, some, arith, ok, >>=-eq-ok}
use ic_facilitator.Text.{Text, text, text_eq_iff, to_ascii_lowercase}
use ic_facilitator.Map
use ic_facilitator.Map.{Map, get-insert_other, get-insert_self}
use ic_facilitator.Crates.{Message}
use ic_facilitator.State.{State, BatchChannel}
use ic_facilitator.Config.{configured_batch_settlement_contract}
use ic_facilitator.Batch.Channel.{
  validate_batch_channel, validate_batch_channel_transition, validate_batch_channel_runtime_config,
}
use ic_facilitator.Batch.Store.{get_batch_channel}
use ic_facilitator.Batch.Writers.{authorize_batch_channel_update}
use ic_facilitator.Batch.Update.{
  BatchChannelUpdateResult, batch_update_channel, validate_update, revised, revision_of,
}
use ic_facilitator.Batch.Revisions.{opened, write_channel-Written, invalid_shown}

-- What the checks of an update establish.
pub validate_update-ok :
    (m : Message) (vars : Map Text) (key : Text) (current : Option BatchChannel)
    (channel : BatchChannel)
    → validate_update m vars key current channel ≡ ok tt
    → (contract : Text) × (validate_batch_channel m vars key channel contract ≡ ok tt)
      × (validate_batch_channel_transition m current channel ≡ ok tt)
      × (authorize_batch_channel_update m current (some channel) ≡ ok tt)
unfolding validate_update
validate_update-ok m vars key current channel e =
    let (contract, _, r1) = >>=-eq-ok (configured_batch_settlement_contract m vars) _ e in
    let (_, valid, r2) = >>=-eq-ok (validate_batch_channel m vars key channel contract) _ r1 in
    let (_, _, r3) = >>=-eq-ok (validate_batch_channel_runtime_config m vars channel) _ r2 in
    let (_, follows, r4) = >>=-eq-ok (validate_batch_channel_transition m current channel) _ r3 in
    (contract, valid, follows, r4)

-- An update that answers "updated" expected the stored revision, brought a channel that is valid,
-- may follow the stored one and whose writer is authorised; it is then what is stored, with the next
-- revision, and every other channel is as it was.
pub updated_swaps :
    (m : Message) (channel_id other : Text) (expected : Option ℕ) (channel : BatchChannel)
    (s after : State) (r : BatchChannelUpdateResult)
    → batch_update_channel m channel_id expected (some channel) s ≡ some (r, after)
    → r.status ≡ text "updated"
    → to_ascii_lowercase (to_ascii_lowercase channel_id) ≢ other
    → let key = to_ascii_lowercase channel_id in
      let current = get_batch_channel key s.batch_channels in
      (expected ≡ revision_of current)
      × ((contract : Text) × (validate_batch_channel m s.env key channel contract ≡ ok tt)
          × (validate_batch_channel_transition m current channel ≡ ok tt)
          × (authorize_batch_channel_update m current (some channel) ≡ ok tt))
      × (get_batch_channel key after.batch_channels ≡ some (revised key current channel))
      × (Map.get other after.batch_channels ≡ Map.get other s.batch_channels)
unfolding get_batch_channel
updated_swaps m channel_id other expected channel s after r e u ne =
    let key = to_ascii_lowercase channel_id in
    let current = get_batch_channel key s.batch_channels in
    elim (opened m channel_id expected channel s after r e) [
      | inr (differs, same) ↦ absurd (ground (arith, text_eq_iff r.status (text "updated")))
      | inl (expects, written) ↦
          elim (write_channel-Written m key current channel s after r written) [
            | inr (invalid, same) ↦
                absurd
                  (ground (arith, invalid_shown, text_eq_iff (text "invalid") (text "updated")))
            | inl (valid, answer, stored, room) ↦ (
              expects,
              validate_update-ok m s.env key current channel valid,
              rw (stored, get-insert_self),
              rw stored (get-insert_other (to_ascii_lowercase key) other _ s.batch_channels ne),
            )
          ]
    ]

-- An update with a channel that answers anything else leaves the stored channels as they were.
pub refused_keeps :
    (m : Message) (channel_id : Text) (expected : Option ℕ) (channel : BatchChannel)
    (s after : State) (r : BatchChannelUpdateResult)
    → batch_update_channel m channel_id expected (some channel) s ≡ some (r, after)
    → r.status ≢ text "updated"
    → after.batch_channels ≡ s.batch_channels
refused_keeps m channel_id expected channel s after r e ne =
    let key = to_ascii_lowercase channel_id in
    let current = get_batch_channel key s.batch_channels in
    elim (opened m channel_id expected channel s after r e) [
      | inr (differs, same) ↦ ap (λ x. x.batch_channels) same
      | inl (expects, written) ↦
          elim (write_channel-Written m key current channel s after r written) [
            | inr (invalid, same) ↦ same
            | inl (valid, answer, stored, room) ↦ absurd (ne (ap (λ x. x.status) answer))
          ]
    ]
