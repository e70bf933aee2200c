-- ===== src/Batch/Returns.antt =====
-- An update never traps: the amounts that it reads back were checked before they were stored.
use ic_facilitator.Prelude.{
  ℕ, ◌≡◌, ◌≢◌, refl, inl, inr, true, Option, none, some, arith, is_some, ok, err, Option-cases,
  Result-cases,
}
use ic_facilitator.Text.{Text, to_ascii_lowercase}
use ic_facilitator.Map
use ic_facilitator.Map.{Map, get-insert_self}
use ic_facilitator.Map.Entries.{get-Values}
use ic_facilitator.Crates.{Message}
use ic_facilitator.State.{State, BatchChannel}
use ic_facilitator.AutoClaim.{amount, fresh, save}
use ic_facilitator.AutoClaim.Hooks.{
  before_update, after_update, before_delete, registered, reserve_pending, charged_of,
}
use ic_facilitator.Batch.Store.{put_batch_channel, get_batch_channel}
use ic_facilitator.Batch.Update.{
  BatchChannelUpdateResult, batch_update_channel, write_channel, delete_channel, store_update,
  validate_update, revised,
}
use ic_facilitator.Batch.Swap.{validate_update-ok}
use ic_facilitator.Batch.Stored.{StoredWell, WithinBounds, validate_batch_channel-WithinBounds}

-- The charge of a channel can be read back.
abbrev Readable : BatchChannel → Type 0
Readable channel = is_some (amount channel.charged_cumulative_amount) ≡ true

registered_returns :
    (m : Message) (id : Text) (next : BatchChannel) (s : State)
    → Readable next
    → registered m id next s ≢ none
unfolding registered fresh
registered_returns m id next s h e = ground arith

registered_stores :
    (m : Message) (id : Text) (next : BatchChannel) (s after : State)
    → registered m id next s ≡ some (ok tt, after)
    → Map.get id after.collections ≢ none
unfolding registered save
registered_stores m id next s after e f = grind (arith, get-insert_self)

reserve_pending_returns :
    (m : Message) (next : BatchChannel) (s : State)
    → Readable next
    → reserve_pending m next s ≢ none
unfolding reserve_pending
reserve_pending_returns m next s h e = elim (Option-cases (registered m next.channel_id next s)) [
  | inl trapped ↦ registered_returns m next.channel_id next s h trapped
  | inr ((err _, s'), done) ↦ (let f = rw (reserve_pending, done) at e in cc)
  | inr ((ok _, s'), done) ↦
      let f = rw (reserve_pending, done) at e in
      elim (Option-cases (Map.get next.channel_id s'.collections)) [
        | inl missing ↦ registered_stores m next.channel_id next s s' done missing
        | inr (c, found) ↦ (let g = rw found at f in cc)
      ]
]

before_update_returns :
    (m : Message) (current : Option BatchChannel) (next : BatchChannel) (s : State)
    → Readable next
    → before_update m current next s ≢ none
unfolding before_update
before_update_returns m current next s h e = ground (arith, reserve_pending_returns m next s h)

after_update_returns :
    (m : Message) (current : Option BatchChannel) (next : BatchChannel) (s : State)
    → is_some (charged_of current) ≡ true
    → Readable next
    → after_update m current next s ≢ none
unfolding after_update
after_update_returns m current next s k h e = ground arith

store_update_returns :
    (m : Message) (key : Text) (current : Option BatchChannel) (stored : BatchChannel) (s : State)
    → is_some (charged_of current) ≡ true
    → Readable stored
    → store_update m key current stored s ≢ none
unfolding store_update put_batch_channel
store_update_returns m key current stored s k h e = ground (
  arith,
  after_update_returns m current stored
      (record s { batch_channels = Map.insert (to_ascii_lowercase key) stored s.batch_channels }) k
      h,
)

write_channel_returns :
    (m : Message) (key : Text) (current : Option BatchChannel) (channel : BatchChannel) (s : State)
    → is_some (charged_of current) ≡ true
    → write_channel m key current channel s ≢ none
unfolding write_channel
write_channel_returns m key current channel s k e =
    elim (Result-cases (validate_update m s.env key current channel)) [
      | inr (message, refused) ↦ (let f = rw (write_channel, refused) at e in cc)
      | inl (done, valid) ↦
          let f = rw (write_channel, valid) at e in
          let (contract, checked, _, _) = validate_update-ok m s.env key current channel valid in
          let bounds = validate_batch_channel-WithinBounds m s.env key channel contract checked in
          let readable : Readable channel = bounds.5 in
          elim (Option-cases (before_update m current (record channel { channel_id = key }) s)) [
            | inl trapped ↦
                before_update_returns m current (record channel { channel_id = key }) s readable
                  trapped
            | inr ((err _, s'), before) ↦ (let g = rw before at f in cc)
            | inr ((ok _, s'), before) ↦
                store_update_returns m key current (revised key current channel) s' k readable
                  (rw before at f)
          ]
    ]

before_delete_returns :
    (m : Message) (key : Text) (channel : BatchChannel) (s : State)
    → get_batch_channel key s.batch_channels ≡ some channel
    → Readable channel
    → before_delete m key s ≢ none
unfolding before_delete get_batch_channel
before_delete_returns m key channel s found h e = ground arith

delete_channel_returns :
    (m : Message) (key : Text) (current : Option BatchChannel) (s : State)
    → get_batch_channel key s.batch_channels ≡ current
    → is_some (charged_of current) ≡ true
    → delete_channel m key current s ≢ none
unfolding delete_channel
delete_channel_returns m key none s found h e = cc
delete_channel_returns m key (some channel) s found h e =
    ground (arith, before_delete_returns m key channel s found h)

current-Readable :
    (key : Text) (channels : Map BatchChannel) (current : Option BatchChannel)
    → StoredWell channels
    → get_batch_channel key channels ≡ current
    → is_some (charged_of current) ≡ true
unfolding get_batch_channel
current-Readable key channels none well found = ground arith
current-Readable key channels (some channel) (_, _, bounds) found =
    (get-Values WithinBounds (to_ascii_lowercase key) channel channels bounds found).5

batch_update_channel_returns :
    (m : Message) (channel_id : Text) (expected : Option ℕ) (update : Option BatchChannel)
    (s : State)
    → StoredWell s.batch_channels
    → batch_update_channel m channel_id expected update s ≢ none
unfolding batch_update_channel
batch_update_channel_returns m channel_id expected none s well e =
    let key = to_ascii_lowercase channel_id in
    let current = get_batch_channel key s.batch_channels in
    let k = current-Readable key s.batch_channels current well refl in
    ground (arith, delete_channel_returns m key current s refl k)
batch_update_channel_returns m channel_id expected (some channel) s well e =
    let key = to_ascii_lowercase channel_id in
    let current = get_batch_channel key s.batch_channels in
    let k = current-Readable key s.batch_channels current well refl in
    ground (arith, write_channel_returns m key current channel s k)

-- On well-formed stored channels an update never traps: it answers, whatever it brings.
pub batch_update_channel_answers :
    (m : Message) (channel_id : Text) (expected : Option ℕ) (update : Option BatchChannel)
    (s : State)
    → StoredWell s.batch_channels
    → (r : BatchChannelUpdateResult) × (after : State) × (batch_update_channel m channel_id expected
          update s
        ≡ some (r, after))
batch_update_channel_answers m channel_id expected update s well =
    elim (Option-cases (batch_update_channel m channel_id expected update s)) [
      | inr ((r, after), answered) ↦ (r, after, answered)
      | inl trapped ↦
          absurd (batch_update_channel_returns m channel_id expected update s well trapped)
    ]
