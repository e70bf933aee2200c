-- ===== src/Batch/Revisions.antt =====
-- The update of a channel as a compare-and-swap: rust/facilitator/src/lib.rs,
-- `batch_update_channel`.
use ic_facilitator.Prelude.{
  ℕ, ◌<◌, ◌≡◌, ◌⊎◌, inl, inr, refl, true, false, Option, none, some, arith, length, is_some,
  Checked, ok, err, Result-cases, Option-cases, Bool-cases,
}
use ic_facilitator.Text.{Text, text, text_eq, to_ascii_lowercase}
use ic_facilitator.Map
use ic_facilitator.Map.{Map, get-insert, get-insert_self}
use ic_facilitator.Crates.{Message}
use ic_facilitator.State.{State, BatchChannel}
use ic_facilitator.Batch.Checks.{validate_channel_id}
use ic_facilitator.AutoClaim.{save}
use ic_facilitator.AutoClaim.Hooks.{
  before_update, after_update, reserve_pending, registered, monitored,
}
use ic_facilitator.Batch.Store.{put_batch_channel, can_put_batch_channel, get_batch_channel}
use ic_facilitator.Batch.Update.{
  BatchChannelUpdateResult, batch_update_channel, write_channel, store_update, validate_update,
  revised, revision_of, same_revision, updated,
}

after_update_keeps :
    (m : Message) (current : Option BatchChannel) (next : BatchChannel) (s after : State)
    → after_update m current next s ≡ some after
    → after.batch_channels ≡ s.batch_channels
unfolding after_update save
after_update_keeps m current next s after e = ground arith

monitored_keeps :
    (m : Message) (id : Text) (c : _) (s : State)
    → (monitored m id c s).1.batch_channels ≡ s.batch_channels
unfolding monitored save
monitored_keeps m id c s = ground arith

registered_keeps :
    (m : Message) (id : Text) (next : BatchChannel) (s after : State) (r : Checked)
    → registered m id next s ≡ some (r, after)
    → after.batch_channels ≡ s.batch_channels
unfolding registered save
registered_keeps m id next s after r e = ground arith

reserve_pending_keeps :
    (m : Message) (next : BatchChannel) (s after : State) (r : Checked)
    → reserve_pending m next s ≡ some (r, after)
    → after.batch_channels ≡ s.batch_channels
unfolding reserve_pending
reserve_pending_keeps m next s after r e =
    elim (Option-cases (registered m next.channel_id next s)) [
      | inl trapped ↦ absurd (let f = rw (reserve_pending, trapped) at e in cc)
      | inr ((ok _, s'), done) ↦
          let same = registered_keeps m next.channel_id next s s' (ok tt) done in
          let f = rw (reserve_pending, done) at e in
          elim (Option-cases (Map.get next.channel_id s'.collections)) [
            | inl missing ↦ absurd (let g = rw missing at f in cc)
            | inr (c, found) ↦
                let g = rw found at f in
                let kept = monitored_keeps m next.channel_id c s' in ground (arith, kept, same)
          ]
      | inr ((err _, s'), done) ↦
          let same = registered_keeps m next.channel_id next s s' (err _) done in
          let f = rw (reserve_pending, done) at e in ground (arith, same)
    ]

before_update_keeps :
    (m : Message) (current : Option BatchChannel) (next : BatchChannel) (s after : State)
    (r : Checked)
    → before_update m current next s ≡ some (r, after)
    → after.batch_channels ≡ s.batch_channels
unfolding before_update
before_update_keeps m current next s after r e =
    ground (arith, reserve_pending_keeps m next s after r)

-- What a write does to the stored channels: it stores the revised channel, or nothing.
abbrev Stores :
    Text → Option BatchChannel → BatchChannel → State → BatchChannelUpdateResult → State → Type 0
Stores key current stored s r after =
    ((r ≡ updated stored)
      × (after.batch_channels ≡ Map.insert (to_ascii_lowercase key) stored s.batch_channels)
      × ((is_some (Map.get (to_ascii_lowercase key) s.batch_channels) ≡ true)
          ⊎ (length s.batch_channels < 1000)))
    ⊎ ((r.status ≡ text "invalid") × (after.batch_channels ≡ s.batch_channels))

store_update-Stores :
    (m : Message) (key : Text) (current : Option BatchChannel) (stored : BatchChannel)
    (s after : State) (r : BatchChannelUpdateResult)
    → store_update m key current stored s ≡ some (r, after)
    → Stores key current stored s r after
unfolding store_update put_batch_channel can_put_batch_channel
store_update-Stores m key current stored s after r e = ground (
  arith,
  after_update_keeps m current stored
      (record s { batch_channels = Map.insert (to_ascii_lowercase key) stored s.batch_channels })
      after,
)

-- What a write comes to: every check passed and the revised channel is stored, or the answer is
-- "invalid" and the stored channels are as they were.
abbrev pub Written :
    Message
    → Text
    → Option BatchChannel
    → BatchChannel
    → State
    → BatchChannelUpdateResult
    → State
    → Type 0
Written m key current channel s r after =
    ((validate_update m s.env key current channel ≡ ok tt)
      × (r ≡ updated (revised key current channel))
      × (after.batch_channels
          ≡ Map.insert (to_ascii_lowercase key) (revised key current channel) s.batch_channels)
      × ((is_some (Map.get (to_ascii_lowercase key) s.batch_channels) ≡ true)
          ⊎ (length s.batch_channels < 1000)))
    ⊎ ((r.status ≡ text "invalid") × (after.batch_channels ≡ s.batch_channels))

pub write_channel-Written :
    (m : Message) (key : Text) (current : Option BatchChannel) (channel : BatchChannel)
    (s after : State) (r : BatchChannelUpdateResult)
    → write_channel m key current channel s ≡ some (r, after)
    → Written m key current channel s r after
unfolding write_channel
write_channel-Written m key current channel s after r e =
    elim (Result-cases (validate_update m s.env key current channel)) [
      | inr (message, refused) ↦ inr (let f = rw (write_channel, refused) at e in ground arith)
      | inl (done, valid) ↦
          let f = rw (write_channel, valid) at e in
          elim (Option-cases (before_update m current (record channel { channel_id = key }) s)) [
            | inl trapped ↦ absurd (let g = rw trapped at f in cc)
            | inr ((err _, s'), before) ↦
                let kept = before_update_keeps m current _ s s' (err _) before in
                let g = rw before at f in inr (ground (arith, kept))
            | inr ((ok _, s'), before) ↦
                let kept = before_update_keeps m current _ s s' (ok tt) before in
                let g = rw before at f in
                let stored =
                  store_update-Stores m key current (revised key current channel) s' after r g in
                elim (rw kept at stored) [
                  | inl written ↦ inl (valid, written.0, written.1, written.2)
                  | inr same ↦ inr same
                ]
          ]
    ]

same_revision-eq : (a b : Option ℕ) → same_revision a b ≡ true → a ≡ b
unfolding same_revision
same_revision-eq none none e = refl
same_revision-eq none (some b) e = cc
same_revision-eq (some a) none e = cc
same_revision-eq (some a) (some b) e = ground arith

pub invalid_shown : text_eq (text "invalid") (text "updated") ≡ false
unfolding text text_eq
invalid_shown = refl

conflict_shown : text_eq (text "conflict") (text "updated") ≡ false
unfolding text text_eq
conflict_shown = refl

-- An update that writes either reaches the write with the revision it expects, or changes nothing.
pub opened :
    (m : Message) (channel_id : Text) (expected : Option ℕ) (channel : BatchChannel)
    (s after : State) (r : BatchChannelUpdateResult)
    → let key = to_ascii_lowercase channel_id in
      let current = get_batch_channel key s.batch_channels in
      batch_update_channel m channel_id expected (some channel) s ≡ some (r, after)
      → ((expected ≡ revision_of current)
          × (write_channel m key current channel s ≡ some (r, after)))
        ⊎ ((text_eq r.status (text "updated") ≡ false) × (after ≡ s))
unfolding batch_update_channel
opened m channel_id expected channel s after r e =
    elim (Result-cases (validate_channel_id m.crates channel_id)) [
      | inr (message, refused) ↦ inr (
          let f = rw (batch_update_channel, refused) at e in
          let shown = invalid_shown in ground arith)
      | inl (done, valid) ↦
          let f = rw (batch_update_channel, valid) at e in
          let shown = conflict_shown in
          let same =
            same_revision-eq expected
              (revision_of (get_batch_channel (to_ascii_lowercase channel_id) s.batch_channels)) in
          elim (Bool-cases (
            same_revision expected
              (revision_of (get_batch_channel (to_ascii_lowercase channel_id) s.batch_channels)))) [
                | inl equal ↦ inl (same equal, rw equal at f)
                | inr differs ↦ inr (let g = rw differs at f in ground arith)
              ]
    ]
