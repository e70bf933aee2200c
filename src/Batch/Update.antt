-- ===== src/Batch/Update.antt =====
-- rust/facilitator/src/lib.rs: the update call, a compare-and-swap on the revision. A `none` stands for a trap, after which the canister keeps the state it had.
use ic_facilitator.Prelude.{
  ℕ, ◌+◌, Bool, true, false, not, ◌&&◌, Option, none, some, ltb, ◌==◌, if◌then◌else◌, unwrap_or,
  Checked, ok, err, ◌>>=◌, ◌>>◌,
}
use ic_facilitator.Text.{Text, text, to_ascii_lowercase}
use ic_facilitator.Map
use ic_facilitator.Map.{Map}
use ic_facilitator.Crates.{Message}
use ic_facilitator.State.{State, BatchChannel, BatchPendingRequest}
use ic_facilitator.Config.{now_seconds, sat_u64, configured_batch_settlement_contract}
use ic_facilitator.Batch.Checks.{validate_channel_id, now_ms}
use ic_facilitator.Batch.Channel.{
  validate_batch_channel, validate_batch_channel_runtime_config, validate_batch_channel_transition,
  is_pending_only_provisional_channel,
}
use ic_facilitator.Batch.Store.{
  can_put_batch_channel, put_batch_channel, get_batch_channel, put_batch_deleted_channel,
}
use ic_facilitator.Batch.Writers.{authorize_batch_channel_update}
use ic_facilitator.AutoClaim.Hooks.{before_update, after_update, before_delete, after_delete}

pub record BatchChannelUpdateResult : Type 0 where
  pub status : Text
  pub channel : Option BatchChannel
  pub current_revision : Option ℕ
  pub message : Option Text

-- The checks of an update that change nothing, in their order.
unfoldable pub validate_update :
    Message → Map Text → Text → Option BatchChannel → BatchChannel → Checked
validate_update m vars key current channel = do
  contract ← configured_batch_settlement_contract m vars
  validate_batch_channel m vars key channel contract
  validate_batch_channel_runtime_config m vars channel
  validate_batch_channel_transition m current channel
  authorize_batch_channel_update m current (some channel)

abbrev pub revision_of : Option BatchChannel → Option ℕ
revision_of none = none
revision_of (some channel) = some channel.revision

abbrev pub invalid : Option BatchChannel → Text → BatchChannelUpdateResult
invalid current message = record {
  status = text "invalid";
  channel = current;
  current_revision = revision_of current;
  message = some message;
}

-- What is stored in place of `current`: the channel under its key, with the next revision.
abbrev pub revised : Text → Option BatchChannel → BatchChannel → BatchChannel
revised key current channel = record channel {
  channel_id = key;
  revision = sat_u64 (unwrap_or (revision_of current) 0 + 1);
}

abbrev pub updated : BatchChannel → BatchChannelUpdateResult
updated channel = record {
  status = text "updated";
  channel = some channel;
  current_revision = some channel.revision;
  message = none;
}

-- The update once every check has passed.
unfoldable pub store_update :
    Message
    → Text
    → Option BatchChannel
    → BatchChannel
    → State
    → Option (BatchChannelUpdateResult × State)
store_update m key current stored s =
    if not (can_put_batch_channel key s.batch_channels)
    then some (invalid current (text "batch channel storage limit reached"), s)
    else elim (put_batch_channel key stored s.batch_channels) [
      | err e ↦ some (invalid current e, s)
      | ok channels ↦
          elim (after_update m current stored (record s { batch_channels = channels })) [
            | none ↦ none
            | some s' ↦ some (updated stored, s')
          ]
    ]

-- `update.channel` is `Some(channel)`.
unfoldable pub write_channel :
    Message
    → Text
    → Option BatchChannel
    → BatchChannel
    → State
    → Option (BatchChannelUpdateResult × State)
write_channel m key current channel s = elim (validate_update m s.env key current channel) [
  | err e ↦ some (invalid current e, s)
  | ok _ ↦ elim (before_update m current (record channel { channel_id = key }) s) [
    | none ↦ none
    | some (err e, s') ↦ some (invalid current e, s')
    | some (ok _, s') ↦ store_update m key current (revised key current channel) s'
  ]
]

abbrev live_pending : ℕ → Option BatchPendingRequest → Bool
live_pending now none = false
live_pending now (some p) = ltb now p.expires_at

abbrev gone : Text → BatchChannelUpdateResult
gone status = record { status = status; channel = none; current_revision = none; message = none }

unfoldable pub deleted : Message → Text → BatchChannel → State → State
deleted m key channel s = after_delete key (record s {
  batch_deleted_channels =
      put_batch_deleted_channel key
        (record { channel = channel; deleted_at = now_seconds m; deleted_by = m.caller })
        s.batch_deleted_channels;
  batch_channels = Map.remove key s.batch_channels;
})

-- `update.channel` is `None`.
unfoldable pub delete_channel :
    Message → Text → Option BatchChannel → State → Option (BatchChannelUpdateResult × State)
delete_channel m key none s = some (gone (text "unchanged"), s)
delete_channel m key (some channel) s =
    elim (authorize_batch_channel_update m (some channel) none) [
      | err e ↦ some (invalid (some channel) e, s)
      | ok _ ↦
          if live_pending (now_ms m) channel.pending_request
            && not (is_pending_only_provisional_channel channel (now_ms m))
          then some (
            invalid (some channel) (text "batch channel delete requires no live pendingRequest"),
            s,
          )
          else elim (before_delete m key s) [
            | none ↦ none
            | some (err e) ↦ some (invalid (some channel) e, s)
            | some (ok _) ↦ some (gone (text "deleted"), deleted m key channel s)
          ]
    ]

unfoldable pub same_revision : Option ℕ → Option ℕ → Bool
same_revision none none = true
same_revision none (some b) = false
same_revision (some a) none = false
same_revision (some a) (some b) = a == b

unfoldable pub batch_update_channel :
    Message
    → Text
    → Option ℕ
    → Option BatchChannel
    → State
    → Option (BatchChannelUpdateResult × State)
batch_update_channel m channel_id expected_revision update s =
    elim (validate_channel_id m.crates channel_id) [
      | err e ↦ some (
        record {
          status = text "invalid";
          channel = none;
          current_revision = none;
          message = some e;
        },
        s,
      )
      | ok _ ↦
          let key = to_ascii_lowercase channel_id in
          let current = get_batch_channel key s.batch_channels in
          if not (same_revision expected_revision (revision_of current))
          then some (
            record {
              status = text "conflict";
              channel = current;
              current_revision = revision_of current;
              message = some (text "batch channel revision mismatch");
            },
            s,
          )
          else elim update [
            | some channel ↦ write_channel m key current channel s
            | none ↦ delete_channel m key current s
          ]
    ]
