-- ===== src/Batch/Store.antt =====
-- rust/facilitator/src/lib.rs: the stored and the deleted channels.
use ic_facilitator.Prelude.{
  ℕ, Bool, not, ◌&&◌, ◌||◌, Option, none, some, [], ◌∷◌, ltb, leb, if◌then◌else◌, is_some, length,
  Result, ok, err,
}
use ic_facilitator.Text.{Text, text, to_ascii_lowercase}
use ic_facilitator.Map
use ic_facilitator.Map.{Map}
use ic_facilitator.State.{BatchChannel, BatchDeletedChannel}

-- 1,000 is MAX_BATCH_CHANNELS_STORED.
unfoldable pub can_put_batch_channel : Text → Map BatchChannel → Bool
can_put_batch_channel channel_id channels =
    is_some (Map.get (to_ascii_lowercase channel_id) channels) || ltb (length channels) 1000

unfoldable pub put_batch_channel :
    Text → BatchChannel → Map BatchChannel → Result (Map BatchChannel)
put_batch_channel channel_id channel channels =
    let key = to_ascii_lowercase channel_id in
    if not (is_some (Map.get key channels)) && leb 1000 (length channels)
    then err (text "batch channel storage limit reached")
    else ok (Map.insert key channel channels)

unfoldable pub get_batch_channel : Text → Map BatchChannel → Option BatchChannel
get_batch_channel channel_id channels = Map.get (to_ascii_lowercase channel_id) channels

-- `min_by_key`: the first of the entries that were deleted the earliest.
unfoldable pub oldest : Map BatchDeletedChannel → Option (Text × ℕ)
oldest [] = none
oldest ((k, d) ∷ items) = elim (oldest items) [
  | none ↦ some (k, d.deleted_at)
  | some (j, at) ↦ if ltb at d.deleted_at then some (j, at) else some (k, d.deleted_at)
]

abbrev without_oldest : Option (Text × ℕ) → Map BatchDeletedChannel → Map BatchDeletedChannel
without_oldest none items = items
without_oldest (some (key, at)) items = Map.remove key items

unfoldable pub put_batch_deleted_channel :
    Text → BatchDeletedChannel → Map BatchDeletedChannel → Map BatchDeletedChannel
put_batch_deleted_channel channel_id deleted items =
    let key = to_ascii_lowercase channel_id in
    Map.insert key deleted (
      if not (is_some (Map.get key items)) && leb 1000 (length items)
      then without_oldest (oldest items) items
      else items)
