-- ===== src/Batch/Writers.antt =====
-- rust/facilitator/src/lib.rs: who may change a channel.
use ic_facilitator.Prelude.{
  Bool, not, ◌||◌, Option, none, some, List, [], ◌∷◌, ◌++◌, if◌then◌else◌, Result, Checked, ok,
  ◌>>=◌, ◌>>◌, fail_if,
}
use ic_facilitator.Text.{Text, text, text_eq, text_ltb}
use ic_facilitator.Crates.{Message}
use ic_facilitator.State.{BatchChannel}
use ic_facilitator.Config.{normalize_evm_address}

unfoldable pub validate_non_system_principal : Text → Text → Checked
validate_non_system_principal label principal =
    fail_if (text_eq principal (text "2vxsx-fae") || text_eq principal (text "aaaaa-aa"))
      (label ++ text " must be a non-system IC principal")

unfoldable pub batch_writer_scope_enabled : Message → Text → Text → Result Bool
batch_writer_scope_enabled m writer receiver = do
  validate_non_system_principal (text "writer") writer
  receiver' ← normalize_evm_address m.crates (text "receiver") receiver
  m.scope_query writer receiver'

-- The receiver of a channel, if there is one, with the label of an error.
abbrev receiver_of : Message → Text → Option BatchChannel → Result (List Text)
receiver_of m label none = ok []
receiver_of m label (some channel) = do
  receiver ← normalize_evm_address m.crates label channel.channel_config.receiver
  ok (receiver ∷ [])

-- `receivers.sort(); receivers.dedup()`, by insertion.
unfoldable pub insert_sorted : Text → List Text → List Text
insert_sorted t [] = t ∷ []
insert_sorted t (u ∷ us) =
    if text_eq t u then u ∷ us else if text_ltb t u then t ∷ u ∷ us else u ∷ insert_sorted t us

unfoldable pub sort_dedup : List Text → List Text
sort_dedup [] = []
sort_dedup (t ∷ ts) = insert_sorted t (sort_dedup ts)

unfoldable pub each_scope_enabled : Message → List Text → Checked
each_scope_enabled m [] = ok tt
each_scope_enabled m (receiver ∷ receivers) = do
  is_enabled ← batch_writer_scope_enabled m m.caller receiver
  fail_if (not is_enabled) (text "caller is not authorized for receiver " ++ receiver)
  each_scope_enabled m receivers

unfoldable pub authorize_batch_channel_update :
    Message → Option BatchChannel → Option BatchChannel → Checked
authorize_batch_channel_update m current next = if m.is_controller then ok tt else (do
  validate_non_system_principal (text "caller") m.caller
  a ← receiver_of m (text "current.channelConfig.receiver") current
  b ← receiver_of m (text "next.channelConfig.receiver") next
  each_scope_enabled m (sort_dedup (a ++ b)))
