-- ===== src/AutoClaim/Worker/Monitor.antt =====
-- rust/facilitator/src/auto_claim.rs, `run`: the reading of the channel, and the decision to claim.
use ic_facilitator.Prelude.{
  not, ◌&&◌, ◌||◌, Bool, Option, none, some, true, false, ltb, leb, if◌then◌else◌, is_some, length,
  Result, ok, err, ◌>>=◌, ◌>>◌,
}
use ic_facilitator.Text.{Text, text}
use ic_facilitator.Map
use ic_facilitator.Crates.{Message}
use ic_facilitator.State.{State, BatchChannel, Collection, Attempt}
use ic_facilitator.Config.{now_seconds, RpcConfig, rpc_config, configured_batch_settlement_contract}
use ic_facilitator.Hexutil.{parse_address}
use ic_facilitator.Batch.Checks.{now_ms}
use ic_facilitator.Batch.Store.{get_batch_channel}
use ic_facilitator.AutoClaim.{enabled, save, remove, amount, reconcile}
use ic_facilitator.AutoClaim.Hooks.{live}
use ic_facilitator.AutoClaim.Journal.{abandon_prepared}
use ic_facilitator.AutoClaim.Worker.{
  Progress, waits, returned, channel_state, ChannelState, quiescent,
}
use ic_facilitator.AutoClaim.Worker.Resume.{resume}
use ic_facilitator.AutoClaim.Worker.Start.{planned, start_attempt}

-- `initial.attempt.as_ref().filter(|a| a.raw.is_none())`
abbrev pub unsent : Option Attempt → Option Attempt
unsent none = none
unsent (some a) = if is_some a.raw then none else some a

abbrev pub ask_channel : Message → Text → State → Result Progress
ask_channel m id s = do
  config ← rpc_config m s.env
  contract ← configured_batch_settlement_contract m s.env
  parse_address m.crates contract (text "batch contract")
  ok (waits (channel_state config contract))

abbrev pub or_returned : Result Progress → Progress
or_returned (ok p) = p
or_returned (err e) = returned (err e)

-- The rest of `run` up to its first wait: a quiescent collection that was read before is left.
unfoldable pub begin_reading : Message → Text → Collection → State → Option (Progress × State)
begin_reading m id initial s =
    elim (if is_some initial.monitored_at then quiescent m id initial s else some false) [
      | none ↦ none
      | some rest ↦
          if rest then some (returned (ok tt), s) else some (or_returned (ask_channel m id s), s)
    ]

-- `run` up to its first wait
unfoldable pub run : Message → Text → State → Option (Progress × State)
run m id s = elim (Map.get id s.collections) [
  | none ↦ some (returned (err (text "collection removed")), s)
  | some initial ↦ elim (unsent initial.attempt) [
    | some a ↦ elim (abandon_prepared m id a s) [
      | none ↦ none
      | some s' ↦ some (returned (ok tt), s')
    ]
    | none ↦ begin_reading m id initial s
  ]
]

-- The collection once the channel is read.
unfoldable pub observed : Message → ChannelState → Collection → Option Collection
observed m state c = elim (amount state.balance) [
  | none ↦ none
  | some balance ↦ elim (amount state.claimed) [
    | none ↦ none
    | some claimed ↦
        elim (reconcile claimed (record c {
          monitored_at = some (now_seconds m);
          withdrawal_at = state.withdrawal;
          balance = balance;
          error = if c.halted then c.error else none;
        })) [
          | none ↦ none
          | some c' ↦ some (if ltb 0 state.withdrawal then record c' { force = true } else c')
        ]
  ]
]

-- The channel is deleted.
unfoldable pub orphaned : Message → Text → Collection → State → State
orphaned m id c s =
    if not (enabled c.seed.channel_config.receiver s)
      || not (live (now_ms m) c.seed.pending_request)
    then remove id s
    else s

-- The channel has no charge above what is claimed.
unfoldable pub all_claimed : Message → Text → Collection → BatchChannel → State → State
all_claimed m id c channel s =
    let s' = save id (record c { force = false; oldest_legacy = none }) s in
    if not (enabled channel.channel_config.receiver s')
      && not (live (now_ms m) channel.pending_request)
    then remove id s'
    else s'

-- THRESHOLD is 100.
unfoldable pub not_yet_due : Collection → Bool
not_yet_due c = c.halted || (not c.force && ltb (length c.charges) 100)

unfoldable pub claim_if_due :
    Message
    → RpcConfig
    → Text
    → Text
    → Collection
    → BatchChannel
    → State
    → Option (Progress × State)
claim_if_due m config contract id c channel s = elim (amount channel.charged_cumulative_amount) [
  | none ↦ none
  | some target ↦
      if leb target c.claimed
      then some (returned (ok tt), all_claimed m id c channel s)
      else if not_yet_due c
      then some (returned (ok tt), s)
      else elim (planned m id contract c channel target s) [
        | err e ↦ some (returned (err e), s)
        | ok a ↦ start_attempt m config id c a s
      ]
]

-- A stored attempt is resolved before a new target is considered.
unfoldable pub after_reading :
    Message → RpcConfig → Text → Text → Collection → State → Option (Progress × State)
after_reading m config contract id c s =
    if is_some c.attempt
    then resume m config id s
    else elim (get_batch_channel id s.batch_channels) [
      | none ↦ some (returned (ok tt), orphaned m id c s)
      | some channel ↦ claim_if_due m config contract id c channel s
    ]

unfoldable pub channel_answered :
    Message → RpcConfig → Text → Text → Result ChannelState → State → Option (Progress × State)
channel_answered m config contract id (err e) s = some (returned (err e), s)
channel_answered m config contract id (ok state) s = elim (Map.get id s.collections) [
  | none ↦ some (returned (err (text "collection removed")), s)
  | some c ↦ elim (observed m state c) [
    | none ↦ none
    | some c' ↦ after_reading m config contract id c' (save id c' s)
  ]
]
