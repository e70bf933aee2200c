-- ===== src/AutoClaim/Policy.antt =====
-- rust/facilitator/src/auto_claim.rs: what a seller turns on, asks for and reads.
use ic_facilitator.Prelude.{
  ℕ, ◌+◌, ◌-◌, not, ◌||◌, ◌==◌, Bool, Option, none, some, List, [], ◌∷◌, ltb, leb, true, false,
  if◌then◌else◌, is_some, length, unwrap_or, or_else, Result, Checked, ok, err, ◌>>=◌, ◌>>◌, ok_or,
  fail_if,
}
use ic_facilitator.Text.{Text, text, to_ascii_lowercase, to_decimal}
use ic_facilitator.Map
use ic_facilitator.Map.{Map}
use ic_facilitator.Crates.{Message}
use ic_facilitator.State.{State, BatchChannel, Charge, Collection, Attempt}
use ic_facilitator.Config.{
  env, now_seconds, normalize_evm_address, private_key_address, rpc_config, sat_u64,
}
use ic_facilitator.Hexutil.{same_address}
use ic_facilitator.Fees.Schedule.{claim_fee}
use ic_facilitator.Admission.{
  require_current_seller_acceptance, require_batch_settlement_enabled_except_fee,
}
use ic_facilitator.Batch.Checks.{validate_channel_id}
use ic_facilitator.Batch.Writers.{batch_writer_scope_enabled}
use ic_facilitator.AutoClaim.{enabled, save, amount, fresh, validate_signer, stop_reason}

unfoldable pub authorize : Message → Text → Result Text
authorize m receiver = do
  receiver' ← normalize_evm_address m.crates (text "receiver") receiver
  is_enabled ← if m.is_controller then ok true else batch_writer_scope_enabled m m.caller receiver'
  fail_if (not is_enabled) (text "caller is not authorized for receiver")
  ok receiver'

-- The configuration that collecting for a receiver takes.
unfoldable pub require_collectable : Message → Text → State → Checked
require_collectable m receiver s = do
  require_current_seller_acceptance m receiver
  require_batch_settlement_enabled_except_fee m s.env
  authorizer_key ← env m s.env (text "BATCH_RECEIVER_AUTHORIZER_PRIVATE_KEY")
  private_key_address m.crates authorizer_key
  key ← env m s.env (text "FACILITATOR_EVM_PRIVATE_KEY")
  private_key_address m.crates key
  rpc_config m s.env
  claim_fee m s.env
  ok tt

abbrev of_receiver : Text → List BatchChannel → List BatchChannel
of_receiver receiver [] = []
of_receiver receiver (c ∷ channels) =
    let rest = of_receiver receiver channels in
    if same_address c.channel_config.receiver receiver then c ∷ rest else rest

abbrev values : Map BatchChannel → List BatchChannel
values [] = []
values ((_, c) ∷ channels) = c ∷ values channels

abbrev seeds : Map Collection → List BatchChannel
seeds [] = []
seeds ((_, c) ∷ collections) = c.seed ∷ seeds collections

-- The stored channels of the receiver, or the seeds of its collections.
unfoldable pub channels_of : Text → Bool → State → List BatchChannel
channels_of receiver value s =
    of_receiver receiver (if value then values s.batch_channels else seeds s.collections)

unfoldable pub each_signer_valid : Message → Map Text → List BatchChannel → Checked
each_signer_valid m vars [] = ok tt
each_signer_valid m vars (c ∷ channels) = do
  validate_signer m vars c
  each_signer_valid m vars channels

unfoldable pub uncollected : List BatchChannel → State → ℕ
uncollected [] s = 0
uncollected (c ∷ channels) s =
    if is_some (Map.get c.channel_id s.collections)
    then uncollected channels s
    else uncollected channels s + 1

-- `get(id).unwrap_or_else(|| fresh(&channel))`; `none` is a trap.
abbrev pub collected : Message → BatchChannel → Option Collection → Option Collection
collected m channel none = fresh m channel
collected m channel (some c) = some c

unfoldable pub schedule_each : Message → Bool → List BatchChannel → State → Option State
schedule_each m value [] s = some s
schedule_each m value (channel ∷ channels) s =
    elim (collected m channel (Map.get channel.channel_id s.collections)) [
      | none ↦ none
      | some c ↦ schedule_each m value channels (
          save channel.channel_id
            (record c { force = if value then c.force else true; next_due = now_seconds m }) s)
    ]

unfoldable pub admit : Message → Text → Bool → State → Checked
admit m receiver value s = if not value then ok tt else (do
  each_signer_valid m s.env (channels_of receiver value s)
  fail_if (ltb 1000 (sat_u64 (length s.collections + uncollected (channels_of receiver value s) s)))
      (text "auto collection capacity reached"))

-- The checks of `set_enabled`
unfoldable pub may_set : Message → Text → Bool → State → Result Text
may_set m receiver value s = do
  receiver' ← authorize m receiver
  if value then require_collectable m receiver' s else ok tt
  admit m receiver' value s
  ok receiver'

-- `none` is a trap.
unfoldable pub set_enabled : Message → Text → Bool → State → Option (Checked × State)
set_enabled m receiver value s = elim (may_set m receiver value s) [
  | err e ↦ some (err e, s)
  | ok receiver' ↦
      elim (schedule_each m value (channels_of receiver' value s)
        (record s { policies = Map.insert receiver' (if value then 1 else 0) s.policies })) [
          | none ↦ none
          | some s' ↦ some (ok tt, s')
        ]
]

unfoldable pub requested : Message → Collection → Collection
requested m c = record c { force = true; halted = false; next_due = now_seconds m }

-- The checks of `request_claim`, for the identifier and its lower-case form
unfoldable pub may_request : Message → Text → Text → State → Result Collection
may_request m id id' s = do
  validate_channel_id m.crates id
  c ← ok_or (Map.get id' s.collections) (text "auto collection is not enabled for this channel")
  authorize m c.seed.channel_config.receiver
  ok c

unfoldable pub request_claim : Message → Text → State → Checked × State
request_claim m id s =
    let id' = to_ascii_lowercase id in
    elim (may_request m id id' s) [
      | err e ↦ (err e, s)
      | ok c ↦ (ok tt, save id' (requested m c) s)
    ]

pub record AutoClaimStatus : Type 0 where
  pub channel_id : Text
  pub enabled : Bool
  pub draining : Bool
  pub unclaimed_amount : Text
  pub unclaimed_count : ℕ
  pub oldest_unclaimed_at : Option ℕ
  pub monitored_at : Option ℕ
  pub withdrawal_deadline : Option ℕ
  pub transaction : Option Text
  pub state : Text
  pub stop_reason : Option Text
  pub monitor_calls : ℕ
  pub monitor_cycles_reserved : ℕ

abbrev first_at : List Charge → Option ℕ
first_at [] = none
first_at (c ∷ charges) = some c.at

abbrev tx_of : Option Attempt → Option Text
tx_of none = none
tx_of (some a) = a.tx

unfoldable pub status_of : Message → Text → Collection → BatchChannel → ℕ → State → AutoClaimStatus
status_of m id c channel charged s = record {
  channel_id = id;
  enabled = enabled channel.channel_config.receiver s;
  draining = not (enabled channel.channel_config.receiver s);
  unclaimed_amount = to_decimal (charged - c.claimed);
  unclaimed_count = length c.charges;
  oldest_unclaimed_at =
      if charged - c.claimed == 0 then none else or_else c.oldest_legacy (first_at c.charges);
  monitored_at = c.monitored_at;
  withdrawal_deadline =
      if ltb 0 c.withdrawal_at
      then some (sat_u64 (c.withdrawal_at + channel.channel_config.withdraw_delay))
      else none;
  transaction = tx_of c.attempt;
  state =
      if is_some c.attempt
      then text "sending"
      else if c.force || leb 100 (length c.charges)
      then text "queued"
      else text "accumulating";
  stop_reason = stop_reason m s c (now_seconds m);
  monitor_calls = c.monitor_calls;
  monitor_cycles_reserved = c.monitor_cycles_reserved;
}

-- `none` is a trap.
unfoldable pub status : Message → Text → State → Option (Result (Option AutoClaimStatus))
status m id s =
    let id' = to_ascii_lowercase id in
    elim (validate_channel_id m.crates id) [
      | err e ↦ some (err e)
      | ok _ ↦ elim (Map.get id' s.collections) [
        | none ↦ some (ok none)
        | some c ↦ elim (authorize m c.seed.channel_config.receiver) [
          | err e ↦ some (err e)
          | ok _ ↦
              let channel = unwrap_or (Map.get id' s.batch_channels) c.seed in
              elim (amount channel.charged_cumulative_amount) [
                | none ↦ none
                | some charged ↦ some (ok (some (status_of m id' c channel charged s)))
              ]
        ]
      ]
    ]
