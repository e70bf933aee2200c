-- ===== src/AutoClaim/Hooks.antt =====
-- rust/facilitator/src/auto_claim.rs: what the channel store calls before and after a change.
use ic_facilitator.Prelude.{
  ℕ, ◌-◌, ◌^◌, Bool, true, false, not, ◌&&◌, ◌||◌, Option, none, some, [], ◌∷◌, ◌++◌, ltb, leb,
  ◌==◌, if◌then◌else◌, is_some, length, unwrap_or, Checked, ok, err,
}
use ic_facilitator.Text.{Text, text, text_eq, to_ascii_lowercase}
use ic_facilitator.Map
use ic_facilitator.Crates.{Message}
use ic_facilitator.State.{State, BatchChannel, BatchPendingRequest, Collection}
use ic_facilitator.Config.{now_seconds}
use ic_facilitator.Batch.Checks.{now_ms}
use ic_facilitator.AutoClaim.{
  enabled, save, remove, amount, fresh, validate_signer, stale_at, stop_reason,
}

abbrev pub pending_of : Option BatchChannel → Option BatchPendingRequest
pending_of none = none
pending_of (some c) = c.pending_request

-- Whether `next` reserves a payment that `current` did not.
abbrev pub creates_pending : Option BatchPendingRequest → Option BatchPendingRequest → Bool
creates_pending existing none = false
creates_pending none (some p) = true
creates_pending (some old) (some p) = not (text_eq old.pending_id p.pending_id)

-- A collection for the channel, a fresh one where there is none; `none` for a trap.
unfoldable pub registered : Message → Text → BatchChannel → State → Option (Checked × State)
registered m id next s = elim (Map.get id s.collections) [
  | some c ↦ some (ok tt, s)
  | none ↦
      if leb 1000 (length s.collections)
      then some (err (text "auto collection capacity reached"), s)
      else elim (fresh m next) [ none ↦ none | some c ↦ some (ok tt, save id c s) ]
]

abbrev pub refused : Option Text → Checked
refused none = ok tt
refused (some reason) = err reason

-- A stale monitor is asked again at once; a reason to stop refuses the reservation.
unfoldable pub monitored : Message → Text → Collection → State → Checked × State
monitored m id c s =
    if stale_at (now_seconds m) c.monitored_at
    then (let c' = record c { monitored_at = none; next_due = now_seconds m } in
        let s' = save id c' s in (refused (stop_reason m s' c' (now_seconds m)), s'))
    else (refused (stop_reason m s c (now_seconds m)), s)

-- The collection of an accepted signer is registered and asked.
unfoldable pub reserve_pending : Message → BatchChannel → State → Option (Checked × State)
reserve_pending m next s = elim (registered m next.channel_id next s) [
  | none ↦ none
  | some (err e, s') ↦ some (err e, s')
  | some (ok _, s') ↦ elim (Map.get next.channel_id s'.collections) [
    | none ↦ none
    | some c ↦ some (monitored m next.channel_id c s')
  ]
]

unfoldable pub before_update :
    Message → Option BatchChannel → BatchChannel → State → Option (Checked × State)
before_update m current next s =
    if not (enabled next.channel_config.receiver s)
      && not (is_some (Map.get next.channel_id s.collections))
    then some (ok tt, s)
    else if not (creates_pending (pending_of current) next.pending_request)
    then some (ok tt, s)
    else elim (validate_signer m s.env next) [
      | err e ↦ some (err e, s)
      | ok _ ↦ reserve_pending m next s
    ]

abbrev pub live : ℕ → Option BatchPendingRequest → Bool
live now none = false
live now (some p) = ltb now p.expires_at

-- The collection after the update, for the charges before and after it. THRESHOLD is 100, and
-- `u64::MAX` stands for no due time.
unfoldable pub advanced : Message → State → ℕ → ℕ → BatchChannel → Collection → Collection
advanced m s old new next c =
    let charges =
      if ltb old new
      then c.charges ++ (record { amount = new; at = now_seconds m } ∷ [])
      else c.charges in
    let due_now =
      (ltb (length c.charges) 100 && leb 100 (length charges))
      || (c.next_due == 2 ^ 64 - 1 && (ltb old new || live (now_ms m) next.pending_request)) in
    record c {
      seed = next;
      force = if not (enabled next.channel_config.receiver s) then true else c.force;
      charges = charges;
      next_due = if due_now then now_seconds m else c.next_due;
    }

abbrev pub charged_of : Option BatchChannel → Option ℕ
charged_of none = some 0
charged_of (some c) = amount c.charged_cumulative_amount

unfoldable pub after_update : Message → Option BatchChannel → BatchChannel → State → Option State
after_update m current next s = elim (Map.get next.channel_id s.collections) [
  | none ↦ some s
  | some c ↦ elim (charged_of current) [
    | none ↦ none
    | some old ↦ elim (amount next.charged_cumulative_amount) [
      | none ↦ none
      | some new ↦ some (save next.channel_id (advanced m s old new next c) s)
    ]
  ]
]

unfoldable pub before_delete : Message → Text → State → Option Checked
before_delete m id s = elim (Map.get id s.collections) [
  | none ↦ some (ok tt)
  | some c ↦
      let ch = unwrap_or (Map.get (to_ascii_lowercase id) s.batch_channels) c.seed in
      let drain = text "auto claim must drain before channel deletion" in
      if is_some c.attempt then some (err drain) else elim (amount ch.charged_cumulative_amount) [
        | none ↦ none
        | some charged ↦
            if ltb c.claimed charged || live (now_ms m) ch.pending_request
            then some (err drain)
            else some (ok tt)
      ]
]

unfoldable pub after_delete : Text → State → State
after_delete = remove
