-- ===== src/AutoClaim.antt =====
-- rust/facilitator/src/auto_claim.rs: the durable collection of a channel's charges.
-- A `none` for the state stands for a trap, after which the canister keeps the state it had.
pub mod Hooks
pub mod Journal
pub mod Claims
pub mod Reservations
pub mod Policy
pub mod Worker
use ic_facilitator.Prelude.{
  ℕ, ◌+◌, ◌-◌, ◌*◌, max, min, Bool, true, false, not, ◌&&◌, ◌||◌, Option, none, some, List, [], ◌∷◌,
  ◌++◌, ltb, leb, ◌==◌, if◌then◌else◌, is_some, length, Result, Checked, ok, err, ◌>>=◌, ◌>>◌,
  fail_if,
}
use ic_facilitator.Text.{Text, text, text_eq, parse_u128, to_ascii_lowercase, to_decimal_020}
use ic_facilitator.Map
use ic_facilitator.Map.{Map}
use ic_facilitator.Crates.{Message}
use ic_facilitator.State.{State, BatchChannel, Charge, Collection, Attempt}
use ic_facilitator.Config.{now_seconds, env, private_key_address, sat_u64, sat_u128}
use ic_facilitator.Hexutil.{same_address}
use ic_facilitator.Credit.{seller_credit_balance_for}
use ic_facilitator.Fees.Schedule.{claim_fee}

abbrev is_one : Option ℕ → Bool
is_one none = false
is_one (some n) = n == 1

unfoldable pub enabled : Text → State → Bool
enabled receiver s = is_one (Map.get (to_ascii_lowercase receiver) s.policies)

unfoldable pub due_key : ℕ → Text → Text
due_key at id = to_decimal_020 at ++ (text "|" ++ id)

-- The due times without that of the collection that is stored now.
abbrev pub undue : Text → Option Collection → Map ℕ → Map ℕ
undue id none due = due
undue id (some old) due = Map.remove (due_key old.next_due id) due

unfoldable pub save : Text → Collection → State → State
save id value s = record s {
  collections = Map.insert id value s.collections;
  due = Map.insert (due_key value.next_due id) 0 (undue id (Map.get id s.collections) s.due);
}

unfoldable pub remove : Text → State → State
remove id s = record s {
  collections = Map.remove id s.collections;
  due = undue id (Map.get id s.collections) s.due;
}

-- `value.parse().expect(…)`: `none` is a trap.
unfoldable pub amount : Text → Option ℕ
amount value = parse_u128 value

unfoldable pub fresh : Message → BatchChannel → Option Collection
fresh m channel = elim (amount channel.charged_cumulative_amount) [
  | none ↦ none
  | some charged ↦ some (record {
    seed = channel;
    charges = [];
    claimed = 0;
    oldest_legacy = if ltb 0 charged then some (now_seconds m) else none;
    force = ltb 0 charged;
    next_due = now_seconds m;
    monitored_at = none;
    withdrawal_at = 0;
    balance = 0;
    monitor_calls = 0;
    monitor_cycles_reserved = 0;
    error = none;
    attempt = none;
    halted = false;
    attempt_sequence = 0;
  })
]

unfoldable pub validate_signer : Message → Map Text → BatchChannel → Checked
validate_signer m vars channel = do
  key ← env m vars (text "BATCH_RECEIVER_AUTHORIZER_PRIVATE_KEY")
  signer ← private_key_address m.crates key
  fail_if (not (same_address signer channel.channel_config.receiver_authorizer))
      (text "auto claim requires the configured receiver authorizer")

-- `monitored_at.is_none_or(|at| now.saturating_sub(at) >= STALE)`; STALE is 120.
abbrev pub stale_at : ℕ → Option ℕ → Bool
stale_at now none = true
stale_at now (some at) = leb 120 (now - at)

abbrev covers : Result ℕ → ℕ → Bool
covers (ok fee) balance = leb fee balance
covers (err e) balance = false

abbrev pub other_than_busy : Option Text → Option Text
other_than_busy none = none
other_than_busy (some e) = if text_eq e (text "settlement_queue_busy") then none else some e

-- MAX_OUTSTANDING is 200.
unfoldable pub stop_reason : Message → State → Collection → ℕ → Option Text
stop_reason m s c now =
    if not (enabled c.seed.channel_config.receiver s)
    then some (text "auto_claim_draining")
    else if ltb 0 c.withdrawal_at
    then some (text "withdrawal_requested")
    else if stale_at now c.monitored_at
    then some (text "monitor_stale")
    else if leb 200 (length c.charges)
    then some (text "collection_backlog")
    else if not (
        covers (claim_fee m s.env)
          (seller_credit_balance_for c.seed.channel_config.receiver s.seller_credits))
    then some (text "seller_insufficient_credit")
    else other_than_busy c.error

-- The charges that a claim up to `claimed` leaves.
unfoldable pub retain_above : ℕ → List Charge → List Charge
retain_above claimed [] = []
retain_above claimed (c ∷ charges) =
    if ltb claimed c.amount then c ∷ retain_above claimed charges else retain_above claimed charges

-- The collection once `claimed` is claimed of the `charged`.
abbrev pub claimed_up_to : ℕ → ℕ → Collection → Collection
claimed_up_to charged claimed c = record c {
  claimed = claimed;
  charges = retain_above claimed c.charges;
  oldest_legacy = if leb charged claimed then none else c.oldest_legacy;
}

unfoldable pub reconcile : ℕ → Collection → Option Collection
reconcile claimed c = elim (amount c.seed.charged_cumulative_amount) [
  | none ↦ none
  | some charged ↦ some (claimed_up_to charged (max c.claimed claimed) c)
]

unfoldable pub record_monitor_outcall : Text → ℕ → State → State
record_monitor_outcall id cycles s = elim (Map.get id s.collections) [
  | none ↦ s
  | some c ↦
      save id
        (record c {
          monitor_calls = sat_u64 (c.monitor_calls + 1);
          monitor_cycles_reserved = sat_u128 (c.monitor_cycles_reserved + cycles);
        })
        s
]

-- An earlier armed deadline is kept.
unfoldable pub timer_deadline : Option ℕ → Option ℕ → ℕ → Option ℕ
timer_deadline armed none now = none
timer_deadline armed (some next) now =
    let requested = max (sat_u64 (next * 1_000_000_000)) (sat_u64 (now + 1_000_000_000)) in
    elim armed [ none ↦ some requested | some deadline ↦ some (min deadline requested) ]
