-- ===== src/AutoClaim/Worker/Requests.antt =====
-- What reservations and requests do while a worker waits: rust/facilitator/src/auto_claim.rs.
use ic_facilitator.Prelude.{
  ℕ, ◌≡◌, refl, ◌∙◌, sym, Bool, not, ◌&&◌, is_some, >>=-eq-ok, ok_or, Option, none, some, arith,
  inl, inr, Checked, ok, err, Option-cases, Bool-cases, Result-cases, if◌then◌else◌, leb, length,
}
use ic_facilitator.Text.{to_ascii_lowercase, Text, text}
use ic_facilitator.Map
use ic_facilitator.Map.{get-remove, get-remove_self}
use ic_facilitator.Crates.{Message}
use ic_facilitator.State.{State, BatchChannel, Collection}
use ic_facilitator.Batch.Checks.{validate_channel_id}
use ic_facilitator.Config.{now_seconds}
use ic_facilitator.AutoClaim.{
  save, fresh, stale_at, validate_signer, enabled, record_monitor_outcall,
}
use ic_facilitator.AutoClaim.Hooks.{
  creates_pending, pending_of, before_update, registered, monitored, reserve_pending,
}
use ic_facilitator.AutoClaim.Policy.{
  authorize, channels_of, may_set, may_request, request_claim, set_enabled, schedule_each,
  requested,
}
use ic_facilitator.AutoClaim.Worker.{attempt_of}
use ic_facilitator.AutoClaim.Worker.Kept.{attempt_of-found, attempt_of-missing}
use ic_facilitator.AutoClaim.Worker.Elsewhere.{
  save-attempt_of, fresh-attempt, schedule_each-attempt_of,
}

pub set_enabled-attempt_of :
    (m : Message) (id receiver : Text) (value : Bool) (s after : State) (r : Checked)
    → set_enabled m receiver value s ≡ some (r, after)
    → attempt_of id after ≡ attempt_of id s
unfolding set_enabled
set_enabled-attempt_of m id receiver value s after r e =
    elim (Result-cases (may_set m receiver value s)) [
      | inr (message, refused_) ↦
          let f = rw (set_enabled, refused_) at e in
          let same : s ≡ after = ground arith in rw (← same) refl
      | inl (receiver', allowed) ↦
          let s' = record s {
            policies = Map.insert receiver' (if value then 1 else 0) s.policies;
          } in
          elim (Option-cases (schedule_each m value (channels_of receiver' value s) s')) [
            | inl trapped ↦ absurd (let f = rw (set_enabled, allowed, trapped) at e in cc)
            | inr (s'', done) ↦
                let f = rw (set_enabled, allowed, done) at e in
                let same : s'' ≡ after = ground arith in
                rw (← same)
                  (schedule_each-attempt_of m id value (channels_of receiver' value s) s' s'' done)
          ]
    ]

may_request-found :
    (m : Message) (id id' : Text) (s : State) (c : Collection)
    → may_request m id id' s ≡ ok c
    → Map.get id' s.collections ≡ some c
unfolding may_request
may_request-found m id id' s c e =
    let (_, _, r1) = >>=-eq-ok (validate_channel_id m.crates id) _ e in
    let (c', found, r2) =
      >>=-eq-ok
        (ok_or (Map.get id' s.collections) (text "auto collection is not enabled for this channel"))
        _ r1 in
    let (_, _, r3) = >>=-eq-ok (authorize m c'.seed.channel_config.receiver) _ r2 in ground arith

pub request_claim-attempt_of :
    (m : Message) (id other : Text) (s : State)
    → attempt_of id (request_claim m other s).1 ≡ attempt_of id s
unfolding request_claim requested
request_claim-attempt_of m id other s =
    let other' = to_ascii_lowercase other in
    elim (Result-cases (may_request m other other' s)) [
      | inr (message, refused_) ↦ rw (request_claim, refused_) refl
      | inl (c, allowed) ↦
          let found = may_request-found m other other' s c allowed in
          rw (request_claim, allowed)
            (save-attempt_of id other' (requested m c) s (sym (attempt_of-found other' c s found)))
    ]

pub record_monitor_outcall-attempt_of :
    (id other : Text) (cycles : ℕ) (s : State)
    → attempt_of id (record_monitor_outcall other cycles s) ≡ attempt_of id s
unfolding record_monitor_outcall
record_monitor_outcall-attempt_of id other cycles s =
    elim (Option-cases (Map.get other s.collections)) [
      | inl missing ↦ rw (record_monitor_outcall, missing) refl
      | inr (c, found) ↦
          rw (record_monitor_outcall, found)
            (save-attempt_of id other _ s (sym (attempt_of-found other c s found)))
    ]

monitored-attempt_of :
    (m : Message) (id other : Text) (c : Collection) (s : State)
    → Map.get other s.collections ≡ some c
    → attempt_of id (monitored m other c s).1 ≡ attempt_of id s
unfolding monitored
monitored-attempt_of m id other c s found =
    elim (Bool-cases (stale_at (now_seconds m) c.monitored_at)) [
      | inr fresh_ ↦ rw (monitored, fresh_) refl
      | inl stale ↦
          rw (monitored, stale)
            (save-attempt_of id other (record c { monitored_at = none; next_due = now_seconds m }) s
              (sym (attempt_of-found other c s found)))
    ]

registered-attempt_of :
    (m : Message) (id other : Text) (next : BatchChannel) (s after : State) (r : Checked)
    → registered m other next s ≡ some (r, after)
    → attempt_of id after ≡ attempt_of id s
unfolding registered
registered-attempt_of m id other next s after r e =
    elim (Option-cases (Map.get other s.collections)) [
      | inr (c, found) ↦
          let f = rw (registered, found) at e in
          let same : s ≡ after = ground arith in rw (← same) refl
      | inl missing ↦ elim (Bool-cases (leb 1000 (length s.collections))) [
        | inl full ↦
            let f = rw (registered, missing, full) at e in
            let same : s ≡ after = ground arith in rw (← same) refl
        | inr room ↦ elim (Option-cases (fresh m next)) [
          | inl bad ↦ absurd (let f = rw (registered, missing, room, bad) at e in cc)
          | inr (c, made) ↦
              let f = rw (registered, missing, room, made) at e in
              let same : save other c s ≡ after = ground arith in
              rw (← same) (
                save-attempt_of id other c s
                  (fresh-attempt m next c made ∙ sym (attempt_of-missing other s missing)))
        ]
      ]
    ]

reserve_pending-attempt_of :
    (m : Message) (id : Text) (next : BatchChannel) (s after : State) (r : Checked)
    → reserve_pending m next s ≡ some (r, after)
    → attempt_of id after ≡ attempt_of id s
unfolding reserve_pending
reserve_pending-attempt_of m id next s after r e =
    let other = next.channel_id in
    elim (Option-cases (registered m other next s)) [
      | inl trapped ↦ absurd (let f = rw (reserve_pending, trapped) at e in cc)
      | inr ((err message, s'), done) ↦
          let f = rw (reserve_pending, done) at e in
          let same : s' ≡ after = ground arith in
          rw (← same) (registered-attempt_of m id other next s s' (err message) done)
      | inr ((ok tt, s'), done) ↦
          let f = rw (reserve_pending, done) at e in
          elim (Option-cases (Map.get other s'.collections)) [
            | inl missing ↦ absurd (let g = rw missing at f in cc)
            | inr (c, found) ↦
                let g = rw found at f in
                let same : (monitored m other c s').1 ≡ after = ground arith in
                rw (← same) (
                  monitored-attempt_of m id other c s' found
                  ∙ registered-attempt_of m id other next s s' (ok tt) done)
          ]
    ]

pub before_update-attempt_of :
    (m : Message) (id : Text) (current : Option BatchChannel) (next : BatchChannel)
    (s after : State) (r : Checked)
    → before_update m current next s ≡ some (r, after)
    → attempt_of id after ≡ attempt_of id s
unfolding before_update
before_update-attempt_of m id current next s after r e =
    let off =
      not (enabled next.channel_config.receiver s)
      && not (is_some (Map.get next.channel_id s.collections)) in
    elim (Bool-cases off) [
      | inl skipped ↦
          let f = rw (before_update, skipped) at e in
          let same : s ≡ after = ground arith in rw (← same) refl
      | inr on ↦ elim (Bool-cases (creates_pending (pending_of current) next.pending_request)) [
        | inr old ↦
            let f = rw (before_update, on, old) at e in
            let same : s ≡ after = ground arith in rw (← same) refl
        | inl new ↦ elim (Result-cases (validate_signer m s.env next)) [
          | inr (message, refused_) ↦
              let f = rw (before_update, on, new, refused_) at e in
              let same : s ≡ after = ground arith in rw (← same) refl
          | inl (done, signed) ↦
              let f = rw (before_update, on, new, signed) at e in
              reserve_pending-attempt_of m id next s after r f
        ]
      ]
    ]
