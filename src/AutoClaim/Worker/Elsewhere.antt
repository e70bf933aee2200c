-- ===== src/AutoClaim/Worker/Elsewhere.antt =====
-- What other messages do while a worker waits: rust/facilitator/src/auto_claim.rs.
use ic_facilitator.Prelude.{
  ℕ, ◌≡◌, refl, ◌∙◌, sym, Bool, true, List, [], ◌∷◌, Option, none, some, arith, inl, inr, ok,
  Option-cases, Bool-cases, if◌then◌else◌,
}
use ic_facilitator.Text.{Text, text_eq, text_eq_iff, text_ne}
use ic_facilitator.Map
use ic_facilitator.Map.{get-remove, get-remove_self}
use ic_facilitator.Crates.{Message}
use ic_facilitator.State.{State, BatchChannel, Collection}
use ic_facilitator.Config.{now_seconds}
use ic_facilitator.AutoClaim.{save, remove, amount, fresh}
use ic_facilitator.AutoClaim.Hooks.{after_update, advanced, charged_of, before_delete, after_delete}
use ic_facilitator.AutoClaim.Policy.{schedule_each, collected}
use ic_facilitator.AutoClaim.Worker.{attempt_of}
use ic_facilitator.AutoClaim.Worker.Kept.{
  attempt_of-save, attempt_of-save_other, attempt_of-found, attempt_of-missing,
}

-- A collection that is saved with the attempt it had changes no attempt.
pub save-attempt_of :
    (id other : Text) (c : Collection) (s : State)
    → c.attempt ≡ attempt_of other s
    → attempt_of id (save other c s) ≡ attempt_of id s
save-attempt_of id other c s same = elim (Bool-cases (text_eq other id)) [
  | inl here ↦
      let one : other ≡ id = (text_eq_iff other id).0 here in
      rw (← one) (attempt_of-save other c s ∙ same)
  | inr there ↦ attempt_of-save_other other id c s (text_ne other id there)
]

-- A collection without an attempt that is removed, likewise.
pub after_delete-attempt_of :
    (id other : Text) (s : State)
    → attempt_of other s ≡ none
    → attempt_of id (after_delete other s) ≡ attempt_of id s
unfolding after_delete remove
after_delete-attempt_of id other s free = elim (Bool-cases (text_eq other id)) [
  | inl here ↦
      let one : other ≡ id = (text_eq_iff other id).0 here in
      rw (← one) (rw get-remove_self (sym free))
  | inr there ↦ rw (get-remove, there) refl
]

pub before_delete-ok :
    (m : Message) (id : Text) (s : State)
    → before_delete m id s ≡ some (ok tt)
    → attempt_of id s ≡ none
unfolding before_delete
before_delete-ok m id s e = elim (Option-cases (Map.get id s.collections)) [
  | inl missing ↦ attempt_of-missing id s missing
  | inr (c, found) ↦ elim (Option-cases c.attempt) [
    | inl free ↦ attempt_of-found id c s found ∙ free
    | inr (a, begun) ↦ absurd (let f = rw (before_delete, found, begun) at e in cc)
  ]
]

advanced-attempt :
    (m : Message) (s : State) (old new : ℕ) (next : BatchChannel) (c : Collection)
    → (advanced m s old new next c).attempt ≡ c.attempt
unfolding advanced
advanced-attempt m s old new next c = refl

pub after_update-attempt_of :
    (m : Message) (id : Text) (current : Option BatchChannel) (next : BatchChannel)
    (s after : State)
    → after_update m current next s ≡ some after
    → attempt_of id after ≡ attempt_of id s
unfolding after_update
after_update-attempt_of m id current next s after e =
    elim (Option-cases (Map.get next.channel_id s.collections)) [
      | inl missing ↦ let f = rw (after_update, missing) at e in ground arith
      | inr (c, found) ↦ elim (Option-cases (charged_of current)) [
        | inl bad ↦ absurd (let f = rw (after_update, found, bad) at e in cc)
        | inr (old, was) ↦ elim (Option-cases (amount next.charged_cumulative_amount)) [
          | inl bad ↦ absurd (let f = rw (after_update, found, was, bad) at e in cc)
          | inr (new, is_) ↦
              let f = rw (after_update, found, was, is_) at e in
              let c' = advanced m s old new next c in
              let same : save next.channel_id c' s ≡ after = ground arith in
              let kept : c'.attempt ≡ c.attempt = advanced-attempt m s old new next c in
              rw (← same) (
                save-attempt_of id next.channel_id c' s
                  (kept ∙ sym (attempt_of-found next.channel_id c s found)))
        ]
      ]
    ]

pub fresh-attempt :
    (m : Message) (channel : BatchChannel) (c : Collection)
    → fresh m channel ≡ some c
    → c.attempt ≡ none
unfolding fresh
fresh-attempt m channel c e = elim (Option-cases (amount channel.charged_cumulative_amount)) [
  | inl bad ↦ absurd (let f = rw (fresh, bad) at e in cc)
  | inr (charged, good) ↦ let f = rw (fresh, good) at e in ground arith
]

collected-attempt :
    (m : Message) (channel : BatchChannel) (s : State) (c : Collection)
    → collected m channel (Map.get channel.channel_id s.collections) ≡ some c
    → c.attempt ≡ attempt_of channel.channel_id s
collected-attempt m channel s c e = elim (Option-cases (Map.get channel.channel_id s.collections)) [
  | inl missing ↦
      let f = rw missing at e in
      fresh-attempt m channel c f ∙ sym (attempt_of-missing channel.channel_id s missing)
  | inr (c', found) ↦
      let f = rw found at e in
      let same : c' ≡ c = ground arith in
      rw (← same) (sym (attempt_of-found channel.channel_id c' s found))
]

pub schedule_each-attempt_of :
    (m : Message) (id : Text) (value : Bool) (channels : List BatchChannel) (s after : State)
    → schedule_each m value channels s ≡ some after
    → attempt_of id after ≡ attempt_of id s
unfolding schedule_each
schedule_each-attempt_of m id value [] s after e =
    let same : s ≡ after = ground arith in rw (← same) refl
schedule_each-attempt_of m id value (channel ∷ channels) s after e =
    elim (Option-cases (collected m channel (Map.get channel.channel_id s.collections))) [
      | inl bad ↦ absurd (let f = rw (schedule_each, bad) at e in cc)
      | inr (c, had) ↦
          let f = rw (schedule_each, had) at e in
          let c' = record c { force = if value then c.force else true; next_due = now_seconds m } in
          schedule_each-attempt_of m id value channels (save channel.channel_id c' s) after f
          ∙ save-attempt_of id channel.channel_id c' s (collected-attempt m channel s c had)
    ]
