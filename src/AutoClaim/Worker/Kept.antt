-- ===== src/AutoClaim/Worker/Kept.antt =====
-- What the parts of the worker leave of the stored attempt: rust/facilitator/src/auto_claim.rs.
use ic_facilitator.Prelude.{
  ◌+◌, ◌-◌, ◌^◌, sym, ◌≡◌, ◌≢◌, refl, ◌∙◌, true, none, some, arith, inl, inr, Checked, ok, err,
  Option-cases, if◌then◌else◌,
}
use ic_facilitator.Text.{Text, text, text_eq}
use ic_facilitator.Map
use ic_facilitator.Map.{get-insert_self, get-insert_other, get-remove_self}
use ic_facilitator.Crates.{Message}
use ic_facilitator.State.{State, Collection, Attempt}
use ic_facilitator.Settlement.Store.{insert_batch_settlement, insert_settlement}
use ic_facilitator.AutoClaim.{save, remove}
use ic_facilitator.Config.{now_seconds, sat_u64}
use ic_facilitator.AutoClaim.Claims.{given_up-collections, abandon_prepared-some}
use ic_facilitator.AutoClaim.Journal.{abandon_prepared, given_up, record_attempt, store_attempt}
use ic_facilitator.AutoClaim.Worker.{attempt_of, give_up, quiescent, Progress, returned}
use ic_facilitator.AutoClaim.Worker.Turn.{finish, with_error}

pub attempt_of-save :
    (id : Text) (c : Collection) (s : State) → attempt_of id (save id c s) ≡ c.attempt
unfolding save
attempt_of-save id c s = rw (get-insert_self id c s.collections) refl

pub attempt_of-save_other :
    (id other : Text) (c : Collection) (s : State)
    → id ≢ other
    → attempt_of other (save id c s) ≡ attempt_of other s
unfolding save
attempt_of-save_other id other c s ne = rw (get-insert_other id other c s.collections ne) refl

pub attempt_of-remove : (id : Text) (s : State) → attempt_of id (remove id s) ≡ none
unfolding remove
attempt_of-remove id s = rw (get-remove_self id s.collections) refl

pub attempt_of-found :
    (id : Text) (c : Collection) (s : State)
    → Map.get id s.collections ≡ some c
    → attempt_of id s ≡ c.attempt
attempt_of-found id c s found = rw found refl

pub attempt_of-missing :
    (id : Text) (s : State) → Map.get id s.collections ≡ none → attempt_of id s ≡ none
attempt_of-missing id s missing = rw missing refl

pub record_attempt-collections :
    (m : Message) (a : Attempt) (status : Text) (s : State)
    → (record_attempt m a status s).collections ≡ s.collections
unfolding record_attempt insert_batch_settlement insert_settlement
record_attempt-collections m a status s = ground arith

pub record_attempt-attempt_of :
    (id : Text) (m : Message) (a : Attempt) (status : Text) (s : State)
    → attempt_of id (record_attempt m a status s) ≡ attempt_of id s
record_attempt-attempt_of id m a status s = rw (record_attempt-collections m a status s) refl

pub store_attempt-attempt_of :
    (id : Text) (a : Attempt) (s after : State)
    → store_attempt id a s ≡ some after
    → attempt_of id after ≡ some a
unfolding store_attempt
store_attempt-attempt_of id a s after e = elim (Option-cases (Map.get id s.collections)) [
  | inl missing ↦ absurd (let f = rw (store_attempt, missing) at e in cc)
  | inr (c, found) ↦
      let f = rw (store_attempt, found) at e in
      let same : save id (record c { attempt = some a }) s ≡ after = ground arith in
      rw (← same) (attempt_of-save id (record c { attempt = some a }) s)
]

pub abandon_prepared-attempt_of :
    (m : Message) (id : Text) (a : Attempt) (s after : State)
    → abandon_prepared m id a s ≡ some after
    → attempt_of id after ≡ none
unfolding abandon_prepared
abandon_prepared-attempt_of m id a s after e = elim (Option-cases (Map.get id s.collections)) [
  | inl missing ↦ absurd (elim (Option-cases a.raw) [
    | inr (raw, stored) ↦ let f = rw (abandon_prepared, stored) at e in cc
    | inl unsent ↦ let f = rw (abandon_prepared, unsent, given_up-collections, missing) at e in cc
  ])
  | inr (c, found) ↦
      rw (abandon_prepared-some m id a s after c found e)
        (attempt_of-save id (record c { attempt = none; force = true }) (given_up m a s))
]

pub give_up-attempt_of :
    (m : Message) (id : Text) (a : Attempt) (e : Text) (s : State) (out : Progress × State)
    → give_up m id a e s ≡ some out
    → ((result : Checked) × (out.0 ≡ returned result)) × (attempt_of id out.1 ≡ none)
unfolding give_up
give_up-attempt_of m id a e s out h = elim (Option-cases (abandon_prepared m id a s)) [
  | inl trapped ↦ absurd (let f = rw (give_up, trapped) at h in cc)
  | inr (after, done) ↦
      let f = rw (give_up, done) at h in
      let same : after ≡ out.1 = ground arith in
      (
        (if text_eq e (text "auto_claim_already_mined") then ok tt else err e, ground arith),
        rw (← same) (abandon_prepared-attempt_of m id a s after done),
      )
]

with_error-attempt : (result : Checked) (c : Collection) → (with_error result c).attempt ≡ c.attempt
with_error-attempt (ok _) c = refl
with_error-attempt (err e) c = refl

pub finish-attempt_of :
    (m : Message) (id : Text) (result : Checked) (s after : State)
    → finish m id result s ≡ some after
    → attempt_of id after ≡ attempt_of id s
unfolding finish
finish-attempt_of m id result s after e = elim (Option-cases (Map.get id s.collections)) [
  | inl missing ↦ let f = rw (finish, missing) at e in ground arith
  | inr (c, found) ↦ elim (Option-cases (quiescent m id (with_error result c) s)) [
    | inl trapped ↦ absurd (let f = rw (finish, found, trapped) at e in cc)
    | inr (rest, known) ↦
        let f = rw (finish, found, known) at e in
        let kept : (with_error result c).attempt ≡ c.attempt = with_error-attempt result c in
        let same : save id
              (record (with_error result c) {
                next_due = if rest then 2 ^ 64 - 1 else sat_u64 (now_seconds m + 60);
              })
              s
            ≡ after =
          ground arith in
        rw (← same) (attempt_of-save id _ s ∙ kept ∙ sym (attempt_of-found id c s found))
  ]
]
