-- ===== src/AutoClaim/Worker/Resends.antt =====
-- One transaction to an attempt: rust/facilitator/src/auto_claim.rs.
use ic_facilitator.Prelude.{◌≡◌, ◌⊎◌, refl, ◌∙◌, List, [], ◌∷◌, some, inl, inr, Bool-cases, All}
use ic_facilitator.Text.{Text}
use ic_facilitator.State.{State, Attempt}
use ic_facilitator.Tx.{Signer}
use ic_facilitator.AutoClaim.Worker.{
  Phase, idle, channel_state, latest_claimed, pending_nonce, fee_quote, gas_estimate, sending,
  receipt, attempt_of,
}
use ic_facilitator.AutoClaim.Worker.Journal.{Journalled}
use ic_facilitator.AutoClaim.Worker.Turns.{turn-Journalled, turn-attempt_of, resolves}
use ic_facilitator.AutoClaim.Worker.Steps.{
  Event, quiet, sent, resolved, sent_by, Step, turns, is_lost, meanwhile, Runs, rests, goes,
  Elsewhere-attempt_of, Step-Journalled,
}

-- The event sends nothing, or the attempt's own bytes with its nonce.
abbrev pub Repeats : Attempt → Event → Type 0
Repeats a (sent raw n) = (raw ≡ a.raw) × (n ≡ a.nonce)
Repeats a _ = Unit

-- The events before the first that resolves an attempt.
abbrev pub until_resolved : List Event → List Event
until_resolved [] = []
until_resolved (resolved ∷ events) = []
until_resolved (quiet ∷ events) = quiet ∷ until_resolved events
until_resolved (sent raw n ∷ events) = sent raw n ∷ until_resolved events

All-until_resolved :
    (a : Attempt) (e : Event) (events : List Event)
    → Repeats a e
    → All (Repeats a) (until_resolved events)
    → All (Repeats a) (until_resolved (e ∷ events))
All-until_resolved a quiet events first rest = (first, rest)
All-until_resolved a (sent raw n) events first rest = (first, rest)
All-until_resolved a resolved events first rest = tt

sent_by-Repeats :
    (id : Text) (q : Phase) (s : State) (a : Attempt)
    → Journalled id q s
    → attempt_of id s ≡ some a
    → Repeats a (sent_by q)
sent_by-Repeats id (sending b) s a h had = let one : b ≡ a = cc in rw one (refl, refl)
sent_by-Repeats id idle s a h had = tt
sent_by-Repeats id (channel_state _ _) s a h had = tt
sent_by-Repeats id (latest_claimed _ _) s a h had = tt
sent_by-Repeats id (pending_nonce _ _) s a h had = tt
sent_by-Repeats id (fee_quote _ _ _) s a h had = tt
sent_by-Repeats id (gas_estimate _ _ _ _) s a h had = tt
sent_by-Repeats id (receipt _ _) s a h had = tt

-- A step resolves the attempt, or it keeps it and sends nothing else.
Step-Repeats :
    {tools : Signer} {id : Text} {p q : Phase} {s after : State} {e : Event} (a : Attempt)
    (raw : Text)
    → Journalled id p s
    → attempt_of id s ≡ some a
    → a.raw ≡ some raw
    → Step tools id p s e q after
    → (e ≡ resolved) ⊎ ((attempt_of id after ≡ some a) × Repeats a e)
Step-Repeats {tools} {id} {p} {q} {s} {after} a raw h had stored (turns m answers done) =
    elim (Bool-cases (resolves answers p)) [
      | inl ends ↦ inl (rw ends refl)
      | inr open_ ↦
          let kept = turn-attempt_of tools m answers id p q s after a raw h had stored open_ done in
          inr (
            kept,
            rw open_ (
                sent_by-Repeats id q after a (turn-Journalled tools m answers id p q s after h done)
                  kept),
          )
    ]
Step-Repeats a raw h had stored is_lost = inr (had, tt)
Step-Repeats {id = id} {s = s} {after = after} a raw h had stored (meanwhile other) =
    inr (Elsewhere-attempt_of id s after other ∙ had, tt)

-- Once an attempt's bytes are stored, every transaction that goes out for the collection before the
-- attempt is resolved, however the turns of the worker, its losses and the other messages follow
-- one another, is made of those bytes and has that nonce.
pub Runs-Repeats :
    {tools : Signer} {id : Text} {p q : Phase} {s after : State} {events : List Event} (a : Attempt)
    (raw : Text)
    → Journalled id p s
    → attempt_of id s ≡ some a
    → a.raw ≡ some raw
    → Runs tools id p s events q after
    → All (Repeats a) (until_resolved events)
Runs-Repeats a raw h had stored rests = tt
Runs-Repeats {events = e ∷ events} a raw h had stored (goes step rest) =
    elim (Step-Repeats a raw h had stored step) [
      | inl over ↦ rw over tt
      | inr (kept, first) ↦
          All-until_resolved a e events first
            (Runs-Repeats a raw (Step-Journalled step h) kept stored rest)
    ]
