-- ===== src/AutoClaim/Worker/Journal.antt =====
-- The stored attempt and the phase of the worker agree: rust/facilitator/src/auto_claim.rs.
use ic_facilitator.Prelude.{
  ℕ, ◌≡◌, ◌⊎◌, ◌∙◌, sym, none, some, arith, inl, inr, Checked, Option-cases,
}
use ic_facilitator.Text.{Text}
use ic_facilitator.Crates.{Message}
use ic_facilitator.State.{State, Attempt}
use ic_facilitator.AutoClaim.Worker.{
  Phase, idle, channel_state, latest_claimed, pending_nonce, fee_quote, gas_estimate, sending,
  receipt, Progress, waits, returned, attempt_of, give_up,
}
use ic_facilitator.AutoClaim.Worker.Turn.{finish, conclude}
use ic_facilitator.AutoClaim.Worker.Kept.{finish-attempt_of, give_up-attempt_of}

-- The bytes of the transaction, its nonce and its hash are stored.
abbrev pub IsSendable : Attempt → Type 0
IsSendable a =
    ((raw : Text) × (a.raw ≡ some raw))
    × ((nonce : ℕ) × (a.nonce ≡ some nonce))
    × ((tx : Text) × (a.tx ≡ some tx))

abbrev pub IsUnsent : Attempt → Type 0
IsUnsent a = a.raw ≡ none

-- What a worker that waits relies on: an attempt that it prepares is stored without bytes, one that
-- it sends or asks for is stored with them. No attempt is stored half signed.
abbrev pub Journalled : Text → Phase → State → Type 0
Journalled id idle s = (a : Attempt) → attempt_of id s ≡ some a → IsUnsent a ⊎ IsSendable a
Journalled id (channel_state _ _) s = (a : Attempt) → attempt_of id s ≡ some a → IsSendable a
Journalled id (latest_claimed _ a) s = (attempt_of id s ≡ some a) × IsUnsent a
Journalled id (pending_nonce _ a) s = (attempt_of id s ≡ some a) × IsUnsent a
Journalled id (fee_quote _ a _) s = (attempt_of id s ≡ some a) × IsUnsent a
Journalled id (gas_estimate _ a _ _) s = (attempt_of id s ≡ some a) × IsUnsent a
Journalled id (sending a) s = (attempt_of id s ≡ some a) × IsSendable a
Journalled id (receipt _ a) s = (attempt_of id s ≡ some a) × IsSendable a

abbrev pub phase_of : Progress → Phase
phase_of (waits p) = p
phase_of (returned _) = idle

-- The same of what a part of `run` leaves.
abbrev pub Leaves : Text → Progress × State → Type 0
Leaves id out = Journalled id (phase_of out.0) out.1

-- A state with the same attempt will do as well.
pub Journalled-same :
    (id : Text) (p : Phase) (s after : State)
    → attempt_of id after ≡ attempt_of id s
    → Journalled id p s
    → Journalled id p after
Journalled-same id idle s after same h = λ a e. h a (sym same ∙ e)
Journalled-same id (channel_state _ _) s after same h = λ a e. h a (sym same ∙ e)
Journalled-same id (latest_claimed _ a) s after same h = (same ∙ h.0, h.1)
Journalled-same id (pending_nonce _ a) s after same h = (same ∙ h.0, h.1)
Journalled-same id (fee_quote _ a _) s after same h = (same ∙ h.0, h.1)
Journalled-same id (gas_estimate _ a _ _) s after same h = (same ∙ h.0, h.1)
Journalled-same id (sending a) s after same h = (same ∙ h.0, h.1)
Journalled-same id (receipt _ a) s after same h = (same ∙ h.0, h.1)

-- Without an attempt, a worker that has returned relies on nothing.
pub Leaves-returned :
    (id : Text) (result : Checked) (out : Progress × State)
    → out.0 ≡ returned result
    → attempt_of id out.1 ≡ none
    → Leaves id out
Leaves-returned id result (waits p, s) e gone = cc
Leaves-returned id result (returned r, s) e gone = λ a found. cc

pub give_up-Leaves :
    (m : Message) (id : Text) (a : Attempt) (e : Text) (s : State) (out : Progress × State)
    → give_up m id a e s ≡ some out
    → Leaves id out
give_up-Leaves m id a e s out h =
    let ((result, back), gone) = give_up-attempt_of m id a e s out h in
    Leaves-returned id result out back gone

-- The turn after a part: the state as the part left it, but for the attempt's collection being due.
pub conclude-some :
    (m : Message) (id : Text) (out : Progress × State) (q : Phase) (after : State)
    → conclude m id (some out) ≡ some (q, after)
    → (q ≡ phase_of out.0) × (attempt_of id after ≡ attempt_of id out.1)
unfolding conclude
conclude-some m id (waits p, s) q after e = ground arith
conclude-some m id (returned result, s) q after e = elim (Option-cases (finish m id result s)) [
  | inl trapped ↦ absurd (let f = rw (conclude, trapped) at e in cc)
  | inr (s', done) ↦
      let f = rw (conclude, done) at e in
      let same : s' ≡ after = ground arith in
      (ground arith, rw (← same) (finish-attempt_of m id result s s' done))
]

pub conclude-Leaves :
    (m : Message) (id : Text) (out : Progress × State) (q : Phase) (after : State)
    → conclude m id (some out) ≡ some (q, after)
    → Leaves id out
    → Journalled id q after
conclude-Leaves m id out q after e h =
    let (phase, same) = conclude-some m id out q after e in
    rw phase (Journalled-same id (phase_of out.0) out.1 after same h)
