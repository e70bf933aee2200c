-- ===== src/AutoClaim/Worker/Turns.antt =====
-- One turn of the worker keeps the agreement of phase and attempt: rust/facilitator/src/auto_claim.rs.
use ic_facilitator.Prelude.{◌≡◌, ◌∙◌, Bool, false, some, arith, inl, inr, ok, Option-cases}
use ic_facilitator.Text.{Text}
use ic_facilitator.Crates.{Message}
use ic_facilitator.State.{State, Attempt}
use ic_facilitator.Tx.{Signer}
use ic_facilitator.AutoClaim.Worker.{
  Phase, idle, channel_state, latest_claimed, pending_nonce, fee_quote, gas_estimate, sending,
  receipt, Answers, Progress, returned, attempt_of,
}
use ic_facilitator.AutoClaim.Worker.Turn.{part, turn, conclude}
use ic_facilitator.AutoClaim.Worker.Journal.{Journalled, Leaves, conclude-Leaves, conclude-some}
use ic_facilitator.AutoClaim.Worker.Parts.{
  latest_answered-Leaves, nonce_answered-Leaves, fees_answered-Leaves, gas_answered-Leaves,
}
use ic_facilitator.AutoClaim.Worker.Receipts.{
  receipt_answered-Leaves, receipt_answered-attempt_of, ends,
}
use ic_facilitator.AutoClaim.Worker.Runs.{channel_answered-Leaves, channel_answered-attempt_of}
use ic_facilitator.AutoClaim.Worker.Begins.{run-Leaves, run-attempt_of}

part-Leaves :
    (tools : Signer) (m : Message) (answers : Answers) (id : Text) (p : Phase) (s : State)
    (out : Progress × State)
    → Journalled id p s
    → part tools m answers id p s ≡ some out
    → Leaves id out
unfolding part
part-Leaves tools m answers id idle s out h e = run-Leaves m id s out h e
part-Leaves tools m answers id (channel_state config contract) s out h e =
    channel_answered-Leaves m config contract id answers.channel_state s out h e
part-Leaves tools m answers id (latest_claimed config a) s out h e =
    latest_answered-Leaves m config id a answers.latest_claimed s out h.0 h.1 e
part-Leaves tools m answers id (pending_nonce config a) s out h e =
    nonce_answered-Leaves tools m config id a answers.pending_nonce s out h.0 h.1 e
part-Leaves tools m answers id (fee_quote config a tx) s out h e =
    fees_answered-Leaves m config id a tx answers.fee_quote s out h.0 h.1 e
part-Leaves tools m answers id (gas_estimate config a tx fees) s out h e =
    gas_answered-Leaves tools m config id a tx fees answers.gas_estimate s out e
part-Leaves tools m answers id (sending a) s out h e =
    let same : (returned (ok tt), s) ≡ out = ground arith in
    let whole : Leaves id (returned (ok tt), s) =
      λ b had. (let one : a ≡ b = cc in inr (rw (← one) h.1)) in
    rw (← same) whole
part-Leaves tools m answers id (receipt config a) s out h e =
    receipt_answered-Leaves m id a answers.receipt s out h.0 h.1 e

-- The phase of a turn that ends an attempt: its receipt has come, a success or a failure.
abbrev pub resolves : Answers → Phase → Bool
resolves answers (receipt _ _) = ends answers.receipt
resolves answers _ = false

part-attempt_of :
    (tools : Signer) (m : Message) (answers : Answers) (id : Text) (p : Phase) (s : State)
    (out : Progress × State) (a : Attempt) (raw : Text)
    → Journalled id p s
    → attempt_of id s ≡ some a
    → a.raw ≡ some raw
    → resolves answers p ≡ false
    → part tools m answers id p s ≡ some out
    → attempt_of id out.1 ≡ some a
unfolding part
part-attempt_of tools m answers id idle s out a raw h had sent open_ e =
    run-attempt_of m id s out a raw had sent e
part-attempt_of tools m answers id (channel_state config contract) s out a raw h had sent open_ e =
    channel_answered-attempt_of m config contract id answers.channel_state s out a had e
part-attempt_of tools m answers id (latest_claimed config b) s out a raw h had sent open_ e =
    absurd cc
part-attempt_of tools m answers id (pending_nonce config b) s out a raw h had sent open_ e =
    absurd cc
part-attempt_of tools m answers id (fee_quote config b tx) s out a raw h had sent open_ e =
    absurd cc
part-attempt_of tools m answers id (gas_estimate config b tx fees) s out a raw h had sent open_ e =
    absurd cc
part-attempt_of tools m answers id (sending b) s out a raw h had sent open_ e =
    let same : s ≡ out.1 = ground arith in rw (← same) had
part-attempt_of tools m answers id (receipt config b) s out a raw h had sent open_ e =
    receipt_answered-attempt_of m id b answers.receipt s out open_ e ∙ had

pub turn-Journalled :
    (tools : Signer) (m : Message) (answers : Answers) (id : Text) (p q : Phase) (s after : State)
    → Journalled id p s
    → turn tools m answers id p s ≡ some (q, after)
    → Journalled id q after
unfolding turn conclude
turn-Journalled tools m answers id p q s after h e =
    elim (Option-cases (part tools m answers id p s)) [
      | inl trapped ↦ absurd (let f = rw (turn, trapped) at e in cc)
      | inr (out, done) ↦
          conclude-Leaves m id out q after (rw (turn, done) at e)
            (part-Leaves tools m answers id p s out h done)
    ]

pub turn-attempt_of :
    (tools : Signer) (m : Message) (answers : Answers) (id : Text) (p q : Phase) (s after : State)
    (a : Attempt) (raw : Text)
    → Journalled id p s
    → attempt_of id s ≡ some a
    → a.raw ≡ some raw
    → resolves answers p ≡ false
    → turn tools m answers id p s ≡ some (q, after)
    → attempt_of id after ≡ some a
unfolding turn conclude
turn-attempt_of tools m answers id p q s after a raw h had sent open_ e =
    elim (Option-cases (part tools m answers id p s)) [
      | inl trapped ↦ absurd (let f = rw (turn, trapped) at e in cc)
      | inr (out, done) ↦
          (conclude-some m id out q after (rw (turn, done) at e)).1
          ∙ part-attempt_of tools m answers id p s out a raw h had sent open_ done
    ]
