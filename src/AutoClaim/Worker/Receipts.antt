-- ===== src/AutoClaim/Worker/Receipts.antt =====
-- What `resume` leaves of a transaction that was sent: rust/facilitator/src/auto_claim.rs.
use ic_facilitator.Prelude.{
  Bool, true, false, ◌≡◌, ◌⊎◌, refl, ap, none, some, arith, inl, inr, Result, Checked, ok, err,
  Option-cases, Result-cases,
}
use ic_facilitator.Text.{Text, text}
use ic_facilitator.Map
use ic_facilitator.Crates.{Message}
use ic_facilitator.State.{State, Attempt}
use ic_facilitator.Config.{RpcConfig}
use ic_facilitator.Hexutil.{parse_address}
use ic_facilitator.Rpc.{ContractSettlementOutcome, settled, pending, failed}
use ic_facilitator.AutoClaim.{save, reconcile}
use ic_facilitator.AutoClaim.Worker.{Progress, waits, returned, attempt_of, sending, receipt}
use ic_facilitator.AutoClaim.Worker.Resume.{
  resume, require_same_network, resend, claim_settled, claim_failed, concluded, receipt_answered,
}
use ic_facilitator.AutoClaim.Worker.Kept.{attempt_of-save}
use ic_facilitator.AutoClaim.Worker.Journal.{Leaves, IsSendable, Leaves-returned}

-- `resume` changes no state: it returns, or it asks for the receipt of the stored attempt.
abbrev Asks : RpcConfig → Text → State → Progress × State → Type 0
Asks config id s out =
    (out.1 ≡ s)
    × (((result : Checked) × (out.0 ≡ returned result))
        ⊎ ((a : Attempt) × (attempt_of id s ≡ some a) × (out.0 ≡ waits (receipt config a))))

returns-Asks :
    (config : RpcConfig) (id : Text) (s : State) (out : Progress × State) (result : Checked)
    → some (returned result, s) ≡ some out
    → Asks config id s out
returns-Asks config id s out result e = (ground arith, inl (result, ground arith))

resume-Asks :
    (m : Message) (config : RpcConfig) (id : Text) (s : State) (out : Progress × State)
    → resume m config id s ≡ some out
    → Asks config id s out
unfolding resume
resume-Asks m config id s out e = elim (Option-cases (attempt_of id s)) [
  | inl missing ↦
      returns-Asks config id s out (err (text "missing journal")) (rw (resume, missing) at e)
  | inr (a, stored) ↦ elim (Result-cases (require_same_network m a s)) [
    | inr (message, changed) ↦
        returns-Asks config id s out (err message) (rw (resume, stored, changed) at e)
    | inl (done, same) ↦ elim (Option-cases a.tx) [
      | inl unhashed ↦ absurd (let f = rw (resume, stored, same, unhashed) at e in cc)
      | inr (tx, hashed) ↦
          elim (Result-cases (parse_address m.crates a.contract (text "contract"))) [
            | inr (message, bad) ↦
                returns-Asks config id s out (err message)
                  (rw (resume, stored, same, hashed, bad) at e)
            | inl (to, good) ↦
                let f = rw (resume, stored, same, hashed, good) at e in
                (ground arith, inr (a, stored, ground arith))
          ]
    ]
  ]
]

Asks-Leaves :
    (config : RpcConfig) (id : Text) (s : State) (out : Progress × State)
    → ((a : Attempt) → attempt_of id s ≡ some a → IsSendable a)
    → Asks config id s out
    → Leaves id out
Asks-Leaves config id s (returned r, s') sendable (same, how) =
    λ a found. inr (sendable a (rw same at found))
Asks-Leaves config id s (waits p, s') sendable (same, inl (r, back)) = cc
Asks-Leaves config id s (waits p, s') sendable (same, inr (a, stored, asked)) =
    let phase : p ≡ receipt config a = ground arith in rw (phase, same) (stored, sendable a stored)

pub resume-Leaves :
    (m : Message) (config : RpcConfig) (id : Text) (s : State) (out : Progress × State)
    → ((a : Attempt) → attempt_of id s ≡ some a → IsSendable a)
    → resume m config id s ≡ some out
    → Leaves id out
resume-Leaves m config id s out sendable e =
    Asks-Leaves config id s out sendable (resume-Asks m config id s out e)

pub resume-state :
    (m : Message) (config : RpcConfig) (id : Text) (s : State) (out : Progress × State)
    → resume m config id s ≡ some out
    → out.1 ≡ s
resume-state m config id s out e = (resume-Asks m config id s out e).0

-- A receipt that ends the attempt, of either kind.
abbrev pub ends : Result ContractSettlementOutcome → Bool
ends (err e) = false
ends (ok (pending _ _)) = false
ends (ok (settled _ _)) = true
ends (ok (failed _ _)) = true

claim_settled-attempt_of :
    (m : Message) (id : Text) (a : Attempt) (s : State) (out : Progress × State)
    → claim_settled m id a s ≡ some out
    → (out.0 ≡ returned (ok tt)) × (attempt_of id out.1 ≡ none)
unfolding claim_settled
claim_settled-attempt_of m id a s out e =
    let s' = concluded m a (text "settled") s in
    elim (Option-cases (Map.get id s'.collections)) [
      | inl missing ↦ absurd (let f = rw (claim_settled, missing) at e in cc)
      | inr (c, found) ↦ elim (Option-cases (reconcile a.target c)) [
        | inl trapped ↦ absurd (let f = rw (claim_settled, found, trapped) at e in cc)
        | inr (c', claimed) ↦
            let f = rw (claim_settled, found, claimed) at e in
            let c'' = record c' { oldest_legacy = none; attempt = none } in
            let same : save id c'' s' ≡ out.1 = ground arith in
            (ground arith, rw (← same) (attempt_of-save id c'' s'))
      ]
    ]

claim_failed-attempt_of :
    (m : Message) (id : Text) (a : Attempt) (s : State) (out : Progress × State)
    → claim_failed m id a s ≡ some out
    → (out.0 ≡ returned (ok tt)) × (attempt_of id out.1 ≡ none)
unfolding claim_failed
claim_failed-attempt_of m id a s out e =
    let s' = concluded m a (text "failed") s in
    elim (Option-cases (Map.get id s'.collections)) [
      | inl missing ↦ absurd (let f = rw (claim_failed, missing) at e in cc)
      | inr (c, found) ↦
          let f = rw (claim_failed, found) at e in
          let c'' = record c {
            attempt = none;
            force = true;
            halted = true;
            error = some (text "claim_reverted_manual_retry_required");
          } in
          let same : save id c'' s' ≡ out.1 = ground arith in
          (ground arith, rw (← same) (attempt_of-save id c'' s'))
    ]

resend-out :
    (a : Attempt) (s : State) (out : Progress × State)
    → resend a s ≡ some out
    → (waits (sending a), s) ≡ out
unfolding resend
resend-out a s out e = elim (Option-cases a.raw) [
  | inl missing ↦ absurd (let f = rw (resend, missing) at e in cc)
  | inr (raw, stored) ↦ elim (Option-cases a.nonce) [
    | inl missing ↦ absurd (let f = rw (resend, stored, missing) at e in cc)
    | inr (nonce, numbered) ↦ let f = rw (resend, stored, numbered) at e in ground arith
  ]
]

pub receipt_answered-Leaves :
    (m : Message) (id : Text) (a : Attempt) (answer : Result ContractSettlementOutcome) (s : State)
    (out : Progress × State)
    → attempt_of id s ≡ some a
    → IsSendable a
    → receipt_answered m id a answer s ≡ some out
    → Leaves id out
unfolding receipt_answered
receipt_answered-Leaves m id a (err message) s out stored sendable e =
    let same : (returned (err message), s) ≡ out = ground arith in
    let whole : Leaves id (returned (err message), s) =
      λ b found. (let one : a ≡ b = cc in inr (rw (← one) sendable)) in
    rw (← same) whole
receipt_answered-Leaves m id a (ok (pending nonce tx)) s out stored sendable e =
    rw (← (resend-out a s out e)) (stored, sendable)
receipt_answered-Leaves m id a (ok (settled tx paid)) s out stored sendable e =
    let (back, gone) = claim_settled-attempt_of m id a s out e in
    Leaves-returned id (ok tt) out back gone
receipt_answered-Leaves m id a (ok (failed tx message)) s out stored sendable e =
    let (back, gone) = claim_failed-attempt_of m id a s out e in
    Leaves-returned id (ok tt) out back gone

-- Only such a receipt takes the attempt away.
pub receipt_answered-attempt_of :
    (m : Message) (id : Text) (a : Attempt) (answer : Result ContractSettlementOutcome) (s : State)
    (out : Progress × State)
    → ends answer ≡ false
    → receipt_answered m id a answer s ≡ some out
    → attempt_of id out.1 ≡ attempt_of id s
unfolding receipt_answered
receipt_answered-attempt_of m id a (err message) s out open_ e =
    ap (λ x. attempt_of id x) (let same : out.1 ≡ s = ground arith in same)
receipt_answered-attempt_of m id a (ok (pending nonce tx)) s out open_ e =
    rw (← (resend-out a s out e)) refl
receipt_answered-attempt_of m id a (ok (settled tx paid)) s out open_ e = cc
receipt_answered-attempt_of m id a (ok (failed tx message)) s out open_ e = cc
