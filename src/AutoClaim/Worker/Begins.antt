-- ===== src/AutoClaim/Worker/Begins.antt =====
-- What `run` leaves of the stored attempt before its first wait:
-- rust/facilitator/src/auto_claim.rs.
use ic_facilitator.Prelude.{
  ◌≡◌, ◌⊎◌, ◌∙◌, sym, true, false, none, some, arith, inl, inr, Checked, ok, err, Option-cases,
  Result-cases, >>=-eq-ok, is_some, if◌then◌else◌,
}
use ic_facilitator.Text.{Text, text}
use ic_facilitator.Map
use ic_facilitator.Crates.{Message}
use ic_facilitator.State.{State, Collection, Attempt}
use ic_facilitator.Config.{RpcConfig, rpc_config, configured_batch_settlement_contract}
use ic_facilitator.Hexutil.{parse_address}
use ic_facilitator.AutoClaim.Journal.{abandon_prepared}
use ic_facilitator.AutoClaim.Worker.{
  Progress, waits, returned, attempt_of, channel_state, quiescent,
}
use ic_facilitator.AutoClaim.Worker.Monitor.{run, begin_reading, unsent, ask_channel}
use ic_facilitator.AutoClaim.Worker.Kept.{
  attempt_of-found, attempt_of-missing, abandon_prepared-attempt_of,
}
use ic_facilitator.AutoClaim.Worker.Journal.{Leaves, IsUnsent, IsSendable}

ask_channel-waits :
    (m : Message) (id : Text) (s : State) (p : Progress)
    → ask_channel m id s ≡ ok p
    → (config : RpcConfig) × ((contract : Text) × (p ≡ waits (channel_state config contract)))
ask_channel-waits m id s p e =
    let (config, _, r1) = >>=-eq-ok (rpc_config m s.env) _ e in
    let (contract, _, r2) = >>=-eq-ok (configured_batch_settlement_contract m s.env) _ r1 in
    let (_, _, r3) = >>=-eq-ok (parse_address m.crates contract (text "batch contract")) _ r2 in
    (config, (contract, ground arith))

-- A waiting for the channel, or a return, with the state as it was.
begin_reading-out :
    (m : Message) (id : Text) (c : Collection) (s : State) (out : Progress × State)
    → begin_reading m id c s ≡ some out
    → (out.1 ≡ s)
      × (((result : Checked) × (out.0 ≡ returned result))
          ⊎ ((config : RpcConfig) × ((contract : Text) × (out.0
                  ≡ waits (channel_state config contract)))))
unfolding begin_reading
begin_reading-out m id c s out e =
    elim (Option-cases (if is_some c.monitored_at then quiescent m id c s else some false)) [
      | inl trapped ↦ absurd (let f = rw (begin_reading, trapped) at e in cc)
      | inr (true, rest) ↦
          let f = rw (begin_reading, rest) at e in (ground arith, inl (ok tt, ground arith))
      | inr (false, rest) ↦ elim (Result-cases (ask_channel m id s)) [
        | inr (message, failed_) ↦
            let f = rw (begin_reading, rest, failed_) at e in
            (ground arith, inl (err message, ground arith))
        | inl (p, asked) ↦
            let f = rw (begin_reading, rest, asked) at e in
            let (config, (contract, waiting)) = ask_channel-waits m id s p asked in
            (ground arith, inr (config, (contract, ground arith)))
      ]
    ]

-- An attempt without bytes is given up at once; one with them is left, and the channel asked.
begin_reading-Leaves :
    (m : Message) (id : Text) (c : Collection) (s : State) (out : Progress × State)
    → ((a : Attempt) → attempt_of id s ≡ some a → IsSendable a)
    → begin_reading m id c s ≡ some out
    → Leaves id out
begin_reading-Leaves m id c s (p, s') sendable e =
    let (same, how) = begin_reading-out m id c s (p, s') e in
    elim how [
      | inl (result, back) ↦
          let whole : Leaves id (returned result, s) = λ a had. inr (sendable a had) in
          rw (back, same) whole
      | inr (config, (contract, waiting)) ↦
          let whole : Leaves id (waits (channel_state config contract), s) = sendable in
          rw (waiting, same) whole
    ]

unsent-none : (a : Attempt) → unsent (some a) ≡ none → IsUnsent a ⊎ IsSendable a → IsSendable a
unsent-none a e (inl unsent_) = absurd (ground arith)
unsent-none a e (inr sendable) = sendable

unsent-some : (a b : Attempt) → unsent (some a) ≡ some b → a.raw ≡ none
unsent-some a b e = ground arith

pub run-Leaves :
    (m : Message) (id : Text) (s : State) (out : Progress × State)
    → ((a : Attempt) → attempt_of id s ≡ some a → IsUnsent a ⊎ IsSendable a)
    → run m id s ≡ some out
    → Leaves id out
unfolding run
run-Leaves m id s out whole e = elim (Option-cases (Map.get id s.collections)) [
  | inl missing ↦
      let f = rw (run, missing) at e in
      let gone = attempt_of-missing id s missing in
      let same : (returned (err (text "collection removed")), s) ≡ out = ground arith in
      rw (← same) (λ b had. cc)
  | inr (c, found) ↦
      let at_ = attempt_of-found id c s found in
      elim (Option-cases (unsent c.attempt)) [
        | inr (a, half) ↦ elim (Option-cases (abandon_prepared m id a s)) [
          | inl trapped ↦ absurd (let f = rw (run, found, half, trapped) at e in cc)
          | inr (s', done) ↦
              let f = rw (run, found, half, done) at e in
              let gone = abandon_prepared-attempt_of m id a s s' done in
              let same : (returned (ok tt), s') ≡ out = ground arith in rw (← same) (λ b had. cc)
        ]
        | inl none_ ↦
            let f = rw (run, found, none_) at e in
            begin_reading-Leaves m id c s out
              (λ a had.
                (let stored : c.attempt ≡ some a = sym at_ ∙ had in
                  unsent-none a (rw stored at none_) (whole a had)))
              f
      ]
]

-- A stored transaction is left as it is.
pub run-attempt_of :
    (m : Message) (id : Text) (s : State) (out : Progress × State) (a : Attempt) (raw : Text)
    → attempt_of id s ≡ some a
    → a.raw ≡ some raw
    → run m id s ≡ some out
    → attempt_of id out.1 ≡ some a
unfolding run
run-attempt_of m id s out a raw had sent e = elim (Option-cases (Map.get id s.collections)) [
  | inl missing ↦ absurd (let gone = attempt_of-missing id s missing in cc)
  | inr (c, found) ↦
      let stored : c.attempt ≡ some a = sym (attempt_of-found id c s found) ∙ had in
      let left : unsent (some a) ≡ none = ground arith in
      let f = rw (run, found, stored, left) at e in
      let (same, _) = begin_reading-out m id c s out f in rw same had
]
